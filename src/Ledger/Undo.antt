-- ===== src/Ledger/Undo.antt =====
-- ledger/ledger.go: FindUndoAndTodoBlocks, the blocks to be undone and to be played when the state
-- moves from one block to another.
pub mod Climb
pub mod Paths
pub mod Loop
use corechain.Ledger.Store.{Block, Disk, Outcome, ok, out_of_fuel}
use corechain.Ledger.Branch.{bind_outcome, query_block}
use corechain.Prelude.{
  Bool, List, Option, [], contains, false, if◌then◌else◌, leb, none, some, suc, true, zero, ℕ, ◌++◌,
  ◌+◌, ◌==◌, ◌∷◌,
}

-- The variables of the walk.
pub record Walk : Type 0 where
  pub old_tip : Block
  pub new_tip : Block
  pub undo : List Block
  pub todo : List Block
  pub visited : List ℕ

-- What becomes of one side in a round: it stays, reaches the split, or moves to its parent.
pub data Move : Type 0 where
  stays : Move
  splits : ℕ → Move
  moves : Block → Move

-- Whether the side at `b` moves in a round, where the other side is at `other`.
abbrev pub may_climb : Block → Block → Bool
may_climb b other = elim b.pre [ none ↦ false | some p ↦ leb other.height b.height ]

-- One half of a round, for the side at `b`.
unfoldable pub climb : Disk → Block → Block → List ℕ → Outcome Move
climb d b other visited = elim (may_climb b other) [
  | false ↦ ok stays
  | true ↦
      bind_outcome (query_block d b.pre)
        (λ p. ok (if contains p.id visited then splits p.id else moves p))
]

-- A last block that is the split is dropped.
abbrev pub trim : ℕ → List Block → List Block
trim c [] = []
trim c (b ∷ []) = if b.id == c then [] else b ∷ []
trim c (b ∷ (b' ∷ bs)) = b ∷ trim c (b' ∷ bs)

abbrev pub finish : ℕ → Walk → Outcome (List Block × List Block)
finish c s = ok (trim c s.undo, trim c s.todo)

abbrev pub old_moves : Block → Walk → Walk
old_moves p s = record s { old_tip = p; visited = p.id ∷ s.visited; undo = s.undo ++ p ∷ [] }

abbrev pub new_moves : Block → Walk → Walk
new_moves p s = record s { new_tip = p; visited = p.id ∷ s.visited; todo = s.todo ++ p ∷ [] }

abbrev pub at_roots : Option ℕ → Option ℕ → Bool
at_roots none none = true
at_roots none (some j) = false
at_roots (some i) j = false

-- The second half of a round, which `rest` follows; `pre` is the parent that the old side had at the
-- start of the round, and `root` the root block.
unfoldable pub second_half :
    Disk
    → ℕ
    → Option ℕ
    → (Walk → Outcome (List Block × List Block))
    → Walk
    → Outcome (List Block × List Block)
second_half d root pre rest s = bind_outcome (climb d s.new_tip s.old_tip s.visited) (λ m. elim m [
  | splits c ↦ finish c s
  | moves p ↦ rest (new_moves p s)
  | stays ↦ elim (at_roots pre s.new_tip.pre) [ true ↦ finish root s | false ↦ rest s ]
])

-- The loop.
unfoldable pub find_split : ℕ → Disk → ℕ → Walk → Outcome (List Block × List Block)
find_split zero d root s = out_of_fuel
find_split (suc fuel) d root s = bind_outcome (climb d s.old_tip s.new_tip s.visited) (λ m. elim m [
  | splits c ↦ finish c s
  | moves p ↦ second_half d root s.old_tip.pre (find_split fuel d root) (old_moves p s)
  | stays ↦ second_half d root s.old_tip.pre (find_split fuel d root) s
])

abbrev pub start : Block → Block → Walk
start a b = record {
  old_tip = a;
  new_tip = b;
  undo = a ∷ [];
  todo = b ∷ [];
  visited = b.id ∷ a.id ∷ [];
}

-- `FindUndoAndTodoBlocks`; the loop is given as many rounds as the heights can need.
unfoldable pub find_undo_and_todo_blocks : Disk → ℕ → ℕ → ℕ → Outcome (List Block × List Block)
find_undo_and_todo_blocks d root cur dest =
    if dest == cur
    then ok ([], [])
    else bind_outcome (query_block d (some cur)) (λ a.
      bind_outcome (query_block d (some dest))
        (λ b. find_split (suc (a.height + b.height)) d root (start a b)))

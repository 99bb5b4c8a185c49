-- ===== src/Ledger/Undo/Loop.antt =====
-- The loop of `FindUndoAndTodoBlocks`, by induction on the rounds.
use corechain.Ledger.Tree.{Ancestor, IsSplit, IsSplit-self, self}
use corechain.Ledger.Branch.{bind_outcome, query_block}
use corechain.Prelude.Dict.{lookup}
use corechain.Ledger.Store.{Block, Disk, Outcome, ok}
use corechain.Ledger.Branch.Common.{IsStored, disk_links, query_lem}
use corechain.Ledger.Undo.{
  Walk, climb, find_split, find_undo_and_todo_blocks, finish, moves, new_moves, old_moves,
  second_half, splits, start, stays,
}
use corechain.Ledger.Undo.Paths.{
  Chain, Going, Going-flip, Split, Split-flip, climb_stays, done, flip, half,
}
use corechain.Prelude.{
  ==_iff, Bool-cases, List, Option, [], ap, arith, contains, false, inl, inr, ltb, ltb→lt, refl,
  some, subst, suc, sym, true, zero, ℕ, ◌+◌, ◌<◌, ◌==◌, ◌∙◌, ◌∷◌, ◌≡◌, ◌≢◌, ◌≤◌, ◌⊎◌,
}

-- The call returns two lists of blocks that are the paths down to the split.
abbrev Found : Disk → ℕ → ℕ → Outcome (List Block × List Block) → Type 0
Found d cur dest r =
    (c : ℕ) × (us : List Block) × (ts : List Block) × (r ≡ ok (us, ts)) × Split d cur dest c us ts

-- The new side has moved in the last half-round, or the old side in the first.
abbrev Progress : ℕ → Option ℕ → Walk → Type 0
Progress m pre s =
    (((p : ℕ) × (pre ≡ some p)) × (s.old_tip.height + s.new_tip.height < m))
    ⊎ ((s.old_tip.height ≤ s.new_tip.height) × (s.old_tip.height + s.new_tip.height < suc m))

second-splits :
    (d : Disk) (root c : ℕ) (pre : Option ℕ) (rest : Walk → Outcome (List Block × List Block))
    (s : Walk)
    → climb d s.new_tip s.old_tip s.visited ≡ ok (splits c)
    → second_half d root pre rest s ≡ finish c s
unfolding second_half
second-splits d root c pre rest s e = rw (e, second_half) refl

second-moves :
    (d : Disk) (root : ℕ) (p : Block) (pre : Option ℕ)
    (rest : Walk → Outcome (List Block × List Block)) (s : Walk)
    → climb d s.new_tip s.old_tip s.visited ≡ ok (moves p)
    → second_half d root pre rest s ≡ rest (new_moves p s)
unfolding second_half
second-moves d root p pre rest s e = rw (e, second_half) refl

second-stays :
    (d : Disk) (root p : ℕ) (rest : Walk → Outcome (List Block × List Block)) (s : Walk)
    → climb d s.new_tip s.old_tip s.visited ≡ ok stays
    → second_half d root (some p) rest s ≡ rest s
unfolding second_half
second-stays d root p rest s e = rw (e, second_half) refl

first-splits :
    (fuel : ℕ) (d : Disk) (root c : ℕ) (s : Walk)
    → climb d s.old_tip s.new_tip s.visited ≡ ok (splits c)
    → find_split (suc fuel) d root s ≡ finish c s
unfolding find_split
first-splits fuel d root c s e = rw (e, find_split) refl

first-moves :
    (fuel : ℕ) (d : Disk) (root : ℕ) (p : Block) (s : Walk)
    → climb d s.old_tip s.new_tip s.visited ≡ ok (moves p)
    → find_split (suc fuel) d root s
      ≡ second_half d root s.old_tip.pre (find_split fuel d root) (old_moves p s)
unfolding find_split
first-moves fuel d root p s e = rw (e, find_split) refl

first-stays :
    (fuel : ℕ) (d : Disk) (root : ℕ) (s : Walk)
    → climb d s.old_tip s.new_tip s.visited ≡ ok stays
    → find_split (suc fuel) d root s ≡ second_half d root s.old_tip.pre (find_split fuel d root) s
unfolding find_split
first-stays fuel d root s e = rw (e, find_split) refl

module _ (d : Disk) (w : IsStored d) (root cur dest : ℕ) where
  second_lem :
      (m : ℕ) (pre : Option ℕ) (rest : Walk → Outcome (List Block × List Block)) (s : Walk)
      → ((s' : Walk)
          → Going d cur dest s'
          → s'.old_tip.height + s'.new_tip.height < m
          → Found d cur dest (rest s'))
      → Going d cur dest s
      → Progress m pre s
      → Found d cur dest (second_half d root pre rest s)
  second_lem m pre rest s ih g progress =
      elim (Bool-cases (ltb s.new_tip.height s.old_tip.height)) [
        | inl low ↦ elim progress [
          | inr (le, lt) ↦ absurd (ground arith)
          | inl ((p, e), lt) ↦
              subst (λ r. Found d cur dest r)
                (sym (
                  ap (λ z. second_half d root z rest s) e
                  ∙ second-stays d root p rest s
                      (climb_stays d s.new_tip s.old_tip s.visited (ltb→lt _ _ low))))
                (ih s g lt)
        ]
        | inr high ↦ elim (half d w dest cur (flip s) (Going-flip d cur dest s g) (ground arith)) [
          | inl (c, run, split) ↦
              (c, _, _, second-splits d root c pre rest s run, Split-flip d dest cur c _ _ split)
          | inr (p, run, e, going, step) ↦
              subst (λ r. Found d cur dest r) (sym (second-moves d root p pre rest s run))
                (ih (new_moves p s) (Going-flip d dest cur (old_moves p (flip s)) going)
                  (lower p step progress))
        ]
      ]
    where
      lower :
          (p : Block)
          → s.new_tip.height ≡ suc p.height
          → Progress m pre s
          → s.old_tip.height + p.height < m
      lower p step (inl (e, lt)) = omega arith
      lower p step (inr (le, lt)) = omega arith

  find_split_lem :
      (fuel : ℕ) (s : Walk)
      → Going d cur dest s
      → s.old_tip.height + s.new_tip.height < fuel
      → Found d cur dest (find_split fuel d root s)
  find_split_lem zero s g lt = absurd (omega arith)
  find_split_lem (suc fuel) s g lt = elim (Bool-cases (ltb s.old_tip.height s.new_tip.height)) [
    | inl low ↦
        subst (λ r. Found d cur dest r)
          (sym (
            first-stays fuel d root s
              (climb_stays d s.old_tip s.new_tip s.visited (ltb→lt _ _ low))))
          (second_lem fuel s.old_tip.pre (find_split fuel d root) s (find_split_lem fuel) g
            (inr (ground arith, lt)))
    | inr high ↦ elim (half d w cur dest s g (ground arith)) [
      | inl (c, run, split) ↦ (c, _, _, first-splits fuel d root c s run, split)
      | inr (p, run, e, going, step) ↦
          subst (λ r. Found d cur dest r) (sym (first-moves fuel d root p s run))
            (second_lem fuel s.old_tip.pre (find_split fuel d root) (old_moves p s)
              (find_split_lem fuel) going (inl ((p.id, e), omega arith)))
    ]
  ]

  -- The walk begins at two different stored blocks.
  start-Going :
      (a b : Block)
      → lookup cur d.blocks ≡ some a
      → lookup dest d.blocks ≡ some b
      → dest ≢ cur
      → Going d cur dest (start a b)
  start-Going a b ha hb ne =
      let ia = w.filed cur a ha in
      let ib = w.filed dest b hb in
      record {
        sides = record {
          stored_left = subst (λ z. lookup z d.blocks ≡ some a) (sym ia) ha;
          stored_right = subst (λ z. lookup z d.blocks ≡ some b) (sym ib) hb;
          left = self ia;
          right = self ib;
          above = λ e u v. (
            subst (Ancestor (disk_links d) e) (sym ia) u,
            subst (Ancestor (disk_links d) e) (sym ib) v,
          );
          apart = λ e. ne (sym ib ∙ sym e ∙ ia);
          seen_left = ground arith;
          seen_right = ground arith;
          only = λ i h. seen_pair i h ia ib;
          near_left = inl ib;
          near_right = inl ia;
        };
        undone = record { before = []; ends = refl; path = done ia };
        played = record { before = []; ends = refl; path = done ib };
      }
    where
      seen_pair :
          (i : ℕ)
          → contains i (b.id ∷ a.id ∷ []) ≡ true
          → a.id ≡ cur
          → b.id ≡ dest
          → (Ancestor (disk_links d) i cur × Ancestor (disk_links d) a.id i)
            ⊎ (Ancestor (disk_links d) i dest × Ancestor (disk_links d) b.id i)
      seen_pair i h ia ib = elim (Bool-cases (i == b.id)) [
        | inl e ↦
            let same : i ≡ b.id = (==_iff i b.id).0 e in inr (self (same ∙ ib), self (sym same))
        | inr e ↦ let same : i ≡ a.id = ground arith in inl (self (same ∙ ia), self (sym same))
      ]

unequal_starts :
    (d : Disk) (root cur dest : ℕ) (a b : Block)
    → dest ≢ cur
    → query_block d (some cur) ≡ ok a
    → query_block d (some dest) ≡ ok b
    → find_undo_and_todo_blocks d root cur dest
      ≡ find_split (suc (a.height + b.height)) d root (start a b)
unfolding find_undo_and_todo_blocks
unequal_starts d root cur dest a b ne ea eb =
    let other : (dest == cur) ≡ false = ground arith in
    rw (other) (rw (ea, bind_outcome) (rw (eb, bind_outcome) refl))

equal_starts :
    (d : Disk) (root cur dest : ℕ)
    → (dest == cur) ≡ true
    → find_undo_and_todo_blocks d root cur dest ≡ ok ([], [])
unfolding find_undo_and_todo_blocks
equal_starts d root cur dest e = rw e refl

-- For any two stored blocks of a well-formed store `FindUndoAndTodoBlocks` ends without an error.
-- The blocks to undo are those from the current block up to below the lowest common ancestor of the
-- two, and the blocks to play those from the target block up to below it, each from the top down.
pub undo_and_todo_are_paths :
    (d : Disk) (root cur dest : ℕ) (a b : Block)
    → IsStored d
    → lookup cur d.blocks ≡ some a
    → lookup dest d.blocks ≡ some b
    → (c : ℕ) × (undo : List Block) × (todo : List Block) × (find_undo_and_todo_blocks d root cur
          dest
        ≡ ok (undo, todo))
      × IsSplit (disk_links d) cur dest c
      × Chain d c cur undo
      × Chain d c dest todo
undo_and_todo_are_paths d root cur dest a b w ha hb = elim (Bool-cases (dest == cur)) [
  | inl same ↦
      let e : dest ≡ cur = (==_iff dest cur).0 same in
      (
        cur,
        [],
        [],
        equal_starts d root cur dest same,
        subst (λ z. IsSplit (disk_links d) cur z cur) (sym e) (IsSplit-self (disk_links d) cur),
        done refl,
        done (sym e),
      )
  | inr other ↦
      let ne : dest ≢ cur = λ e. cc (other, (==_iff dest cur).1 e) in
      let (c, us, ts, run, s) =
        find_split_lem d w root cur dest (suc (a.height + b.height)) (start a b)
          (start-Going d w root cur dest a b ha hb ne) (omega arith) in
      (
        c,
        us,
        ts,
        unequal_starts d root cur dest a b ne (query_lem d w cur a ha) (query_lem d w dest b hb)
            ∙ run,
        s.split,
        s.undone,
        s.played,
      )
]

-- ===== src/Ledger/Undo/Paths.antt =====
-- `FindUndoAndTodoBlocks` ends with the paths down to the lowest common ancestor.
use corechain.Ledger.Store.{Block, Disk, ok}
use corechain.Ledger.Tree.{IsSplit, IsSplit-sym}
use corechain.Ledger.Branch.{bind_outcome, query_block}
use corechain.Ledger.Branch.Common.{IsStored, disk_links, parent_lem}
use corechain.Ledger.Undo.{Walk, climb, may_climb, moves, old_moves, splits, stays, trim}
use corechain.Ledger.Undo.Climb.{Apart, Apart-high, Apart-swap, climb-Apart, seen-IsSplit}
use corechain.Prelude.{
  ==_iff, Bool-cases, List, [], ap, arith, contains, false, if◌then◌else◌, inl, inr, refl, some,
  subst, suc, sym, true, ℕ, ◌++◌, ◌<◌, ◌==◌, ◌∙◌, ◌∷◌, ◌≡◌, ◌≢◌, ◌≤◌, ◌⊎◌,
}
use corechain.Prelude.Dict.{lookup}

-- The stored blocks from `i` up by parent links, as far as below `c`.
pub data Chain (d : Disk) (c : ℕ) : ℕ → List Block → Type 0 where
  done : {i : ℕ} → c ≡ i → Chain d c i []
  link :
      {i : ℕ} {xs : List Block} (b : Block) (p : ℕ)
      → lookup i d.blocks ≡ some b
      → b.pre ≡ some p
      → Chain d c p xs
      → Chain d c i (b ∷ xs)

Chain-append :
    (d : Disk) (i p : ℕ) (b : Block) (xs : List Block)
    → Chain d b.id i xs
    → lookup b.id d.blocks ≡ some b
    → b.pre ≡ some p
    → Chain d p i (xs ++ b ∷ [])
Chain-append d i p b [] (done e) h hp =
    link b p (subst (λ z. lookup z d.blocks ≡ some b) e h) hp (done refl)
Chain-append d i p b (x ∷ xs) (link x' q hx hq c) h hp =
    link x' q hx hq (Chain-append d q p b xs c h hp)

trim-last :
    (c : ℕ) (b : Block) (xs : List Block)
    → trim c (xs ++ b ∷ []) ≡ (if b.id == c then xs else xs ++ b ∷ [])
trim-last c b [] = refl
trim-last c b (x ∷ []) = ground arith
trim-last c b (x ∷ (y ∷ xs)) = ground (arith, trim-last c b (y ∷ xs))

-- The collected blocks are those of the path so far, with the tip last.
pub record Collected (d : Disk) (cur : ℕ) (tip : Block) (bs : List Block) : Type 0 where
  pub before : List Block
  pub ends : bs ≡ before ++ tip ∷ []
  pub path : Chain d tip.id cur before

pub record Going (d : Disk) (cur dest : ℕ) (s : Walk) : Type 0 where
  pub sides : Apart d cur dest s.old_tip s.new_tip s.visited
  pub undone : Collected d cur s.old_tip s.undo
  pub played : Collected d dest s.new_tip s.todo

-- The walk may end with the split `c`.
pub record Split (d : Disk) (cur dest c : ℕ) (undo todo : List Block) : Type 0 where
  pub split : IsSplit (disk_links d) cur dest c
  pub undone : Chain d c cur undo
  pub played : Chain d c dest todo

abbrev pub flip : Walk → Walk
flip s = record {
  old_tip = s.new_tip;
  new_tip = s.old_tip;
  undo = s.todo;
  todo = s.undo;
  visited = s.visited;
}

pub Going-flip :
    (d : Disk) (cur dest : ℕ) (s : Walk) → Going d cur dest s → Going d dest cur (flip s)
Going-flip d cur dest s g = record {
  sides = Apart-swap d cur dest s.old_tip s.new_tip s.visited g.sides;
  undone = g.played;
  played = g.undone;
}

pub Split-flip :
    (d : Disk) (cur dest c : ℕ) (us ts : List Block)
    → Split d cur dest c us ts
    → Split d dest cur c ts us
Split-flip d cur dest c us ts s = record {
  split = IsSplit-sym (disk_links d) cur dest c s.split;
  undone = s.played;
  played = s.undone;
}

-- The old side climbs.
abbrev pub Half : Disk → ℕ → ℕ → Walk → Type 0
Half d cur dest s =
    ((c : ℕ) × (climb d s.old_tip s.new_tip s.visited ≡ ok (splits c))
      × Split d cur dest c (trim c s.undo) (trim c s.todo))
    ⊎ ((p : Block) × (climb d s.old_tip s.new_tip s.visited ≡ ok (moves p))
        × (s.old_tip.pre ≡ some p.id)
        × Going d cur dest (old_moves p s)
        × (s.old_tip.height ≡ suc p.height))

climb_runs :
    (d : Disk) (b other p : Block) (pid : ℕ) (seen : List ℕ)
    → b.pre ≡ some pid
    → other.height ≤ b.height
    → query_block d b.pre ≡ ok p
    → climb d b other seen ≡ ok (if contains p.id seen then splits p.id else moves p)
unfolding climb
climb_runs d b other p pid seen e le run =
    let go : may_climb b other ≡ true = ground arith in rw (go, climb) (rw (run, bind_outcome) refl)

pub climb_stays :
    (d : Disk) (b other : Block) (seen : List ℕ)
    → b.height < other.height
    → climb d b other seen ≡ ok stays
unfolding climb
climb_stays d b other seen lt =
    let stop : may_climb b other ≡ false = ground arith in rw (stop, climb) refl

module _ (d : Disk) (w : IsStored d) where
  Collected-up :
      (cur p : ℕ) (tip next : Block) (bs : List Block)
      → Collected d cur tip bs
      → lookup tip.id d.blocks ≡ some tip
      → tip.pre ≡ some next.id
      → Collected d cur next (bs ++ next ∷ [])
  Collected-up cur p tip next bs c h e = record {
    before = bs;
    ends = refl;
    path =
        subst (Chain d next.id cur) (sym c.ends)
          (Chain-append d cur next.id tip c.before c.path h e);
  }

  higher :
      (b p : Block)
      → lookup b.id d.blocks ≡ some b
      → lookup p.id d.blocks ≡ some p
      → b.height ≡ suc p.height
      → b.id ≢ p.id
  higher b p hb hp step e =
      let same : b ≡ p = cc (ap (λ i. lookup i d.blocks) e, hb, hp) in
      omega (arith, ap (λ (x : Block). x.height) same)

  trim_tip :
      (i c : ℕ) (tip : Block) (bs : List Block)
      → Collected d i tip bs
      → tip.id ≡ c
      → Chain d c i (trim c bs)
  trim_tip i c tip bs k e =
      let cutted : trim c bs ≡ k.before =
        ap (trim c) k.ends
        ∙ trim-last c tip k.before
        ∙ ap (λ z. if z then k.before else k.before ++ tip ∷ []) ((==_iff tip.id c).1 e) in
      subst (Chain d c i) (sym cutted) (subst (λ z. Chain d z i k.before) e k.path)

  trim_rest :
      (i c : ℕ) (tip : Block) (bs : List Block)
      → Collected d i tip bs
      → lookup tip.id d.blocks ≡ some tip
      → tip.pre ≡ some c
      → tip.id ≢ c
      → Chain d c i (trim c bs)
  trim_rest i c tip bs k h e ne =
      let other : (tip.id == c) ≡ false = ground arith in
      let kept : trim c bs ≡ k.before ++ tip ∷ [] =
        ap (trim c) k.ends
        ∙ trim-last c tip k.before
        ∙ ap (λ z. if z then k.before else k.before ++ tip ∷ []) other in
      subst (Chain d c i) (sym kept) (Chain-append d i c tip k.before k.path h e)

  pub half :
      (cur dest : ℕ) (s : Walk)
      → Going d cur dest s
      → s.new_tip.height ≤ s.old_tip.height
      → Half d cur dest s
  half cur dest s g le =
      let high = Apart-high d w cur dest s.old_tip s.new_tip s.visited g.sides le in
      let (pid, p, e, run, stored, same, step) =
        parent_lem d w s.old_tip g.sides.stored_left high in
      let e' : s.old_tip.pre ≡ some p.id = e ∙ ap some (sym same) in
      let runs = climb_runs d s.old_tip s.new_tip p pid s.visited e le run in
      elim (Bool-cases (contains p.id s.visited)) [
        | inr new ↦ inr (
          p,
          runs ∙ ap (λ z. ok (if z then splits p.id else moves p)) new,
          e',
          record {
            sides =
                climb-Apart d w cur dest s.old_tip s.new_tip s.visited g.sides le p e' stored step
                  new;
            undone = Collected-up cur pid s.old_tip p s.undo g.undone g.sides.stored_left e';
            played = g.played;
          },
          step,
        )
        | inl seen ↦ inl (
          p.id,
          runs ∙ ap (λ z. ok (if z then splits p.id else moves p)) seen,
          (let (split, at) =
                seen-IsSplit d w cur dest s.old_tip s.new_tip s.visited g.sides le p e' stored step
                  seen in
              record {
                split = split;
                undone =
                    trim_rest cur p.id s.old_tip s.undo g.undone g.sides.stored_left e'
                      (λ same_id. higher s.old_tip p g.sides.stored_left stored step same_id);
                played = trim_tip dest p.id s.new_tip s.todo g.played (sym at);
              }),
        )
      ]

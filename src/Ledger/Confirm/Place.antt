-- ===== src/Ledger/Confirm/Place.antt =====
-- Valid ledgers, in which a switch of the trunk ends.
use corechain.Ledger.Fork.{handle_fork}
use corechain.Ledger.Fork.Switch.{handle_fork_ends}
use corechain.Ledger.Tree.{IsTree}
use corechain.Ledger.Store.{Block, Ledger, Meta, fetch_block, header, links, out_of_fuel}
use corechain.Ledger.Fork.Split.{IsFiled, fetch_lem}
use corechain.Ledger.Confirm.{place_switch}
use corechain.Prelude.{arith, fun_ext, some, subst, suc, sym, ℕ, ◌+◌, ◌<◌, ◌∙◌, ◌≡◌, ◌≢◌, ◌≤◌}

-- The headers are a tree filed by identifier, the tip is a block at the trunk height, and no block
-- lies higher.
pub record IsValid (s : Ledger) : Type 0 where
  pub filed : IsFiled s
  pub tree : IsTree (links s)
  pub tip :
      (i : ℕ) × (b : Block) × (s.meta.tip ≡ some i)
      × (header s i ≡ some b)
      × (b.height ≡ s.meta.trunk_height)
  pub highest : (i : ℕ) (b : Block) → header s i ≡ some b → b.height ≤ s.meta.trunk_height

fetched_links :
    (i : ℕ) (b : Block) (s : Ledger)
    → header s i ≡ some b
    → links (fetch_block (some i) s).1 ≡ links s
fetched_links i b s h = fun_ext (λ j. rw ((fetch_lem i b s h).1 j, links))

switch_ends :
    (m : Meta) (b pre : Block) (t : Ledger)
    → (handle_fork (suc m.trunk_height) m.tip (some pre.id) (some b.id) t).0 ≢ out_of_fuel
    → (place_switch m b pre t).0 ≢ out_of_fuel
unfolding place_switch
switch_ends m b pre t ends = ground arith

-- Above the trunk the switch starts from the tip and a block of the same height.
pub above_ends :
    (s t : Ledger) (b pre : Block) (i : ℕ)
    → IsValid s
    → header s i ≡ some pre
    → ((j : ℕ) → header t j ≡ header s j)
    → s.meta.trunk_height < pre.height + 1
    → (place_switch s.meta b pre t).0 ≢ out_of_fuel
above_ends s t b pre i v h same lt =
    let (k, tip, is_tip, found, high) = v.tip in
    let filed : IsFiled t = λ j x e. v.filed j x (sym (same j) ∙ e) in
    let tree : IsTree (links t) = subst IsTree (fun_ext (λ j. rw (same j, links))) v.tree in
    let at = subst (λ z. header t z ≡ some pre) (sym (v.filed i pre h)) (same i ∙ h) in
    switch_ends s.meta b pre t (
      subst
        (λ z. (handle_fork (suc s.meta.trunk_height) z (some pre.id) (some b.id) t).0 ≢ out_of_fuel)
        (sym is_tip)
        (handle_fork_ends (suc s.meta.trunk_height) k pre.id (some b.id) t tip pre filed tree
          (same k ∙ found) at (omega (arith, v.highest i pre h)) (omega arith)))

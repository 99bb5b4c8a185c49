-- ===== src/Ledger/Confirm/Longest.antt =====
-- `ConfirmBlock` follows the longest branch: where a block goes by the height of its parent.
use corechain.Ledger.Fork.{same_id}
use corechain.Ledger.Confirm.{Placed}
use corechain.Ledger.Store.{Block, Error, Ledger, Meta, Outcome, err, ok}
use corechain.Prelude.{
  Bool, false, if◌then◌else◌, not, some, true, ℕ, ◌&&◌, ◌+◌, ◌==◌, ◌≡◌, ◌≢◌, ◌⊎◌,
}

-- The place of a block above `pre`: on the trunk just if `pre` is as high as the trunk, which then
-- ends with the block; the trunk is switched just if `pre` is that high and not the tip.
pub record Follows (m : Meta) (b pre : Block) (p : Placed) : Type 0 where
  pub same_block : p.block.id ≡ b.id
  pub above : p.block.height ≡ pre.height + 1
  pub on_trunk : p.block.in_trunk ≡ (pre.height == m.trunk_height)
  pub new_meta : p.new_meta ≡ (
      if pre.height == m.trunk_height
      then record m { tip = some b.id; trunk_height = m.trunk_height + 1 }
      else m)
  pub switches :
      p.trunk_switch ≡ ((pre.height == m.trunk_height) && not (same_id (some pre.id) m.tip))

abbrev Placing : Ledger → Block → Block → Outcome Placed → Type 0
Placing s b pre o =
    ((p : Placed) × (o ≡ ok p) × Follows s.meta b pre p)
    ⊎ ((e : Error) × (o ≡ err e) × (pre.height ≡ s.meta.trunk_height) × (s.meta.tip ≢ some pre.id))

abbrev on_top : Meta → Block → Block → ℕ → Bool → Placed
on_top m b pre h split = record {
  block = record b { in_trunk = true; height = pre.height + 1 };
  new_meta = record m { tip = some b.id; trunk_height = m.trunk_height + 1 };
  split_height = h;
  split = split;
  trunk_switch = split;
  orphan = false;
}

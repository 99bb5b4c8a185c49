-- ===== src/Contract/Limits/Laws.antt =====
-- What the resource limits promise: addition and subtraction undo one another, the protobuf form
-- loses nothing, and a price rounds up.
use corechain.Prelude.{arith, false, refl, ℕ, ◌*◌, ◌+◌, ◌-◌, ◌/◌, ◌<◌, ◌↔◌, ◌≡◌, ◌≤◌}
use corechain.Prelude.Int.{
  Fits64, int64, int64_pos, pos, pos_add, pos_part, pos_quot, pos_sub, ℤ, ◌+ℤ◌, ◌-ℤ◌, ◌≤ℤ◌,
}
use corechain.Contract.Limits.{Limits, add, exceed, from_pb_limits, roundup, sub, to_pb_limits}

pub from_pb-to_pb : (l : Limits) → from_pb_limits (to_pb_limits l) ≡ l
unfolding from_pb_limits to_pb_limits
from_pb-to_pb l = refl

-- int64 sums wrap, and still cancel.
pub int64_cancel : (a b : ℤ) → Fits64 a → Fits64 b → int64 (int64 (a +ℤ b) -ℤ b) ≡ a
unfolding int64 ◌+ℤ◌ ◌-ℤ◌
int64_cancel a b h k = ground arith

pub record Fits (l : Limits) : Type 0 where
  pub cpu : Fits64 l.cpu
  pub memory : Fits64 l.memory
  pub disk : Fits64 l.disk
  pub xfee : Fits64 l.xfee

-- Taking away what was added gives the old limits back, for limits that are int64 values, also where
-- the sum wraps.
pub sub-add : (l m : Limits) → Fits l → Fits m → sub (add l m) m ≡ l
unfolding sub add
sub-add l m h k = λ i. record {
  cpu = int64_cancel l.cpu m.cpu h.cpu k.cpu i;
  memory = int64_cancel l.memory m.memory h.memory k.memory i;
  disk = int64_cancel l.disk m.disk h.disk k.disk i;
  xfee = int64_cancel l.xfee m.xfee h.xfee k.xfee i;
}

abbrev pub Within : Limits → Limits → Type 0
Within l m = (l.cpu ≤ℤ m.cpu) × (l.memory ≤ℤ m.memory) × (l.disk ≤ℤ m.disk) × (l.xfee ≤ℤ m.xfee)

-- One set of limits does not exceed another just if each of its four resources is within the other's.
pub exceed_iff_not_Within : (l m : Limits) → (exceed l m ≡ false) ↔ Within l m
unfolding exceed
exceed_iff_not_Within l m = (λ h. ground arith, λ h. ground arith)

div-le : (a b : ℕ) → 0 < b → a / b ≤ a
div-le a b h = grind arith

pub roundup_pos :
    (n k : ℕ)
    → 0 < k
    → n + k < 9223372036854775808
    → roundup (pos n) (pos k) ≡ pos ((n + k - 1) / k)
unfolding roundup
roundup_pos n k h b =
    rw (pos_add n k, int64_pos (n + k) b, pos_sub (n + k) 1 (omega arith))
      (rw (int64_pos (n + k - 1) (omega arith), pos_quot (n + k - 1) k h)
        (rw (int64_pos ((n + k - 1) / k) (omega (arith, div-le (n + k - 1) k h))) (ground arith)))

-- Without overflow and with a positive rate, the gas of an amount is the least number of whole units
-- that covers it.
pub roundup_covers :
    (n k : ℕ)
    → 0 < k
    → n + k < 9223372036854775808
    → let g = pos_part (roundup (pos n) (pos k)) in (n ≤ g * k) × (g * k < n + k)
roundup_covers n k h b = rw (roundup_pos n k h b) (grind arith, grind arith)

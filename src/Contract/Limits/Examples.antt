-- ===== src/Contract/Limits/Examples.antt =====
-- The theorems of the resource limits at concrete limits.
use corechain.Prelude.{arith, ◌*◌, ◌+◌, ◌<◌, ◌≡◌, ◌≤◌}
use corechain.Prelude.Int.{pos, pos_part}
use corechain.Contract.Limits.{Limits, add, roundup, sub}
use corechain.Contract.Limits.Laws.{Fits, roundup_covers, sub-add}

-- The most that a register holds, so that the sum wraps.
abbrev full : Limits
full = record { cpu = pos 9223372036854775807; memory = pos 5; disk = pos 0; xfee = pos 1 }

abbrev used : Limits
used = record { cpu = pos 3; memory = pos 6; disk = pos 0; xfee = pos 1 }

full-Fits : Fits full
full-Fits = record {
  cpu = omega arith;
  memory = omega arith;
  disk = omega arith;
  xfee = omega arith;
}

used-Fits : Fits used
used-Fits = record {
  cpu = omega arith;
  memory = omega arith;
  disk = omega arith;
  xfee = omega arith;
}

sub-add_example : sub (add full used) used ≡ full
sub-add_example = sub-add full used full-Fits used-Fits

roundup_covers_example :
    let g = pos_part (roundup (pos 1001) (pos 1000)) in (1001 ≤ g * 1000) × (g * 1000 < 1001 + 1000)
roundup_covers_example = roundup_covers 1001 1000 (omega arith) (omega arith)

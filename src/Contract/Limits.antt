-- ===== src/Contract/Limits.antt =====
-- contract/base/limits.go: resource limits in int64 arithmetic. A slice of protobuf resource
-- limits is a list; the generated enum is `ResourceType`.
use corechain.Prelude.{Bool, List, [], if◌then◌else◌, ◌||◌, ◌∷◌}
use corechain.Prelude.Int.{eqb_ℤ, int64, ltb_ℤ, pos, quot_ℤ, ℤ, ◌+ℤ◌, ◌-ℤ◌}
pub mod Laws
mod Examples

pub record Limits : Type 0 where
  pub cpu : ℤ
  pub memory : ℤ
  pub disk : ℤ
  pub xfee : ℤ

-- The rates of `protos.GasPrice`.
pub record GasPrice : Type 0 where
  pub cpu_rate : ℤ
  pub mem_rate : ℤ
  pub disk_rate : ℤ
  pub xfee_rate : ℤ

pub data ResourceType : Type 0 where
  cpu memory disk xfee : ResourceType

pub record ResourceLimit : Type 0 where
  pub kind : ResourceType
  pub limit : ℤ

unfoldable pub roundup : ℤ → ℤ → ℤ
roundup n scale =
    if eqb_ℤ scale (pos 0)
    then pos 0
    else int64 (quot_ℤ (int64 (int64 (n +ℤ scale) -ℤ pos 1)) scale)

unfoldable pub total_gas : Limits → GasPrice → ℤ
total_gas l p = int64 (
    int64 (
      int64 (roundup l.cpu p.cpu_rate +ℤ roundup l.memory p.mem_rate) +ℤ roundup l.disk p.disk_rate)
    +ℤ roundup l.xfee p.xfee_rate)

unfoldable pub add : Limits → Limits → Limits
add l m = record {
  cpu = int64 (l.cpu +ℤ m.cpu);
  memory = int64 (l.memory +ℤ m.memory);
  disk = int64 (l.disk +ℤ m.disk);
  xfee = int64 (l.xfee +ℤ m.xfee);
}

unfoldable pub sub : Limits → Limits → Limits
sub l m = record {
  cpu = int64 (l.cpu -ℤ m.cpu);
  memory = int64 (l.memory -ℤ m.memory);
  disk = int64 (l.disk -ℤ m.disk);
  xfee = int64 (l.xfee -ℤ m.xfee);
}

unfoldable pub exceed : Limits → Limits → Bool
exceed l m =
    ltb_ℤ m.cpu l.cpu || ltb_ℤ m.memory l.memory || ltb_ℤ m.disk l.disk || ltb_ℤ m.xfee l.xfee

abbrev pub zero_limits : Limits
zero_limits = record { cpu = pos 0; memory = pos 0; disk = pos 0; xfee = pos 0 }

-- One round of the loop of `FromPbLimits`.
set_limit : ResourceType → ℤ → Limits → Limits
set_limit ResourceType.cpu n l = record l { cpu = n }
set_limit ResourceType.memory n l = record l { memory = n }
set_limit ResourceType.disk n l = record l { disk = n }
set_limit ResourceType.xfee n l = record l { xfee = n }

from_pb_limits_loop : Limits → List ResourceLimit → Limits
unfolding set_limit
from_pb_limits_loop l [] = l
from_pb_limits_loop l (r ∷ rs) = from_pb_limits_loop (set_limit r.kind r.limit l) rs

unfoldable pub from_pb_limits : List ResourceLimit → Limits
unfolding from_pb_limits_loop
from_pb_limits rs = from_pb_limits_loop zero_limits rs

unfoldable pub to_pb_limits : Limits → List ResourceLimit
to_pb_limits l =
    record { kind = ResourceType.cpu; limit = l.cpu }
    ∷ record { kind = ResourceType.memory; limit = l.memory }
    ∷ record { kind = ResourceType.disk; limit = l.disk }
    ∷ record { kind = ResourceType.xfee; limit = l.xfee }
    ∷ []

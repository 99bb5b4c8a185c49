-- ===== src/Consensus/Schedule.antt =====
-- consensus/xpos/schedule.go: which proposer has its turn at a time, and with which of its blocks, in
-- int64 arithmetic. A division by zero, which panics, gives `none`.
pub mod Range
pub mod Turns
mod Examples
use corechain.Prelude.{Option, if◌then◌else◌, none, some}
use corechain.Prelude.Int.{eqb_ℤ, int64, leb_ℤ, ltb_ℤ, negsuc, pos, quot_ℤ, ℤ, ◌*ℤ◌, ◌+ℤ◌, ◌-ℤ◌}

-- The parts of `XPOSSchedule` that the turns depend on, in milliseconds but for the start.
pub record Schedule : Type 0 where
  pub period : ℤ
  pub block_num : ℤ
  pub proposer_num : ℤ
  pub alternate_interval : ℤ
  pub term_interval : ℤ
  pub init_timestamp : ℤ

pub record Turn : Type 0 where
  pub term : ℤ
  pub position : ℤ
  pub block_pos : ℤ

infixl 65 ◌+₆◌ ◌-₆◌
infixl 70 ◌*₆◌
unfoldable pub ◌+₆◌ : ℤ → ℤ → ℤ
a +₆ b = int64 (a +ℤ b)

unfoldable pub ◌-₆◌ : ℤ → ℤ → ℤ
a -₆ b = int64 (a -ℤ b)

unfoldable pub ◌*₆◌ : ℤ → ℤ → ℤ
a *₆ b = int64 (a *ℤ b)

unfoldable pub div_int64 : ℤ → ℤ → Option ℤ
div_int64 a b = if eqb_ℤ b (pos 0) then none else some (int64 (quot_ℤ a b))

-- `int64(time.Millisecond)`
abbrev pub millisecond : ℤ
millisecond = pos 1000000

abbrev pub or_panic : {A : Type 0} → Option ℤ → (ℤ → Option A) → Option A
or_panic none k = none
or_panic (some a) k = k a

unfoldable pub term_time : Schedule → ℤ
term_time s =
    s.term_interval
    +₆ (s.block_num -₆ pos 1) *₆ s.proposer_num *₆ s.period
    +₆ (s.proposer_num -₆ pos 1) *₆ s.alternate_interval

-- The place within the term that begins at `term_begin`.
unfoldable pub place_in_term : Schedule → ℤ → ℤ → ℤ → Option Turn
place_in_term s t term term_begin =
    if leb_ℤ t term_begin
    then some (record { term = term; position = pos 0; block_pos = negsuc 0 })
    else (let pos_time = s.alternate_interval +₆ s.period *₆ (s.block_num -₆ pos 1) in
        or_panic (div_int64 (t -₆ term_begin) pos_time) (λ p.
          let proposer_begin = term_begin +₆ p *₆ pos_time +₆ s.alternate_interval -₆ s.period in
          if leb_ℤ t proposer_begin
          then some (record { term = term; position = p; block_pos = negsuc 0 })
          else or_panic (div_int64 (t -₆ proposer_begin) s.period)
              (λ b. some (record { term = term; position = p; block_pos = b }))))

unfoldable pub miner_scheduling : Schedule → ℤ → Option Turn
miner_scheduling s timestamp =
    if ltb_ℤ timestamp s.init_timestamp
    then some (record { term = pos 0; position = pos 0; block_pos = pos 0 })
    else or_panic (div_int64 timestamp millisecond) (λ t.
      or_panic (div_int64 s.init_timestamp millisecond) (λ init.
        or_panic (div_int64 (t -₆ init) (term_time s)) (λ q.
          let term = q +₆ pos 1 in
          place_in_term s t term
            (init +₆ (term -₆ pos 1) *₆ term_time s +₆ s.term_interval -₆ s.alternate_interval))))

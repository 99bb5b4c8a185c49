-- ===== src/Consensus/Xpoa.antt =====
-- consensus/xpoa/schedule.go: which validators a block of XPOA is checked with, and which of them has
-- its turn. An address is a number; a slice is `none` when it is nil. A division by zero or an
-- index out of range, which panics, gives `none`.
pub mod RoundRobin
pub mod Agree
mod Examples
use corechain.Prelude.{
  Bool, List, Option, [], false, get_elem?, if◌then◌else◌, length, none, some, true, ℕ, ◌&&◌, ◌==◌,
  ◌||◌, ◌∷◌,
}
use corechain.Prelude.Int.{eqb_ℤ, leb_ℤ, ltb_ℤ, negsuc, pos, ℤ}
use corechain.Consensus.Schedule.{Turn, div_int64, millisecond, term_time, ◌*₆◌, ◌+₆◌, ◌-₆◌}

abbrev pub Slice : Type 0
Slice = Option (List ℕ)

abbrev pub elements : Slice → List ℕ
elements none = []
elements (some xs) = xs

infixl 10 ◌>>=◌
abbrev pub ◌>>=◌ : {A B : Type 0} → Option A → (A → Option B) → Option B
none >>= k = none
some a >>= k = k a

abbrev pure : {A : Type 0} → A → Option A
pure = some

-- The consensus storage of a block as `ParseOldQCStorage` reads it, where the storage is not nil: the
-- height that a rollback asks for, or an error.
abbrev pub Storage : Type 0
Storage = Option (Option ℤ)

-- What the schedule reads of a block.
pub record Header : Type 0 where
  pub id : ℕ
  pub proposer : ℕ
  pub storage : Storage

-- What the schedule reads of the ledger: the block at a height, the height of the tip, the value of
-- the validators' key in the snapshot of a block, which has none until it is written, and the list
-- that the JSON of a value holds.
pub record LedgerRely : Type 0 where
  pub query_block_header_by_height : ℤ → Option Header
  pub tip_height : ℤ
  pub snapshot_get : ℕ → Option (Option ℕ)
  pub load_validators_multi_info : ℕ → Option Slice

pub record XpoaSchedule : Type 0 where
  pub period : ℤ
  pub block_num : ℤ
  pub init_validators : Slice
  pub start_height : ℤ
  pub enable_bft : Bool

unfoldable pub xpoa_scheduling : XpoaSchedule → ℤ → ℤ → Option Turn
xpoa_scheduling s timestamp n = do
  let term_time = s.period *₆ n *₆ s.block_num
  let pos_time = s.period *₆ s.block_num
  t ← div_int64 timestamp millisecond
  q ← div_int64 t term_time
  let term = q +₆ pos 1
  let res_time = t -₆ (term -₆ pos 1) *₆ term_time
  p ← div_int64 res_time pos_time
  b ← div_int64 (res_time -₆ p *₆ pos_time) s.period
  pure (record { term = term; position = p; block_pos = b +₆ pos 1 })

-- The list that a value of the validators' key stands for; without one it is the initial list.
abbrev loaded : XpoaSchedule → LedgerRely → Option ℕ → Option Slice
loaded s l none = some s.init_validators
loaded s l (some v) = l.load_validators_multi_info v

unfoldable pub get_validates_by_block_id : XpoaSchedule → LedgerRely → ℕ → Option Slice
get_validates_by_block_id s l id = l.snapshot_get id >>= loaded s l

unfoldable pub get_validates : XpoaSchedule → LedgerRely → ℤ → Option Slice
get_validates s l height =
    if ltb_ℤ height (s.start_height +₆ pos 3) then some s.init_validators else (do
      b ← l.query_block_header_by_height (height -₆ pos 3)
      get_validates_by_block_id s l b.id)

abbrev pub target_height : Bool → Storage → ℤ → Option ℤ
target_height true (some none) height = none
target_height true (some (some bits)) height = some (if eqb_ℤ bits (pos 0) then height else bits)
target_height _ _ height = some height

-- Where the code answers with an error, the result is `none`.
abbrev pub not_nil : Slice → Option Slice
not_nil none = none
not_nil (some xs) = some (some xs)

unfoldable pub get_local_validates : XpoaSchedule → LedgerRely → ℤ → Storage → Option Slice
get_local_validates s l round storage =
    let height = round -₆ pos 1 in
    if leb_ℤ height (pos 3) then some s.init_validators else (do
      target ← target_height s.enable_bft storage height
      validators ← get_validates s l target
      not_nil validators)

abbrev pub at_index : List ℕ → ℤ → Option ℕ
at_index xs (pos i) = get_elem? xs i
at_index xs (negsuc i) = none

-- The place where the turn lies outside the list or the blocks of a validator.
abbrev pub off_schedule : XpoaSchedule → Turn → List ℕ → Bool
off_schedule s t v =
    ltb_ℤ t.block_pos (pos 0) || ltb_ℤ s.block_num t.block_pos || leb_ℤ (pos (length v)) t.position

abbrev pub leader_of : XpoaSchedule → ℤ → List ℕ → Option (Option ℕ)
leader_of s timestamp v = do
  t ← xpoa_scheduling s timestamp (pos (length v))
  if off_schedule s t v then some none else (do leader ← at_index v t.position; some (some leader))

-- `some none` where the code answers with the empty string, `none` where it panics.
unfoldable pub get_local_leader : XpoaSchedule → LedgerRely → ℤ → ℤ → Storage → Option (Option ℕ)
get_local_leader s l timestamp round storage = local_leader (get_local_validates s l round storage)
  where
    local_leader : Option Slice → Option (Option ℕ)
    local_leader none = some none
    local_leader (some v) = leader_of s timestamp (elements v)

abbrev pub or_nil : Option Slice → Slice
or_nil none = none
or_nil (some v) = v

-- What `GetValidators` gives for a round whose block is known, or is not. It drops an error.
abbrev pub validators_for : XpoaSchedule → LedgerRely → ℤ → Option Header → Slice
validators_for s l round none = or_nil (get_validates s l (round -₆ pos 1))
validators_for s l round (some b) = or_nil (get_local_validates s l round b.storage)

unfoldable pub get_validators : XpoaSchedule → LedgerRely → ℤ → Slice
get_validators s l round =
    if leb_ℤ (round -₆ pos 1) (pos 3)
    then s.init_validators
    else validators_for s l round (l.query_block_header_by_height round)

-- The time that `GetLeader` goes by, when it is `now`.
abbrev pub leader_time : XpoaSchedule → LedgerRely → ℤ → ℤ → ℤ
leader_time s l now round = if ltb_ℤ l.tip_height round then now +₆ s.period *₆ millisecond else now

-- The leader of a round that has no block yet.
abbrev pub next_leader : XpoaSchedule → ℤ → Slice → Option (Option ℕ)
next_leader s time none = some none
next_leader s time (some v) = do
  t ← xpoa_scheduling s time (pos (length v))
  leader ← at_index v t.position
  some (some leader)

abbrev pub leader_for : XpoaSchedule → LedgerRely → ℤ → ℤ → Option Header → Option (Option ℕ)
leader_for s l now round (some b) = some (some b.proposer)
leader_for s l now round none = next_leader s (leader_time s l now round) (get_validators s l round)

unfoldable pub get_leader : XpoaSchedule → LedgerRely → ℤ → ℤ → Option (Option ℕ)
get_leader s l now round = leader_for s l now round (l.query_block_header_by_height round)

abbrev pub address_equal : List ℕ → List ℕ → Bool
address_equal [] [] = true
address_equal (x ∷ xs) (y ∷ ys) = (x == y) && address_equal xs ys
address_equal _ _ = false

-- The schedule's own list and whether it was replaced, given the validators of the height.
abbrev pub replace_validators : Slice → Option Slice → Slice × Bool
replace_validators old none = (old, false)
replace_validators old (some new) =
    if length (elements new) == 0 || address_equal (elements new) (elements old)
    then (old, false)
    else (new, true)

unfoldable pub update_validator : XpoaSchedule → LedgerRely → ℤ → Slice → Slice × Bool
update_validator s l height validators = replace_validators validators (get_validates s l height)

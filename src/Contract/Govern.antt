-- ===== src/Contract/Govern.antt =====
-- contract/proposal/govern/token_contract.go: the ledger of govern tokens, on the typed view of
-- the bucket "governToken" (contract/proposal/utils). Account names are only compared, so they are
-- numbers; the three kinds of key are the constructors of `Key`. An amount argument is what
-- `big.Int.SetString` makes of it. A reply is a value or an error, and what was written before an
-- error stays written.
pub mod Ledger
pub mod Balances
pub mod Transfer
pub mod Locks
pub mod Refusals
pub mod Init
pub mod Trace
mod Examples
pub use Ledger.*
use corechain.Prelude.{
  Bool, List, Option, [], false, if◌then◌else◌, none, not, some, true, ℕ, ◌==◌, ◌||◌, ◌∷◌,
}
use corechain.Prelude.Int.{ltb_ℤ, pos, quot_ℤ, ℤ, ◌+ℤ◌, ◌-ℤ◌}
use corechain.Prelude.Dict.{lookup}

pub record KernMethod : Type 0 where
  pub new_gov_resource_amount : ℤ
  pub predistribution : List Predistribution

-- The charge of all methods but the first: `NewGovResourceAmount / 1000`.
abbrev pub call_fee : KernMethod → ℤ
call_fee t = quot_ℤ t.new_gov_resource_amount (pos 1000)

unfoldable pub balance_of : Ctx → ℕ → Action Balance
balance_of ctx account = get_balance account

-- The loop of `InitGovernTokens` over the predistribution.
unfoldable pub distribute : Ctx → List Predistribution → ℤ → Action ℤ
distribute ctx [] total s = (ok total, s)
distribute ctx (p ∷ ps) total s =
    let rest = distribute ctx ps (total +ℤ p.quota.value) in
    elim (ltb_ℤ p.quota.value (pos 0)) [
      | true ↦ raise negative_amount s
      | false ↦
          (put_balance ctx p.address (record new_balance { total_balance = p.quota.value }) >> rest)
            s
    ]

unfoldable pub init_govern_tokens : KernMethod → Ctx → Action Unit0
init_govern_tokens t ctx = do
  raise_if (← gets (λ s. s.distributed)) already_initialized
  total ← distribute ctx t.predistribution (pos 0)
  put_total_supply ctx total
  put_distributed ctx
  add_resource_used t.new_gov_resource_amount

-- The loop of `TransferGovernTokens` over the locks: some lock leaves too little.
unfoldable pub short_of : Balance → ℤ → Bool
short_of b amount =
    ltb_ℤ (b.total_balance -ℤ b.locked_ordinary) amount
    || ltb_ℤ (b.total_balance -ℤ b.locked_tdpos) amount

-- The balance that `TransferGovernTokens` writes for the receiver: a new record, so without locks.
unfoldable pub received : ℤ → Option Balance → Balance
received amount none = record new_balance { total_balance = amount }
received amount (some old) = record new_balance { total_balance = amount +ℤ old.total_balance }

unfoldable pub transfer_govern_tokens : KernMethod → Ctx → Action Unit0
unfolding short_of received balance_of
transfer_govern_tokens t ctx = do
  raise_if (ltb_ℤ ctx.fee_limit (call_fee t)) gas_not_enough
  receiver ← or_raise ctx.args.to missing_argument
  amount ← or_raise ctx.args.amount missing_argument
  raise_if (not amount.valid || ltb_ℤ amount.value (pos 0)) bad_amount
  sender_balance ← balance_of ctx ctx.initiator
  raise_if (short_of sender_balance amount.value) insufficient_balance
  if receiver == ctx.initiator
      then put_balance ctx ctx.initiator sender_balance >> add_resource_used (call_fee t)
      else do
        old ← gets (λ s. lookup receiver s.balances)
        put_balance ctx ctx.initiator
            (record sender_balance { total_balance = sender_balance.total_balance -ℤ amount.value })
        put_balance ctx receiver (received amount.value old)
        add_resource_used (call_fee t)

unfoldable pub has_authority : Caller → Bool
has_authority Caller.proposal = true
has_authority Caller.xpos = true
has_authority Caller.other = false

-- `LockedBalance[lockType]`, read and written.
unfoldable pub locked : LockType → Balance → ℤ
locked LockType.ordinary b = b.locked_ordinary
locked LockType.tdpos b = b.locked_tdpos
locked LockType.invalid b = pos 0

unfoldable pub set_locked : LockType → ℤ → Balance → Balance
set_locked LockType.ordinary n b = record b { locked_ordinary = n }
set_locked LockType.tdpos n b = record b { locked_tdpos = n }
set_locked LockType.invalid n b = b

unfoldable pub is_invalid : LockType → Bool
is_invalid LockType.invalid = true
is_invalid _ = false

unfoldable pub lock_govern_tokens : KernMethod → Ctx → Action Unit0
unfolding has_authority locked set_locked is_invalid balance_of
lock_govern_tokens t ctx = do
  raise_if (not (has_authority ctx.caller)) no_authority
  account ← or_raise ctx.args.from missing_argument
  amount ← or_raise ctx.args.amount missing_argument
  lock_type ← or_raise ctx.args.lock_type missing_argument
  raise_if (is_invalid lock_type) bad_lock_type
  b ← balance_of ctx account
  raise_if (ltb_ℤ (b.total_balance -ℤ locked lock_type b) amount.value) insufficient_balance
  put_balance ctx account (set_locked lock_type (locked lock_type b +ℤ amount.value) b)
  add_resource_used (call_fee t)

unfoldable pub unlock_govern_tokens : KernMethod → Ctx → Action Unit0
unfolding has_authority locked set_locked is_invalid balance_of
unlock_govern_tokens t ctx = do
  raise_if (not (has_authority ctx.caller)) no_authority
  account ← or_raise ctx.args.from missing_argument
  amount ← or_raise ctx.args.amount missing_argument
  lock_type ← or_raise ctx.args.lock_type missing_argument
  b ← balance_of ctx account
  raise_if (is_invalid lock_type) bad_lock_type
  put_balance ctx account (set_locked lock_type (locked lock_type b -ℤ amount.value) b)
  add_resource_used (call_fee t)

unfoldable pub query_account_govern_tokens : Ctx → Action Balance
unfolding balance_of
query_account_govern_tokens ctx = do balance_of ctx (← or_raise ctx.args.account no_sender)

unfoldable pub total_supply : Action ℤ
total_supply = do or_raise (← gets (λ s. s.total_supply)) not_found

-- The methods that change balances, under the names that `token_manager.go` registers.
pub data Method : Type 0 where
  transfer lock unlock : Method

unfoldable pub invoke : Method → KernMethod → Ctx → Action Unit0
invoke Method.transfer = transfer_govern_tokens
invoke Method.lock = lock_govern_tokens
invoke Method.unlock = unlock_govern_tokens

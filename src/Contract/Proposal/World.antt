-- ===== src/Contract/Proposal/World.antt =====
-- The state that the contracts of contract/proposal share, and a call of a kernel method on it.
-- Stored texts are taken as what they decode to: encoding and decoding of a stored value succeed.
-- The resource limits of nested calls are left out.
use corechain.Prelude.Int.{int64, pos, ℤ, ◌+ℤ◌}
use corechain.Prelude.Dict.{Dict, insert, lookup}
use corechain.Contract.Govern.Ledger.{Caller, Ctx, Decimal, LockType, Store, Unit0}
use corechain.Contract.Govern.Ledger as Gov
use corechain.Contract.Govern.{KernMethod}
use corechain.Prelude.{Bool, Option, [], false, if◌then◌else◌, none, some, true, ℕ}

-- A decimal text: the one that `FormatInt` gives for a number, or another one, by a number that
-- stands for it and with what `SetString` reads there.
pub data Text : Type 0 where
  empty : Text
  canonical : ℤ → Text
  other : ℕ → Decimal → Text

-- `big.Int.SetString(s, 10)`
abbrev pub set_string : Text → Decimal
set_string empty = record { value = pos 0; valid = false }
set_string (canonical n) = record { value = n; valid = true }
set_string (other i d) = d

-- An entry of the map `Proposal.Args`: the type assertion `.(string)` panics on one that is missing
-- or is no string.
pub data Arg : Type 0 where
  not_a_string : Arg
  text : Text → Arg

-- `TriggerDesc`; `call` stands for the module, contract, method and arguments, which are passed on.
pub record TriggerDesc : Type 0 where
  pub height : ℤ
  pub call : ℕ

-- `ProposalStatus...`
pub data Status : Type 0 where
  voting cancelled rejected passed completed_failure completed_success : Status

-- `Proposal`
pub record Proposal : Type 0 where
  pub min_vote_percent : Arg
  pub stop_vote_height : Arg
  pub trigger : Option TriggerDesc
  pub vote_amount : ℤ
  pub status : Status
  pub proposer : ℕ

-- What the timer calls back: a method of "$proposal" with a proposal, or anything else.
pub data Task : Type 0 where
  check_vote_result trigger_proposal : ℕ → Task
  other_task : ℕ → Task

pub record Entry : Type 0 where
  pub block_height : Text
  pub task : Task

-- The buckets "governToken", "timer" and "proposal". The keys "lock_<id>_<account>" are taken apart.
pub record World : Type 0 where
  pub gov : Store
  pub latest_task : Option ℕ
  pub tasks : Dict Entry
  pub latest_id : Option ℕ
  pub proposals : Dict Proposal
  pub locks : Dict (Dict ℤ)
  pub fee_used : ℤ

pub data Key : Type 0 where
  task_id_key proposal_id_key : Key
  task_key proposal_key : ℕ → Key
  lock_key : ℕ → ℕ → Key

-- The context of a call, with the failures of the state below.
pub record Env : Type 0 where
  pub from_timer : Bool
  pub initiator : ℕ
  pub fee_limit : ℤ
  pub gov_method : KernMethod
  pub gov_put_fails : Gov.Key → Bool
  pub put_fails : Key → Bool
  pub select_fails : Bool

pub data Reason : Type 0 where
  argument_missing bad_argument no_argument bad_percent bad_height bad_trigger : Reason
  not_proposed not_voting not_proposer has_votes not_allowed put_refused no_lock : Reason
  select_failed : Reason
  gov_reason : Gov.Error → Reason

-- An answer of a method, an error, or a run-time panic.
pub data Reply (A : Type 0) : Type 0 where
  reply : A → Reply A
  refuse : Reason → Reply A
  panic : Reply A

abbrev pub Run : Type 0 → Type 0
Run A = World → Reply A × World

module _ {A : Type 0} where
  abbrev pub pure : A → Run A
  pure a w = (reply a, w)

  abbrev pub lift : Reply A → Run A
  lift r w = (r, w)

  abbrev pub or_refuse : Option A → Reason → Run A
  or_refuse none e w = (refuse e, w)
  or_refuse (some a) e w = (reply a, w)

  abbrev pub or_panic : Option A → Run A
  or_panic none w = (panic, w)
  or_panic (some a) w = (reply a, w)

infixl 5 ◌>>=◌ ◌>>◌
abbrev pub ◌>>=◌ : {A B : Type 0} → Run A → (A → Run B) → Run B
◌>>=◌ m f w =
    let (r, w') = m w in
    elim r [ reply a ↦ f a w' | refuse e ↦ (refuse e, w') | panic ↦ (panic, w') ]

abbrev pub ◌>>◌ : {A B : Type 0} → Run A → Run B → Run B
m >> k = m >>= λ _. k

abbrev pub refuse_if : Bool → Reason → Run Unit0
refuse_if c e w = (if c then refuse e else reply tt, w)

-- `ctx.Put` on the buckets of this state.
abbrev pub put : Env → Key → (World → World) → Run Unit0
put env k f w = if env.put_fails k then (refuse put_refused, w) else (reply tt, f w)

-- `ctx.AddResourceUsed`
abbrev pub add_resource_used : ℤ → Run Unit0
add_resource_used fee w = (reply tt, record w { fee_used = int64 (w.fee_used +ℤ fee) })

-- The context of the govern token contract for a call that comes from "$proposal".
abbrev pub gov_ctx : Env → ℕ → Decimal → Ctx
gov_ctx env account amount = record {
  caller = Caller.proposal;
  initiator = env.initiator;
  fee_limit = env.fee_limit;
  args = record {
    to = none;
    from = some account;
    account = none;
    amount = some amount;
    lock_type = some LockType.ordinary;
  };
  put_fails = env.gov_put_fails;
}

-- `ctx.Call` of a method of the govern token contract.
abbrev pub call_gov : Env → ℕ → Decimal → (KernMethod → Ctx → Gov.Action Unit0) → Run Unit0
call_gov env account amount method w =
    let (r, g) = method env.gov_method (gov_ctx env account amount) w.gov in
    elim r [
      | Gov.ok _ ↦ (reply tt, record w { gov = g })
      | Gov.err e ↦ (refuse (gov_reason e), record w { gov = g })
    ]

-- The locks of a proposal, by account.
abbrev pub locks_of : World → ℕ → Dict ℤ
locks_of w i = elim (lookup i w.locks) [ none ↦ [] | some d ↦ d ]

abbrev pub put_lock : ℕ → ℕ → ℤ → World → World
put_lock i a n w = record w { locks = insert i (insert a n (locks_of w i)) w.locks }

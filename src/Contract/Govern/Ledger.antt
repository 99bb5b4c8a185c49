-- ===== src/Contract/Govern/Ledger.antt =====
-- The stored data of the govern token contract and its access: contract/proposal/utils/types.go
-- (`GovernTokenBalance`), the context that a kernel method is given (contract/base), and `Get` and
-- `Put` on the bucket "governToken". A `Put` may fail in the state below the contract: which
-- writes fail is a field of the context.
use corechain.Prelude.{Bool, Option, if◌then◌else◌, inl, inr, none, refl, some, true, ℕ, ◌≡◌, ◌⊎◌}
use corechain.Prelude.Int.{int64, pos, ℤ, ◌+ℤ◌}
use corechain.Prelude.Dict.{Dict, insert, lookup}

-- The unit type of this level.
abbrev pub Unit0 : Type 0
Unit0 = Unit

-- The result of `big.Int.SetString(s, 10)`: the number that is left, and whether `s` was one.
pub record Decimal : Type 0 where
  pub value : ℤ
  pub valid : Bool

-- `GovernTokenBalance`. The map of locks always has its two keys, which `NewGovernTokenBalance`
-- enters.
pub record Balance : Type 0 where
  pub total_balance : ℤ
  pub locked_ordinary : ℤ
  pub locked_tdpos : ℤ

abbrev pub new_balance : Balance
new_balance = record { total_balance = pos 0; locked_ordinary = pos 0; locked_tdpos = pos 0 }

pub record Predistribution : Type 0 where
  pub address : ℕ
  pub quota : Decimal

-- `GovernTokenTypeOrdinary`, `GovernTokenTypeTDPOS`, and every other text.
pub data LockType : Type 0 where
  ordinary tdpos invalid : LockType

-- `ctx.Caller()`: "$proposal", "$xpos" (the name of two constants), and every other.
pub data Caller : Type 0 where
  proposal xpos other : Caller

pub record Args : Type 0 where
  pub to : Option ℕ
  pub from : Option ℕ
  pub account : Option ℕ
  pub amount : Option Decimal
  pub lock_type : Option LockType

pub data Key : Type 0 where
  balance_key : ℕ → Key
  total_supply_key distributed_key : Key

pub record Ctx : Type 0 where
  pub caller : Caller
  pub initiator : ℕ
  pub fee_limit : ℤ
  pub args : Args
  pub put_fails : Key → Bool

pub record Store : Type 0 where
  pub balances : Dict Balance
  pub total_supply : Option ℤ
  pub distributed : Bool
  pub fee_used : ℤ

pub data Error : Type 0 where
  already_initialized negative_amount gas_not_enough missing_argument bad_amount : Error
  no_sender insufficient_balance no_authority bad_lock_type not_found put_failed : Error

pub data Result (A : Type 0) : Type 0 where
  ok : A → Result A
  err : Error → Result A

abbrev pub Action : Type 0 → Type 0
Action A = Store → Result A × Store

module _ {A : Type 0} where
  abbrev pub pure : A → Action A
  pure a s = (ok a, s)

  abbrev pub raise : Error → Action A
  raise e s = (err e, s)

  abbrev pub gets : (Store → A) → Action A
  gets f s = (ok (f s), s)

  abbrev pub or_raise : Option A → Error → Action A
  or_raise none e s = (err e, s)
  or_raise (some a) e s = (ok a, s)

infixl 5 ◌>>=◌ ◌>>◌
abbrev pub ◌>>=◌ : {A B : Type 0} → Action A → (A → Action B) → Action B
◌>>=◌ m f s = let (r, s') = m s in elim r [ ok a ↦ f a s' | err e ↦ (err e, s') ]

abbrev pub ◌>>◌ : {A B : Type 0} → Action A → Action B → Action B
m >> k = m >>= λ _. k

abbrev pub raise_if : Bool → Error → Action Unit0
raise_if c e s = (if c then err e else ok tt, s)

-- `ctx.Get` of a balance and its decoding: a stored balance always decodes.
abbrev pub get_balance : ℕ → Action Balance
get_balance account s = or_raise (lookup account s.balances) no_sender s

abbrev pub put_balance : Ctx → ℕ → Balance → Action Unit0
put_balance ctx account b s =
    if ctx.put_fails (balance_key account)
    then (err put_failed, s)
    else (ok tt, record s { balances = insert account b s.balances })

abbrev pub put_total_supply : Ctx → ℤ → Action Unit0
put_total_supply ctx total s =
    if ctx.put_fails total_supply_key
    then (err put_failed, s)
    else (ok tt, record s { total_supply = some total })

abbrev pub put_distributed : Ctx → Action Unit0
put_distributed ctx s =
    if ctx.put_fails distributed_key
    then (err put_failed, s)
    else (ok tt, record s { distributed = true })

-- `ctx.AddResourceUsed`, of which only the fee is charged here.
abbrev pub add_resource_used : ℤ → Action Unit0
add_resource_used fee s = (ok tt, record s { fee_used = int64 (s.fee_used +ℤ fee) })

pub Result-cases :
    {A : Type 0} (r : Result A) → ((a : A) × (r ≡ ok a)) ⊎ ((e : Error) × (r ≡ err e))
Result-cases (ok a) = inl (a, refl)
Result-cases (err e) = inr (e, refl)

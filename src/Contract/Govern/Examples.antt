-- ===== src/Contract/Govern/Examples.antt =====
-- The theorems of the govern token contract at concrete calls.
use corechain.Contract.Govern.Ledger.{
  Caller, Ctx, Decimal, LockType, Predistribution, Store, already_initialized, err,
  insufficient_balance, ok,
}
use corechain.Contract.Govern.Refusals.{errors_unchanged}
use corechain.Contract.Govern.{
  KernMethod, Method, distribute, init_govern_tokens, invoke, lock_govern_tokens,
  transfer_govern_tokens, unlock_govern_tokens,
}
use corechain.Contract.Govern.Balances.{sum}
use corechain.Contract.Govern.Transfer.{transfer_conserves, transfer_drops_locks}
use corechain.Contract.Govern.Locks.{unlock-lock}
use corechain.Contract.Govern.Init.{init_once}
use corechain.Contract.Govern.Trace.{IsValid, here, supply_is_sum}
use corechain.Prelude.{List, Option, [], arith, false, none, refl, some, true, ℕ, ◌∷◌, ◌≡◌}
use corechain.Prelude.Int.{pos, quot_ℤ, ℤ, ◌+ℤ◌, ◌-ℤ◌, ◌≤ℤ◌}
use corechain.Prelude.Dict.{lookup}

abbrev amount_of : ℕ → Decimal
amount_of n = record { value = pos n; valid = true }

abbrev genesis_quota : List Predistribution
genesis_quota =
    record { address = 1; quota = amount_of 600 }
    ∷ record { address = 2; quota = amount_of 400 }
    ∷ []

abbrev method : KernMethod
method = record { new_gov_resource_amount = pos 5000; predistribution = genesis_quota }

abbrev call : Option ℕ → Option ℕ → ℕ → Ctx
call to from n = record {
  caller = Caller.proposal;
  initiator = 1;
  fee_limit = pos 100;
  args = record {
    to = to;
    from = from;
    account = none;
    amount = some (amount_of n);
    lock_type = some LockType.ordinary;
  };
  put_fails = λ _. false;
}

abbrev empty_store : Store
empty_store = record { balances = []; total_supply = none; distributed = false; fee_used = pos 0 }

-- Accounts 1 and 2, with 300 of the second locked.
abbrev store : Store
store = record {
  balances =
      (1, record { total_balance = pos 600; locked_ordinary = pos 100; locked_tdpos = pos 0 })
      ∷ (2, record { total_balance = pos 400; locked_ordinary = pos 300; locked_tdpos = pos 0 })
      ∷ [];
  total_supply = some (pos 1000);
  distributed = true;
  fee_used = pos 0;
}

pay : Ctx
pay = call (some 2) none 50

pay_runs : (transfer_govern_tokens method pay store).0 ≡ ok tt
unfolding transfer_govern_tokens pay quot_ℤ ◌-ℤ◌
pay_runs = refl

transfer_conserves_example :
    let s' = (transfer_govern_tokens method pay store).1 in
    (sum s'.balances ≡ sum store.balances)
    × (s'.total_supply ≡ store.total_supply)
    × (s'.distributed ≡ store.distributed)
transfer_conserves_example = transfer_conserves method pay store pay_runs

transfer_drops_locks_example :
    (n : ℤ) × (pos 0 ≤ℤ n)
    × (lookup 2 (transfer_govern_tokens method pay store).1.balances
        ≡ some (record {
          total_balance = n +ℤ pos 400;
          locked_ordinary = pos 0;
          locked_tdpos = pos 0;
        }))
unfolding pay
transfer_drops_locks_example =
    transfer_drops_locks method pay store 2
      (record { total_balance = pos 400; locked_ordinary = pos 300; locked_tdpos = pos 0 }) pay_runs
      refl (omega arith) refl

fix_up : Ctx
fix_up = call none (some 2) 100

fix_up_runs : (lock_govern_tokens method fix_up store).0 ≡ ok tt
unfolding lock_govern_tokens fix_up quot_ℤ ◌-ℤ◌
fix_up_runs = refl

unlock-lock_example :
    let u = unlock_govern_tokens method fix_up (lock_govern_tokens method fix_up store).1 in
    (u.0 ≡ ok tt) × (u.1.balances ≡ store.balances)
unlock-lock_example = unlock-lock method fix_up store fix_up_runs

too_much : Ctx
too_much = call (some 2) none 501

too_much_fails : (invoke Method.transfer method too_much store).0 ≡ err insufficient_balance
unfolding invoke transfer_govern_tokens too_much quot_ℤ ◌-ℤ◌
too_much_fails = refl

errors_unchanged_example : (invoke Method.transfer method too_much store).1 ≡ store
unfolding too_much
errors_unchanged_example =
    errors_unchanged Method.transfer method too_much store insufficient_balance (λ k. refl)
      too_much_fails

abbrev stranger : Ctx
stranger = record (call none (some 2) 10) { caller = Caller.other }

genesis_runs : (init_govern_tokens method pay empty_store).0 ≡ ok tt
unfolding init_govern_tokens distribute pay ◌+ℤ◌
genesis_runs = refl

init_once_example :
    let s' = (init_govern_tokens method pay empty_store).1 in
    init_govern_tokens method fix_up s' ≡ (err already_initialized, s')
init_once_example = init_once method pay fix_up empty_store genesis_runs

supply_is_sum_example : IsValid (init_govern_tokens method pay empty_store).1
supply_is_sum_example =
    supply_is_sum method pay empty_store (init_govern_tokens method pay empty_store).1 refl
      (refl, (refl, tt)) genesis_runs here

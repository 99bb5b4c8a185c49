-- ===== src/Contract/Govern/Refusals.antt =====
-- Refused calls of the govern token contract.
use corechain.Contract.Govern.Ledger.{Ctx, Error, Key, Store, err}
use corechain.Contract.Govern.{
  KernMethod, Method, invoke, lock_govern_tokens, transfer_govern_tokens, unlock_govern_tokens,
}
use corechain.Prelude.{arith, false, ◌≡◌}

abbrev pub NoFault : Ctx → Type 0
NoFault ctx = (k : Key) → ctx.put_fails k ≡ false

-- A transfer, lock or unlock that returns an error leaves the store as it was, when no write
-- fails.
pub errors_unchanged :
    (m : Method) (t : KernMethod) (ctx : Ctx) (s : Store) (e : Error)
    → NoFault ctx
    → (invoke m t ctx s).0 ≡ err e
    → (invoke m t ctx s).1 ≡ s
unfolding invoke transfer_govern_tokens lock_govern_tokens unlock_govern_tokens
errors_unchanged Method.transfer t ctx s e safe h = grind arith
errors_unchanged Method.lock t ctx s e safe h = grind arith
errors_unchanged Method.unlock t ctx s e safe h = grind arith

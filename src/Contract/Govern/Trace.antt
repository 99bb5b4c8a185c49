-- ===== src/Contract/Govern/Trace.antt =====
-- Any sequence of calls of the govern token contract that went through.
use corechain.Contract.Govern.Ledger.{Balance, Ctx, Decimal, LockType, Store, ok}
use corechain.Contract.Govern.{
  KernMethod, init_govern_tokens, lock_govern_tokens, locked, transfer_govern_tokens,
  unlock_govern_tokens,
}
use corechain.Contract.Govern.Balances.{AllSound, sum}
use corechain.Contract.Govern.Transfer.{transfer-AllSound, transfer_conserves}
use corechain.Contract.Govern.Locks.{lock_keeps, unlock_keeps}
use corechain.Contract.Govern.Init.{IsFresh, init_supply}
use corechain.Prelude.{[], ap, some, subst, ℕ, ◌≡◌}
use corechain.Prelude.Int.{pos, ◌≤ℤ◌}
use corechain.Prelude.Dict.{lookup}

-- What the callers of `Lock` and `UnLock` see to: a lock is of an amount that is not negative, and
-- an unlock of no more than what is locked.
pub data Step (t : KernMethod) (s : Store) : Store → Type 0 where
  transferred :
      (ctx : Ctx) {s' : Store} → transfer_govern_tokens t ctx s ≡ (ok tt, s') → Step t s s'
  locked_up :
      (ctx : Ctx) (n : Decimal) {s' : Store}
      → ctx.args.amount ≡ some n
      → pos 0 ≤ℤ n.value
      → lock_govern_tokens t ctx s ≡ (ok tt, s')
      → Step t s s'
  unlocked :
      (ctx : Ctx) (a : ℕ) (n : Decimal) (l : LockType) (b : Balance) {s' : Store}
      → ctx.args.from ≡ some a
      → ctx.args.amount ≡ some n
      → ctx.args.lock_type ≡ some l
      → lookup a s.balances ≡ some b
      → pos 0 ≤ℤ n.value
      → n.value ≤ℤ locked l b
      → unlock_govern_tokens t ctx s ≡ (ok tt, s')
      → Step t s s'

pub data Reach (t : KernMethod) (s : Store) : Store → Type 0 where
  here : Reach t s s
  next : {s' s'' : Store} → Reach t s s' → Step t s' s'' → Reach t s s''

-- The recorded supply is the sum of all balances, and every balance is sound.
pub record IsValid (s : Store) : Type 0 where
  pub supply : s.total_supply ≡ some (sum s.balances)
  pub sound : AllSound s.balances

carry :
    (s s' : Store)
    → IsValid s
    → AllSound s'.balances × (sum s'.balances ≡ sum s.balances) × (s'.total_supply ≡ s.total_supply)
    → IsValid s'
carry s s' v (a, b, c) = record { supply = cc (v.supply, b, c); sound = a }

Step-IsValid : (t : KernMethod) {s s' : Store} → Step t s s' → IsValid s → IsValid s'
Step-IsValid t {s} {s'} (transferred ctx e) v =
    let good = ap (λ r. r.0) e in
    let c = transfer_conserves t ctx s good in
    carry s s' v (
      subst (λ r. AllSound r.1.balances) e (transfer-AllSound t ctx s v.sound good),
      subst (λ r. sum r.1.balances ≡ sum s.balances) e c.0,
      subst (λ r. r.1.total_supply ≡ s.total_supply) e c.1,
    )
Step-IsValid t {s} {s'} (locked_up ctx n en nn e) v =
    let c = lock_keeps t ctx s n (ap (λ r. r.0) e) en nn v.sound in
    carry s s' v (
      subst
        (λ r.
          AllSound r.1.balances
          × (sum r.1.balances ≡ sum s.balances)
          × (r.1.total_supply ≡ s.total_supply))
        e c)
Step-IsValid t {s} {s'} (unlocked ctx a n l b ea en el eb nn le e) v =
    let c = unlock_keeps t ctx s a n l b (ap (λ r. r.0) e) ea en el eb nn le v.sound in
    carry s s' v (
      subst
        (λ r.
          AllSound r.1.balances
          × (sum r.1.balances ≡ sum s.balances)
          × (r.1.total_supply ≡ s.total_supply))
        e c)

Reach-IsValid : (t : KernMethod) {s s' : Store} → IsValid s → Reach t s s' → IsValid s'
Reach-IsValid t v here = v
Reach-IsValid t v (next r st) = Step-IsValid t st (Reach-IsValid t v r)

-- After an initialization on an empty bucket, with no address listed twice, and any calls that
-- went through, where locks are of amounts that are not negative and unlocks within what is
-- locked: the recorded supply is the sum of all balances, and no lock is negative or above its
-- balance.
pub supply_is_sum :
    (t : KernMethod) (ctx : Ctx) (s s' : Store)
    → s.balances ≡ []
    → IsFresh t.predistribution []
    → (init_govern_tokens t ctx s).0 ≡ ok tt
    → Reach t (init_govern_tokens t ctx s).1 s'
    → IsValid s'
supply_is_sum t ctx s s' e f h r =
    let i = init_supply t ctx s e f h in Reach-IsValid t (record { supply = i.0; sound = i.1 }) r

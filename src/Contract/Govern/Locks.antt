-- ===== src/Contract/Govern/Locks.antt =====
-- What a lock and an unlock do to the stored balances.
use corechain.Contract.Govern.Ledger.{Balance, Ctx, Decimal, LockType, Store, balance_key, ok}
use corechain.Contract.Govern.{
  KernMethod, has_authority, is_invalid, lock_govern_tokens, locked, set_locked,
  unlock_govern_tokens,
}
use corechain.Contract.Govern.Balances.{
  AllSound, insert-AllSound, insert-insert, insert_of_lookup, lookup-IsSound, sum, sum-insert,
}
use corechain.Prelude.{==_refl, Option-cases, arith, false, inl, inr, refl, some, true, ℕ, ◌≡◌}
use corechain.Prelude.Int.{int_laws, pos, ℤ, ◌+ℤ◌, ◌-ℤ◌, ◌≤ℤ◌}
use corechain.Prelude.Dict.{insert, lookup, lookup-insert}

-- The parts of a lock or an unlock that went through, which wrote the lock `new`.
pub record Relocked (ctx : Ctx) (s s' : Store) (new : ℤ → ℤ → ℤ) : Type 0 where
  pub account : ℕ
  pub amount : Decimal
  pub lock_type : LockType
  pub before : Balance
  pub of_account : ctx.args.from ≡ some account
  pub of_amount : ctx.args.amount ≡ some amount
  pub of_type : ctx.args.lock_type ≡ some lock_type
  pub valid_type : is_invalid lock_type ≡ false
  pub authority : has_authority ctx.caller ≡ true
  pub writable : ctx.put_fails (balance_key account) ≡ false
  pub stored : lookup account s.balances ≡ some before
  pub written :
      s'.balances
      ≡ insert account
          (set_locked lock_type (new (locked lock_type before) amount.value) before)
          s.balances
  pub supply_kept : (s'.total_supply ≡ s.total_supply) × (s'.distributed ≡ s.distributed)

pub lock_inv :
    (t : KernMethod) (ctx : Ctx) (s : Store)
    → (lock_govern_tokens t ctx s).0 ≡ ok tt
    → (v : Relocked ctx s (lock_govern_tokens t ctx s).1 ◌+ℤ◌) × (locked v.lock_type v.before
          +ℤ v.amount.value
        ≤ℤ v.before.total_balance)
unfolding lock_govern_tokens
lock_inv t ctx s h = elim (Option-cases ctx.args.from) [
  | inl e ↦ absurd (ground arith)
  | inr (a, ea) ↦ elim (Option-cases ctx.args.amount) [
    | inl e ↦ absurd (ground arith)
    | inr (n, en) ↦ elim (Option-cases ctx.args.lock_type) [
      | inl e ↦ absurd (ground arith)
      | inr (l, el) ↦ elim (Option-cases (lookup a s.balances)) [
        | inl e ↦ absurd (ground arith)
        | inr (b, eb) ↦ (
          record {
            account = a;
            amount = n;
            lock_type = l;
            before = b;
            of_account = ea;
            of_amount = en;
            of_type = el;
            valid_type = ground arith;
            authority = ground arith;
            writable = ground arith;
            stored = eb;
            written = ground arith;
            supply_kept = ground arith;
          },
          grind int_laws,
        )
      ]
    ]
  ]
]

pub unlock_inv :
    (t : KernMethod) (ctx : Ctx) (s : Store)
    → (unlock_govern_tokens t ctx s).0 ≡ ok tt
    → Relocked ctx s (unlock_govern_tokens t ctx s).1 ◌-ℤ◌
unfolding unlock_govern_tokens
unlock_inv t ctx s h = elim (Option-cases ctx.args.from) [
  | inl e ↦ absurd (ground arith)
  | inr (a, ea) ↦ elim (Option-cases ctx.args.amount) [
    | inl e ↦ absurd (ground arith)
    | inr (n, en) ↦ elim (Option-cases ctx.args.lock_type) [
      | inl e ↦ absurd (ground arith)
      | inr (l, el) ↦ elim (Option-cases (lookup a s.balances)) [
        | inl e ↦ absurd (ground arith)
        | inr (b, eb) ↦ record {
          account = a;
          amount = n;
          lock_type = l;
          before = b;
          of_account = ea;
          of_amount = en;
          of_type = el;
          valid_type = ground arith;
          authority = ground arith;
          writable = ground arith;
          stored = eb;
          written = ground arith;
          supply_kept = ground arith;
        }
      ]
    ]
  ]
]

add_sub_cancel : (a b : ℤ) → a +ℤ b -ℤ b ≡ a
add_sub_cancel a b = omega int_laws

relock_back :
    (l : LockType) (n : ℤ) (b : Balance)
    → let c = set_locked l (locked l b +ℤ n) b in set_locked l (locked l c -ℤ n) c ≡ b
unfolding set_locked locked
relock_back LockType.ordinary n b = rw (add_sub_cancel b.locked_ordinary n)
relock_back LockType.tdpos n b = rw (add_sub_cancel b.locked_tdpos n)
relock_back LockType.invalid n b = refl

-- Where a balance is stored under the account, an authorized unlock with a known lock type goes
-- through.
unlock_runs :
    (t : KernMethod) (ctx : Ctx) (s : Store) (a : ℕ) (n : Decimal) (l : LockType) (b : Balance)
    → ctx.args.from ≡ some a
    → ctx.args.amount ≡ some n
    → ctx.args.lock_type ≡ some l
    → is_invalid l ≡ false
    → has_authority ctx.caller ≡ true
    → ctx.put_fails (balance_key a) ≡ false
    → lookup a s.balances ≡ some b
    → ((unlock_govern_tokens t ctx s).0 ≡ ok tt)
      × ((unlock_govern_tokens t ctx s).1.balances
          ≡ insert a (set_locked l (locked l b -ℤ n.value) b) s.balances)
unfolding unlock_govern_tokens
unlock_runs t ctx s a n l b ea en el vl au w st = ground arith

-- A lock followed by an unlock in the same context restores all balances.
pub unlock-lock :
    (t : KernMethod) (ctx : Ctx) (s : Store)
    → (lock_govern_tokens t ctx s).0 ≡ ok tt
    → let u = unlock_govern_tokens t ctx (lock_govern_tokens t ctx s).1 in
      (u.0 ≡ ok tt) × (u.1.balances ≡ s.balances)
unlock-lock t ctx s h =
    let v = (lock_inv t ctx s h).0 in
    let s' = (lock_govern_tokens t ctx s).1 in
    let c : Balance =
      set_locked (v.lock_type) (locked (v.lock_type) (v.before) +ℤ v.amount.value) (v.before) in
    let found : lookup (v.account) s'.balances ≡ some c =
      rw (v.written, lookup-insert v.account v.account c s.balances, ==_refl v.account) in
    let run =
      unlock_runs t ctx s' v.account v.amount v.lock_type c v.of_account v.of_amount v.of_type
        v.valid_type v.authority v.writable found in
    (
      run.0,
      rw (run.1, v.written, insert-insert, relock_back)
          (insert_of_lookup v.account v.before s.balances v.stored),
    )

-- A lock that goes through changes no total, and one of an amount that is not negative keeps every
-- stored balance sound.
pub lock_keeps :
    (t : KernMethod) (ctx : Ctx) (s : Store) (n : Decimal)
    → (lock_govern_tokens t ctx s).0 ≡ ok tt
    → ctx.args.amount ≡ some n
    → pos 0 ≤ℤ n.value
    → AllSound s.balances
    → let s' = (lock_govern_tokens t ctx s).1 in
      AllSound s'.balances × (sum s'.balances ≡ sum s.balances) × (s'.total_supply ≡ s.total_supply)
unfolding set_locked locked is_invalid
lock_keeps t ctx s n h en nn sound = go (lock_inv t ctx s h)
  where
    s' : Store
    s' = (lock_govern_tokens t ctx s).1

    go :
        (v : Relocked ctx s s' ◌+ℤ◌) × (locked v.lock_type v.before +ℤ v.amount.value
            ≤ℤ v.before.total_balance)
        → AllSound s'.balances
          × (sum s'.balances ≡ sum s.balances)
          × (s'.total_supply ≡ s.total_supply)
    go (v, fits) =
        let b = lookup-IsSound v.account s.balances sound v.stored in
        let c : Balance =
          set_locked v.lock_type (locked v.lock_type v.before +ℤ v.amount.value) v.before in
        let same : v.amount ≡ n = cc (v.of_amount) in
        (
          rw v.written (
              insert-AllSound v.account c s.balances
                (grind (int_laws, b, same, nn, fits, v.valid_type)) sound),
          rw v.written (grind (int_laws, v.stored, sum-insert v.account c s.balances)),
          v.supply_kept.0,
        )

-- An unlock that goes through changes no total, and one of an amount between zero and what is
-- locked keeps every stored balance sound.
pub unlock_keeps :
    (t : KernMethod) (ctx : Ctx) (s : Store) (a : ℕ) (n : Decimal) (l : LockType) (b : Balance)
    → (unlock_govern_tokens t ctx s).0 ≡ ok tt
    → ctx.args.from ≡ some a
    → ctx.args.amount ≡ some n
    → ctx.args.lock_type ≡ some l
    → lookup a s.balances ≡ some b
    → pos 0 ≤ℤ n.value
    → n.value ≤ℤ locked l b
    → AllSound s.balances
    → let s' = (unlock_govern_tokens t ctx s).1 in
      AllSound s'.balances × (sum s'.balances ≡ sum s.balances) × (s'.total_supply ≡ s.total_supply)
unfolding set_locked locked is_invalid
unlock_keeps t ctx s a n l b h ea en el eb nn le sound = go (unlock_inv t ctx s h)
  where
    s' : Store
    s' = (unlock_govern_tokens t ctx s).1

    go :
        Relocked ctx s s' ◌-ℤ◌
        → AllSound s'.balances
          × (sum s'.balances ≡ sum s.balances)
          × (s'.total_supply ≡ s.total_supply)
    go v =
        let c : Balance =
          set_locked v.lock_type (locked v.lock_type v.before -ℤ v.amount.value) v.before in
        let p = lookup-IsSound v.account s.balances sound v.stored in
        let same_n : v.amount ≡ n = cc (v.of_amount) in
        let same_l : v.lock_type ≡ l = cc (v.of_type) in
        let same_a : v.account ≡ a = cc (v.of_account) in
        let same_b : v.before ≡ b = cc (v.stored, same_a) in
        (
          rw v.written (
              insert-AllSound v.account c s.balances
                (grind (int_laws, p, same_n, same_l, same_b, nn, le, v.valid_type)) sound),
          rw v.written (grind (int_laws, v.stored, sum-insert v.account c s.balances)),
          v.supply_kept.0,
        )

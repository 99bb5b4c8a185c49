-- ===== src/Contract/Govern/Transfer.antt =====
-- What each method of the govern token contract does to the balances.
use corechain.Contract.Govern.Balances.{
  AllSound, IsSound, insert-AllSound, insert_of_lookup, lookup-IsSound, sum, sum-insert,
}
use corechain.Prelude.{
  Bool-cases, Option-cases, ap, arith, if◌then◌else◌, inl, inr, some, true, ℕ, ◌==◌, ◌≡◌, ◌≢◌,
}
use corechain.Prelude.Int.{int_laws, pos, ℤ, ◌+ℤ◌, ◌-ℤ◌, ◌≤ℤ◌}
use corechain.Prelude.Dict.{Dict, insert, lookup, lookup-insert}
use corechain.Contract.Govern.{
  Balance, Ctx, KernMethod, Store, ok, received, transfer_govern_tokens,
}

-- The parts of a transfer that went through.
pub record Transferred (ctx : Ctx) (s s' : Store) : Type 0 where
  pub receiver : ℕ
  pub amount : ℤ
  pub before : Balance
  pub to_receiver : ctx.args.to ≡ some receiver
  pub of_amount : ctx.args.amount ≡ some (record { value = amount; valid = true })
  pub nonneg : pos 0 ≤ℤ amount
  pub stored : lookup ctx.initiator s.balances ≡ some before
  pub covers :
      (amount +ℤ before.locked_ordinary ≤ℤ before.total_balance)
      × (amount +ℤ before.locked_tdpos ≤ℤ before.total_balance)
  pub written : s'.balances ≡ (
      if receiver == ctx.initiator
      then insert ctx.initiator before s.balances
      else insert receiver (received amount (lookup receiver s.balances)) (
          insert ctx.initiator
            (record before { total_balance = before.total_balance -ℤ amount })
            s.balances))
  pub supply_kept : (s'.total_supply ≡ s.total_supply) × (s'.distributed ≡ s.distributed)

pub transfer_inv :
    (t : KernMethod) (ctx : Ctx) (s : Store)
    → (transfer_govern_tokens t ctx s).0 ≡ ok tt
    → Transferred ctx s (transfer_govern_tokens t ctx s).1
unfolding transfer_govern_tokens
transfer_inv t ctx s h = elim (Option-cases ctx.args.to) [
  | inl e ↦ absurd (ground arith)
  | inr (r, er) ↦ elim (Option-cases ctx.args.amount) [
    | inl e ↦ absurd (ground arith)
    | inr (a, ea) ↦ elim (Option-cases (lookup ctx.initiator s.balances)) [
      | inl e ↦ absurd (ground arith)
      | inr (b, eb) ↦ record {
        receiver = r;
        amount = a.value;
        before = b;
        to_receiver = er;
        of_amount = ground arith;
        nonneg = ground arith;
        stored = eb;
        covers = grind int_laws;
        written = ground arith;
        supply_kept = ground arith;
      }
    ]
  ]
]

-- A transfer that goes through leaves the sum of all balances, the recorded supply and the flag
-- of the distribution as they were.
pub transfer_conserves :
    (t : KernMethod) (ctx : Ctx) (s : Store)
    → (transfer_govern_tokens t ctx s).0 ≡ ok tt
    → let s' = (transfer_govern_tokens t ctx s).1 in
      (sum s'.balances ≡ sum s.balances)
      × (s'.total_supply ≡ s.total_supply)
      × (s'.distributed ≡ s.distributed)
unfolding received
transfer_conserves t ctx s h = (kept, v.supply_kept.0, v.supply_kept.1)
  where
    v : Transferred ctx s (transfer_govern_tokens t ctx s).1
    v = transfer_inv t ctx s h

    left : Balance
    left = record (v.before) { total_balance = v.before.total_balance -ℤ v.amount }

    kept : sum (transfer_govern_tokens t ctx s).1.balances ≡ sum s.balances
    kept = elim (Bool-cases (v.receiver == ctx.initiator)) [
      | inl own ↦
          rw (v.written, own) (ap sum (insert_of_lookup ctx.initiator v.before s.balances v.stored))
      | inr away ↦
          rw (v.written, away)
            (grind (
              int_laws,
              v.stored,
              sum-insert ctx.initiator left s.balances,
              sum-insert v.receiver (received v.amount (lookup v.receiver s.balances))
                  (insert ctx.initiator left s.balances),
              lookup-insert ctx.initiator v.receiver left s.balances,
            ))
    ]

-- A transfer that goes through to another account takes the amount from the sender, who keeps its
-- locks and has at least the amount free of each lock, and adds it to the receiver; no third
-- account changes.
pub transfer_moves :
    (t : KernMethod) (ctx : Ctx) (s : Store)
    → (transfer_govern_tokens t ctx s).0 ≡ ok tt
    → (v : Transferred ctx s (transfer_govern_tokens t ctx s).1) × ((j : ℕ)
        → lookup j (transfer_govern_tokens t ctx s).1.balances ≡ (
            if v.receiver == ctx.initiator
            then lookup j s.balances
            else if v.receiver == j
            then some (received v.amount (lookup j s.balances))
            else if ctx.initiator == j
            then some (record (v.before) { total_balance = v.before.total_balance -ℤ v.amount })
            else lookup j s.balances))
transfer_moves t ctx s h = (transfer_inv t ctx s h, moved (transfer_inv t ctx s h))
  where
    moved :
        (v : Transferred ctx s (transfer_govern_tokens t ctx s).1) (j : ℕ)
        → lookup j (transfer_govern_tokens t ctx s).1.balances ≡ (
            if v.receiver == ctx.initiator
            then lookup j s.balances
            else if v.receiver == j
            then some (received v.amount (lookup j s.balances))
            else if ctx.initiator == j
            then some (record (v.before) { total_balance = v.before.total_balance -ℤ v.amount })
            else lookup j s.balances)
    moved v j = rw v.written (grind (arith, v.stored, lookup-insert, insert_of_lookup))

-- A transfer that goes through to another account that is stored leaves the receiver's record with
-- the new total and both locks at zero, whatever was locked in it.
pub transfer_drops_locks :
    (t : KernMethod) (ctx : Ctx) (s : Store) (r : ℕ) (old : Balance)
    → (transfer_govern_tokens t ctx s).0 ≡ ok tt
    → ctx.args.to ≡ some r
    → r ≢ ctx.initiator
    → lookup r s.balances ≡ some old
    → (n : ℤ) × (pos 0 ≤ℤ n)
      × (lookup r (transfer_govern_tokens t ctx s).1.balances
          ≡ some (record {
            total_balance = n +ℤ old.total_balance;
            locked_ordinary = pos 0;
            locked_tdpos = pos 0;
          }))
unfolding received
transfer_drops_locks t ctx s r old h er ne eo =
    let v = transfer_inv t ctx s h in
    (v.amount, v.nonneg, rw v.written (grind (arith, v.to_receiver, lookup-insert)))

received-IsSound :
    (n : ℤ) (k : ℕ) (d : Dict Balance) → pos 0 ≤ℤ n → AllSound d → IsSound (received n (lookup k d))
unfolding received
received-IsSound n k d h sound = elim (Option-cases (lookup k d)) [
  | inl e ↦ rw e (grind int_laws)
  | inr (b, e) ↦ rw e (grind (int_laws, lookup-IsSound k d sound e))
]

spent-IsSound :
    (n : ℤ) (b : Balance)
    → IsSound b
    → (n +ℤ b.locked_ordinary ≤ℤ b.total_balance) × (n +ℤ b.locked_tdpos ≤ℤ b.total_balance)
    → IsSound (record b { total_balance = b.total_balance -ℤ n })
spent-IsSound n b h c = omega int_laws

-- A transfer that goes through keeps every stored balance sound.
pub transfer-AllSound :
    (t : KernMethod) (ctx : Ctx) (s : Store)
    → AllSound s.balances
    → (transfer_govern_tokens t ctx s).0 ≡ ok tt
    → AllSound (transfer_govern_tokens t ctx s).1.balances
transfer-AllSound t ctx s sound h = go (transfer_inv t ctx s h)
  where
    go :
        Transferred ctx s (transfer_govern_tokens t ctx s).1
        → AllSound (transfer_govern_tokens t ctx s).1.balances
    go v =
        let b = lookup-IsSound ctx.initiator s.balances sound v.stored in
        let left = record (v.before) { total_balance = v.before.total_balance -ℤ v.amount } in
        elim (Bool-cases (v.receiver == ctx.initiator)) [
          | inl own ↦
              rw (v.written, own) (insert-AllSound ctx.initiator v.before s.balances b sound)
          | inr away ↦
              rw (v.written, away)
                (insert-AllSound v.receiver (received v.amount (lookup v.receiver s.balances))
                  (insert ctx.initiator left s.balances)
                  (received-IsSound v.amount v.receiver s.balances v.nonneg sound)
                  (insert-AllSound ctx.initiator left s.balances
                    (spent-IsSound v.amount v.before b v.covers) sound))
        ]

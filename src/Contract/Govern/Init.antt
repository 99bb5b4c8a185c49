-- ===== src/Contract/Govern/Init.antt =====
-- The distribution of the tokens at genesis.
use corechain.Contract.Govern.Ledger.{
  Balance, Ctx, Predistribution, Result-cases, Store, already_initialized, err, new_balance, ok,
}
use corechain.Contract.Govern.{KernMethod, distribute, init_govern_tokens}
use corechain.Contract.Govern.Balances.{AllSound, insert-AllSound, sum, sum-insert}
use corechain.Prelude.{List, [], ap, arith, inl, inr, none, refl, some, true, ◌∷◌, ◌≡◌}
use corechain.Prelude.Int.{int_laws, neg_part, pos, pos_part, ℤ, ◌+ℤ◌, ◌≤ℤ◌}
use corechain.Prelude.Dict.{Dict, insert, lookup}

-- No address of the list is stored yet, and none stands in it twice.
abbrev pub IsFresh : List Predistribution → Dict Balance → Type 0
IsFresh [] d = Unit {0}
IsFresh (p ∷ ps) d =
    (lookup p.address d ≡ none)
    × IsFresh ps (insert p.address (record new_balance { total_balance = p.quota.value }) d)

-- One round of the loop that goes on.
distribute_step :
    (ctx : Ctx) (p : Predistribution) (ps : List Predistribution) (total n : ℤ) (s : Store)
    → (distribute ctx (p ∷ ps) total s).0 ≡ ok n
    → let b = record new_balance { total_balance = p.quota.value } in
      (pos 0 ≤ℤ p.quota.value)
      × (distribute ctx (p ∷ ps) total s
          ≡ distribute ctx ps
              (total +ℤ p.quota.value)
              (record s { balances = insert p.address b s.balances }))
unfolding distribute
distribute_step ctx p ps total n s h = ground arith

regroup : (n sd q t x si : ℤ) → n +ℤ si ≡ t +ℤ q +ℤ x → si +ℤ pos 0 ≡ sd +ℤ q → n +ℤ sd ≡ t +ℤ x
regroup n sd q t x si h k =
    omega (int_laws, ap pos_part h, ap neg_part h, ap pos_part k, ap neg_part k)

distribute_lem :
    (ctx : Ctx) (ps : List Predistribution) (total n : ℤ) (s : Store)
    → IsFresh ps s.balances
    → AllSound s.balances
    → (distribute ctx ps total s).0 ≡ ok n
    → let s' = (distribute ctx ps total s).1 in
      (n +ℤ sum s.balances ≡ total +ℤ sum s'.balances)
      × AllSound s'.balances
      × (s'.distributed ≡ s.distributed)
distribute_lem ctx [] total n s f sound h = unfold distribute in (ground arith, sound, refl)
distribute_lem ctx (p ∷ ps) total n s f sound h =
    let b = record new_balance { total_balance = p.quota.value } in
    let s1 = record s { balances = insert p.address b s.balances } in
    let (nonneg, same) = distribute_step ctx p ps total n s h in
    let rest =
      distribute_lem ctx ps (total +ℤ p.quota.value) n s1 f.1
        (insert-AllSound p.address b s.balances (omega int_laws) sound) (rw same at h) in
    rw same (
      regroup n (sum s.balances) p.quota.value total _ (sum s1.balances) rest.0
          (rw f.0 at (sum-insert p.address b s.balances)),
      rest.1,
      rest.2,
    )

closed : (n x : ℤ) → n +ℤ pos 0 ≡ pos 0 +ℤ x → n ≡ x
closed n x h = omega (int_laws, ap pos_part h, ap neg_part h)

-- An initialization that goes through on an empty bucket, with no address listed twice, records
-- as total supply the sum of the balances that it writes, all of them sound.
pub init_supply :
    (t : KernMethod) (ctx : Ctx) (s : Store)
    → s.balances ≡ []
    → IsFresh t.predistribution []
    → (init_govern_tokens t ctx s).0 ≡ ok tt
    → let s' = (init_govern_tokens t ctx s).1 in
      (s'.total_supply ≡ some (sum s'.balances)) × AllSound s'.balances × (s'.distributed ≡ true)
unfolding init_govern_tokens
init_supply t ctx s e f h = elim (Result-cases (distribute ctx t.predistribution (pos 0) s).0) [
  | inr (x, bad) ↦ absurd (ground arith)
  | inl (n, good) ↦
      let fresh : IsFresh t.predistribution s.balances = rw e f in
      let start : AllSound s.balances = rw e tt in
      let d = distribute_lem ctx t.predistribution (pos 0) n s fresh start good in
      let empty : sum s.balances ≡ pos 0 = rw e in
      let total : n ≡ sum (distribute ctx t.predistribution (pos 0) s).1.balances =
        closed n _ (rw empty at (d.0)) in
      ground (arith, d.1, total)
]

-- Once the tokens are distributed every further initialization is refused and changes nothing.
pub init_once :
    (t : KernMethod) (ctx ctx' : Ctx) (s : Store)
    → (init_govern_tokens t ctx s).0 ≡ ok tt
    → let s' = (init_govern_tokens t ctx s).1 in
      init_govern_tokens t ctx' s' ≡ (err already_initialized, s')
unfolding init_govern_tokens
init_once t ctx ctx' s h = ground arith

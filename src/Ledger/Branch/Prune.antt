-- ===== src/Ledger/Branch/Prune.antt =====
-- The second loop of `HandleFork` does not move along the branch.
use corechain.Ledger.Store.{
  Action, Block, Ledger, bind_ok, correct_txs_blockid, fetch_block, header, ok, out_of_fuel,
  save_block, ◌>>◌,
}
use corechain.Ledger.Fork.Split.{fetch_lem, on, save_lem}
use corechain.Ledger.Branch.{join_trunk}
use corechain.Prelude.{==_refl, Option, arith, false, refl, some, suc, zero, ℕ, ◌==◌, ◌∙◌, ◌≡◌, ◌≢◌}

correct_disk :
    (i : ℕ) (s s' : Ledger)
    → s'.disk ≡ s.disk
    → ((correct_txs_blockid i s').0 ≡ (correct_txs_blockid i s).0)
      × ((correct_txs_blockid i s').1.disk ≡ s.disk)
unfolding correct_txs_blockid
correct_disk i s s' h = (ground arith, ground arith)

save_disk : (b : Block) (s : Ledger) → (save_block b s).1.disk ≡ s.disk
unfolding save_block
save_disk b s = ground arith

-- One round at a block that is not the common parent leads to the same block again.
join_round :
    (fuel i c : ℕ) (next : Option ℕ) (s : Ledger) (b : Block)
    → i ≢ c
    → header s i ≡ some b
    → b.id ≡ i
    → (correct_txs_blockid i s).0 ≡ ok tt
    → (s' : Ledger) × (join_trunk (suc fuel) (some i) c next s
        ≡ join_trunk fuel (some i) c (some i) s')
      × (header s' i ≡ some (on b next))
      × (s'.disk ≡ s.disk)
unfolding join_trunk
join_round fuel i c next s b ne h ib good = (s3, whole, found, same)
  where
    s1 : Ledger
    s1 = (fetch_block (some i) s).1

    s2 : Ledger
    s2 = (correct_txs_blockid b.id s1).1

    s3 : Ledger
    s3 = (save_block (on b next) s2).1

    d1 : s1.disk ≡ s.disk
    d1 = (fetch_lem i b s h).2

    again : Block → Action Unit
    again x = join_trunk fuel (some x.id) c (some x.id)

    rest : Block → Action Unit
    rest x = save_block (on x next) >> again x

    fixed : (correct_txs_blockid b.id s1).0 ≡ ok tt
    fixed = (correct_disk b.id s s1 d1).0 ∙ rw ib good

    apart : (i == c) ≡ false
    apart = ground arith

    whole : join_trunk (suc fuel) (some i) c next s ≡ join_trunk fuel (some i) c (some i) s3
    whole =
        rw (apart, join_trunk)
          (bind_ok (fetch_block (some i)) (λ x. correct_txs_blockid x.id >> rest x) s b
              (fetch_lem i b s h).0
            ∙ bind_ok (correct_txs_blockid b.id) (λ _. rest b) s1 tt fixed
            ∙ bind_ok (save_block (on b next)) (λ _. again b) s2 tt (save_lem (on b next) s2).0
            ∙ rw ib)

    found : header s3 i ≡ some (on b next)
    found = (save_lem (on b next) s2).1 i ∙ rw (ib, ==_refl i)

    same : s3.disk ≡ s.disk
    same = save_disk (on b next) s2 ∙ (correct_disk b.id s s1 d1).1

-- From a stored block that is not the common parent, and whose transactions are stored, the second
-- loop of `HandleFork` does not end in any number of rounds.
pub join_trunk_diverges :
    (fuel i c : ℕ) (next : Option ℕ) (s : Ledger) (b : Block)
    → i ≢ c
    → header s i ≡ some b
    → b.id ≡ i
    → (correct_txs_blockid i s).0 ≡ ok tt
    → (join_trunk fuel (some i) c next s).0 ≡ out_of_fuel
join_trunk_diverges zero i c next s b ne h ib good = unfold join_trunk in refl
join_trunk_diverges (suc fuel) i c next s b ne h ib good =
    let (s', e, h', d) = join_round fuel i c next s b ne h ib good in
    rw e (
      join_trunk_diverges fuel i c (some i) s' (on b next) ne h' ib
        ((correct_disk i s s' d).0 ∙ good))

-- ===== src/Ledger/Fork/Split.antt =====
-- The steps of `handleFork` on the headers that reads find, and the walk of the two sides.
use corechain.Prelude.{
  Option, arith, false, if◌then◌else◌, inl, inr, none, refl, some, true, ℕ, ◌==◌, ◌∙◌, ◌≡◌, ◌≢◌,
}
use corechain.Prelude.Dict.{lookup-insert}
use corechain.Ledger.Store.{
  Action, Block, Ledger, Outcome-cases, bind_err, bind_ok, correct_txs_blockid, err, fetch_block,
  header, ok, out_of_fuel, pure, save_block, ◌>>=◌, ◌>>◌,
}
use corechain.Ledger.Fork.{fork_end, fork_step}

-- Each header that is found carries the identifier under which it is found.
abbrev pub IsFiled : Ledger → Type 0
IsFiled s = (i : ℕ) (b : Block) → header s i ≡ some b → b.id ≡ i

pub fetch_lem :
    (i : ℕ) (b : Block) (s : Ledger)
    → header s i ≡ some b
    → ((fetch_block (some i) s).0 ≡ ok b)
      × ((j : ℕ) → header (fetch_block (some i) s).1 j ≡ header s j)
      × ((fetch_block (some i) s).1.disk ≡ s.disk)
unfolding fetch_block
fetch_lem i b s h = (ground arith, λ j. ground (arith, lookup-insert i j b s.cache), ground arith)

correct_lem :
    (i : ℕ) (s : Ledger)
    → ((correct_txs_blockid i s).0 ≢ out_of_fuel)
      × ((j : ℕ) → header (correct_txs_blockid i s).1 j ≡ header s j)
unfolding correct_txs_blockid
correct_lem i s = (ground arith, λ j. ground arith)

pub save_lem :
    (b : Block) (s : Ledger)
    → ((save_block b s).0 ≡ ok tt)
      × ((j : ℕ) → header (save_block b s).1 j ≡ (if b.id == j then some b else header s j))
unfolding save_block
save_lem b s = (refl, λ j. ground (arith, lookup-insert b.id j b s.cache))

abbrev pub off : Block → Block
off a = record a { in_trunk = false; next = none }

abbrev pub on : Block → Option ℕ → Block
on b next = record b { in_trunk = true; next = next }

-- What one round of the loop leaves of the headers.
pub fork_step_lem :
    (p q : ℕ) (next : Option ℕ) (a b : Block) (s : Ledger)
    → header s p ≡ some a
    → header s q ≡ some b
    → a.id ≡ p
    → b.id ≡ q
    → p ≢ q
    → let (r, s') = fork_step (some p) (some q) next s in
      (r ≢ out_of_fuel)
      × ((x : Option ℕ × Option ℕ)
          → r ≡ ok x
          → (x ≡ (a.pre, b.pre))
            × ((j : ℕ)
                → header s' j ≡ (
                    if q == j
                    then some (on b next)
                    else if p == j
                    then some (off a)
                    else header s j)))
unfolding fork_step
fork_step_lem p q next a b s ha hb ia ib ne = elim (Outcome-cases (correct_txs_blockid b.id s2).0) [
  | inl (_, good) ↦
      let two = bind_ok (save_block (off a)) (λ _. save_block (on b next) >> last) s3 tt g1 in
      let three = bind_ok (save_block (on b next)) (λ _. last) s4 tt g2 in
      let whole : fork_step (some p) (some q) next s ≡ (ok (a.pre, b.pre), s5) =
        start ∙ bind_ok (correct_txs_blockid b.id) (λ _. saves) s2 tt good ∙ two ∙ three in
      rw whole (λ x. cc, λ x h. (cc, λ j. rw (put2 j, put1 j, kept j, ia, ib)))
  | inr (inl (e, bad)) ↦
      let whole : fork_step (some p) (some q) next s ≡ (err e, s3) =
        start ∙ bind_err (correct_txs_blockid b.id) (λ _. saves) s2 e bad in
      rw whole (λ x. cc, λ x h. absurd (cc))
  | inr (inr never) ↦ absurd ((correct_lem b.id s2).0 never)
]
  where
    s1 : Ledger
    s1 = (fetch_block (some p) s).1

    s2 : Ledger
    s2 = (fetch_block (some q) s1).1

    s3 : Ledger
    s3 = (correct_txs_blockid b.id s2).1

    s4 : Ledger
    s4 = (save_block (off a) s3).1

    s5 : Ledger
    s5 = (save_block (on b next) s4).1

    last : Action (Option ℕ × Option ℕ)
    last = pure (a.pre, b.pre)

    saves : Action (Option ℕ × Option ℕ)
    saves = save_block (off a) >> (save_block (on b next) >> last)

    hb1 : header s1 q ≡ some b
    hb1 = (fetch_lem p a s ha).1 q ∙ hb

    g1 : (save_block (off a) s3).0 ≡ ok tt
    g1 = (save_lem (off a) s3).0

    g2 : (save_block (on b next) s4).0 ≡ ok tt
    g2 = (save_lem (on b next) s4).0

    put1 : (j : ℕ) → header s4 j ≡ (if a.id == j then some (off a) else header s3 j)
    put1 = (save_lem (off a) s3).1

    put2 : (j : ℕ) → header s5 j ≡ (if b.id == j then some (on b next) else header s4 j)
    put2 = (save_lem (on b next) s4).1

    kept : (j : ℕ) → header s3 j ≡ header s j
    kept j = (correct_lem b.id s2).1 j ∙ (fetch_lem q b s1 hb1).1 j ∙ (fetch_lem p a s ha).1 j

    tail : Block → Block → Action (Option ℕ × Option ℕ)
    tail x y =
        correct_txs_blockid y.id
        >> (save_block (off x) >> (save_block (on y next) >> pure (x.pre, y.pre)))

    start : fork_step (some p) (some q) next s ≡ (correct_txs_blockid b.id >> saves) s2
    start =
        bind_ok (fetch_block (some p)) (λ x. fetch_block (some q) >>= tail x) s a
          (fetch_lem p a s ha).0
        ∙ bind_ok (fetch_block (some q)) (tail a) s1 b (fetch_lem q b s1 hb1).0

pub fork_end_lem :
    (q : ℕ) (next : Option ℕ) (b : Block) (s : Ledger)
    → header s q ≡ some b
    → b.id ≡ q
    → let (r, s') = fork_end (some q) next s in
      (r ≡ ok (on b next))
      × ((j : ℕ) → header s' j ≡ (if q == j then some (on b next) else header s j))
unfolding fork_end
fork_end_lem q next b s hb ib =
    let (f, keep, _) = fetch_lem q b s hb in
    let s1 = (fetch_block (some q) s).1 in
    let (g, put) = save_lem (on b next) s1 in
    let rest = λ (b : Block). save_block (on b next) >> pure (on b next) in
    let e : fork_end (some q) next s ≡ (ok (on b next), (save_block (on b next) s1).1) =
      bind_ok (fetch_block (some q)) rest s b f
      ∙ bind_ok (save_block (on b next)) (λ _. pure (on b next)) s1 tt g in
    rw e (refl, λ j. rw (put j, keep j, ib))

-- ===== src/Ledger/Fork/Switch.antt =====
-- `handleFork` ends, at the lowest common ancestor, and switches exactly the blocks above it.
use corechain.Ledger.Fork.Round.{extended}
use corechain.Ledger.Tree.{IsTree, Link}
use corechain.Ledger.Store.{
  Block, Error, Ledger, Outcome, Outcome-cases, bind_err, bind_ok, err, header, link_of, links, ok,
  out_of_fuel,
}
use corechain.Ledger.Fork.{fork_end, fork_step, handle_fork}
use corechain.Ledger.Fork.Split.{IsFiled, fork_end_lem, fork_step_lem, off, on}
use corechain.Ledger.Fork.Walk.{
  Switched, both_parents, header_of_link, link_of-header, met, same_links_of,
}
use corechain.Prelude.{
  ==_iff, Bool-cases, Option, ap, arith, false, if◌then◌else◌, inl, inr, some, subst, suc, sym,
  true, zero, ℕ, ◌<◌, ◌==◌, ◌∙◌, ◌≡◌, ◌≢◌,
}

step-IsFiled :
    (p q : ℕ) (next : Option ℕ) (a b : Block) (s s1 : Ledger)
    → a.id ≡ p
    → b.id ≡ q
    → IsFiled s
    → ((j : ℕ)
        → header s1 j
          ≡ (if q == j then some (on b next) else if p == j then some (off a) else header s j))
    → IsFiled s1
step-IsFiled p q next a b s s1 ia ib f w i x h = ground (arith, w i, f i x)

-- The two outcomes of the loop: an error, or a switch.
abbrev Ends : Ledger → ℕ → ℕ → Outcome Block × Ledger → Type 0
Ends s p q o = (o.0 ≢ out_of_fuel) × ((c : Block) → o.0 ≡ ok c → Switched s o.1 p q c)

meeting :
    (fuel p q : ℕ) (next : Option ℕ) (b : Block) (s : Ledger)
    → header s q ≡ some b
    → b.id ≡ q
    → (p == q) ≡ true
    → Ends s p q (handle_fork (suc fuel) (some p) (some q) next s)
unfolding handle_fork
meeting fuel p q next b s hb ib eq =
    let e : handle_fork (suc fuel) (some p) (some q) next s ≡ fork_end (some q) next s =
      rw (eq, handle_fork) in
    let (r, w) = fork_end_lem q next b s hb ib in
    rw e (
      λ x. cc (r, x),
      λ c h.
          subst (Switched s (fork_end (some q) next s).1 p q) (cc (r, h))
            (met p q next b s hb ib ((==_iff p q).0 eq)),
    )

-- The loop goes on with the parents, or stops with the error of the round.
going_on :
    (fuel p q : ℕ) (next : Option ℕ) (s : Ledger) (x : Option ℕ × Option ℕ)
    → (p == q) ≡ false
    → (fork_step (some p) (some q) next s).0 ≡ ok x
    → handle_fork (suc fuel) (some p) (some q) next s
      ≡ handle_fork fuel x.0 x.1 (some q) (fork_step (some p) (some q) next s).1
unfolding handle_fork
going_on fuel p q next s x ne h =
    rw (ne, handle_fork)
      (bind_ok (fork_step (some p) (some q) next) (λ (p', q'). handle_fork fuel p' q' (some q)) s x
        h)

stopping :
    (fuel p q : ℕ) (next : Option ℕ) (s : Ledger) (e : Error)
    → (p == q) ≡ false
    → (fork_step (some p) (some q) next s).0 ≡ err e
    → handle_fork (suc fuel) (some p) (some q) next s
      ≡ (err e, (fork_step (some p) (some q) next s).1)
unfolding handle_fork
stopping fuel p q next s e ne h =
    rw (ne, handle_fork)
      (bind_err (fork_step (some p) (some q) next) (λ (p', q'). handle_fork fuel p' q' (some q)) s e
        h)

walk :
    (fuel p q : ℕ) (next : Option ℕ) (s : Ledger) (a b : Block)
    → IsFiled s
    → IsTree (links s)
    → header s p ≡ some a
    → header s q ≡ some b
    → a.height ≡ b.height
    → a.height < fuel
    → Ends s p q (handle_fork fuel (some p) (some q) next s)
walk zero p q next s a b f t ha hb same lt = absurd (omega arith)
walk (suc fuel) p q next s a b f t ha hb same lt = elim (Bool-cases (p == q)) [
  | inl eq ↦ meeting fuel p q next b s hb (f q b hb) eq
  | inr no_eq ↦
      let ne : p ≢ q = λ e. cc (no_eq, (==_iff p q).1 e) in
      let la = link_of-header s p a ha in
      let lb = link_of-header s q b hb in
      let (p', q', ep, eq) = both_parents (links s) t p q (link_of a) (link_of b) la lb same ne in
      let s1 = (fork_step (some p) (some q) next s).1 in
      let (total, good) = fork_step_lem p q next a b s ha hb (f p a ha) (f q b hb) ne in
      elim (Outcome-cases (fork_step (some p) (some q) next s).0) [
        | inl (x, ex) ↦
            let (shape, w) = good x ex in
            let kept = same_links_of p q next a b s s1 ha hb w in
            let (c, hc, up_p) = t.parent p (link_of a) p' la ep in
            let (d, hd, up_q) = t.parent q (link_of b) q' lb eq in
            let t1 : IsTree (links s1) = subst IsTree (sym kept) t in
            let (c', hc', kc) = header_of_link s1 p' c (rw kept hc) in
            let (d', hd', kd) = header_of_link s1 q' d (rw kept hd) in
            let f1 = step-IsFiled p q next a b s s1 (f p a ha) (f q b hb) f w in
            let hh : c'.height ≡ d'.height =
              omega (arith, ap (λ (z : Link). z.height) kc, ap (λ (z : Link). z.height) kd) in
            let lo : c'.height < fuel = omega (arith, ap (λ (z : Link). z.height) kc) in
            let (never, done) = walk fuel p' q' (some q) s1 c' d' f1 t1 hc' hd' hh lo in
            let e : handle_fork (suc fuel) (some p) (some q) next s
                ≡ handle_fork fuel (some p') (some q') (some q) s1 =
              going_on fuel p q next s x no_eq ex ∙ rw (shape, ep, eq) in
            rw e (
              never,
              λ z h. extended p q next a b s s1 _ p' q' z ha hb ep eq same ne t w (done z h),
            )
        | inr (inl (x, ex)) ↦ rw (stopping fuel p q next s x no_eq ex) (λ y. cc, λ z h. absurd (cc))
        | inr (inr never) ↦ absurd (total never)
      ]
]

-- On a block tree with one root, `handleFork` from two stored blocks of one height ends within as
-- many rounds as that height and one more, whatever the transactions are.
pub handle_fork_ends :
    (fuel p q : ℕ) (next : Option ℕ) (s : Ledger) (a b : Block)
    → IsFiled s
    → IsTree (links s)
    → header s p ≡ some a
    → header s q ≡ some b
    → a.height ≡ b.height
    → a.height < fuel
    → (handle_fork fuel (some p) (some q) next s).0 ≢ out_of_fuel
handle_fork_ends fuel p q next s a b f t ha hb same lt =
    (walk fuel p q next s a b f t ha hb same lt).0

-- On a block tree with one root, where `handleFork` from two stored blocks of one height succeeds
-- within more rounds than that height, the block that it returns is the lowest common ancestor of
-- both sides and is on the trunk; all blocks of the new side above it are on the trunk; all blocks
-- of the old side above it are off the trunk and have no next block; every other header is
-- as it was, also those of the blocks below the common ancestor; and no block changes its parent or
-- height.
pub handle_fork_switches :
    (fuel p q : ℕ) (next : Option ℕ) (s : Ledger) (a b c : Block)
    → IsFiled s
    → IsTree (links s)
    → header s p ≡ some a
    → header s q ≡ some b
    → a.height ≡ b.height
    → a.height < fuel
    → (handle_fork fuel (some p) (some q) next s).0 ≡ ok c
    → Switched s (handle_fork fuel (some p) (some q) next s).1 p q c
handle_fork_switches fuel p q next s a b c f t ha hb same lt h =
    (walk fuel p q next s a b f t ha hb same lt).1 c h

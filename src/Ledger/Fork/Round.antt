-- ===== src/Ledger/Fork/Round.antt =====
-- One round of `handleFork` in front of a switch of the two parents.
use corechain.Ledger.Tree.{
  Ancestor, Ancestor-parent, IsSplit, IsSplit-up_both, IsTree, Link, self, up,
}
use corechain.Ledger.Store.{Block, Ledger, header, link_of, links}
use corechain.Ledger.Fork.Split.{off, on}
use corechain.Ledger.Fork.Walk.{Switched, link_of-header, not_above, same_links_of}
use corechain.Prelude.{
  ==_iff, ==_refl, Bool-cases, Option, arith, if◌then◌else◌, inl, inr, refl, some, subst, sym, ℕ,
  ◌==◌, ◌∙◌, ◌≡◌, ◌≢◌,
}

-- One round before a switch of the parents is a switch.
module _ (p q : ℕ) (next : Option ℕ) (a b : Block) (s s1 s' : Ledger) (p' q' : ℕ) (c : Block)
    (ha : header s p ≡ some a) (hb : header s q ≡ some b) (hp : a.pre ≡ some p')
    (hq : b.pre ≡ some q') (same : a.height ≡ b.height) (ne : p ≢ q) (t : IsTree (links s))
    (w : (j : ℕ)
      → header s1 j
        ≡ (if q == j then some (on b next) else if p == j then some (off a) else header s j))
    (rest : Switched s1 s' p' q' c) where
  la : links s p ≡ some (link_of a)
  la = link_of-header s p a ha

  lb : links s q ≡ some (link_of b)
  lb = link_of-header s q b hb

  kept : links s1 ≡ links s
  kept = same_links_of p q next a b s s1 ha hb w

  below_p :
      (e : ℕ) (n : Link) → links s e ≡ some n → n.height ≡ a.height → ¬ Ancestor (links s) e p'
  below_p e n hn hh =
      let (x, hx, step) = t.parent p (link_of a) p' la hp in
      not_above (links s) t e p' n x hn hx (omega arith)

  below_q :
      (e : ℕ) (n : Link) → links s e ≡ some n → n.height ≡ a.height → ¬ Ancestor (links s) e q'
  below_q e n hn hh =
      let (x, hx, step) = t.parent q (link_of b) q' lb hq in
      not_above (links s) t e q' n x hn hx (omega arith)

  to_1 : {e i : ℕ} → Ancestor (links s) e i → Ancestor (links s1) e i
  to_1 {e} {i} x = subst (λ l. Ancestor l e i) (sym kept) x

  from_1 : {e i : ℕ} → Ancestor (links s1) e i → Ancestor (links s) e i
  from_1 {e} {i} x = subst (λ l. Ancestor l e i) kept x

  untouched :
      (j : ℕ) → ¬ Ancestor (links s) j p' → ¬ Ancestor (links s) j q' → header s' j ≡ header s1 j
  untouched j no_p no_q = rest.others j (λ x. no_p (from_1 x)) (λ x. no_q (from_1 x))

  at_q : header s' q ≡ some (on b next)
  at_q =
      untouched q (below_p q (link_of b) lb (sym same)) (below_q q (link_of b) lb (sym same))
      ∙ w q
      ∙ rw (==_refl q)

  at_p : header s' p ≡ some (off a)
  at_p =
      untouched p (below_p p (link_of a) la refl) (below_q p (link_of a) la refl)
      ∙ ground (arith, w p)

  pub extended : Switched s s' p q c
  extended = record {
    split =
        IsSplit-up_both (links s) t p q c.id p' q' (link_of a) (link_of b) la lb hp hq same ne
          (subst (λ l. IsSplit l p' q' c.id) kept rest.split);
    same_links = rest.same_links ∙ kept;
    joint = rest.joint;
    new_side = λ j x no. elim (Bool-cases (j == q)) [
      | inl eq ↦ let e = (==_iff j q).0 eq in (on b next, rw e at_q, refl)
      | inr no_eq ↦
          rest.new_side j
            (to_1 (
              Ancestor-parent (links s) t (link_of b) q' lb hq (λ e. cc (no_eq, (==_iff j q).1 e))
                x))
            (λ y. no (up (link_of a) p' la hp (from_1 y)))
    ];
    old_side = λ j x no. elim (Bool-cases (j == p)) [
      | inl eq ↦ let e = (==_iff j p).0 eq in (off a, rw e at_p, refl, refl)
      | inr no_eq ↦
          rest.old_side j
            (to_1 (
              Ancestor-parent (links s) t (link_of a) p' la hp (λ e. cc (no_eq, (==_iff j p).1 e))
                x))
            (λ y. no (up (link_of b) q' lb hq (from_1 y)))
    ];
    shared = λ j x y apart. shared_above j x y apart;
    others = λ j no_p no_q.
        untouched j (λ x. no_p (up (link_of a) p' la hp x)) (λ x. no_q (up (link_of b) q' lb hq x))
        ∙ plain j (λ e. no_p (self (sym e))) (λ e. no_q (self (sym e)));
  }
    where
      -- A block that both sides stand on is neither of them.
      not_p : (j : ℕ) → Ancestor (links s) j q → j ≡ p → ⊥
      not_p j y e = below_q p (link_of a) la refl (
          Ancestor-parent (links s) t (link_of b) q' lb hq ne
            (subst (λ z. Ancestor (links s) z q) e y))

      not_q : (j : ℕ) → Ancestor (links s) j p → j ≡ q → ⊥
      not_q j x e = below_p q (link_of b) lb (sym same) (
          Ancestor-parent (links s) t (link_of a) p' la hp (λ k. ne (sym k))
            (subst (λ z. Ancestor (links s) z p) e x))

      plain : (j : ℕ) → (p ≡ j → ⊥) → (q ≡ j → ⊥) → header s1 j ≡ header s j
      plain j np nq = elim (Bool-cases (q == j)) [
        | inl e ↦ absurd (nq ((==_iff q j).0 e))
        | inr e ↦ elim (Bool-cases (p == j)) [
          | inl e' ↦ absurd (np ((==_iff p j).0 e'))
          | inr e' ↦ w j ∙ rw (e, e')
        ]
      ]

      shared_above :
          (j : ℕ)
          → Ancestor (links s) j p
          → Ancestor (links s) j q
          → (j ≡ c.id → ⊥)
          → header s' j ≡ header s j
      shared_above j x y apart =
          rest.shared j (to_1 (Ancestor-parent (links s) t (link_of a) p' la hp (not_p j y) x))
            (to_1 (Ancestor-parent (links s) t (link_of b) q' lb hq (not_q j x) y)) apart
          ∙ plain j (λ e. not_p j y (sym e)) (λ e. not_q j x (sym e))

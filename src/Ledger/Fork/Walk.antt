-- ===== src/Ledger/Fork/Walk.antt =====
-- The walk of `handleFork` over both sides, by induction on the rounds.
use corechain.Ledger.Fork.{fork_end}
use corechain.Prelude.{
  ==_iff, Bool-cases, Option, Option-cases, ap, arith, false, fun_ext, if◌then◌else◌, inl, inr,
  none, refl, some, subst, sym, true, ℕ, ◌<◌, ◌==◌, ◌∙◌, ◌≡◌, ◌≢◌,
}
use corechain.Ledger.Tree.{Ancestor, Ancestor-le, IsSplit, IsSplit-self, IsTree, Link, Links, self}
use corechain.Ledger.Store.{Block, Ledger, header, link_of, links}
use corechain.Ledger.Fork.Split.{fork_end_lem, off, on}

-- What the ledger knows of the header of a block.
abbrev pub OnTrunk : Ledger → ℕ → Type 0
OnTrunk s j = (b : Block) × (header s j ≡ some b) × (b.in_trunk ≡ true)

abbrev pub OffTrunk : Ledger → ℕ → Type 0
OffTrunk s j = (b : Block) × (header s j ≡ some b) × (b.in_trunk ≡ false) × (b.next ≡ none)

-- What a switch of the trunk from `p` to `q` has done when it ends with the block `c`.
pub record Switched (s s' : Ledger) (p q : ℕ) (c : Block) : Type 0 where
  pub split : IsSplit (links s) p q c.id
  pub same_links : links s' ≡ links s
  pub joint : OnTrunk s' c.id
  pub new_side : (j : ℕ) → Ancestor (links s) j q → ¬ Ancestor (links s) j p → OnTrunk s' j
  pub old_side : (j : ℕ) → Ancestor (links s) j p → ¬ Ancestor (links s) j q → OffTrunk s' j
  pub shared :
      (j : ℕ)
      → Ancestor (links s) j p
      → Ancestor (links s) j q
      → j ≢ c.id
      → header s' j ≡ header s j
  pub others :
      (j : ℕ) → ¬ Ancestor (links s) j p → ¬ Ancestor (links s) j q → header s' j ≡ header s j

pub link_of-header :
    (s : Ledger) (i : ℕ) (b : Block) → header s i ≡ some b → links s i ≡ some (link_of b)
link_of-header s i b h = rw (h, links)

pub header_of_link :
    (s : Ledger) (i : ℕ) (k : Link)
    → links s i ≡ some k
    → (b : Block) × (header s i ≡ some b) × (k ≡ link_of b)
header_of_link s i k h = elim (Option-cases (header s i)) [
  | inl e ↦ absurd (ground arith)
  | inr (b, e) ↦ (b, e, ground arith)
]

-- Distinct blocks at one height both have parents.
pub both_parents :
    (l : Links) (t : IsTree l) (p q : ℕ) (k m : Link)
    → l p ≡ some k
    → l q ≡ some m
    → k.height ≡ m.height
    → p ≢ q
    → (p' q' : ℕ) × (k.pre ≡ some p') × (m.pre ≡ some q')
both_parents l t p q k m hk hm same ne = elim (Option-cases k.pre) [
  | inl ek ↦ elim (Option-cases m.pre) [
    | inl em ↦ absurd (ne (t.one_root p q k m hk hm ek em))
    | inr (q', em) ↦
        let (x, hx, step) = t.parent q m q' hm em in
        let z = t.root p k hk ek in absurd (omega arith)
  ]
  | inr (p', ek) ↦ elim (Option-cases m.pre) [
    | inl em ↦
        let (x, hx, step) = t.parent p k p' hk ek in
        let z = t.root q m hm em in absurd (omega arith)
    | inr (q', em) ↦ (p', q', ek, em)
  ]
]

pub same_links_of :
    (p q : ℕ) (next : Option ℕ) (a b : Block) (s s' : Ledger)
    → header s p ≡ some a
    → header s q ≡ some b
    → ((j : ℕ)
        → header s' j
          ≡ (if q == j then some (on b next) else if p == j then some (off a) else header s j))
    → links s' ≡ links s
same_links_of p q next a b s s' ha hb w = fun_ext (λ j. ground (arith, w j))

-- A block is no ancestor of a block that lies lower.
pub not_above :
    (l : Links) (t : IsTree l) (e i : ℕ) (n k : Link)
    → l e ≡ some n
    → l i ≡ some k
    → k.height < n.height
    → ¬ Ancestor l e i
not_above l t e i n k hn hk lt x =
    let (m, hm, le) = Ancestor-le l t k hk x in
    let same : m ≡ n = cc in omega (arith, ap (λ (z : Link). z.height) same)

-- Both sides have met.
pub met :
    (p q : ℕ) (next : Option ℕ) (b : Block) (s : Ledger)
    → header s q ≡ some b
    → b.id ≡ q
    → p ≡ q
    → Switched s (fork_end (some q) next s).1 p q (on b next)
met p q next b s hb ib same =
    let w = (fork_end_lem q next b s hb ib).1 in
    let back = λ (j : ℕ) (x : Ancestor (links s) j q). subst (Ancestor (links s) j) (sym same) x in
    record {
      split = rw (same, ib) (IsSplit-self (links s) q);
      same_links = fun_ext (λ j. ground (arith, w j));
      joint = (on b next, ground (arith, w b.id), refl);
      new_side = λ j x no. absurd (no (back j x));
      old_side = λ j x no. absurd (no (subst (Ancestor (links s) j) same x));
      shared = λ j x y ne. other j (w j) (λ e. ne (e ∙ sym ib));
      others = λ j no_p no_q. other j (w j) (λ e. no_q (self e));
    }
  where
    other :
        (j : ℕ)
        → header (fork_end (some q) next s).1 j ≡ (if q == j then some (on b next) else header s j)
        → (j ≡ q → ⊥)
        → header (fork_end (some q) next s).1 j ≡ header s j
    other j e ne = elim (Bool-cases (q == j)) [
      | inl eq ↦ absurd (ne (sym ((==_iff q j).0 eq)))
      | inr no_eq ↦ e ∙ (rw no_eq)
    ]

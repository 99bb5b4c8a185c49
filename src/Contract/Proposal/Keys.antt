-- ===== src/Contract/Proposal/Keys.antt =====
-- `PrefixRange` (contract/proposal/utils/utils.go): the end of the range of keys that a scan of a
-- prefix reads. A key is the list of its bytes.
use corechain.Prelude.{
  All, Bool, List, [], arith, false, get_elem?, if◌then◌else◌, length, ltb, none, not, refl, some,
  suc, take, true, zero, ℕ, ◌&&◌, ◌++◌, ◌+◌, ◌<◌, ◌==◌, ◌||◌, ◌∙◌, ◌∷◌, ◌≡◌, ◌≢◌,
}

-- `limit` gets the bytes before `i`, and the byte there and one more.
abbrev cut_at : ℕ → ℕ → List ℕ → List ℕ
cut_at i c p = take i p ++ ((c + 1) ∷ [])

-- The loop, whose index is one less than the argument.
unfoldable pub range_loop : ℕ → List ℕ → List ℕ
range_loop zero p = []
range_loop (suc i) p =
    let rest = range_loop i p in
    elim (get_elem? p i) [ none ↦ rest | some c ↦ if ltb c 255 then cut_at i c p else rest ]

unfoldable pub prefix_range : List ℕ → List ℕ
unfolding range_loop
prefix_range p = range_loop (length p) p

-- The order of keys, and the test for a prefix.
abbrev pub lt_key : List ℕ → List ℕ → Bool
lt_key k [] = false
lt_key [] (c ∷ p) = true
lt_key (x ∷ k) (c ∷ p) = ltb x c || (x == c && lt_key k p)

abbrev pub has_prefix : List ℕ → List ℕ → Bool
has_prefix [] k = true
has_prefix (c ∷ p) [] = false
has_prefix (c ∷ p) (x ∷ k) = x == c && has_prefix p k

-- The same range by recursion from the front.
abbrev front_range : List ℕ → List ℕ
front_range [] = []
front_range (c ∷ p) = elim (front_range p) [
  | [] ↦ if ltb c 255 then (c + 1) ∷ [] else []
  | y ∷ r ↦ c ∷ (y ∷ r)
]

range_loop_cons :
    (i c : ℕ) (p : List ℕ)
    → range_loop (suc i) (c ∷ p)
      ≡ elim (range_loop i p) [ [] ↦ if ltb c 255 then (c + 1) ∷ [] else [] | y ∷ r ↦ c ∷ (y ∷ r) ]
unfolding range_loop
range_loop_cons zero c p = refl
range_loop_cons (suc i) c p = ground (arith, range_loop_cons i c p)

range_by_front : (p : List ℕ) → prefix_range p ≡ front_range p
unfolding prefix_range
range_by_front [] = refl
range_by_front (c ∷ p) = range_loop_cons (length p) c p ∙ rw (range_by_front p) refl

-- Bytes.
abbrev pub AreBytes : List ℕ → Type 0
AreBytes k = All (λ x. x < 256) k

-- Above a prefix whose bytes are all 255 there are only its own extensions.
top_prefix :
    (p k : List ℕ)
    → AreBytes p
    → AreBytes k
    → front_range p ≡ []
    → has_prefix p k ≡ not (lt_key k p)
top_prefix [] k bp bk e = refl
top_prefix (c ∷ p) [] bp bk e = refl
top_prefix (c ∷ p) (x ∷ k) bp bk e = ground (arith, top_prefix p k bp.1 bk.1)

front_prefix :
    (p k : List ℕ)
    → AreBytes p
    → AreBytes k
    → front_range p ≢ []
    → has_prefix p k ≡ (not (lt_key k p) && lt_key k (front_range p))
front_prefix [] k bp bk e = absurd (e refl)
front_prefix (c ∷ p) [] bp bk e = refl
front_prefix (c ∷ p) (x ∷ k) bp bk e =
    ground (arith, front_prefix p k bp.1 bk.1, top_prefix p k bp.1 bk.1)

-- Where `PrefixRange` gives a bound, the keys from the prefix up to the bound are just those that
-- start with the prefix.
pub prefix_range_covers :
    (p k : List ℕ)
    → AreBytes p
    → AreBytes k
    → prefix_range p ≢ []
    → has_prefix p k ≡ (not (lt_key k p) && lt_key k (prefix_range p))
prefix_range_covers p k bp bk e =
    rw (range_by_front p) (front_prefix p k bp bk (λ x. e (range_by_front p ∙ x)))

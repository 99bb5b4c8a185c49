-- ===== src/Contract/Sandbox/Select.antt =====
-- contract/sandbox/iterator.go: the iterators over the cache, each as the list of its keys and values.
use corechain.Contract.Sandbox.{Versioned, del_flag}
use corechain.Prelude.{
  Bool-cases, Option, [], ap, arith, false, if◌then◌else◌, inl, inr, ltb, none, refl, some, subst,
  sym, true, ℕ, ◌<◌, ◌==◌, ◌∙◌, ◌∷◌, ◌≡◌, ◌≤◌,
}
use corechain.Prelude.Dict.{Dict, lookup}

abbrev pub Pairs : Type 0
Pairs = Dict Versioned

-- The rounds of `multiIterator` while its front stands at one pair; `rest` merges what follows it.
unfoldable pub merge_at : (Pairs → Pairs) → ℕ × Versioned → Pairs → Pairs → Pairs
merge_at rest x f [] = x ∷ f
merge_at rest (k1, v1) f ((k2, v2) ∷ b) =
    let later = merge_at rest (k1, v1) f b in
    if k1 == k2
    then (k1, v1) ∷ rest b
    else (if ltb k1 k2 then (k1, v1) ∷ rest ((k2, v2) ∷ b) else (k2, v2) ∷ later)

-- `multiIterator`: the next pair is the one with the smaller key, and of equal keys the front one.
unfoldable pub multi_iterator : Pairs → Pairs → Pairs
multi_iterator [] b = b
multi_iterator (x ∷ f) b = merge_at (multi_iterator f) x f b

-- `stripDelIterator`
unfoldable pub strip_del : Pairs → Pairs
strip_del [] = []
strip_del ((k, d) ∷ ds) =
    let rest = strip_del ds in if d.value == del_flag then rest else (k, d) ∷ rest

-- `newXModelCacheIterator`, for the three lists in the range that is asked for.
unfoldable pub select_pairs : Pairs → Pairs → Pairs → Pairs
select_pairs outputs inputs backend =
    multi_iterator outputs (multi_iterator (strip_del inputs) (strip_del backend))

-- Every key is above the given one.
abbrev pub IsAbove : ℕ → Pairs → Type 0
IsAbove k [] = Unit {0}
IsAbove k ((j, d) ∷ ds) = (k < j) × IsAbove k ds

-- The keys go up.
abbrev pub IsSorted : Pairs → Type 0
IsSorted [] = Unit {0}
IsSorted ((k, d) ∷ ds) = IsAbove k ds × IsSorted ds

lookup_above : (k j : ℕ) (ds : Pairs) → IsAbove k ds → j ≤ k → lookup j ds ≡ none
lookup_above k j [] h le = refl
lookup_above k j ((i, d) ∷ ds) (lt, h) le = let e = lookup_above k j ds h le in ground arith

abbrev pub prefer {ℓ} : {A : Type ℓ} → Option A → Option A → Option A
prefer (some a) b = some a
prefer none b = b

prefer-none {ℓ} : {A : Type ℓ} (o : Option A) → o ≡ prefer o none
prefer-none none = refl
prefer-none (some a) = refl

merge_at-lookup :
    (rest : Pairs → Pairs) (k1 : ℕ) (v1 : Versioned) (f b : Pairs) (k : ℕ)
    → IsAbove k1 f
    → ((b' : Pairs) → lookup k (rest b') ≡ prefer (lookup k f) (lookup k b'))
    → lookup k (merge_at rest (k1, v1) f b) ≡ prefer (lookup k ((k1, v1) ∷ f)) (lookup k b)
unfolding merge_at
merge_at-lookup rest k1 v1 f [] k up ih = prefer-none (lookup k ((k1, v1) ∷ f))
merge_at-lookup rest k1 v1 f ((k2, v2) ∷ b) k up ih =
    ground (
      arith,
      ih b,
      ih ((k2, v2) ∷ b),
      merge_at-lookup rest k1 v1 f b k up ih,
      lookup_above k1 k f up,
    )

multi_iterator-lookup :
    (f b : Pairs) (k : ℕ)
    → IsSorted f
    → lookup k (multi_iterator f b) ≡ prefer (lookup k f) (lookup k b)
unfolding multi_iterator
multi_iterator-lookup [] b k s = refl
multi_iterator-lookup ((k1, v1) ∷ f) b k (up, s) =
    merge_at-lookup (multi_iterator f) k1 v1 f b k up (λ b'. multi_iterator-lookup f b' k s)

strip_keeps :
    (k : ℕ) (d : Versioned) (ds : Pairs)
    → (d.value == del_flag) ≡ false
    → strip_del ((k, d) ∷ ds) ≡ (k, d) ∷ strip_del ds
unfolding strip_del
strip_keeps k d ds e = ap (λ b. if b then strip_del ds else (k, d) ∷ strip_del ds) e

strip_drops :
    (k : ℕ) (d : Versioned) (ds : Pairs)
    → (d.value == del_flag) ≡ true
    → strip_del ((k, d) ∷ ds) ≡ strip_del ds
unfolding strip_del
strip_drops k d ds e = ap (λ b. if b then strip_del ds else (k, d) ∷ strip_del ds) e

strip_del-IsAbove : (k : ℕ) (ds : Pairs) → IsAbove k ds → IsAbove k (strip_del ds)
unfolding strip_del
strip_del-IsAbove k [] h = tt
strip_del-IsAbove k ((j, d) ∷ ds) (lt, h) =
    let up = strip_del-IsAbove k ds h in
    elim (Bool-cases (d.value == del_flag)) [
      | inl e ↦ subst (IsAbove k) (sym (strip_drops j d ds e)) up
      | inr e ↦ subst (IsAbove k) (sym (strip_keeps j d ds e)) (lt, up)
    ]

strip_del-IsSorted : (ds : Pairs) → IsSorted ds → IsSorted (strip_del ds)
unfolding strip_del
strip_del-IsSorted [] h = tt
strip_del-IsSorted ((j, d) ∷ ds) (up, h) =
    let rest = strip_del-IsSorted ds h in
    elim (Bool-cases (d.value == del_flag)) [
      | inl e ↦ subst IsSorted (sym (strip_drops j d ds e)) rest
      | inr e ↦ subst IsSorted (sym (strip_keeps j d ds e)) (strip_del-IsAbove j ds up, rest)
    ]

-- A pair that is not marked as deleted.
abbrev pub visible : Option Versioned → Option Versioned
visible none = none
visible (some d) = if d.value == del_flag then none else some d

strip_del-lookup :
    (k : ℕ) (ds : Pairs) → IsSorted ds → lookup k (strip_del ds) ≡ visible (lookup k ds)
unfolding strip_del
strip_del-lookup k [] h = refl
strip_del-lookup k ((j, d) ∷ ds) (up, h) =
    let rest = strip_del-lookup k ds h in
    elim (Bool-cases (d.value == del_flag)) [
      | inl e ↦ ap (lookup k) (strip_drops j d ds e) ∙ ground (arith, rest, lookup_above j k ds up)
      | inr e ↦ ap (lookup k) (strip_keeps j d ds e) ∙ ground (arith, rest)
    ]

-- A scan over sorted lists gives a key its value among the writes if it was written, and otherwise
-- its value among the reads or in the store if it is not marked as deleted there. A written mark of
-- deletion is not left out: the scan gives the key with the mark for its value.
pub select_looks_up :
    (outputs inputs backend : Pairs) (k : ℕ)
    → IsSorted outputs
    → IsSorted inputs
    → IsSorted backend
    → lookup k (select_pairs outputs inputs backend)
      ≡ prefer (lookup k outputs) (prefer (visible (lookup k inputs)) (visible (lookup k backend)))
unfolding select_pairs
select_looks_up outputs inputs backend k so si sb =
    multi_iterator-lookup outputs (multi_iterator (strip_del inputs) (strip_del backend)) k so
    ∙ ap (prefer (lookup k outputs)) (
        multi_iterator-lookup (strip_del inputs) (strip_del backend) k
          (strip_del-IsSorted inputs si)
        ∙ ap (λ z. prefer z (lookup k (strip_del backend))) (strip_del-lookup k inputs si)
        ∙ ap (prefer (visible (lookup k inputs))) (strip_del-lookup k backend sb))

-- ===== src/Prelude/Dict.antt =====
-- A map keyed by identifiers, as an association list in the order of insertion.
use Prim.Native.Nat.{ℕ}
use mathlib.Core.Path.{◌≡◌, refl}
use mathlib.Core.Bool.{Bool, true, false}
use mathlib.Core.List.{List, [], ◌∷◌}
use mathlib.Core.Option.{Option, none, some}
use native.Mathlib.Omega.{arith}
use corechain.Prelude.Tests.{if◌then◌else◌, ◌==◌}

abbrev pub Dict {ℓ} : Type ℓ → Type ℓ
Dict V = List (ℕ × V)

module _ {ℓ} {V : Type ℓ} where
  abbrev pub lookup : ℕ → Dict V → Option V
  lookup k [] = none
  lookup k ((j, v) ∷ d) = if j == k then some v else lookup k d

  abbrev pub insert : ℕ → V → Dict V → Dict V
  insert k v [] = (k, v) ∷ []
  insert k v ((j, w) ∷ d) = if j == k then (k, v) ∷ d else (j, w) ∷ insert k v d

  abbrev pub erase : ℕ → Dict V → Dict V
  erase k [] = []
  erase k ((j, w) ∷ d) = if j == k then erase k d else (j, w) ∷ erase k d

  pub lookup-insert :
      (k j : ℕ) (v : V) (d : Dict V)
      → lookup j (insert k v d) ≡ (if k == j then some v else lookup j d)
  lookup-insert k j v [] = refl
  lookup-insert k j v ((i, w) ∷ d) = ground (arith, lookup-insert k j v d)

  pub lookup-erase :
      (k j : ℕ) (d : Dict V) → lookup j (erase k d) ≡ (if k == j then none else lookup j d)
  lookup-erase k j [] = ground arith
  lookup-erase k j ((i, w) ∷ d) = ground (arith, lookup-erase k j d)

  -- The test for a key.
  abbrev pub has : ℕ → Dict V → Bool
  has k [] = false
  has k ((j, w) ∷ d) = if j == k then true else has k d

  -- No key is listed twice.
  abbrev pub IsKeyed : Dict V → Type 0
  IsKeyed [] = Unit {0}
  IsKeyed ((k, v) ∷ d) = (has k d ≡ false) × IsKeyed d

  pub has-insert :
      (k j : ℕ) (v : V) (d : Dict V) → has j (insert k v d) ≡ (if k == j then true else has j d)
  has-insert k j v [] = refl
  has-insert k j v ((i, w) ∷ d) = ground (arith, has-insert k j v d)

  pub lookup_of_has_not : (k : ℕ) (d : Dict V) → has k d ≡ false → lookup k d ≡ none
  lookup_of_has_not k [] h = refl
  lookup_of_has_not k ((j, w) ∷ d) h = ground (arith, lookup_of_has_not k d)

  pub has_not_of_lookup : (k : ℕ) (d : Dict V) → lookup k d ≡ none → has k d ≡ false
  has_not_of_lookup k [] h = refl
  has_not_of_lookup k ((j, w) ∷ d) h = ground (arith, has_not_of_lookup k d)

  pub insert-IsKeyed : (k : ℕ) (v : V) (d : Dict V) → IsKeyed d → IsKeyed (insert k v d)
  insert-IsKeyed k v [] h = (refl, tt)
  insert-IsKeyed k v ((j, w) ∷ d) h = ground (arith, insert-IsKeyed k v d h.1, has-insert k j v d)

-- ===== src/Contract/Govern/Balances.antt =====
-- The sum of all balances and the soundness of each, under a write to the bucket.
use corechain.Prelude.{Option, [], arith, none, some, ℕ, ◌∷◌, ◌≡◌}
use corechain.Prelude.Int.{int_laws, pos, ℤ, ◌+ℤ◌, ◌≤ℤ◌}
use corechain.Prelude.Dict.{Dict, insert, lookup}
use corechain.Contract.Govern.Ledger.{Balance}

abbrev pub sum : Dict Balance → ℤ
sum [] = pos 0
sum ((k, b) ∷ d) = b.total_balance +ℤ sum d

-- What an account holds; one that is not stored holds nothing.
abbrev pub held : Option Balance → ℤ
held none = pos 0
held (some b) = b.total_balance

pub sum-insert :
    (k : ℕ) (b : Balance) (d : Dict Balance)
    → sum (insert k b d) +ℤ held (lookup k d) ≡ sum d +ℤ b.total_balance
sum-insert k b [] = omega int_laws
sum-insert k b ((j, c) ∷ d) = grind (int_laws, sum-insert k b d)

-- A stored balance: no lock is negative, and none is above the total.
pub record IsSound (b : Balance) : Type 0 where
  pub ordinary_nonneg : pos 0 ≤ℤ b.locked_ordinary
  pub tdpos_nonneg : pos 0 ≤ℤ b.locked_tdpos
  pub ordinary_within : b.locked_ordinary ≤ℤ b.total_balance
  pub tdpos_within : b.locked_tdpos ≤ℤ b.total_balance

abbrev pub AllSound : Dict Balance → Type 0
AllSound [] = Unit {0}
AllSound ((k, b) ∷ d) = IsSound b × AllSound d

pub lookup-IsSound :
    (k : ℕ) (d : Dict Balance) {b : Balance} → AllSound d → lookup k d ≡ some b → IsSound b
lookup-IsSound k [] h e = cc
lookup-IsSound k ((j, c) ∷ d) {b} h e = ground (arith, lookup-IsSound k d {b = b} h.1)

pub insert-AllSound :
    (k : ℕ) (b : Balance) (d : Dict Balance) → IsSound b → AllSound d → AllSound (insert k b d)
insert-AllSound k b [] p h = (p, tt)
insert-AllSound k b ((j, c) ∷ d) p h = ground (arith, insert-AllSound k b d p h.1)

-- A write over a write, and the write of what is there.
pub insert-insert {ℓ} :
    {V : Type ℓ} (k : ℕ) (v w : V) (d : Dict V) → insert k w (insert k v d) ≡ insert k w d
insert-insert k v w [] = ground arith
insert-insert k v w ((j, u) ∷ d) = ground (arith, insert-insert k v w d)

pub insert_of_lookup {ℓ} :
    {V : Type ℓ} (k : ℕ) (v : V) (d : Dict V) → lookup k d ≡ some v → insert k v d ≡ d
insert_of_lookup k v [] h = cc
insert_of_lookup k v ((j, u) ∷ d) h = ground (arith, insert_of_lookup k v d)

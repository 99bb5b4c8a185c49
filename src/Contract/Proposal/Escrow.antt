-- ===== src/Contract/Proposal/Escrow.antt =====
-- The locks of each proposal add up to its votes and the deposit, after every method.
use corechain.Contract.Proposal.World.{Proposal, World, locks_of}
use corechain.Contract.Proposal.Propose.{locked_more}
use corechain.Contract.Proposal.Effects.{next_id}
use corechain.Prelude.{
  Bool-cases, [], ap, arith, false, if◌then◌else◌, inl, inr, none, refl, some, sym, ℕ, ◌<◌, ◌==◌,
  ◌∙◌, ◌∷◌, ◌≡◌, ◌≤◌,
}
use corechain.Prelude.Int.{int_laws, pos, ℤ, ◌+ℤ◌}
use corechain.Prelude.Dict.{Dict, insert, lookup}

abbrev pub lock_sum : Dict ℤ → ℤ
lock_sum [] = pos 0
lock_sum ((a, n) ∷ d) = n +ℤ lock_sum d

-- A vote adds its amount to the sum.
pub lock_sum-insert :
    (a : ℕ) (n : ℤ) (d : Dict ℤ)
    → lock_sum (insert a (locked_more n (lookup a d)) d) ≡ lock_sum d +ℤ n
lock_sum-insert a n [] = omega int_laws
lock_sum-insert a n ((k, m) ∷ d) = grind (int_laws, lock_sum-insert a n d)

-- The proposals are numbered up to the last one, and for each one the locks add up to the deposit
-- and the votes.
pub record IsEscrowed (w : World) : Type 0 where
  pub fresh :
      (i : ℕ) → next_id w.latest_id ≤ i → (lookup i w.proposals ≡ none) × (locks_of w i ≡ [])
  pub tally :
      (i : ℕ) (p : Proposal)
      → lookup i w.proposals ≡ some p
      → lock_sum (locks_of w i) ≡ p.vote_amount +ℤ pos 1000

-- Any write of one proposal and its locks that agree.
module _ (w w' : World) (i : ℕ) (p : Proposal) (d : Dict ℤ)
    (le : next_id w.latest_id ≤ next_id w'.latest_id) (lt : i < next_id w'.latest_id)
    (wrote : (j : ℕ) → lookup j w'.proposals ≡ (if i == j then some p else lookup j w.proposals))
    (held : (j : ℕ) → locks_of w' j ≡ (if i == j then d else locks_of w j))
    (agree : lock_sum d ≡ p.vote_amount +ℤ pos 1000) where
  kept_fresh :
      IsEscrowed w
      → (j : ℕ) → next_id w'.latest_id ≤ j
      → (lookup j w'.proposals ≡ none) × (locks_of w' j ≡ [])
  kept_fresh h j far =
      let (a, b) = h.fresh j (omega arith) in
      let apart : (i == j) ≡ false = ground arith in (wrote j ∙ rw apart a, held j ∙ rw apart b)

  kept_tally :
      IsEscrowed w
      → (j : ℕ) (q : Proposal) → lookup j w'.proposals ≡ some q
      → lock_sum (locks_of w' j) ≡ q.vote_amount +ℤ pos 1000
  kept_tally h j q e = elim (Bool-cases (i == j)) [
    | inl same ↦
        let is_p : some p ≡ some q = sym (wrote j ∙ rw same refl) ∙ e in
        let eq : p ≡ q = ground arith in
        ap lock_sum (held j ∙ rw same refl)
        ∙ agree
        ∙ ap (λ (z : Proposal). z.vote_amount +ℤ pos 1000) eq
    | inr apart ↦
        let old : lookup j w.proposals ≡ some q = sym (wrote j ∙ rw apart refl) ∙ e in
        ap lock_sum (held j ∙ rw apart refl) ∙ h.tally j q old
  ]

  pub written-IsEscrowed : IsEscrowed w → IsEscrowed w'
  written-IsEscrowed h = record { fresh = kept_fresh h; tally = kept_tally h }

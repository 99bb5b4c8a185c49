-- ===== src/Consensus/Safety/Quorum.antt =====
-- What an accepted certificate and an accepted vote say about who has signed.
use corechain.Consensus.Safety.{
  Cert, Crypto, Rules, Sign, Tree, Verified, accepted, cal_votes_threshold, check_proposal,
  count_valid, failed, is_in_slice, is_loose, is_verified, permissive_internal, refuted, verified,
  verify_vote_msg_sign,
}
use corechain.Prelude.{
  All, Bool-cases, List, Option, Option-cases, [], ap, arith, false, if◌then◌else◌, inl, inr,
  length, refl, some, subst, suc, true, zero, ℕ, ◌+◌, ◌-◌, ◌/◌, ◌<◌, ◌∙◌, ◌∷◌, ◌≡◌, ◌≤◌,
}
use corechain.Prelude.Int.{int64, ltb_ℤ, pos, quot_ℤ, ◌-ℤ◌}

div3 : (n : ℕ) → quot_ℤ (pos (n + 1) -ℤ pos 1) (pos 3) ≡ pos (n / 3)
unfolding quot_ℤ ◌-ℤ◌
div3 n = ground arith

threshold_lem : (input n : ℕ) → cal_votes_threshold input (n + 1) ≡ true → n + 1 ≤ input + 1 + n / 3
unfolding cal_votes_threshold ◌-ℤ◌
threshold_lem input n h = ground (arith, div3 n)

full_count : (n : ℕ) → cal_votes_threshold n n ≡ true
unfolding cal_votes_threshold quot_ℤ ◌-ℤ◌
full_count zero = refl
full_count (suc n) = ground arith

-- Two numbers of votes that both reach the threshold among n + 1 validators overlap, with the two
-- leaders' own votes, in more of them than may be faulty.
pub quorums_overlap :
    (a b n : ℕ)
    → cal_votes_threshold a (n + 1) ≡ true
    → cal_votes_threshold b (n + 1) ≡ true
    → (n + 1) + n / 3 < (a + 1) + (b + 1)
quorums_overlap a b n h k = grind (arith, threshold_lem a n h, threshold_lem b n k)

-- How many signatures are of validators, and that all of those verify.
abbrev pub signers : List ℕ → List Sign → ℕ
signers vs [] = 0
signers vs (x ∷ xs) = if is_in_slice x.address vs then signers vs xs + 1 else signers vs xs

abbrev pub AllVerify : Crypto → Option ℕ → List ℕ → List Sign → Type 0
AllVerify c id vs xs =
    All (λ x. is_in_slice x.address vs ≡ true → verify_vote_msg_sign c x id ≡ verified) xs

verified_of : (v : Verified) → is_verified v ≡ true → v ≡ verified
verified_of verified h = refl
verified_of refuted h = cc
verified_of failed h = cc

count_lem :
    (c : Crypto) (id : Option ℕ) (vs : List ℕ) (xs : List Sign) (n m : ℕ)
    → count_valid c id vs xs n ≡ some m
    → (m ≡ n + signers vs xs) × AllVerify c id vs xs
unfolding count_valid
count_lem c id vs [] n m h = (ground arith, tt)
count_lem c id vs (x ∷ xs) n m h = elim (Bool-cases (is_in_slice x.address vs)) [
  | inr out ↦
      let more : count_valid c id vs xs n ≡ some m = ground arith in
      let (e, all) = count_lem c id vs xs n m more in (rw out e, (λ k. absurd (ground arith), all))
  | inl inside ↦
      let good : is_verified (verify_vote_msg_sign c x id) ≡ true = ground arith in
      let more : count_valid c id vs xs (n + 1) ≡ some m = ground arith in
      let (e, all) = count_lem c id vs xs (n + 1) m more in
      (rw inside (omega (arith, e)), (λ k. verified_of (verify_vote_msg_sign c x id) good, all))
]

-- An accepted proposal carries a certificate for its parent: every signature in it that claims to be
-- of a validator verifies, and, with one more for the leader, they are as many as the validators less
-- a third.
pub accepted_is_certified :
    (c : Crypto) (tree : Tree) (proposal parent : Cert) (vs : List ℕ) (s : Rules)
    → 0 < length vs
    → check_proposal c tree proposal parent (some vs) s ≡ accepted
    → (i : ℕ) × (parent.id ≡ some i)
      × AllVerify c (some i) vs parent.signs
      × (length vs ≤ signers vs parent.signs + 1 + (length vs - 1) / 3)
unfolding check_proposal
accepted_is_certified c tree proposal parent vs s nonempty h = elim (Option-cases parent.id) [
  | inl e ↦ absurd (ground arith)
  | inr (i, e) ↦ elim (Option-cases (count_valid c (some i) vs parent.signs 0)) [
    | inl none_counted ↦ absurd (ground arith)
    | inr (n, counted) ↦
        let (many, all) = count_lem c (some i) vs parent.signs 0 n counted in
        let enough : cal_votes_threshold n (length vs) ≡ true = ground arith in
        let same : length vs ≡ (length vs - 1) + 1 = omega (arith, nonempty) in
        let bound =
          threshold_lem n (length vs - 1)
            (subst (λ z. cal_votes_threshold n z ≡ true) same enough) in
        (i, e, all, omega (arith, bound, many, nonempty))
  ]
]

-- Copies of one signature.
abbrev pub copies : ℕ → Sign → List Sign
copies zero x = []
copies (suc n) x = x ∷ copies n x

count-copies :
    (c : Crypto) (id : Option ℕ) (vs : List ℕ) (x : Sign) (k n : ℕ)
    → is_in_slice x.address vs ≡ true
    → verify_vote_msg_sign c x id ≡ verified
    → count_valid c id vs (copies k x) n ≡ some (n + k)
unfolding count_valid
count-copies c id vs x zero n inside good = ground arith
count-copies c id vs x (suc k) n inside good =
    rw (inside, good) (count-copies c id vs x k (n + 1) inside good ∙ ground arith)

-- Signatures are counted with repetition: where a proposal passes the tests of views and tree, as many
-- copies of one validator's signature as there are validators make a certificate that is accepted.
pub one_signer_suffices :
    (c : Crypto) (tree : Tree) (proposal parent : Cert) (vs : List ℕ) (s : Rules) (x : Sign) (i : ℕ)
    → ltb_ℤ proposal.view (int64 (s.latest_round -ℤ permissive_internal)) ≡ false
    → parent.id ≡ some i
    → tree.stored i ≡ true
    → is_in_slice x.address vs ≡ true
    → verify_vote_msg_sign c x (some i) ≡ verified
    → parent.signs ≡ copies (length vs) x
    → check_proposal c tree proposal parent (some vs) s ≡ accepted
unfolding check_proposal is_loose
one_signer_suffices c tree proposal parent vs s x i fresh e stored inside good signs =
    let counted : count_valid c (some i) vs parent.signs 0 ≡ some (length vs) =
      rw signs (count-copies c (some i) vs x (length vs) 0 inside good ∙ ap some (omega arith)) in
    let enough = full_count (length vs) in ground (arith, counted, enough)

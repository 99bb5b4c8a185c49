-- ===== src/Consensus/Safety/Examples.antt =====
-- The theorems of the safety rules at concrete certificates.
use corechain.Consensus.Safety.{
  Cert, Crypto, Rules, Sign, Tree, accepted, cal_votes_threshold, check_proposal, check_vote,
  count_valid, is_loose, permissive_internal, verified, verify_vote_msg_sign, vote_proposal,
}
use corechain.Consensus.Safety.Rounds.{IsSane, Later, here, votes_stay_close}
use corechain.Consensus.Safety.Quorum.{
  AllVerify, accepted_is_certified, copies, one_signer_suffices, quorums_overlap, signers,
}
use corechain.Consensus.Safety.Votes.{Good, accepted_vote_iff}
use corechain.Prelude.{
  List, [], arith, false, refl, some, true, ℕ, ◌+◌, ◌-◌, ◌/◌, ◌<◌, ◌==◌, ◌↔◌, ◌∷◌, ◌≡◌, ◌≤◌,
}
use corechain.Prelude.Int.{int64, ltb_ℤ, pos, quot_ℤ, ℤ, ◌+ℤ◌, ◌-ℤ◌, ◌≤ℤ◌}

-- Every text is a key with itself as address, and a signature is right if it is the key.
abbrev crypto : Crypto
crypto = record {
  key_of = λ t. some t;
  address_of = λ k. some k;
  verify_ecdsa = λ k x msg. some (k == x);
}

abbrev signed_by : ℕ → Sign
signed_by a = record { address = a; public_key = a; sign = a }

abbrev validators : List ℕ
validators = 1 ∷ 2 ∷ 3 ∷ 4 ∷ []

abbrev cert : ℤ → List Sign → Cert
cert view signs = record { view = view; id = some 7; parent_view = pos 9; signs = signs }

abbrev rules : Rules
rules = record { latest_round = pos 10; preferred_round = pos 9 }

abbrev tree : Tree
tree = record { stored = λ i. i == 7; root_view = pos 8; root_parent_view = pos 7 }

rules-IsSane : IsSane rules
rules-IsSane = record {
  latest_fits = (omega arith, omega arith);
  preferred_fits = (omega arith, omega arith);
  nonneg = omega arith;
}

vote_eleven : (vote_proposal (pos 11) (cert (pos 10) []) rules).0 ≡ true
unfolding vote_proposal int64 ◌-ℤ◌
vote_eleven = refl

vote_nine :
    (vote_proposal (pos 9) (cert (pos 10) []) (vote_proposal (pos 11) (cert (pos 10) []) rules).1).0
    ≡ true
unfolding vote_proposal int64 ◌-ℤ◌
vote_nine = refl

votes_stay_close_example :
    (pos 11 ≤ℤ pos 9 +ℤ pos 3) × Later rules (vote_proposal (pos 11) (cert (pos 10) []) rules).1
votes_stay_close_example =
    votes_stay_close (pos 11) (pos 9) (cert (pos 10) []) (cert (pos 10) []) rules
      (vote_proposal (pos 11) (cert (pos 10) []) rules).1 rules-IsSane (omega arith, omega arith)
      vote_eleven here vote_nine

two_of_four : cal_votes_threshold 2 4 ≡ true
unfolding cal_votes_threshold quot_ℤ ◌-ℤ◌
two_of_four = refl

quorums_overlap_example : (3 + 1) + 3 / 3 < (2 + 1) + (2 + 1)
quorums_overlap_example = quorums_overlap 2 2 3 two_of_four two_of_four

abbrev parent : Cert
parent = cert (pos 10) (signed_by 1 ∷ signed_by 2 ∷ [])

proposal_passes :
    check_proposal crypto tree (cert (pos 11) []) parent (some validators) rules ≡ accepted
unfolding check_proposal count_valid is_loose verify_vote_msg_sign cal_votes_threshold quot_ℤ int64
    ◌-ℤ◌ ◌+ℤ◌
proposal_passes = refl

accepted_is_certified_example :
    (i : ℕ) × (parent.id ≡ some i)
    × AllVerify crypto (some i) validators parent.signs
    × (4 ≤ signers validators parent.signs + 1 + (4 - 1) / 3)
accepted_is_certified_example =
    accepted_is_certified crypto tree (cert (pos 11) []) parent validators rules (omega arith)
      proposal_passes

signed_one : verify_vote_msg_sign crypto (signed_by 1) (some 7) ≡ verified
unfolding verify_vote_msg_sign
signed_one = refl

eleven_is_fresh : ltb_ℤ (pos 11) (int64 (rules.latest_round -ℤ permissive_internal)) ≡ false
unfolding int64 ◌-ℤ◌
eleven_is_fresh = refl

one_signer_suffices_example :
    check_proposal crypto tree
      (cert (pos 11) [])
      (cert (pos 10) (copies 4 (signed_by 1)))
      (some validators)
      rules
    ≡ accepted
one_signer_suffices_example =
    one_signer_suffices crypto tree (cert (pos 11) []) (cert (pos 10) (copies 4 (signed_by 1)))
      validators rules (signed_by 1) 7 eleven_is_fresh refl refl refl signed_one refl

-- A vote in the name of 1 with a signature that is not right.
abbrev forged : Cert
forged = cert (pos 10) (record { address = 1; public_key = 1; sign = 99 } ∷ [])

accepted_vote_iff_example :
    (check_vote crypto forged validators rules ≡ accepted)
    ↔ Good crypto forged validators rules (record { address = 1; public_key = 1; sign = 99 })
accepted_vote_iff_example =
    accepted_vote_iff crypto forged validators rules
      (record { address = 1; public_key = 1; sign = 99 }) [] refl

-- ===== src/Consensus/Safety.antt =====
-- consensus/chainbft/safety_rules.go and pacemaker.go: the rules by which a replica votes for
-- proposals and accepts certificates. The tree of pending certificates is seen through `Tree`; the
-- cryptography client is the parameter `Crypto`. Identifiers, keys and addresses are only compared.
pub mod Rounds
pub mod Quorum
pub mod Votes
mod Examples
use corechain.Prelude.{
  Bool, List, Option, [], false, if◌then◌else◌, leb, length, none, not, some, true, ℕ, ◌&&◌, ◌+◌,
  ◌==◌, ◌||◌, ◌∷◌,
}
use corechain.Prelude.Int.{eqb_ℤ, int64, leb_ℤ, ltb_ℤ, pos, quot_ℤ, ℤ, ◌+ℤ◌, ◌-ℤ◌}

-- One signature of a certificate, with the address it claims.
pub record Sign : Type 0 where
  pub address : ℕ
  pub public_key : ℕ
  pub sign : ℕ

-- `QuorumCert`; an empty identifier is `none`.
pub record Cert : Type 0 where
  pub view : ℤ
  pub id : Option ℕ
  pub parent_view : ℤ
  pub signs : List Sign

-- The cryptography client: the key of a text, the address of a key, and the check of a signature,
-- each of which may be an error.
pub record Crypto : Type 0 where
  pub key_of : ℕ → Option ℕ
  pub address_of : ℕ → Option ℕ
  pub verify_ecdsa : ℕ → ℕ → Option ℕ → Option Bool

-- The two results of `VerifyVoteMsgSign`: true, false without an error, and false with one.
pub data Verified : Type 0 where
  verified refuted failed : Verified

abbrev of_check : Option Bool → Verified
of_check none = failed
of_check (some true) = verified
of_check (some false) = refuted

-- `VerifyVoteMsgSign` (crypto.go).
unfoldable pub verify_vote_msg_sign : Crypto → Sign → Option ℕ → Verified
verify_vote_msg_sign c x msg = elim (c.key_of x.public_key) [
  | none ↦ failed
  | some key ↦ elim (c.address_of key) [
    | none ↦ failed
    | some address ↦
        if address == x.address then of_check (c.verify_ecdsa key x.sign msg) else failed
  ]
]

-- `DefaultSafetyRules`
pub record Rules : Type 0 where
  pub latest_round : ℤ
  pub preferred_round : ℤ

-- What the rules ask of the tree: the stored identifiers, and the views of the root.
pub record Tree : Type 0 where
  pub stored : ℕ → Bool
  pub root_view : ℤ
  pub root_parent_view : ℤ

pub data Verdict : Type 0 where
  accepted : Verdict
  empty_vote_sign invalid_vote_addr invalid_vote_sign too_low_vote_view : Verdict
  too_low_parent_view too_low_proposal_view empty_parent no_enough_votes : Verdict
  empty_parent_node empty_validators sign_error : Verdict

-- `StrictInternal` and `PermissiveInternal`.
abbrev pub strict_internal : ℤ
strict_internal = pos 3

abbrev pub permissive_internal : ℤ
permissive_internal = pos 6

unfoldable pub update_preferred_round : ℤ → Rules → Rules
update_preferred_round round s =
    let r = int64 (round -ℤ pos 1) in
    if ltb_ℤ s.preferred_round r then record s { preferred_round = r } else s

unfoldable pub increase_latest_round : ℤ → Rules → Rules
increase_latest_round round s =
    if ltb_ℤ s.latest_round round then record s { latest_round = round } else s

unfoldable pub vote_proposal : ℤ → Cert → Rules → Bool × Rules
unfolding increase_latest_round
vote_proposal round parent s =
    if ltb_ℤ round (int64 (s.latest_round -ℤ strict_internal))
    then (false, s)
    else if ltb_ℤ parent.view (int64 (s.preferred_round -ℤ strict_internal))
    then (false, s)
    else (true, increase_latest_round round s)

-- `isInSlice`
abbrev pub is_in_slice : ℕ → List ℕ → Bool
is_in_slice a [] = false
is_in_slice a (v ∷ vs) = if a == v then true else is_in_slice a vs

-- `CalVotesThreshold`; Go's division rounds towards zero.
unfoldable pub cal_votes_threshold : ℕ → ℕ → Bool
cal_votes_threshold input sum =
    let f = quot_ℤ (pos sum -ℤ pos 1) (pos 3) in
    if ltb_ℤ f (pos 0)
    then false
    else if eqb_ℤ f (pos 0)
    then leb sum (input + 1)
    else leb_ℤ (pos sum -ℤ f) (pos (input + 1))

-- The view tests at the end of `CheckVote`.
abbrev pub check_views : Cert → Rules → Verdict
check_views qc s =
    if ltb_ℤ qc.view (int64 (s.latest_round -ℤ strict_internal))
    then too_low_vote_view
    else if ltb_ℤ qc.parent_view (int64 (s.preferred_round -ℤ strict_internal))
    then too_low_parent_view
    else accepted

-- A signature that does not verify ends the check with the error of `VerifyVoteMsgSign`, which is
-- nil where the signature was checked and is false.
unfoldable pub check_vote : Crypto → Cert → List ℕ → Rules → Verdict
unfolding verify_vote_msg_sign
check_vote c qc validators s = elim qc.signs [
  | [] ↦ empty_vote_sign
  | x ∷ xs ↦
      if not (is_in_slice x.address validators)
      then invalid_vote_addr
      else elim (verify_vote_msg_sign c x qc.id) [
        | verified ↦ check_views qc s
        | refuted ↦ accepted
        | failed ↦ sign_error
      ]
]

abbrev pub is_verified : Verified → Bool
is_verified verified = true
is_verified refuted = false
is_verified failed = false

-- The loop of `CheckProposal` over the signatures: how many are of validators, or `none` if such a
-- one does not verify.
unfoldable pub count_valid : Crypto → Option ℕ → List ℕ → List Sign → ℕ → Option ℕ
count_valid c id validators [] n = some n
count_valid c id validators (x ∷ xs) n =
    let rest = count_valid c id validators xs in
    if not (is_in_slice x.address validators)
    then rest n
    else if not (is_verified (verify_vote_msg_sign c x id))
    then none
    else rest (n + 1)

-- The test for a parent that is not in the tree.
unfoldable pub is_loose : Tree → Cert → Option ℕ → Bool
is_loose tree proposal none = true
is_loose tree proposal (some i) =
    not (tree.stored i)
    && (leb_ℤ proposal.view tree.root_parent_view
        || ltb_ℤ (int64 (tree.root_view +ℤ permissive_internal)) proposal.view)

unfoldable pub check_proposal : Crypto → Tree → Cert → Cert → Option (List ℕ) → Rules → Verdict
check_proposal c tree proposal parent justify_validators s =
    if ltb_ℤ proposal.view (int64 (s.latest_round -ℤ permissive_internal))
    then too_low_proposal_view
    else elim justify_validators [
      | none ↦ empty_validators
      | some vs ↦ elim parent.id [
        | none ↦ empty_parent
        | some i ↦
            if is_loose tree proposal (some i)
            then empty_parent_node
            else elim (count_valid c (some i) vs parent.signs 0) [
              | none ↦ invalid_vote_sign
              | some n ↦ if cal_votes_threshold n (length vs) then accepted else no_enough_votes
            ]
      ]
    ]

unfoldable pub check_pacemaker : ℤ → ℤ → Bool
check_pacemaker pending local = not (leb_ℤ pending (int64 (local -ℤ strict_internal)))

-- `DefaultPaceMaker.AdvanceView` on its current view; no certificate is an error.
unfoldable pub advance_view : Option Cert → ℤ → Option Bool × ℤ
advance_view none current = (none, current)
advance_view (some qc) current =
    let next = int64 (qc.view +ℤ pos 1) in
    if ltb_ℤ current next then (some true, next) else (some true, current)

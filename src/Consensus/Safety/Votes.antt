-- ===== src/Consensus/Safety/Votes.antt =====
-- Which votes `CheckVote` accepts.
use corechain.Consensus.Safety.{
  Cert, Crypto, Rules, Sign, Verified, accepted, check_views, check_vote, failed, is_in_slice,
  refuted, strict_internal, verified, verify_vote_msg_sign,
}
use corechain.Prelude.Int.{int64, ◌-ℤ◌, ◌≤ℤ◌}
use corechain.Prelude.{
  Bool, List, Option, Option-cases, arith, false, if◌then◌else◌, inl, inr, refl, some, true, ℕ, ◌↔◌,
  ◌∷◌, ◌≡◌, ◌⊎◌,
}

-- The signature was checked against the key of the address, and the check came out as it says.
abbrev pub Checked : Crypto → Sign → Option ℕ → Bool → Type 0
Checked c x id good =
    (key : ℕ) × (c.key_of x.public_key ≡ some key)
    × (c.address_of key ≡ some x.address)
    × (c.verify_ecdsa key x.sign id ≡ some good)

verify_lem :
    (c : Crypto) (x : Sign) (id : Option ℕ) (good : Bool)
    → verify_vote_msg_sign c x id ≡ (if good then verified else refuted)
    → Checked c x id good
unfolding verify_vote_msg_sign
verify_lem c x id good h = elim (Option-cases (c.key_of x.public_key)) [
  | inl e ↦ absurd (ground arith)
  | inr (key, e) ↦ elim (Option-cases (c.address_of key)) [
    | inl ea ↦ absurd (ground arith)
    | inr (a, ea) ↦ elim (Option-cases (c.verify_ecdsa key x.sign id)) [
      | inl ev ↦ absurd (ground arith)
      | inr (g, ev) ↦ (key, e, ground arith, ground arith)
    ]
  ]
]

verified_lem :
    (c : Crypto) (x : Sign) (id : Option ℕ) (good : Bool)
    → Checked c x id good
    → verify_vote_msg_sign c x id ≡ (if good then verified else refuted)
unfolding verify_vote_msg_sign
verified_lem c x id good (key, e, ea, ev) = ground arith

Verified-cases : (v : Verified) → (v ≡ verified) ⊎ (v ≡ refuted) ⊎ (v ≡ failed)
Verified-cases verified = inl refl
Verified-cases refuted = inr (inl refl)
Verified-cases failed = inr (inr refl)

-- The view of the vote is at most `strict_internal` below the last voted round, and the view of its
-- parent at most that below the preferred round, in int64 arithmetic.
abbrev pub Fresh : Cert → Rules → Type 0
Fresh qc s =
    (int64 (s.latest_round -ℤ strict_internal) ≤ℤ qc.view)
    × (int64 (s.preferred_round -ℤ strict_internal) ≤ℤ qc.parent_view)

not_too_low : (qc : Cert) (s : Rules) → Fresh qc s → check_views qc s ≡ accepted
not_too_low qc s h = ground (arith, h)

passed_views : (qc : Cert) (s : Rules) → check_views qc s ≡ accepted → Fresh qc s
passed_views qc s h = (ground (arith, h), ground (arith, h))

-- The two ways to be accepted.
abbrev pub Good : Crypto → Cert → List ℕ → Rules → Sign → Type 0
Good c qc vs s x =
    (is_in_slice x.address vs ≡ true)
    × ((Checked c x qc.id true × Fresh qc s) ⊎ Checked c x qc.id false)

accepted_is_Good :
    (c : Crypto) (qc : Cert) (vs : List ℕ) (s : Rules) (x : Sign) (xs : List Sign)
    → qc.signs ≡ x ∷ xs
    → check_vote c qc vs s ≡ accepted
    → Good c qc vs s x
unfolding check_vote
accepted_is_Good c qc vs s x xs e h =
    let inside : is_in_slice x.address vs ≡ true = ground arith in
    elim (Verified-cases (verify_vote_msg_sign c x qc.id)) [
      | inl v ↦
          let views : check_views qc s ≡ accepted = ground arith in
          (inside, inl (verify_lem c x qc.id true v, passed_views qc s views))
      | inr (inl v) ↦ (inside, inr (verify_lem c x qc.id false v))
      | inr (inr v) ↦ absurd (ground arith)
    ]

accepted_of_Good :
    (c : Crypto) (qc : Cert) (vs : List ℕ) (s : Rules) (x : Sign) (xs : List Sign)
    → qc.signs ≡ x ∷ xs
    → Good c qc vs s x
    → check_vote c qc vs s ≡ accepted
unfolding check_vote
accepted_of_Good c qc vs s x xs e (inside, inl (v, views)) =
    rw (e, inside, verified_lem c x qc.id true v) (not_too_low qc s views)
accepted_of_Good c qc vs s x xs e (inside, inr v) =
    rw (e, inside, verified_lem c x qc.id false v) refl

-- A vote is accepted just if its first signature claims to be of a validator with the key of that
-- address, and either it is right, the view of the vote is at most `strict_internal` below the last
-- voted round and that of its parent at most that below the preferred round, or it is wrong: a wrong
-- signature is an acceptance, whatever the views.
pub accepted_vote_iff :
    (c : Crypto) (qc : Cert) (vs : List ℕ) (s : Rules) (x : Sign) (xs : List Sign)
    → qc.signs ≡ x ∷ xs
    → (check_vote c qc vs s ≡ accepted) ↔ Good c qc vs s x
accepted_vote_iff c qc vs s x xs e =
    (accepted_is_Good c qc vs s x xs e, accepted_of_Good c qc vs s x xs e)

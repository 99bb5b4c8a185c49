-- ===== src/Consensus/Safety/Rounds.antt =====
-- The rounds of a replica only grow, and its votes stay close to them.
use corechain.Consensus.Safety.{Cert, Rules, update_preferred_round, vote_proposal}
use corechain.Prelude.{arith, false, subst, true, ◌≡◌}
use corechain.Prelude.Int.{
  Fits64, int64, int64-Fits64, int64_of_Fits64, int_laws, ltb_ℤ, pos, ℤ, ◌+ℤ◌, ◌-ℤ◌, ◌≤ℤ◌,
}

-- A vote or an update of the preferred round, of a round that is an int64 value.
pub data Step (s : Rules) : Rules → Type 0 where
  voted :
      (round : ℤ) (parent : Cert) {s' : Rules}
      → Fits64 round
      → vote_proposal round parent s ≡ (true, s')
      → Step s s'
  preferred : (round : ℤ) {s' : Rules} → update_preferred_round round s ≡ s' → Step s s'

pub data Reach (s : Rules) : Rules → Type 0 where
  here : Reach s s
  next : {s' s'' : Rules} → Reach s s' → Step s' s'' → Reach s s''

-- The rounds are int64 values, and the latest one is not negative.
pub record IsSane (s : Rules) : Type 0 where
  pub latest_fits : Fits64 s.latest_round
  pub preferred_fits : Fits64 s.preferred_round
  pub nonneg : pos 0 ≤ℤ s.latest_round

-- The rounds of `s'` are those of `s` or later ones.
abbrev pub Later : Rules → Rules → Type 0
Later s s' = (s.latest_round ≤ℤ s'.latest_round) × (s.preferred_round ≤ℤ s'.preferred_round)

vote_lem :
    (round : ℤ) (parent : Cert) (s : Rules)
    → IsSane s
    → Fits64 round
    → let s' = (vote_proposal round parent s).1 in Later s s' × IsSane s'
unfolding vote_proposal
vote_lem round parent s h fits = (
  ground (arith, h.latest_fits),
  record {
    latest_fits = ground (arith, h.latest_fits, fits);
    preferred_fits = ground (arith, h.preferred_fits);
    nonneg = ground (arith, h.nonneg);
  },
)

prefer_lem :
    (round : ℤ) (s : Rules)
    → IsSane s
    → let s' = update_preferred_round round s in Later s s' × IsSane s'
unfolding update_preferred_round
prefer_lem round s h =
    let fits = int64-Fits64 (round -ℤ pos 1) in
    (
      ground arith,
      record {
        latest_fits = ground (arith, h.latest_fits);
        preferred_fits = ground (arith, h.preferred_fits, fits);
        nonneg = ground (arith, h.nonneg);
      },
    )

Reach-IsSane : {s s' : Rules} → IsSane s → Reach s s' → Later s s' × IsSane s'
Reach-IsSane h here = ((omega arith, omega arith), h)
Reach-IsSane {s} {s'} h (next {s' = m} r st) =
    let (late, sane) = Reach-IsSane h r in
    let (more, sane') = step m s' st sane in
    ((omega (arith, late, more), omega (arith, late, more)), sane')
  where
    step : (a b : Rules) → Step a b → IsSane a → Later a b × IsSane b
    step a b (voted round parent fits e) ha =
        subst (λ r. Later a r.1 × IsSane r.1) e (vote_lem round parent a ha fits)
    step a b (preferred round e) ha = subst (λ r. Later a r × IsSane r) e (prefer_lem round a ha)

less_three : (a : ℤ) → pos 0 ≤ℤ a → Fits64 a → Fits64 (a -ℤ pos 3)
unfolding ◌-ℤ◌
less_three a h fits = ground arith

close : (a b : ℤ) → ltb_ℤ a (b -ℤ pos 3) ≡ false → b ≤ℤ a +ℤ pos 3
unfolding ◌-ℤ◌ ◌+ℤ◌
close a b k = ground arith

-- No vote of a proposal more than three rounds below the latest round, or on a parent more than
-- three below the preferred one.
vote_high :
    (round : ℤ) (parent : Cert) (s : Rules)
    → IsSane s
    → (vote_proposal round parent s).0 ≡ true
    → (s.latest_round ≤ℤ round +ℤ pos 3) × (round ≤ℤ (vote_proposal round parent s).1.latest_round)
unfolding vote_proposal
vote_high round parent s h e =
    let exact =
      int64_of_Fits64 (s.latest_round -ℤ pos 3)
        (less_three s.latest_round h.nonneg h.latest_fits) in
    let above : ltb_ℤ round (int64 (s.latest_round -ℤ pos 3)) ≡ false = ground (arith, e) in
    let near : ltb_ℤ round (s.latest_round -ℤ pos 3) ≡ false =
      subst (λ z. ltb_ℤ round z ≡ false) exact above in
    (close round s.latest_round near, ground (arith, e))

-- A replica that has voted for a proposal never votes later, after any votes and updates of its
-- preferred round, for a proposal more than three rounds below it; and its rounds have not gone down.
-- Rounds are int64 values and the latest one is not negative at the start.
pub votes_stay_close :
    (r r' : ℤ) (parent parent' : Cert) (s s' : Rules)
    → IsSane s
    → Fits64 r
    → (vote_proposal r parent s).0 ≡ true
    → Reach (vote_proposal r parent s).1 s'
    → (vote_proposal r' parent' s').0 ≡ true
    → (r ≤ℤ r' +ℤ pos 3) × Later s s'
votes_stay_close r r' parent parent' s s' h fits e reach e' =
    let (late, sane) = vote_lem r parent s h fits in
    let (later, sane') = Reach-IsSane sane reach in
    let one = (vote_high r parent s h e).1 in
    let two = (vote_high r' parent' s' sane' e').0 in
    (omega (int_laws, one, two, later), (omega (arith, late, later), omega (arith, late, later)))

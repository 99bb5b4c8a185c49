-- ===== src/Contract/Proposal/Decision.antt =====
-- Thawing a proposal gives its deposit back, and what it takes to pass.
use corechain.Contract.Proposal.Outcome.{check_vote_inv}
use corechain.Contract.Proposal.Effects.{propose_inv}
use corechain.Contract.Govern.Locks.{unlock-lock}
use corechain.Contract.Proposal.World.{
  Env, Proposal, Text, World, cancelled, gov_ctx, locks_of, passed, proposal_key, rejected, reply,
  set_string, text, voting,
}
use corechain.Contract.Proposal.Propose.{
  check_vote, check_vote_thread, deposit, propose, status_ok, thaw, thread_tickets,
}
use corechain.Contract.Govern.{unlock_govern_tokens}
use corechain.Contract.Govern.Ledger as Gov
use corechain.Prelude.{
  ==_refl, Option, arith, false, inl, inr, refl, some, sym, ℕ, ◌*◌, ◌+◌, ◌/◌, ◌<◌, ◌∙◌, ◌≡◌, ◌≤◌,
  ◌⊎◌,
}
use corechain.Prelude.Int.{int_laws, ltb_ℤ, negsuc, pos, ℤ, ◌*ℤ◌, ◌+ℤ◌, ◌<ℤ◌}
use corechain.Prelude.Dict.{insert, lookup, lookup-insert}

own_lock :
    (env : Env) (w w1 : World) (i : ℕ)
    → w1.locks ≡ insert i (insert env.initiator (pos 1000) (locks_of w i)) w.locks
    → lookup env.initiator (locks_of w1 i) ≡ some (pos 1000)
own_lock env w w1 i e =
    let d = insert env.initiator (pos 1000) (locks_of w i) in
    let at : locks_of w1 i ≡ d = ground (arith, lookup-insert i i d w.locks) in
    rw
      (
        at,
        lookup-insert env.initiator env.initiator (pos 1000) (locks_of w i),
        ==_refl env.initiator,
      )
      refl

-- A thaw by its proposer of a proposal that is in vote without votes, when the unlock goes through.
thaw_runs :
    (env : Env) (i : ℕ) (p : Proposal) (w : World)
    → lookup i w.proposals ≡ some p
    → p.proposer ≡ env.initiator
    → p.vote_amount ≡ pos 0
    → p.status ≡ voting
    → env.put_fails (proposal_key i) ≡ false
    → lookup env.initiator (locks_of w i) ≡ some (pos 1000)
    → let u = unlock_govern_tokens env.gov_method (gov_ctx env env.initiator deposit) w.gov in
      (u.0 ≡ Gov.ok tt)
      → ((thaw env (some i) w).0 ≡ reply tt)
        × ((thaw env (some i) w).1.gov ≡ u.1)
        × ((thaw env (some i) w).1.proposals
            ≡ insert i (record p { status = cancelled }) w.proposals)
unfolding thaw
thaw_runs env i p w e own zero_votes v puts held good = (ground arith, ground arith, ground arith)

-- Proposing and thawing in the same context goes through, cancels the proposal, and restores all
-- govern token balances.
pub thaw-propose :
    (env : Env) (parsed : Option Proposal) (w : World) (i : ℕ)
    → (propose env parsed w).0 ≡ reply i
    → let t = thaw env (some i) (propose env parsed w).1 in
      (t.0 ≡ reply tt)
      × (t.1.gov.balances ≡ w.gov.balances)
      × ((p : Proposal) × (lookup i t.1.proposals ≡ some p) × (p.status ≡ cancelled))
thaw-propose env parsed w i e =
    let v = propose_inv env parsed w i e in
    let w1 = (propose env parsed w).1 in
    let q : Proposal = record v.p {
      vote_amount = pos 0;
      status = voting;
      proposer = env.initiator;
    } in
    let (good, back) =
      unlock-lock env.gov_method (gov_ctx env env.initiator deposit) w.gov v.locked in
    let found : lookup i w1.proposals ≡ some q =
      rw (v.proposals, lookup-insert i i q w.proposals, ==_refl i) refl in
    let mine : lookup env.initiator (locks_of w1 i) ≡ some (pos 1000) =
      own_lock env w w1 i v.locks in
    let (run, gov, wrote) =
      thaw_runs env i q w1 found refl refl refl v.writable mine (rw v.gov good) in
    (
      run,
      rw (gov, v.gov) back,
      (
        record q { status = cancelled },
        rw (wrote, lookup-insert i i (record q { status = cancelled }) w1.proposals, ==_refl i)
            refl,
        refl,
      ),
    )

text_injective : (s t : Text) → text s ≡ text t → s ≡ t
text_injective s t h = ground arith

percent_bounds :
    (percent : Text)
    → check_vote_thread percent ≡ reply tt
    → (v : ℕ) × ((set_string percent).value ≡ pos v) × (51 ≤ v)
unfolding check_vote_thread
percent_bounds percent h = elim (nonneg_cases (set_string percent).value) [
  | inl (n, e) ↦ (n, e, ground arith)
  | inr (n, e) ↦ absurd (ground arith)
]
  where
    nonneg_cases : (z : ℤ) → ((n : ℕ) × (z ≡ pos n)) ⊎ ((n : ℕ) × (z ≡ negsuc n))
    nonneg_cases (pos n) = inl (n, refl)
    nonneg_cases (negsuc n) = inr (n, refl)

half_of : (total v : ℕ) → 51 ≤ v → total < total * v / 100 + total * v / 100 + 2
half_of total v h = grind arith

-- A percentage within its bounds asks for half of the supply, up to one vote.
thread_is_half :
    (total : ℕ) (percent : Text)
    → check_vote_thread percent ≡ reply tt
    → let n = thread_tickets (pos total) percent in pos total <ℤ n +ℤ n +ℤ pos 2
unfolding thread_tickets ◌*ℤ◌ ◌+ℤ◌
thread_is_half total percent h =
    let (v, e, low) = percent_bounds percent h in rw e (ground (arith, half_of total v low))

-- A proposal whose percentage is within its bounds, and that the count passes, has at least the
-- votes of half of the supply, up to one vote.
pub passed_has_majority :
    (env : Env) (i : ℕ) (w : World) (p q : Proposal) (percent : Text) (total : ℕ)
    → (check_vote env (some i) w).0 ≡ reply status_ok
    → lookup i w.proposals ≡ some p
    → p.min_vote_percent ≡ text percent
    → check_vote_thread percent ≡ reply tt
    → w.gov.total_supply ≡ some (pos total)
    → lookup i (check_vote env (some i) w).1.proposals ≡ some q
    → q.status ≡ passed
    → pos total <ℤ p.vote_amount +ℤ p.vote_amount +ℤ pos 2
passed_has_majority env i w p q percent total h e et ok_percent es eq done =
    let (p', percent', total', e', et', es', out) = check_vote_inv env i w h in
    let w1 = (check_vote env (some i) w).1 in
    let same_p : p' ≡ p = ground arith in
    let same_t : percent' ≡ percent = text_injective percent' percent (sym et' ∙ rw same_p et) in
    let same_n : total' ≡ pos total = ground arith in
    elim out [
      | inl (lt, m) ↦
          let found = lookup-insert i i (record m.p { status = rejected }) w.proposals in
          absurd (ground (arith, m.proposals, found))
      | inr (ge, m) ↦
          let half = thread_is_half total percent ok_percent in
          let votes : ltb_ℤ p.vote_amount (thread_tickets (pos total) percent) ≡ false =
            sym (rw (same_p, same_t, same_n) refl) ∙ ge in
          grind int_laws
    ]

-- ===== src/Contract/Proposal/History.antt =====
-- Any sequence of calls of "$proposal" that went through, and what it keeps.
use corechain.Contract.Proposal.Outcome.{Moved, check_vote_inv}
use corechain.Contract.Proposal.World.{
  Env, Proposal, Status, TriggerDesc, World, cancelled, completed_failure, completed_success,
  locks_of, passed, rejected, reply, voting,
}
use corechain.Contract.Proposal.Propose.{
  check_vote, locked_more, propose, status_ok, thaw, trigger, vote,
}
use corechain.Contract.Proposal.Effects.{Proposed, Voted, next_id, propose_inv, thaw_inv, vote_inv}
use corechain.Contract.Proposal.Triggered.{LeavesVotes, trigger_inv}
use corechain.Contract.Proposal.Escrow.{IsEscrowed, lock_sum, lock_sum-insert, written-IsEscrowed}
use corechain.Contract.Govern.Ledger.{Decimal}
use corechain.Prelude.{
  Bool, Bool-cases, Option, [], ap, arith, if◌then◌else◌, inl, inr, ltb, ltb→lt, refl, some, subst,
  ℕ, ◌<◌, ◌==◌, ◌∙◌, ◌≡◌,
}
use corechain.Prelude.Int.{int_laws, pos, ℤ, ◌+ℤ◌}
use corechain.Prelude.Dict.{Dict, insert, lookup, lookup-insert}

-- One call that went through; the method that a trigger runs leaves the votes alone.
pub data Step (run_call : TriggerDesc → World → Bool × World) (w : World) : World → Type 0 where
  proposed :
      (env : Env) (parsed : Option Proposal) (i : ℕ) {w' : World}
      → propose env parsed w ≡ (reply i, w')
      → Step run_call w w'
  voted :
      (env : Env) (i : Option ℕ) (n : Option Decimal) {w' : World}
      → vote env i n w ≡ (reply tt, w')
      → Step run_call w w'
  thawed :
      (env : Env) (i : Option ℕ) {w' : World} → thaw env i w ≡ (reply tt, w') → Step run_call w w'
  checked :
      (env : Env) (i : ℕ) {w' : World}
      → check_vote env (some i) w ≡ (reply status_ok, w')
      → Step run_call w w'
  triggered :
      (env : Env) (i : ℕ) {w' : World}
      → LeavesVotes run_call
      → trigger run_call env (some i) w ≡ (reply status_ok, w')
      → Step run_call w w'

pub data Reach (run_call : TriggerDesc → World → Bool × World) (w : World) : World → Type 0 where
  here : Reach run_call w w
  next : {w' w'' : World} → Reach run_call w w' → Step run_call w' w'' → Reach run_call w w''

pub stored_low :
    (w : World) (i : ℕ) (p : Proposal)
    → IsEscrowed w
    → lookup i w.proposals ≡ some p
    → i < next_id w.latest_id
stored_low w i p h e = elim (Bool-cases (ltb i (next_id w.latest_id))) [
  | inl lt ↦ ltb→lt _ _ lt
  | inr ge ↦ let gone = (h.fresh i (ground arith)).0 in absurd (ground arith)
]

insert_locks :
    (i j : ℕ) (d : Dict ℤ) (w w' : World)
    → w'.locks ≡ insert i d w.locks
    → locks_of w' j ≡ (if i == j then d else locks_of w j)
insert_locks i j d w w' e = ground (arith, lookup-insert i j d w.locks)

insert_proposals :
    (i j : ℕ) (p : Proposal) (w w' : World)
    → w'.proposals ≡ insert i p w.proposals
    → lookup j w'.proposals ≡ (if i == j then some p else lookup j w.proposals)
insert_proposals i j p w w' e = rw e (lookup-insert i j p w.proposals)

same_locks :
    (i j : ℕ) (w w' : World)
    → w'.locks ≡ w.locks
    → locks_of w' j ≡ (if i == j then locks_of w i else locks_of w j)
same_locks i j w w' e = ground arith

-- A change of status alone.
status-IsEscrowed :
    (w w' : World) (i : ℕ) (p : Proposal) (new : Status)
    → lookup i w.proposals ≡ some p
    → w'.proposals ≡ insert i (record p { status = new }) w.proposals
    → w'.locks ≡ w.locks
    → w'.latest_id ≡ w.latest_id
    → IsEscrowed w
    → IsEscrowed w'
status-IsEscrowed w w' i p new e wrote locks latest h =
    let low = stored_low w i p h e in
    written-IsEscrowed w w' i (record p { status = new }) (locks_of w i) (rw latest (omega arith))
      (rw latest low) (λ j. insert_proposals i j (record p { status = new }) w w' wrote)
      (λ j. same_locks i j w w' locks) (h.tally i p e) h

Proposed-IsEscrowed :
    (env : Env) (w w' : World) (i : ℕ) → Proposed env w w' i → IsEscrowed w → IsEscrowed w'
Proposed-IsEscrowed env w w' i v h =
    let none_there = (h.fresh i (rw v.new_id (omega arith))).1 in
    written-IsEscrowed w w' i
      (record v.p { vote_amount = pos 0; status = voting; proposer = env.initiator })
      (insert env.initiator (pos 1000) (locks_of w i)) (rw (v.latest, ← v.new_id) (omega arith))
      (rw v.latest (omega arith)) (λ j. insert_proposals i j _ w w' v.proposals)
      (λ j. insert_locks i j _ w w' v.locks) (rw none_there (omega int_laws)) h

Voted-IsEscrowed :
    (env : Env) (w w' : World) (a : Option ℕ) (b : Option Decimal)
    → Voted env w w' a b
    → IsEscrowed w
    → IsEscrowed w'
Voted-IsEscrowed env w w' a b v h =
    let low = stored_low w v.i v.p h v.stored in
    let sum = lock_sum-insert env.initiator v.amount.value (locks_of w v.i) in
    written-IsEscrowed w w' v.i (record v.p { vote_amount = v.p.vote_amount +ℤ v.amount.value })
      (insert env.initiator (locked_more v.amount.value (lookup env.initiator (locks_of w v.i)))
        (locks_of w v.i))
      (rw v.latest (omega arith)) (rw v.latest low) (λ j. insert_proposals v.i j _ w w' v.proposals)
      (λ j. insert_locks v.i j _ w w' v.locks)
      (sum ∙ rw (h.tally v.i v.p v.stored) (omega int_laws)) h

moved :
    (w w' : World) (i : ℕ) (old new : Status) → Moved w w' i old new → IsEscrowed w → IsEscrowed w'
moved w w' i old new m h = status-IsEscrowed w w' i m.p new m.stored m.proposals m.locks m.latest h

pub Step-IsEscrowed :
    (run_call : TriggerDesc → World → Bool × World) {w w' : World}
    → Step run_call w w'
    → IsEscrowed w
    → IsEscrowed w'
Step-IsEscrowed run_call {w} {w'} (proposed env a i e) h =
    subst (λ r. IsEscrowed r.1) e
      (Proposed-IsEscrowed env w (propose env a w).1 i (propose_inv env a w i (ap (λ r. r.0) e)) h)
Step-IsEscrowed run_call {w} {w'} (voted env a n e) h =
    subst (λ r. IsEscrowed r.1) e
      (Voted-IsEscrowed env w (vote env a n w).1 a n (vote_inv env a n w (ap (λ r. r.0) e)) h)
Step-IsEscrowed run_call {w} {w'} (thawed env a e) h =
    let v = thaw_inv env a w (ap (λ r. r.0) e) in
    subst (λ r. IsEscrowed r.1) e
      (status-IsEscrowed w (thaw env a w).1 v.i v.p cancelled v.stored v.proposals v.locks v.latest
        h)
Step-IsEscrowed run_call {w} {w'} (checked env i e) h =
    let (p, percent, total, ep, et, es, out) = check_vote_inv env i w (ap (λ r. r.0) e) in
    let w1 = (check_vote env (some i) w).1 in
    subst (λ r. IsEscrowed r.1) e
      (elim out [
        | inl (lt, m) ↦ moved w w1 i voting rejected m h
        | inr (ge, m) ↦ moved w w1 i voting passed m h
      ])
Step-IsEscrowed run_call {w} {w'} (triggered env i leaves e) h =
    let (good, m) = trigger_inv run_call env i w leaves (ap (λ r. r.0) e) in
    subst (λ r. IsEscrowed r.1) e
      (moved w (trigger run_call env (some i) w).1 i passed
        (if good then completed_success else completed_failure) m h)

pub Reach-IsEscrowed :
    (run_call : TriggerDesc → World → Bool × World) {w w' : World}
    → Reach run_call w w'
    → IsEscrowed w
    → IsEscrowed w'
Reach-IsEscrowed run_call here h = h
Reach-IsEscrowed run_call (next r st) h =
    Step-IsEscrowed run_call st (Reach-IsEscrowed run_call r h)

-- From a state without proposals and locks, after any calls of the proposal contract that went
-- through, where the methods that proposals name leave the votes alone: the recorded locks of a
-- proposal add up to its votes and the deposit of its proposer.
pub votes_are_locked :
    (run_call : TriggerDesc → World → Bool × World) (w w' : World) (i : ℕ) (p : Proposal)
    → w.proposals ≡ []
    → w.locks ≡ []
    → Reach run_call w w'
    → lookup i w'.proposals ≡ some p
    → lock_sum (locks_of w' i) ≡ p.vote_amount +ℤ pos 1000
votes_are_locked run_call w w' i p no_proposals no_locks r e =
    let start : IsEscrowed w = record {
      fresh = λ j far. (rw no_proposals refl, rw no_locks refl);
      tally = λ j q h. absurd (ground arith);
    } in
    (Reach-IsEscrowed run_call r start).tally i p e

-- ===== src/Contract/Proposal/Triggered.antt =====
-- What the trigger of a proposal that passed has done to the buckets.
use corechain.Contract.Proposal.World.{
  Env, Proposal, Status, TriggerDesc, World, cancelled, completed_failure, completed_success,
  locks_of, passed, rejected, reply, voting,
}
use corechain.Contract.Proposal.Propose.{
  is_passed, status_exception, status_ok, trigger, unlock_all,
}
use corechain.Contract.Proposal.Effects.{SameVotes}
use corechain.Contract.Proposal.Outcome.{Moved, unlock_loop-SameVotes}
use corechain.Prelude.{
  Bool, Option, Option-cases, arith, if◌then◌else◌, inl, inr, none, refl, some, true, ℕ, ◌≡◌, ◌≢◌,
}
use corechain.Prelude.Dict.{lookup}

-- The method that a proposal names is taken to leave the votes alone.
abbrev pub LeavesVotes : (TriggerDesc → World → Bool × World) → Type 0
LeavesVotes run_call = (tr : TriggerDesc) (w : World) → SameVotes w (run_call tr w).1

passed_of : (s : Status) → is_passed s ≡ true → s ≡ passed
passed_of voting h = cc
passed_of cancelled h = cc
passed_of rejected h = cc
passed_of passed h = refl
passed_of completed_failure h = cc
passed_of completed_success h = cc

triggered :
    (run_call : TriggerDesc → World → Bool × World) (env : Env) (i : ℕ) (w : World) (p : Proposal)
    (tr : TriggerDesc)
    → LeavesVotes run_call
    → (trigger run_call env (some i) w).0 ≡ reply status_ok
    → lookup i w.proposals ≡ some p
    → p.trigger ≡ some tr
    → Moved w
        (trigger run_call env (some i) w).1
        i
        passed
        (if (run_call tr w).0 then completed_success else completed_failure)
unfolding trigger unlock_all
triggered run_call env i w p tr leaves h e et =
    let w1 = (run_call tr w).1 in
    let one = leaves tr w in
    let two = unlock_loop-SameVotes env (locks_of w1 i) w1 in
    record {
      p = p;
      stored = e;
      was = passed_of p.status (ground arith);
      proposals = ground (arith, one, two);
      locks = ground (arith, one, two);
      latest = ground (arith, one, two);
    }

needs_desc :
    (run_call : TriggerDesc → World → Bool × World) (env : Env) (i : ℕ) (w : World) (p : Proposal)
    → (trigger run_call env (some i) w).0 ≡ reply status_ok
    → lookup i w.proposals ≡ some p
    → p.trigger ≢ none
unfolding trigger
needs_desc run_call env i w p h e et = ground arith

needs_proposal :
    (run_call : TriggerDesc → World → Bool × World) (env : Env) (i : ℕ) (w : World)
    → (trigger run_call env (some i) w).0 ≡ reply status_ok
    → lookup i w.proposals ≢ none
unfolding trigger
needs_proposal run_call env i w h e = ground arith

pub trigger_inv :
    (run_call : TriggerDesc → World → Bool × World) (env : Env) (i : ℕ) (w : World)
    → LeavesVotes run_call
    → (trigger run_call env (some i) w).0 ≡ reply status_ok
    → (good : Bool) × Moved w
        (trigger run_call env (some i) w).1
        i
        passed
        (if good then completed_success else completed_failure)
trigger_inv run_call env i w leaves h = elim (Option-cases (lookup i w.proposals)) [
  | inl e ↦ absurd (needs_proposal run_call env i w h e)
  | inr (p, e) ↦ elim (Option-cases p.trigger) [
    | inl et ↦ absurd (needs_desc run_call env i w p h e et)
    | inr (tr, et) ↦ ((run_call tr w).0, triggered run_call env i w p tr leaves h e et)
  ]
]

pub trigger_exception :
    (run_call : TriggerDesc → World → Bool × World) (env : Env) (i : Option ℕ) (w : World)
    → (trigger run_call env i w).0 ≡ reply status_exception
    → (trigger run_call env i w).1 ≡ w
unfolding trigger
trigger_exception run_call env none w h = absurd (ground arith)
trigger_exception run_call env (some i) w h = ground arith

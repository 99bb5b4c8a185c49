-- ===== src/Contract/Proposal/Effects.antt =====
-- What a method of "$proposal" that goes through has done to the buckets.
use corechain.Contract.Govern.Ledger.{Decimal}
use corechain.Contract.Proposal.World.{
  Env, Proposal, Status, Task, Text, World, cancelled, check_vote_result, completed_failure,
  completed_success, gov_ctx, locks_of, passed, proposal_key, rejected, reply, voting,
}
use corechain.Contract.Proposal.Timer.{add_task}
use corechain.Contract.Proposal.Propose.{
  check_proposal_args, deposit, is_voting, locked_more, propose, text_of, thaw, vote,
}
use corechain.Contract.Govern.Ledger as Gov
use corechain.Contract.Govern.{lock_govern_tokens}
use corechain.Prelude.{
  Option, Option-cases, arith, false, inl, inr, none, refl, some, true, ℕ, ◌+◌, ◌≡◌,
}
use corechain.Prelude.Int.{pos, ◌+ℤ◌, ◌≤ℤ◌}
use corechain.Prelude.Dict.{insert, lookup}

-- The votes, their locks and the last proposal's number stay as they were.
abbrev pub SameVotes : World → World → Type 0
SameVotes w w' = (w'.proposals ≡ w.proposals) × (w'.locks ≡ w.locks) × (w'.latest_id ≡ w.latest_id)

pub add_task-SameVotes :
    (env : Env) (h : Option Text) (t : Option Task) (w : World)
    → SameVotes w (add_task env h t w).1 × ((add_task env h t w).1.gov ≡ w.gov)
unfolding add_task
add_task-SameVotes env none t w = ((refl, refl, refl), refl)
add_task-SameVotes env (some h) none w = ((refl, refl, refl), refl)
add_task-SameVotes env (some h) (some t) w = ground arith

pub check_args_state : (p : Proposal) (w : World) → (check_proposal_args p w).1 ≡ w
unfolding check_proposal_args
check_args_state p w = ground arith

abbrev pub next_id : Option ℕ → ℕ
next_id none = 1
next_id (some n) = n + 1

pub record Proposed (env : Env) (w w' : World) (i : ℕ) : Type 0 where
  pub p : Proposal
  pub new_id : i ≡ next_id w.latest_id
  pub checked : (check_proposal_args p w).0 ≡ reply tt
  pub proposals :
      w'.proposals
      ≡ insert i
          (record p { vote_amount = pos 0; status = voting; proposer = env.initiator })
          w.proposals
  pub locks : w'.locks ≡ insert i (insert env.initiator (pos 1000) (locks_of w i)) w.locks
  pub latest : w'.latest_id ≡ some i
  pub locked :
      (lock_govern_tokens env.gov_method (gov_ctx env env.initiator deposit) w.gov).0 ≡ Gov.ok tt
  pub gov : w'.gov ≡ (lock_govern_tokens env.gov_method (gov_ctx env env.initiator deposit) w.gov).1
  pub writable : env.put_fails (proposal_key i) ≡ false

pub propose_inv :
    (env : Env) (parsed : Option Proposal) (w : World) (i : ℕ)
    → (propose env parsed w).0 ≡ reply i
    → Proposed env w (propose env parsed w).1 i
unfolding propose
propose_inv env none w i h = absurd (ground arith)
propose_inv env (some p) w i h = elim (Option-cases (text_of p.stop_vote_height)) [
  | inl e ↦ absurd (ground (arith, check_args_state p w))
  | inr (stop, e) ↦
      let keep =
        add_task-SameVotes env (some stop) (some (check_vote_result (next_id w.latest_id))) w in
      record {
        p = p;
        new_id = ground (arith, keep, check_args_state p w);
        checked = ground (arith, keep, check_args_state p w);
        proposals = ground (arith, keep, check_args_state p w);
        locks = ground (arith, keep, check_args_state p w);
        latest = ground (arith, keep, check_args_state p w);
        locked = ground (arith, keep, check_args_state p w);
        gov = ground (arith, keep, check_args_state p w);
        writable = ground (arith, keep, check_args_state p w);
      }
]

pub record Voted (env : Env) (w w' : World) (proposal_id : Option ℕ) (amount_buf : Option Decimal)
    : Type 0 where
  pub i : ℕ
  pub amount : Decimal
  pub p : Proposal
  pub of_id : proposal_id ≡ some i
  pub of_amount : amount_buf ≡ some amount
  pub valid : (amount.valid ≡ true) × (pos 0 ≤ℤ amount.value)
  pub stored : lookup i w.proposals ≡ some p
  pub was_voting : p.status ≡ voting
  pub proposals :
      w'.proposals ≡ insert i (record p { vote_amount = p.vote_amount +ℤ amount.value }) w.proposals
  pub locks :
      w'.locks
      ≡ insert i
          (insert env.initiator
            (locked_more amount.value (lookup env.initiator (locks_of w i)))
            (locks_of w i))
          w.locks
  pub latest : w'.latest_id ≡ w.latest_id
  pub locked :
      (lock_govern_tokens env.gov_method (gov_ctx env env.initiator amount) w.gov).0 ≡ Gov.ok tt
  pub gov : w'.gov ≡ (lock_govern_tokens env.gov_method (gov_ctx env env.initiator amount) w.gov).1

pub voting_of : (s : Status) → is_voting s ≡ true → s ≡ voting
voting_of voting h = refl
voting_of cancelled h = cc
voting_of rejected h = cc
voting_of passed h = cc
voting_of completed_failure h = cc
voting_of completed_success h = cc

pub vote_inv :
    (env : Env) (proposal_id : Option ℕ) (amount_buf : Option Decimal) (w : World)
    → (vote env proposal_id amount_buf w).0 ≡ reply tt
    → Voted env w (vote env proposal_id amount_buf w).1 proposal_id amount_buf
unfolding vote
vote_inv env none amount_buf w h = absurd (ground arith)
vote_inv env (some i) none w h = absurd (ground arith)
vote_inv env (some i) (some n) w h = elim (Option-cases (lookup i w.proposals)) [
  | inl e ↦ absurd (ground arith)
  | inr (p, e) ↦ record {
    i = i;
    amount = n;
    p = p;
    of_id = refl;
    of_amount = refl;
    valid = (ground arith, ground arith);
    stored = e;
    was_voting = voting_of p.status (ground arith);
    proposals = ground arith;
    locks = ground arith;
    latest = ground arith;
    locked = ground arith;
    gov = ground arith;
  }
]

pub record Thawed (env : Env) (w w' : World) (proposal_id : Option ℕ) : Type 0 where
  pub i : ℕ
  pub p : Proposal
  pub of_id : proposal_id ≡ some i
  pub stored : lookup i w.proposals ≡ some p
  pub own : p.proposer ≡ env.initiator
  pub no_votes : p.vote_amount ≤ℤ pos 0
  pub was_voting : p.status ≡ voting
  pub proposals : w'.proposals ≡ insert i (record p { status = cancelled }) w.proposals
  pub locks : w'.locks ≡ w.locks
  pub latest : w'.latest_id ≡ w.latest_id

pub thaw_inv :
    (env : Env) (proposal_id : Option ℕ) (w : World)
    → (thaw env proposal_id w).0 ≡ reply tt
    → Thawed env w (thaw env proposal_id w).1 proposal_id
unfolding thaw
thaw_inv env none w h = absurd (ground arith)
thaw_inv env (some i) w h = elim (Option-cases (lookup i w.proposals)) [
  | inl e ↦ absurd (ground arith)
  | inr (p, e) ↦ record {
    i = i;
    p = p;
    of_id = refl;
    stored = e;
    own = ground arith;
    no_votes = ground arith;
    was_voting = voting_of p.status (ground arith);
    proposals = ground arith;
    locks = ground arith;
    latest = ground arith;
  }
]

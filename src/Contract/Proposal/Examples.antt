-- ===== src/Contract/Proposal/Examples.antt =====
-- The theorems of the proposal contract at concrete calls.
use corechain.Contract.Proposal.Escrow.{lock_sum}
use corechain.Contract.Proposal.History.{Reach, here, next, proposed, voted, votes_are_locked}
use corechain.Contract.Proposal.Decision.{passed_has_majority, thaw-propose}
use corechain.Contract.Govern.Ledger.{Decimal, Store}
use corechain.Contract.Proposal.World.{
  Env, Proposal, TriggerDesc, World, cancelled, canonical, locks_of, passed, reply, text, voting,
}
use corechain.Contract.Proposal.Propose.{
  check_proposal_args, check_vote, check_vote_thread, get_next_proposal_id, parse_vote_stop_height,
  propose, settle, status_ok, thaw, thread_tickets, vote,
}
use corechain.Contract.Proposal.Timer.{add_task}
use corechain.Contract.Proposal.Keys.{has_prefix, lt_key, prefix_range, prefix_range_covers}
use corechain.Contract.Govern.{lock_govern_tokens, total_supply}
use corechain.Prelude.{
  Bool, Option, [], ap, arith, false, none, not, refl, some, true, ℕ, ◌&&◌, ◌∷◌, ◌≡◌, ◌≢◌,
}
use corechain.Prelude.Int.{pos, quot_ℤ, ◌*ℤ◌, ◌+ℤ◌, ◌-ℤ◌, ◌<ℤ◌}
use corechain.Prelude.Dict.{lookup}

abbrev gov : Store
gov = record {
  balances =
      (1, record { total_balance = pos 6000; locked_ordinary = pos 0; locked_tdpos = pos 0 })
      ∷ (2, record { total_balance = pos 4000; locked_ordinary = pos 0; locked_tdpos = pos 0 })
      ∷ [];
  total_supply = some (pos 10000);
  distributed = true;
  fee_used = pos 0;
}

abbrev start : World
start = record {
  gov = gov;
  latest_task = none;
  tasks = [];
  latest_id = none;
  proposals = [];
  locks = [];
  fee_used = pos 0;
}

abbrev env : ℕ → Env
env account = record {
  from_timer = true;
  initiator = account;
  fee_limit = pos 100;
  gov_method = record { new_gov_resource_amount = pos 0; predistribution = [] };
  gov_put_fails = λ _. false;
  put_fails = λ _. false;
  select_fails = false;
}

abbrev idea : Proposal
idea = record {
  min_vote_percent = text (canonical (pos 51));
  stop_vote_height = text (canonical (pos 100));
  trigger = some (record { height = pos 120; call = 7 });
  vote_amount = pos 0;
  status = cancelled;
  proposer = 9;
}

abbrev no_call : TriggerDesc → World → Bool × World
no_call tr w = (true, w)

proposed_world : World
proposed_world = (propose (env 1) (some idea) start).1

propose_runs : propose (env 1) (some idea) start ≡ (reply 1, proposed_world)
unfolding proposed_world propose get_next_proposal_id check_proposal_args check_vote_thread
    parse_vote_stop_height add_task lock_govern_tokens quot_ℤ ◌-ℤ◌
propose_runs = refl

ten_votes : Option Decimal
ten_votes = some (record { value = pos 10; valid = true })

voted_world : World
voted_world = (vote (env 2) (some 1) ten_votes proposed_world).1

vote_runs : vote (env 2) (some 1) ten_votes proposed_world ≡ (reply tt, voted_world)
unfolding voted_world ten_votes proposed_world propose get_next_proposal_id check_proposal_args
    check_vote_thread parse_vote_stop_height add_task lock_govern_tokens quot_ℤ ◌-ℤ◌ vote
vote_runs = refl

abbrev after_vote : Proposal
after_vote = record idea { vote_amount = pos 10; status = voting; proposer = 1 }

after_vote_stored : lookup 1 voted_world.proposals ≡ some after_vote
unfolding voted_world ten_votes proposed_world propose get_next_proposal_id check_proposal_args
    check_vote_thread parse_vote_stop_height add_task lock_govern_tokens quot_ℤ ◌-ℤ◌ ◌+ℤ◌ vote
after_vote_stored = refl

both_steps : Reach no_call start voted_world
both_steps =
    next (next here (proposed (env 1) (some idea) 1 propose_runs))
      (voted (env 2) (some 1) ten_votes vote_runs)

votes_are_locked_example : lock_sum (locks_of voted_world 1) ≡ after_vote.vote_amount +ℤ pos 1000
votes_are_locked_example =
    votes_are_locked no_call start voted_world 1 after_vote refl refl both_steps after_vote_stored

thaw-propose_example :
    let t = thaw (env 1) (some 1) (propose (env 1) (some idea) start).1 in
    (t.0 ≡ reply tt)
    × (t.1.gov.balances ≡ gov.balances)
    × ((p : Proposal) × (lookup 1 t.1.proposals ≡ some p) × (p.status ≡ cancelled))
thaw-propose_example = thaw-propose (env 1) (some idea) start 1 (ap (λ r. r.0) propose_runs)

-- A proposal with the votes of 60 in 100.
abbrev popular : Proposal
popular = record after_vote { vote_amount = pos 6000 }

abbrev full_world : World
full_world = record start { latest_id = some 1; proposals = (1, popular) ∷ [] }

count_runs : (check_vote (env 1) (some 1) full_world).0 ≡ reply status_ok
unfolding check_vote settle thread_tickets ◌*ℤ◌ add_task total_supply
count_runs = refl

popular_passes :
    lookup 1 (check_vote (env 1) (some 1) full_world).1.proposals
    ≡ some (record popular { status = passed })
unfolding check_vote settle thread_tickets ◌*ℤ◌ add_task total_supply
popular_passes = refl

percent_fits : check_vote_thread (canonical (pos 51)) ≡ reply tt
unfolding check_vote_thread
percent_fits = refl

passed_has_majority_example : pos 10000 <ℤ popular.vote_amount +ℤ popular.vote_amount +ℤ pos 2
passed_has_majority_example =
    passed_has_majority (env 1) 1 full_world popular (record popular { status = passed })
      (canonical (pos 51)) 10000 count_runs refl refl percent_fits refl popular_passes refl

-- The prefix "a" and the byte 255, so that the bound is "b".
prefix_range_bound : prefix_range (97 ∷ 255 ∷ []) ≡ 98 ∷ []
unfolding prefix_range
prefix_range_bound = refl

has_bound : prefix_range (97 ∷ 255 ∷ []) ≢ []
has_bound e = let bound = prefix_range_bound in ground arith

prefix_range_covers_example : has_prefix (97 ∷ 255 ∷ []) (97 ∷ 255 ∷ 7 ∷ []) ≡ (
    not (lt_key (97 ∷ 255 ∷ 7 ∷ []) (97 ∷ 255 ∷ []))
    && lt_key (97 ∷ 255 ∷ 7 ∷ []) (prefix_range (97 ∷ 255 ∷ [])))
prefix_range_covers_example =
    prefix_range_covers (97 ∷ 255 ∷ []) (97 ∷ 255 ∷ 7 ∷ []) (omega arith, (omega arith, tt))
      (omega arith, (omega arith, (omega arith, tt))) has_bound

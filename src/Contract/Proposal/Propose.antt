-- ===== src/Contract/Proposal/Propose.antt =====
-- contract/proposal/propose/propose_contract.go: proposals, votes and their outcome. `Propose` gets
-- what `parse` makes of its argument.
use corechain.Contract.Proposal.World.{
  Arg, Env, Proposal, Reply, Run, Status, Text, TriggerDesc, World, add_resource_used,
  argument_missing, bad_argument, bad_height, bad_percent, bad_trigger, call_gov, cancelled,
  canonical, check_vote_result, completed_failure, completed_success, empty, gov_reason, has_votes,
  lift, lock_key, locks_of, no_argument, no_lock, not_a_string, not_allowed, not_proposed,
  not_proposer, not_voting, or_panic, or_refuse, passed, proposal_id_key, proposal_key, pure, put,
  put_lock, refuse, refuse_if, rejected, reply, select_failed, set_string, text, trigger_proposal,
  voting, ◌>>=◌, ◌>>◌,
}
use corechain.Contract.Proposal.Timer.{add_task}
use corechain.Contract.Govern.Ledger.{Decimal, Unit0}
use corechain.Prelude.{
  Bool, Option, [], false, if◌then◌else◌, none, not, some, true, ℕ, ◌+◌, ◌/◌, ◌==◌, ◌||◌, ◌∷◌,
}
use corechain.Prelude.Int.{eqb_ℤ, ltb_ℤ, negsuc, pos, ℤ, ◌*ℤ◌, ◌+ℤ◌}
use corechain.Prelude.Dict.{Dict, insert, lookup}
use corechain.Contract.Govern.{lock_govern_tokens, total_supply, unlock_govern_tokens}
use corechain.Contract.Govern.Ledger as Gov

-- `getNextProposalID`
unfoldable pub get_next_proposal_id : Run ℕ
get_next_proposal_id w = elim w.latest_id [ none ↦ (reply 1, w) | some n ↦ (reply (n + 1), w) ]

-- `checkVoteThread`
unfoldable pub check_vote_thread : Text → Reply Unit0
check_vote_thread t =
    let vote_thread = set_string t in
    if not vote_thread.valid
    then refuse bad_percent
    else if ltb_ℤ (pos 100) vote_thread.value || ltb_ℤ vote_thread.value (pos 51)
    then refuse bad_percent
    else reply tt

-- `parseVoteStopHeight`
unfoldable pub parse_vote_stop_height : Text → Reply ℤ
parse_vote_stop_height t =
    let h = set_string t in if h.valid then reply h.value else refuse bad_height

abbrev pub is_empty : Arg → Bool
is_empty (text empty) = true
is_empty _ = false

-- The type assertion `.(string)`.
abbrev pub text_of : Arg → Option Text
text_of not_a_string = none
text_of (text t) = some t

-- The comparison of the trigger's height at the end of `checkProposalArgs`.
abbrev pub check_trigger : ℤ → TriggerDesc → Reply Unit0
check_trigger stop tr =
    if eqb_ℤ tr.height (pos 0)
    then reply tt
    else if ltb_ℤ stop tr.height
    then reply tt
    else refuse bad_trigger

unfoldable pub check_proposal_args : Proposal → Run Unit0
unfolding check_vote_thread parse_vote_stop_height
check_proposal_args p = do
  refuse_if (is_empty p.min_vote_percent || is_empty p.stop_vote_height) no_argument
  percent ← or_panic (text_of p.min_vote_percent)
  lift (check_vote_thread percent)
  height ← or_panic (text_of p.stop_vote_height)
  stop ← lift (parse_vote_stop_height height)
  tr ← or_panic p.trigger
  lift (check_trigger stop tr)

-- "1000"
abbrev pub deposit : Decimal
deposit = record { value = pos 1000; valid = true }

unfoldable pub propose : Env → Option Proposal → Run ℕ
unfolding get_next_proposal_id
propose env parsed = do
  i ← get_next_proposal_id
  p ← or_refuse parsed bad_argument
  check_proposal_args p
  stop ← or_panic (text_of p.stop_vote_height)
  add_task env (some stop) (some (check_vote_result i))
  call_gov env env.initiator deposit lock_govern_tokens
  put env (lock_key i env.initiator) (put_lock i env.initiator deposit.value)
  put env proposal_id_key (λ w. record w { latest_id = some i })
  let p' = record p { vote_amount = pos 0; status = voting; proposer = env.initiator }
  put env (proposal_key i) (λ w. record w { proposals = insert i p' w.proposals })
  add_resource_used (pos 100)
  pure i

-- `getProposal`
unfoldable pub get_proposal : ℕ → Run Proposal
get_proposal i w = or_refuse (lookup i w.proposals) not_proposed w

-- `updateProposal`
unfoldable pub update_proposal : Env → ℕ → Proposal → Run Unit0
update_proposal env i p =
    put env (proposal_key i) (λ w. record w { proposals = insert i p w.proposals })

abbrev pub is_voting : Status → Bool
is_voting voting = true
is_voting _ = false

abbrev pub is_passed : Status → Bool
is_passed passed = true
is_passed _ = false

-- The sum that `Vote` writes for the lock of an account.
abbrev pub locked_more : ℤ → Option ℤ → ℤ
locked_more amount none = amount
locked_more amount (some old) = amount +ℤ old

unfoldable pub vote : Env → Option ℕ → Option Decimal → Run Unit0
unfolding get_proposal update_proposal
vote env proposal_id amount_buf = do
  i ← or_refuse proposal_id argument_missing
  amount ← or_refuse amount_buf argument_missing
  refuse_if (not amount.valid || ltb_ℤ amount.value (pos 0)) bad_argument
  p ← get_proposal i
  refuse_if (not (is_voting p.status)) not_voting
  call_gov env env.initiator amount lock_govern_tokens
  old ← λ w. (reply (lookup env.initiator (locks_of w i)), w)
  put env (lock_key i env.initiator) (put_lock i env.initiator (locked_more amount.value old))
  update_proposal env i (record p { vote_amount = p.vote_amount +ℤ amount.value })
  add_resource_used (pos 100)

unfoldable pub thaw : Env → Option ℕ → Run Unit0
unfolding get_proposal update_proposal
thaw env proposal_id = do
  i ← or_refuse proposal_id argument_missing
  p ← get_proposal i
  refuse_if (not (p.proposer == env.initiator)) not_proposer
  refuse_if (ltb_ℤ (pos 0) p.vote_amount) has_votes
  refuse_if (not (is_voting p.status)) not_voting
  update_proposal env i (record p { status = cancelled })
  old ← λ w. or_refuse (lookup env.initiator (locks_of w i)) no_lock w
  call_gov env env.initiator (record { value = old; valid = true }) unlock_govern_tokens
  add_resource_used (pos 100)

unfoldable pub query : Option ℕ → Run Proposal
unfolding get_proposal
query proposal_id = do get_proposal (← or_refuse proposal_id argument_missing)

-- The loop of `unlockGovernTokensForProposal`, which goes on after an unlock that fails.
unfoldable pub unlock_loop : Env → Dict ℤ → World → World
unlock_loop env [] w = w
unlock_loop env ((account, amount) ∷ ls) w =
    unlock_loop env ls
      (call_gov env account (record { value = amount; valid = true }) unlock_govern_tokens w).1

-- The keys that are scanned are those of the account names that begin below 0x80, which is all of
-- them, as names are ASCII text.
unfoldable pub unlock_all : Env → ℕ → Run Unit0
unlock_all env i w =
    if env.select_fails
    then (refuse select_failed, w)
    else (reply tt, unlock_loop env (locks_of w i) w)

-- `StatusOK` and `StatusException`.
pub data Response : Type 0 where
  status_ok status_exception : Response

-- `big.Int.Div` by a positive divisor, which rounds down.
abbrev pub div_ℤ : ℤ → ℕ → ℤ
div_ℤ (pos n) d = pos (n / d)
div_ℤ (negsuc n) d = negsuc (n / d)

-- The tickets that a proposal needs.
unfoldable pub thread_tickets : ℤ → Text → ℤ
thread_tickets total percent = div_ℤ (total *ℤ (set_string percent).value) 100

-- What `CheckVoteResult` does with the outcome.
unfoldable pub settle : Env → ℕ → Proposal → ℤ → Run Unit0
unfolding update_proposal
settle env i p threshold =
    if ltb_ℤ p.vote_amount threshold
    then (do unlock_all env i; update_proposal env i (record p { status = rejected }))
    else (do
      tr ← or_panic p.trigger
      add_task env (some (canonical tr.height)) (some (trigger_proposal i))
      update_proposal env i (record p { status = passed }))

-- The call of `TotalSupply`.
abbrev pub call_total_supply : Run ℤ
call_total_supply w = elim (total_supply w.gov).0 [
  | Gov.ok n ↦ (reply n, w)
  | Gov.err e ↦ (refuse (gov_reason e), w)
]

unfoldable pub check_vote : Env → Option ℕ → Run Response
unfolding get_proposal
check_vote env proposal_id = do
  refuse_if (not env.from_timer) not_allowed
  i ← or_refuse proposal_id bad_argument
  p ← get_proposal i
  if not (is_voting p.status) then pure status_exception else do
    total ← call_total_supply
    percent ← or_panic (text_of p.min_vote_percent)
    settle env i p (thread_tickets total percent)
    pure status_ok

-- `Trigger`. The method that the proposal names runs by `run_call`, which tells whether it succeeded.
unfoldable pub trigger : (TriggerDesc → World → Bool × World) → Env → Option ℕ → Run Response
unfolding get_proposal update_proposal
trigger run_call env proposal_id = do
  refuse_if (not env.from_timer) not_allowed
  i ← or_refuse proposal_id bad_argument
  p ← get_proposal i
  if not (is_passed p.status) then pure status_exception else do
    tr ← or_panic p.trigger
    good ← λ w. let (g, w') = run_call tr w in (reply g, w')
    unlock_all env i
    update_proposal env i
        (record p { status = if good then completed_success else completed_failure })
    pure status_ok

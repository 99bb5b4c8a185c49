-- ===== src/Contract/Proposal/Outcome.antt =====
-- What the counting of the votes and the trigger of a proposal have done to the buckets.
use corechain.Contract.Proposal.World.{
  Arg, Env, Proposal, Status, Text, World, call_gov, canonical, locks_of, not_a_string, passed,
  rejected, reply, text, trigger_proposal, voting,
}
use corechain.Contract.Proposal.Propose.{
  check_vote, is_voting, settle, status_exception, status_ok, text_of, thread_tickets, unlock_all,
  unlock_loop,
}
use corechain.Contract.Proposal.Effects.{SameVotes, add_task-SameVotes, voting_of}
use corechain.Contract.Govern.{total_supply, unlock_govern_tokens}
use corechain.Prelude.{
  Bool-cases, Option, Option-cases, [], arith, false, inl, inr, none, refl, some, true, ℕ, ◌∷◌, ◌≡◌,
  ◌≢◌, ◌⊎◌,
}
use corechain.Prelude.Int.{ltb_ℤ, ℤ}
use corechain.Prelude.Dict.{Dict, insert, lookup}

pub unlock_loop-SameVotes :
    (env : Env) (ls : Dict ℤ) (w : World) → SameVotes w (unlock_loop env ls w)
unfolding unlock_loop
unlock_loop-SameVotes env [] w = (refl, refl, refl)
unlock_loop-SameVotes env ((a, n) ∷ ls) w =
    let w1 = (call_gov env a (record { value = n; valid = true }) unlock_govern_tokens w).1 in
    let (p, l, i) = unlock_loop-SameVotes env ls w1 in
    (ground (arith, p), ground (arith, l), ground (arith, i))

-- Proposal `i` was read with the status `old`, and only its status was changed, to `new`.
pub record Moved (w w' : World) (i : ℕ) (old new : Status) : Type 0 where
  pub p : Proposal
  pub stored : lookup i w.proposals ≡ some p
  pub was : p.status ≡ old
  pub proposals : w'.proposals ≡ insert i (record p { status = new }) w.proposals
  pub locks : w'.locks ≡ w.locks
  pub latest : w'.latest_id ≡ w.latest_id

settle_rejects :
    (env : Env) (i : ℕ) (p : Proposal) (n : ℤ) (w : World)
    → (settle env i p n w).0 ≡ reply tt
    → lookup i w.proposals ≡ some p
    → p.status ≡ voting
    → ltb_ℤ p.vote_amount n ≡ true
    → Moved w (settle env i p n w).1 i voting rejected
unfolding settle unlock_all
settle_rejects env i p n w h e v lt =
    let (a, b, c) = unlock_loop-SameVotes env (locks_of w i) w in
    record {
      p = p;
      stored = e;
      was = v;
      proposals = ground (arith, a, b, c);
      locks = ground (arith, a, b, c);
      latest = ground (arith, a, b, c);
    }

settle_passes :
    (env : Env) (i : ℕ) (p : Proposal) (n : ℤ) (w : World)
    → (settle env i p n w).0 ≡ reply tt
    → lookup i w.proposals ≡ some p
    → p.status ≡ voting
    → ltb_ℤ p.vote_amount n ≡ false
    → Moved w (settle env i p n w).1 i voting passed
unfolding settle
settle_passes env i p n w h e v ge = elim (Option-cases p.trigger) [
  | inl none_there ↦ absurd (ground arith)
  | inr (tr, et) ↦
      let keep =
        add_task-SameVotes env (some (canonical tr.height)) (some (trigger_proposal i)) w in
      record {
        p = p;
        stored = e;
        was = v;
        proposals = ground (arith, keep);
        locks = ground (arith, keep);
        latest = ground (arith, keep);
      }
]

-- The count of a proposal in vote, by the threshold that the supply and its percentage give.
abbrev pub Counted : World → World → ℕ → Type 0
Counted w w' i =
    (p : Proposal) × (percent : Text) × (total : ℤ) × (lookup i w.proposals ≡ some p)
    × (p.min_vote_percent ≡ text percent)
    × (w.gov.total_supply ≡ some total)
    × (((ltb_ℤ p.vote_amount (thread_tickets total percent) ≡ true) × Moved w w' i voting rejected)
        ⊎ ((ltb_ℤ p.vote_amount (thread_tickets total percent) ≡ false)
            × Moved w w' i voting passed))

text_of-some : (a : Arg) (t : Text) → text_of a ≡ some t → a ≡ text t
text_of-some not_a_string t h = cc
text_of-some (text x) t h = cc

-- A count that goes through ends with `settle`.
counting :
    (env : Env) (i : ℕ) (w : World) (p : Proposal) (percent : Text) (total : ℤ)
    → (check_vote env (some i) w).0 ≡ reply status_ok
    → lookup i w.proposals ≡ some p
    → text_of p.min_vote_percent ≡ some percent
    → w.gov.total_supply ≡ some total
    → (is_voting p.status ≡ true)
      × ((settle env i p (thread_tickets total percent) w).0 ≡ reply tt)
      × ((check_vote env (some i) w).1 ≡ (settle env i p (thread_tickets total percent) w).1)
unfolding check_vote total_supply
counting env i w p percent total h e et es = (ground arith, ground arith, ground arith)

needs_text :
    (env : Env) (i : ℕ) (w : World) (p : Proposal)
    → (check_vote env (some i) w).0 ≡ reply status_ok
    → lookup i w.proposals ≡ some p
    → text_of p.min_vote_percent ≢ none
unfolding check_vote
needs_text env i w p h e et = ground arith

needs_supply :
    (env : Env) (i : ℕ) (w : World) (p : Proposal)
    → (check_vote env (some i) w).0 ≡ reply status_ok
    → lookup i w.proposals ≡ some p
    → w.gov.total_supply ≢ none
unfolding check_vote total_supply
needs_supply env i w p h e es = ground arith

needs_proposal :
    (env : Env) (i : ℕ) (w : World)
    → (check_vote env (some i) w).0 ≡ reply status_ok
    → lookup i w.proposals ≢ none
unfolding check_vote
needs_proposal env i w h e = ground arith

pub check_vote_inv :
    (env : Env) (i : ℕ) (w : World)
    → (check_vote env (some i) w).0 ≡ reply status_ok
    → Counted w (check_vote env (some i) w).1 i
check_vote_inv env i w h = elim (Option-cases (lookup i w.proposals)) [
  | inl e ↦ absurd (needs_proposal env i w h e)
  | inr (p, e) ↦ elim (Option-cases (text_of p.min_vote_percent)) [
    | inl et ↦ absurd (needs_text env i w p h e et)
    | inr (percent, et) ↦ elim (Option-cases w.gov.total_supply) [
      | inl es ↦ absurd (needs_supply env i w p h e es)
      | inr (total, es) ↦
          let n = thread_tickets total percent in
          let (v, run, same) = counting env i w p percent total h e et es in
          let was = voting_of p.status v in
          (
            p,
            percent,
            total,
            e,
            text_of-some p.min_vote_percent percent et,
            es,
            elim (Bool-cases (ltb_ℤ p.vote_amount n)) [
              | inl lt ↦ inl (lt, rw same (settle_rejects env i p n w run e was lt))
              | inr ge ↦ inr (ge, rw same (settle_passes env i p n w run e was ge))
            ],
          )
    ]
  ]
]

pub check_vote_exception :
    (env : Env) (i : Option ℕ) (w : World)
    → (check_vote env i w).0 ≡ reply status_exception
    → (check_vote env i w).1 ≡ w
unfolding check_vote total_supply
check_vote_exception env none w h = absurd (ground arith)
check_vote_exception env (some i) w h = ground arith

-- ===== src/Ledger/Confirm/Reject.antt =====
-- What a refused block leaves behind.
use corechain.Ledger.Fork.Split.{off, on}
use corechain.Ledger.Fork.{fork_end, fork_step, handle_fork, same_id}
use corechain.Ledger.Store.{
  Action, Block, Error, Ledger, Meta, Outcome, Outcome-cases, Tx, bind_err, bind_ok,
  correct_txs_blockid, err, fetch_block, header, ok, out_of_fuel, pure, save_block, ◌>>=◌, ◌>>◌,
}
use corechain.Ledger.Confirm.{
  Env, Placed, commit, confirm_block, place, place_by, place_child, place_on_tip, place_switch,
}
use corechain.Prelude.{
  Bool, Bool-cases, List, Option, [], ap, arith, false, inl, inr, ltb, none, refl, some, suc, sym,
  zero, ℕ, ◌+◌, ◌∙◌, ◌≡◌,
}
use corechain.Prelude.Dict.{lookup, lookup-insert}

-- An action that leaves the disk and the meta data alone.
abbrev Keeps : {A : Type 0} → Action A → Type 0
Keeps m = (s : Ledger) → ((m s).1.disk ≡ s.disk) × ((m s).1.meta ≡ s.meta)

bind-Keeps :
    {A B : Type 0} (m : Action A) (f : A → Action B)
    → Keeps m
    → ((a : A) → Keeps (f a))
    → Keeps (m >>= f)
bind-Keeps m f keep_m keep_f s = elim (Outcome-cases (m s).0) [
  | inl (a, e) ↦
      rw (bind_ok m f s a e)
        ((keep_f a (m s).1).0 ∙ (keep_m s).0, (keep_f a (m s).1).1 ∙ (keep_m s).1)
  | inr (inl (x, e)) ↦ rw (bind_err m f s x e) (keep_m s)
  | inr (inr e) ↦ rw (e, ◌>>=◌) (keep_m s)
]

fetch-Keeps : (i : Option ℕ) → Keeps (fetch_block i)
unfolding fetch_block
fetch-Keeps none s = (refl, refl)
fetch-Keeps (some i) s = ground arith

save-Keeps : (b : Block) → Keeps (save_block b)
unfolding save_block
save-Keeps b s = ground arith

correct-Keeps : (i : ℕ) → Keeps (correct_txs_blockid i)
unfolding correct_txs_blockid
correct-Keeps i s = ground arith

then_save-Keeps : {A : Type 0} (b : Block) (k : Action A) → Keeps k → Keeps (save_block b >> k)
then_save-Keeps b k keep = bind-Keeps (save_block b) (λ _. k) (save-Keeps b) (λ _. keep)

step-Keeps : (p q next : Option ℕ) → Keeps (fork_step p q next)
unfolding fork_step
step-Keeps p q next = bind-Keeps (fetch_block p) both (fetch-Keeps p) both-Keeps
  where
    saves : Block → Block → Action (Option ℕ × Option ℕ)
    saves a b = save_block (off a) >> (save_block (on b next) >> pure (a.pre, b.pre))

    saves-Keeps : (a b : Block) → Keeps (saves a b)
    saves-Keeps a b =
        then_save-Keeps (off a) (save_block (on b next) >> pure (a.pre, b.pre))
          (then_save-Keeps (on b next) (pure (a.pre, b.pre)) (λ s. (refl, refl)))

    both : Block → Action (Option ℕ × Option ℕ)
    both a = fetch_block q >>= λ b. correct_txs_blockid b.id >> saves a b

    both-Keeps : (a : Block) → Keeps (both a)
    both-Keeps a =
        bind-Keeps (fetch_block q) (λ b. correct_txs_blockid b.id >> saves a b) (fetch-Keeps q)
          (λ b.
            bind-Keeps (correct_txs_blockid b.id) (λ _. saves a b) (correct-Keeps b.id)
              (λ _. saves-Keeps a b))

end-Keeps : (q next : Option ℕ) → Keeps (fork_end q next)
unfolding fork_end
end-Keeps q next =
    bind-Keeps (fetch_block q) (λ b. save_block (on b next) >> pure (on b next)) (fetch-Keeps q)
      (λ b. then_save-Keeps (on b next) (pure (on b next)) (λ s. (refl, refl)))

handle_fork-Keeps : (fuel : ℕ) (p q next : Option ℕ) → Keeps (handle_fork fuel p q next)
unfolding handle_fork
handle_fork-Keeps zero p q next s = (refl, refl)
handle_fork-Keeps (suc fuel) p q next s = elim (Bool-cases (same_id p q)) [
  | inl e ↦ rw (e, handle_fork) (end-Keeps q next s)
  | inr e ↦
      rw (e, handle_fork)
        (bind-Keeps (fork_step p q next) (λ (p', q'). handle_fork fuel p' q' q)
          (step-Keeps p q next) (λ x. handle_fork-Keeps fuel x.0 x.1 q) s)
]

switch-Keeps : (m : Meta) (b pre : Block) → Keeps (place_switch m b pre)
unfolding place_switch
switch-Keeps m b pre s =
    let keep = handle_fork-Keeps (suc m.trunk_height) m.tip (some pre.id) (some b.id) s in
    ground (arith, keep)

tip-Keeps : (env : Env) (m : Meta) (b pre : Block) → Keeps (place_on_tip env m b pre)
unfolding place_on_tip save_block
tip-Keeps env m b pre s = (ground arith, ground arith)

by-Keeps : (env : Env) (m : Meta) (b pre : Block) → Keeps (place_by env m b pre)
unfolding place_by
by-Keeps env m b pre s = elim (Bool-cases (same_id (some pre.id) m.tip)) [
  | inl e ↦ rw e (tip-Keeps env m b pre s)
  | inr e ↦ elim (Bool-cases (ltb m.trunk_height (pre.height + 1))) [
    | inl lt ↦ rw (e, lt) (switch-Keeps m b pre s)
    | inr le ↦ rw (e, le) (refl, refl)
  ]
]

place-Keeps : (env : Env) (b : Block) → Keeps (place env false b)
unfolding place place_child
place-Keeps env b s =
    bind-Keeps (fetch_block b.pre) (place_by env s.meta b) (fetch-Keeps b.pre)
      (by-Keeps env s.meta b) s

commit_fails :
    (env : Env) (is_root : Bool) (p : Placed) (txs : List Tx) (s : Ledger)
    → (commit env is_root p txs s).0.succ ≡ false
    → is_root ≡ false
    → ((commit env is_root p txs s).1.disk ≡ s.disk)
      × ((commit env is_root p txs s).1.meta ≡ s.meta)
      × (header (commit env is_root p txs s).1 p.block.id ≡ some p.block)
unfolding commit save_block
commit_fails env is_root p txs s h r =
    ground (arith, lookup-insert p.block.id p.block.id p.block s.cache)

-- Nothing but `commit` writes, so what it leaves alone is what the whole leaves alone.
not_placed :
    (env : Env) (b : Block) (txs : List Tx) (s : Ledger)
    → ((p : Placed) → (place env false b (record s { batch = [] })).0 ≡ ok p → ⊥)
    → (confirm_block env false b txs s).1 ≡ (place env false b (record s { batch = [] })).1
unfolding confirm_block
not_placed env b txs s never =
    elim (Outcome-cases (place env false b (record s { batch = [] })).0) [
      | inl (p, e) ↦ absurd (never p e)
      | inr (inl (x, e)) ↦ rw (e, confirm_block) refl
      | inr (inr e) ↦ rw (e, confirm_block) refl
    ]

placed_commits :
    (env : Env) (b : Block) (txs : List Tx) (s : Ledger) (p : Placed)
    → (place env false b (record s { batch = [] })).0 ≡ ok p
    → confirm_block env false b txs s
      ≡ commit env false p txs (place env false b (record s { batch = [] })).1
unfolding confirm_block
placed_commits env b txs s p e = rw (e, confirm_block) refl

not_placed_of_err : {A : Type 0} {r : Outcome A} {e : Error} → r ≡ err e → (p : A) → r ≡ ok p → ⊥
not_placed_of_err h p k = ground arith

not_placed_of_fuel : {A : Type 0} {r : Outcome A} → r ≡ out_of_fuel → (p : A) → r ≡ ok p → ⊥
not_placed_of_fuel h p k = ground arith

-- A block other than the genesis block that is not confirmed leaves the tables on disk and the meta
-- data as they were, whatever the reason and also in the middle of a switch of the trunk.
pub refused_keeps_disk :
    (env : Env) (b : Block) (txs : List Tx) (s : Ledger)
    → (confirm_block env false b txs s).0.succ ≡ false
    → let s' = (confirm_block env false b txs s).1 in (s'.disk ≡ s.disk) × (s'.meta ≡ s.meta)
refused_keeps_disk env b txs s h =
    let t = record s { batch = [] } in
    let keep = place-Keeps env b t in
    elim (Outcome-cases (place env false b t).0) [
      | inl (p, e) ↦
          let k = placed_commits env b txs s p e in
          let (d, m, _) =
            commit_fails env false p txs (place env false b t).1 (sym (ap (λ r. r.0.succ) k) ∙ h)
              refl in
          (ap (λ r. r.1.disk) k ∙ d ∙ keep.0, ap (λ r. r.1.meta) k ∙ m ∙ keep.1)
      | inr (inl (x, e)) ↦ rw (not_placed env b txs s (not_placed_of_err e)) keep
      | inr (inr e) ↦ rw (not_placed env b txs s (not_placed_of_fuel e)) keep
    ]

-- A block that is placed and then refused, as for a transaction that is confirmed already, stays in
-- the cache of headers: where the table of blocks on disk did not hold it, a later read finds it as
-- though it had been confirmed, though it is still not on disk.
pub refused_stays_cached :
    (env : Env) (b : Block) (txs : List Tx) (s : Ledger) (p : Placed)
    → (place env false b (record s { batch = [] })).0 ≡ ok p
    → (confirm_block env false b txs s).0.succ ≡ false
    → lookup p.block.id s.disk.blocks ≡ none
    → let s' = (confirm_block env false b txs s).1 in
      (header s' p.block.id ≡ some p.block)
      × (lookup p.block.id s'.disk.blocks ≡ none)
      × (s'.disk ≡ s.disk)
refused_stays_cached env b txs s p e h new =
    let t = record s { batch = [] } in
    let k = placed_commits env b txs s p e in
    let (d, m, c) =
      commit_fails env false p txs (place env false b t).1 (sym (ap (λ r. r.0.succ) k) ∙ h) refl in
    let same = ap (λ r. r.1.disk) k ∙ d ∙ (place-Keeps env b t).0 in
    (ap (λ r. header r.1 p.block.id) k ∙ c, ap (λ z. lookup p.block.id z.blocks) same ∙ new, same)

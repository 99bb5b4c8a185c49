-- ===== src/Consensus/Certs/Marks.antt =====
-- The marks of the tree of certificates: the highest, the generic, the locked and the commit
-- certificate.
use corechain.Consensus.Certs.Search.{find-id}
use corechain.Consensus.Certs.Inserts.{
  enforce-found, enforce-missing, insert-joins, insert-refuses, insert-waits, status-inserted,
  status-known, status-refused,
}
use corechain.Prelude.Int.{ltb_ℤ, ℤ}
use corechain.Consensus.Certs.{
  Node, Qc, Tree, adopt_orphans, attach, dfs_query, enforce_update_high_qc, find, fine,
  init_qc_tree, insert, insert_orphan, map_qc, parent_in, qc_of, raise, update_commit,
  update_high_qc, update_qc_status, update_qcs,
}
use corechain.Prelude.{
  Bool-cases, List, Option, Option-cases, [], ap, arith, false, inl, inr, none, refl, some, subst,
  sym, ℕ, ◌∙◌, ◌∷◌, ◌≡◌,
}

-- The second certificate, if it is there, is named as the parent by the first.
abbrev pub Names : Option Qc → Option Qc → Type 0
Names none none = Unit {0}
Names none (some d) = ⊥
Names (some c) none = Unit {0}
Names (some c) (some d) = c.parent ≡ some d.id

-- The four marks, from the highest down.
pub record Marks : Type 0 where
  pub high : Qc
  pub generic : Option Qc
  pub locked : Option Qc
  pub commit : Option Qc

abbrev pub marks : Tree → Marks
marks t = record { high = t.high; generic = t.generic; locked = t.locked; commit = t.commit }

-- Each mark names the next one as its parent.
pub record IsChained (m : Marks) : Type 0 where
  pub of_high : Names (some m.high) m.generic
  pub of_generic : Names m.generic m.locked
  pub of_locked : Names m.locked m.commit

Names-map_qc :
    (c : Qc) (i : ℕ) (o : Option Node)
    → c.parent ≡ some i
    → ((n : Node) → o ≡ some n → (qc_of n).id ≡ i)
    → Names (some c) (map_qc o)
Names-map_qc c i none h f = tt
Names-map_qc c i (some n) h f = h ∙ ap some (sym (f n refl))

parent_in-Names : (r : Node) (c : Option Qc) → Names c (parent_in r c)
parent_in-Names r none = tt
parent_in-Names r (some c) = elim (Option-cases c.parent) [
  | inl e ↦ subst (λ o. Names (some c) (map_qc (dfs_query r o))) (sym e) tt
  | inr (i, e) ↦
      subst (λ o. Names (some c) (map_qc (dfs_query r o))) (sym e)
        (Names-map_qc c i (find i r) e (find-id i r))
]

update_qcs-IsChained : (c : Qc) (t : Tree) → IsChained (marks (update_qcs c t))
unfolding update_qcs
update_qcs-IsChained c t = record {
  of_high = parent_in-Names t.root (some c);
  of_generic = parent_in-Names t.root _;
  of_locked = parent_in-Names t.root _;
}

raise-IsChained : (o : Option Node) (t : Tree) → IsChained (marks t) → IsChained (marks (raise o t))
raise-IsChained none t h = h
raise-IsChained (some n) t h = elim (Bool-cases (ltb_ℤ (qc_of n).view t.high.view)) [
  | inl e ↦ rw e h
  | inr e ↦ rw e (update_qcs-IsChained (qc_of n) t)
]

insert_orphan-marks : (n : Node) (t : Tree) → marks (insert_orphan n t) ≡ marks t
unfolding insert_orphan
insert_orphan-marks n t = ground arith

insert-marks : (n : Node) (t : Tree) → marks ((insert n t).1) ≡ marks t
insert-marks n t = elim (Option-cases (qc_of n).parent) [
  | inl e ↦ ap (λ x. marks (x.1)) (insert-refuses n t e)
  | inr (p, e) ↦ elim (Option-cases (attach p (adopt_orphans n t.orphans).0 t.root)) [
    | inl e' ↦ ap (λ x. marks (x.1)) (insert-waits n t p e e') ∙ insert_orphan-marks n t
    | inr (r, e') ↦ ap (λ x. marks (x.1)) (insert-joins n r t p e e')
  ]
]

commit-marks : (i : ℕ) (t : Tree) → marks (update_commit i t) ≡ marks t
unfolding update_commit
commit-marks i t = ground arith

-- The calls that change the tree.
pub data Call : Type 0 where
  update_status : Node → Call
  update_high enforce_high commit_up_to : ℕ → Call

abbrev pub step : Call → Tree → Tree
step (update_status n) t = (update_qc_status n t).1
step (update_high i) t = update_high_qc i t
step (enforce_high i) t = (enforce_update_high_qc i t).1
step (commit_up_to i) t = update_commit i t

abbrev pub run : List Call → Tree → Tree
run [] t = t
run (c ∷ cs) t = run cs (step c t)

-- What `UpdateQCStatus` leaves, for a family that holds of the tree at hand and of the tree that
-- `insert` makes.
pub status-elim {ℓ} :
    (P : Tree → Type ℓ) (n : Node) (t : Tree)
    → P t
    → ((t' : Tree) → insert n t ≡ (fine, t') → P (raise (dfs_query t'.root (qc_of n).parent) t'))
    → P ((update_qc_status n t).1)
status-elim P n t h f = elim (Option-cases (find (qc_of n).id t.root)) [
  | inr (x, e) ↦ subst (λ r. P (r.1)) (sym (status-known n x t e)) h
  | inl e ↦ elim (Option-cases (qc_of n).parent) [
    | inl e' ↦ subst (λ r. P (r.1)) (sym (status-refused n t e e')) h
    | inr (p, e') ↦ elim (Option-cases (attach p (adopt_orphans n t.orphans).0 t.root)) [
      | inl e'' ↦
          let i = insert-waits n t p e' e'' in
          subst (λ r. P (r.1)) (sym (status-inserted n t _ e i)) (f _ i)
      | inr (r, e'') ↦
          let i = insert-joins n r t p e' e'' in
          subst (λ r. P (r.1)) (sym (status-inserted n t _ e i)) (f _ i)
    ]
  ]
]

step-IsChained : (c : Call) (t : Tree) → IsChained (marks t) → IsChained (marks (step c t))
unfolding update_high_qc
step-IsChained (update_status n) t h =
    status-elim (λ t'. IsChained (marks t')) n t h
      (λ t' e.
        raise-IsChained _ t' (subst IsChained (sym (insert-marks n t) ∙ ap (λ r. marks (r.1)) e) h))
step-IsChained (update_high i) t h = raise-IsChained (find i t.root) t h
step-IsChained (enforce_high i) t h = elim (Option-cases (find i t.root)) [
  | inl e ↦ subst (λ r. IsChained (marks (r.1))) (sym (enforce-missing i t e)) h
  | inr (n, e) ↦
      subst (λ r. IsChained (marks (r.1))) (sym (enforce-found i n t e))
        (update_qcs-IsChained (qc_of n) t)
]
step-IsChained (commit_up_to i) t h = subst IsChained (sym (commit-marks i t)) h

run-IsChained : (cs : List Call) (t : Tree) → IsChained (marks t) → IsChained (marks (run cs t))
run-IsChained [] t h = h
run-IsChained (c ∷ cs) t h = run-IsChained cs (step c t) (step-IsChained c t h)

-- After every sequence of calls on a new tree, each of the generic, the locked and the commit
-- certificate that is set is the parent that the certificate one mark above names, and none of
-- them is set below one that is not.
pub marks_follow_parents : (g : Qc) (cs : List Call) → IsChained (marks (run cs (init_qc_tree g)))
marks_follow_parents g cs =
    run-IsChained cs (init_qc_tree g) (record { of_high = tt; of_generic = tt; of_locked = tt })

ltb_ℤ_irrefl : (a : ℤ) → ltb_ℤ a a ≡ false
ltb_ℤ_irrefl a = ground arith

raise-high : (o : Option Node) (t : Tree) → ltb_ℤ (raise o t).high.view t.high.view ≡ false
unfolding update_qcs
raise-high none t = ltb_ℤ_irrefl t.high.view
raise-high (some n) t = elim (Bool-cases (ltb_ℤ (qc_of n).view t.high.view)) [
  | inl e ↦ rw e (ltb_ℤ_irrefl t.high.view)
  | inr e ↦ rw e e
]

-- `UpdateQCStatus` and `UpdateHighQC` never lower the view of the highest certificate.
pub high_never_falls :
    (n : Node) (i : ℕ) (t : Tree)
    → (ltb_ℤ ((update_qc_status n t).1).high.view t.high.view ≡ false)
      × (ltb_ℤ (update_high_qc i t).high.view t.high.view ≡ false)
unfolding update_high_qc
high_never_falls n i t = (
  status-elim (λ t'. ltb_ℤ t'.high.view t.high.view ≡ false) n t (ltb_ℤ_irrefl t.high.view)
      (λ t' e.
        subst (λ v. ltb_ℤ (raise (dfs_query t'.root (qc_of n).parent) t').high.view v ≡ false)
          (sym (ap (λ r. (r.1).high.view) e) ∙ ap (λ m. m.high.view) (insert-marks n t))
          (raise-high _ t')),
  raise-high (find i t.root) t,
)

-- ===== src/Consensus/Certs/Growth.antt =====
-- What the tree of certificates holds after `UpdateQCStatus`.
use corechain.Consensus.Certs.Inserts.{insert-joins, status-inserted}
use corechain.Consensus.Certs.{
  Answer, Node, Qc, Tree, add_son, adopt_orphans, attach, find, fine, is_found, is_son, node, qc_of,
  raise, update_qc_status, update_qcs,
}
use corechain.Consensus.Certs.Search.{add_son-ids, attach-found, attach-ids, find-ids, ids}
use corechain.Prelude.{
  All, Bool-cases, List, Option, Option-cases, [], ap, arith, contains, contains-append, false, inl,
  inr, none, refl, some, subst, sym, true, ℕ, ◌++◌, ◌||◌, ◌↔◌, ◌∙◌, ◌∷◌, ◌≡◌, ◌≢◌,
}

-- The identifiers in the trees of the orphans.
abbrev pub orphan_ids : List Node → List ℕ
orphan_ids [] = []
orphan_ids (o ∷ os) = ids o ++ orphan_ids os

abbrev pub Waits : Node → Node → Type 0
Waits n o = (qc_of o).parent ≡ some ((qc_of n).id)

is_son_iff : (o n : Node) → (is_son o n ≡ true) ↔ Waits n o
is_son_iff o n = ground arith

adopt-son :
    (n o : Node) (os : List Node)
    → is_son o n ≡ true
    → adopt_orphans n (o ∷ os) ≡ adopt_orphans (add_son n o) os
unfolding adopt_orphans
adopt-son n o os h = ground arith

adopt-other :
    (n o : Node) (os : List Node)
    → is_son o n ≡ false
    → adopt_orphans n (o ∷ os) ≡ ((adopt_orphans n os).0, o ∷ (adopt_orphans n os).1)
unfolding adopt_orphans
adopt-other n o os h = ground arith

qc_of-add_son : (n o : Node) → qc_of (add_son n o) ≡ qc_of n
qc_of-add_son (node c xs) o = refl

adopt-qc_of : (n : Node) (os : List Node) → qc_of ((adopt_orphans n os).0) ≡ qc_of n
unfolding adopt_orphans
adopt-qc_of n [] = refl
adopt-qc_of n (o ∷ os) = elim (Bool-cases (is_son o n)) [
  | inl e ↦
      ap (λ r. qc_of (r.0)) (adopt-son n o os e) ∙ adopt-qc_of (add_son n o) os ∙ qc_of-add_son n o
  | inr e ↦ ap (λ r. qc_of (r.0)) (adopt-other n o os e) ∙ adopt-qc_of n os
]

-- Adoption loses no identifier, and makes none.
adopt-ids :
    (i : ℕ) (n : Node) (os : List Node)
    → contains i (ids ((adopt_orphans n os).0)) || contains i (orphan_ids ((adopt_orphans n os).1))
      ≡ contains i (ids n) || contains i (orphan_ids os)
unfolding adopt_orphans
adopt-ids i n [] = refl
adopt-ids i n (o ∷ os) = elim (Bool-cases (is_son o n)) [
  | inl e ↦
      ap (λ r. contains i (ids (r.0)) || contains i (orphan_ids (r.1))) (adopt-son n o os e)
      ∙ adopt-ids i (add_son n o) os
      ∙ ground (arith, add_son-ids i n o, contains-append i (ids o) (orphan_ids os))
  | inr e ↦
      ap (λ r. contains i (ids (r.0)) || contains i (orphan_ids (r.1))) (adopt-other n o os e)
      ∙ ground (
        arith,
        adopt-ids i n os,
        contains-append i (ids o) (orphan_ids os),
        contains-append i (ids o) (orphan_ids ((adopt_orphans n os).1)),
      )
]

adopt-grows :
    (i : ℕ) (n : Node) (os : List Node)
    → contains i (ids n) ≡ true
    → contains i (ids ((adopt_orphans n os).0)) ≡ true
unfolding adopt_orphans
adopt-grows i n [] h = h
adopt-grows i n (o ∷ os) h = elim (Bool-cases (is_son o n)) [
  | inl e ↦
      ap (λ r. contains i (ids (r.0))) (adopt-son n o os e)
      ∙ adopt-grows i (add_son n o) os (ground (arith, add_son-ids i n o))
  | inr e ↦ ap (λ r. contains i (ids (r.0))) (adopt-other n o os e) ∙ adopt-grows i n os h
]

self-ids : (n : Node) → contains (qc_of n).id (ids n) ≡ true
unfolding ids
self-ids (node c xs) = ground arith

-- The orphans that waited for the node are below it.
adopted :
    (c : Qc) (n : Node) (os : List Node)
    → qc_of n ≡ c
    → All
        (λ o.
          (qc_of o).parent ≡ some c.id
          → contains (qc_of o).id (ids ((adopt_orphans n os).0)) ≡ true)
        os
adopted c n [] h = tt
adopted c n (o ∷ os) h = elim (Bool-cases (is_son o n)) [
  | inl e ↦
      subst
        (λ r.
          All (λ o'. (qc_of o').parent ≡ some c.id → contains (qc_of o').id (ids (r.0)) ≡ true)
            (o ∷ os))
        (sym (adopt-son n o os e))
        (
          λ w.
              adopt-grows (qc_of o).id (add_son n o) os
                (ground (arith, add_son-ids (qc_of o).id n o, self-ids o)),
          adopted c (add_son n o) os (qc_of-add_son n o ∙ h),
        )
  | inr e ↦
      subst
        (λ r.
          All (λ o'. (qc_of o').parent ≡ some c.id → contains (qc_of o').id (ids (r.0)) ≡ true)
            (o ∷ os))
        (sym (adopt-other n o os e))
        (λ w. absurd (not_son e (w ∙ ap (λ z. some z.id) (sym h))), adopted c n os h)
]
  where
    not_son : is_son o n ≡ false → Waits n o → ⊥
    not_son e w = ground arith

-- The orphans that are left do not wait for the node.
left_over :
    (c : Qc) (n : Node) (os : List Node)
    → qc_of n ≡ c
    → All (λ o. (qc_of o).parent ≢ some c.id) ((adopt_orphans n os).1)
unfolding adopt_orphans
left_over c n [] h = tt
left_over c n (o ∷ os) h = elim (Bool-cases (is_son o n)) [
  | inl e ↦
      subst (λ r. All (λ o'. (qc_of o').parent ≢ some c.id) (r.1)) (sym (adopt-son n o os e))
        (left_over c (add_son n o) os (qc_of-add_son n o ∙ h))
  | inr e ↦
      subst (λ r. All (λ o'. (qc_of o').parent ≢ some c.id) (r.1)) (sym (adopt-other n o os e))
        (λ w. not_son e (w ∙ ap (λ z. some z.id) (sym h)), left_over c n os h)
]
  where
    not_son : is_son o n ≡ false → Waits n o → ⊥
    not_son e w = ground arith

raise-root : (o : Option Node) (t : Tree) → (raise o t).root ≡ t.root
unfolding update_qcs
raise-root none t = refl
raise-root (some n) t = ground arith

raise-orphans : (o : Option Node) (t : Tree) → (raise o t).orphans ≡ t.orphans
unfolding update_qcs
raise-orphans none t = refl
raise-orphans (some n) t = ground arith

-- What `UpdateQCStatus` makes of a tree that holds the parent of a new certificate.
pub record Joined (n : Node) (t : Tree) (r : Answer × Tree) : Type 0 where
  pub answer : r.0 ≡ fine
  pub is_in : is_found (find (qc_of n).id (r.1).root) ≡ true
  pub adopts : All (λ o. Waits n o → is_found (find (qc_of o).id (r.1).root) ≡ true) t.orphans
  pub none_waits : All (λ o. ¬ Waits n o) (r.1).orphans
  pub keeps :
      (i : ℕ)
      → contains i (ids (r.1).root) || contains i (orphan_ids (r.1).orphans)
        ≡ contains i (ids n) || (contains i (ids t.root) || contains i (orphan_ids t.orphans))

All-map {ℓ} :
    {A : Type ℓ} (P Q : A → Type 0) (xs : List A) → ((x : A) → P x → Q x) → All P xs → All Q xs
All-map P Q [] f h = tt
All-map P Q (x ∷ xs) f (p, h) = (f x p, All-map P Q xs f h)

below_parent :
    (p : ℕ) (n r t : Node) (i : ℕ)
    → attach p n t ≡ some r
    → contains i (ids n) ≡ true
    → is_found (find i r) ≡ true
below_parent p n r t i e h = ground (arith, find-ids i r, attach-ids p n t r i e)

joined :
    (n r : Node) (t : Tree) (p : ℕ) (o : Option Node)
    → attach p ((adopt_orphans n t.orphans).0) t.root ≡ some r
    → Joined n t (fine, raise o (record t { root = r; orphans = (adopt_orphans n t.orphans).1 }))
joined n r t p o e = record {
  answer = refl;
  is_in =
      subst (λ x. is_found (find (qc_of n).id x) ≡ true) (sym (raise-root o _))
        (below_parent p n' r t.root (qc_of n).id e
          (adopt-grows (qc_of n).id n t.orphans (self-ids n)));
  adopts =
      subst (λ x. All (λ o'. Waits n o' → is_found (find (qc_of o').id x) ≡ true) t.orphans)
        (sym (raise-root o _))
        (All-map _ _ t.orphans (λ x f w. below_parent p n' r t.root (qc_of x).id e (f w))
          (adopted (qc_of n) n t.orphans refl));
  none_waits =
      subst (All (λ o'. ¬ Waits n o')) (sym (raise-orphans o _))
        (left_over (qc_of n) n t.orphans refl);
  keeps = λ i.
      ap (λ x. contains i (ids x) || contains i (orphan_ids (raise o t').orphans)) (raise-root o t')
      ∙ ap (λ x. contains i (ids r) || contains i (orphan_ids x)) (raise-orphans o t')
      ∙ ground (arith, attach-ids p n' t.root r i e, adopt-ids i n t.orphans);
}
  where
    n' : Node
    n' = (adopt_orphans n t.orphans).0

    t' : Tree
    t' = record t { root = r; orphans = (adopt_orphans n t.orphans).1 }

-- `UpdateQCStatus` puts a new certificate whose parent is in the tree into the tree, and with it
-- every orphan that waits for it, none of which is left among the orphans. The identifiers that
-- the tree and the orphans hold together are those from before and those of the new node.
pub certificate_joins_tree :
    (n : Node) (t : Tree) (p : ℕ)
    → find (qc_of n).id t.root ≡ none
    → (qc_of n).parent ≡ some p
    → is_found (find p t.root) ≡ true
    → Joined n t (update_qc_status n t)
certificate_joins_tree n t p new hp found =
    elim (Option-cases (attach p (adopt_orphans n t.orphans).0 t.root)) [
      | inl e ↦ absurd (ground (arith, attach-found p (adopt_orphans n t.orphans).0 t.root))
      | inr (r, e) ↦
          subst (Joined n t) (sym (status-inserted n t _ new (insert-joins n r t p hp e)))
            (joined n r t p _ e)
    ]

-- ===== src/Consensus/Certs/Search.antt =====
-- The search of the tree of certificates against the list of its identifiers.
use corechain.Consensus.Certs.{
  Node, Nodes, Qc, add_son, append_node, attach, attach_all, find, find_all, graft, graft_all,
  is_found, no_sons, node, or_else, qc_of, son,
}
use corechain.Prelude.{
  Bool, Bool-cases, List, Option, Option-cases, [], arith, contains, contains-append, false, inl,
  inr, none, refl, some, subst, sym, true, ℕ, ◌++◌, ◌==◌, ◌||◌, ◌∙◌, ◌∷◌, ◌≡◌,
}

-- The identifiers of the certificates below a node, parents first.
unfoldable mutual
  pub ids : Node → List ℕ
  ids (node c xs) = c.id ∷ ids_all xs

  pub ids_all : Nodes → List ℕ
  ids_all no_sons = []
  ids_all (son x xs) = ids x ++ ids_all xs

abbrev is_grown : Option Nodes → Bool
is_grown none = false
is_grown (some xs) = true

pub is_found-or_else : (a b : Option Node) → is_found (or_else a b) ≡ is_found a || is_found b
is_found-or_else none b = refl
is_found-or_else (some n) b = refl

mutual
  unfolding find ids

  find_all-ids : (i : ℕ) (xs : Nodes) → is_found (find_all i xs) ≡ contains i (ids_all xs)
  find_all-ids i no_sons = refl
  find_all-ids i (son x xs) =
      rw (is_found-or_else, find_one-ids i x, find_all-ids i xs, contains-append)

  find_one-ids : (i : ℕ) (t : Node) → is_found (find i t) ≡ contains i (ids t)
  find_one-ids i (node c xs) = ground (arith, find_all-ids i xs)

-- The search finds exactly the identifiers of the tree.
pub find-ids : (i : ℕ) (t : Node) → is_found (find i t) ≡ contains i (ids t)
find-ids i t = find_one-ids i t

mutual
  unfolding find

  find_all-id : (i : ℕ) (xs : Nodes) (n : Node) → find_all i xs ≡ some n → (qc_of n).id ≡ i
  find_all-id i no_sons n h = absurd (ground arith)
  find_all-id i (son x xs) n h = elim (Option-cases (find i x)) [
    | inl e ↦ find_all-id i xs n (ground arith)
    | inr (m, e) ↦ find_one-id i x n (ground arith)
  ]

  find_one-id : (i : ℕ) (t : Node) (n : Node) → find i t ≡ some n → (qc_of n).id ≡ i
  find_one-id i (node c xs) n h = ground (arith, find_all-id i xs n)

pub find-id : (i : ℕ) (t : Node) (n : Node) → find i t ≡ some n → (qc_of n).id ≡ i
find-id i t n h = find_one-id i t n h

append_node-ids :
    (i : ℕ) (xs : Nodes) (n : Node)
    → contains i (ids_all (append_node xs n)) ≡ contains i (ids_all xs) || contains i (ids n)
unfolding ids
append_node-ids i no_sons n = ground (arith, contains-append i (ids n) [])
append_node-ids i (son x xs) n = ground (
  arith,
  contains-append i (ids x) (ids_all xs),
  contains-append i (ids x) (ids_all (append_node xs n)),
  append_node-ids i xs n,
)

pub add_son-ids :
    (i : ℕ) (t n : Node) → contains i (ids (add_son t n)) ≡ contains i (ids t) || contains i (ids n)
unfolding ids
add_son-ids i (node c xs) n = ground (arith, append_node-ids i xs n)

mutual
  unfolding attach find ids

  attach_all-found :
      (p : ℕ) (n : Node) (xs : Nodes) (ys : Nodes) (i : ℕ)
      → attach_all p n xs ≡ some ys
      → contains i (ids_all ys) ≡ contains i (ids_all xs) || contains i (ids n)
  attach_all-found p n no_sons ys i h = absurd (ground arith)
  attach_all-found p n (son x xs) ys i h = elim (Option-cases (attach p n x)) [
    | inr (y, e) ↦
        let same : son y xs ≡ ys = ground arith in
        subst
          (λ zs. contains i (ids_all zs) ≡ contains i (ids x ++ ids_all xs) || contains i (ids n))
          same
          (ground (
            arith,
            attach_one-found p n x y i e,
            contains-append i (ids x) (ids_all xs),
            contains-append i (ids y) (ids_all xs),
          ))
    | inl e ↦ elim (Option-cases (attach_all p n xs)) [
      | inl e' ↦ absurd (ground arith)
      | inr (zs, e') ↦
          let same : son x zs ≡ ys = ground arith in
          subst
            (λ zs. contains i (ids_all zs) ≡ contains i (ids x ++ ids_all xs) || contains i (ids n))
            same
            (ground (
              arith,
              attach_all-found p n xs zs i e',
              contains-append i (ids x) (ids_all xs),
              contains-append i (ids x) (ids_all zs),
            ))
    ]
  ]

  attach_one-found :
      (p : ℕ) (n : Node) (t : Node) (t' : Node) (i : ℕ)
      → attach p n t ≡ some t'
      → contains i (ids t') ≡ contains i (ids t) || contains i (ids n)
  attach_one-found p n (node c xs) t' i h = elim (Bool-cases (c.id == p)) [
    | inl e ↦
        let same : node c (append_node xs n) ≡ t' = ground arith in
        subst (λ z. contains i (ids z) ≡ contains i (ids (node c xs)) || contains i (ids n)) same
          (ground (arith, append_node-ids i xs n))
    | inr e ↦ elim (Option-cases (attach_all p n xs)) [
      | inl e' ↦ absurd (ground arith)
      | inr (zs, e') ↦
          let same : node c zs ≡ t' = ground arith in
          subst (λ z. contains i (ids z) ≡ contains i (ids (node c xs)) || contains i (ids n)) same
            (ground (arith, attach_all-found p n xs zs i e'))
    ]
  ]

pub attach-ids :
    (p : ℕ) (n t t' : Node) (i : ℕ)
    → attach p n t ≡ some t'
    → contains i (ids t') ≡ contains i (ids t) || contains i (ids n)
attach-ids p n t t' i h = attach_one-found p n t t' i h

graft_all-found :
    (x : Node) (xs : Nodes) (a : Option Node) (b : Option Nodes) (u v : Bool)
    → is_found a ≡ u
    → is_grown b ≡ v
    → is_grown (graft_all x xs a b) ≡ u || v
graft_all-found x xs none none u v h h' = ground arith
graft_all-found x xs none (some ys) u v h h' = ground arith
graft_all-found x xs (some y) b u v h h' = ground arith

graft-found : (c : Qc) (b : Option Nodes) → is_found (graft c b) ≡ is_grown b
graft-found c none = refl
graft-found c (some xs) = refl

mutual
  unfolding attach find

  attach_all_iff :
      (p : ℕ) (n : Node) (xs : Nodes) → is_grown (attach_all p n xs) ≡ is_found (find_all p xs)
  attach_all_iff p n no_sons = refl
  attach_all_iff p n (son x xs) =
      graft_all-found x xs (attach p n x) (attach_all p n xs) _ _ (attach_one_iff p n x)
        (attach_all_iff p n xs)
      ∙ sym (is_found-or_else (find p x) (find_all p xs))

  attach_one_iff : (p : ℕ) (n : Node) (t : Node) → is_found (attach p n t) ≡ is_found (find p t)
  attach_one_iff p n (node c xs) = elim (Bool-cases (c.id == p)) [
    | inl e ↦ ground arith
    | inr e ↦ ground (arith, graft-found c (attach_all p n xs), attach_all_iff p n xs)
  ]

-- A son is appended exactly where the search finds its parent.
pub attach-found : (p : ℕ) (n t : Node) → is_found (attach p n t) ≡ is_found (find p t)
attach-found p n t = attach_one_iff p n t

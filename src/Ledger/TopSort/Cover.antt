-- ===== src/Ledger/TopSort/Cover.antt =====
-- Every node of the graph is in one of its connected parts.
use corechain.Ledger.TopSort.{TxGraph, add_edge, add_edges, keys, outputs, reverse_graph}
use corechain.Prelude.{
  ==_iff, Bool, Bool-cases, List, Option, [], ap, arith, contains, contains-append, false,
  if◌then◌else◌, inl, inr, none, refl, some, sym, true, ℕ, ◌++◌, ◌==◌, ◌||◌, ◌∙◌, ◌∷◌, ◌≡◌, ◌⊎◌,
}
use corechain.Prelude.Dict.{has, has-insert, insert, lookup, lookup-insert, lookup_of_has_not}

pub contains-keys : (m : ℕ) (g : TxGraph) → contains m (keys g) ≡ has m g
contains-keys m [] = refl
contains-keys m ((j, w) ∷ g) = ground (arith, contains-keys m g)

-- What the first loop keeps true of the completed and the reversed graph.
pub record Turned (g0 : TxGraph) (p : TxGraph × TxGraph) : Type 0 where
  pub same_edges : (j : ℕ) → outputs (p.0) j ≡ outputs g0 j
  pub kept : (j : ℕ) → has j g0 ≡ true → has j (p.0) ≡ true
  pub back : (j m : ℕ) → contains m (outputs (p.1) j) ≡ true → has m (p.0) ≡ true

abbrev completed : ℕ → TxGraph → TxGraph
completed m g = if has m g then g else insert m [] g

outputs-completed : (m j : ℕ) (g : TxGraph) → outputs (completed m g) j ≡ outputs g j
outputs-completed m j g = elim (Bool-cases (has m g)) [
  | inl e ↦ ap (λ z. outputs (if z then g else insert m [] g) j) e
  | inr e ↦
      let absent = lookup_of_has_not m g e in
      ap (λ z. outputs (if z then g else insert m [] g) j) e
      ∙ ap out (lookup-insert m j [] g)
      ∙ missing absent
]
  where
    out : Option (List ℕ) → List ℕ
    out o = elim o [ none ↦ [] | some ms ↦ ms ]

    missing : lookup m g ≡ none → out (if m == j then some [] else lookup j g) ≡ out (lookup j g)
    missing absent = elim (Bool-cases (m == j)) [
      | inl e ↦
          let gone : lookup j g ≡ none = ap (λ z. lookup z g) (sym ((==_iff m j).0 e)) ∙ absent in
          rw (e, gone) refl
      | inr e ↦ rw e refl
    ]

has-completed : (m j : ℕ) (g : TxGraph) → has j (completed m g) ≡ m == j || has j g
has-completed m j g = elim (Bool-cases (has m g)) [
  | inl e ↦ elim (Bool-cases (m == j)) [
    | inl same ↦
        let there : has j g ≡ true = ap (λ z. has z g) (sym ((==_iff m j).0 same)) ∙ e in
        ground arith
    | inr ne ↦ ground arith
  ]
  | inr e ↦ ground (arith, has-insert m j [] g)
]

outputs-insert :
    (m j : ℕ) (xs : List ℕ) (g : TxGraph)
    → outputs (insert m xs g) j ≡ (if m == j then xs else outputs g j)
outputs-insert m j xs g = ap out (lookup-insert m j xs g) ∙ split (m == j)
  where
    out : Option (List ℕ) → List ℕ
    out o = elim o [ none ↦ [] | some ms ↦ ms ]

    split :
        (b : Bool) → out (if b then some xs else lookup j g) ≡ (if b then xs else out (lookup j g))
    split true = refl
    split false = refl

-- A new entry of the reversed graph.
outputs-reversed :
    (n m j x : ℕ) (rev : TxGraph)
    → contains x (outputs (insert m (outputs rev m ++ n ∷ []) rev) j) ≡ true
    → (x ≡ n) ⊎ ((k : ℕ) × (contains x (outputs rev k) ≡ true))
outputs-reversed n m j x rev h =
    by_key (m == j) (x == n) refl (ap (contains x) (sym (outputs-insert m j _ rev)) ∙ h)
  where
    by_key :
        (b c : Bool)
        → (x == n) ≡ c
        → contains x (if b then outputs rev m ++ n ∷ [] else outputs rev j) ≡ true
        → (x ≡ n) ⊎ ((k : ℕ) × (contains x (outputs rev k) ≡ true))
    by_key false c e h = inr (j, h)
    by_key true true e h = inl ((==_iff x n).0 e)
    by_key true false e h = inr (m, ground (arith, contains-append x (outputs rev m) (n ∷ [])))

add_edge-Turned :
    (g0 : TxGraph) (n m : ℕ) (p : TxGraph × TxGraph)
    → has n g0 ≡ true
    → Turned g0 p
    → Turned g0 (add_edge n m p)
add_edge-Turned g0 n m (g, rev) hn t = record {
  same_edges = λ j. outputs-completed m j g ∙ t.same_edges j;
  kept = λ j h. let had = t.kept j h in ground (arith, has-completed m j g);
  back = λ j x h. elim (outputs-reversed n m j x rev h) [
    | inl e ↦
        let had = t.kept n hn in
        let here = ap (λ z. has z g) e ∙ had in ground (arith, has-completed m x g)
    | inr (k, hk) ↦ let had = t.back k x hk in ground (arith, has-completed m x g)
  ];
}

add_edges-Turned :
    (g0 : TxGraph) (n : ℕ) (ms : List ℕ) (p : TxGraph × TxGraph)
    → has n g0 ≡ true
    → Turned g0 p
    → Turned g0 (add_edges n ms p)
unfolding add_edges
add_edges-Turned g0 n [] p hn t = t
add_edges-Turned g0 n (m ∷ ms) p hn t =
    add_edges-Turned g0 n ms (add_edge n m p) hn (add_edge-Turned g0 n m p hn t)

add_edges-grows :
    (n : ℕ) (ms : List ℕ) (p : TxGraph × TxGraph) (j : ℕ)
    → has j (p.0) || contains j ms ≡ true
    → has j ((add_edges n ms p).0) ≡ true
unfolding add_edges
add_edges-grows n [] p j h = ground arith
add_edges-grows n (m ∷ ms) (g, rev) j h =
    add_edges-grows n ms (add_edge n m (g, rev)) j (ground (arith, has-completed m j g))

-- The first loop.
reverse_graph-Turned :
    (g0 rest : TxGraph) (p : TxGraph × TxGraph)
    → ((n : ℕ) → has n rest ≡ true → has n g0 ≡ true)
    → Turned g0 p
    → Turned g0 (reverse_graph rest p)
unfolding reverse_graph
reverse_graph-Turned g0 [] p f t = t
reverse_graph-Turned g0 ((n, ms) ∷ rest) p f t =
    reverse_graph-Turned g0 rest (add_edges n ms p) (λ x hx. f x (ground arith))
      (add_edges-Turned g0 n ms p (f n (ground arith)) t)

reverse_graph-grows :
    (rest : TxGraph) (p : TxGraph × TxGraph) (j : ℕ)
    → has j (p.0) ≡ true
    → has j ((reverse_graph rest p).0) ≡ true
unfolding reverse_graph
reverse_graph-grows [] p j h = h
reverse_graph-grows ((n, ms) ∷ rest) p j h =
    reverse_graph-grows rest (add_edges n ms p) j (add_edges-grows n ms p j (ground arith))

reverse_graph-closes :
    (rest : TxGraph) (p : TxGraph × TxGraph) (n m : ℕ)
    → contains m (outputs rest n) ≡ true
    → has m ((reverse_graph rest p).0) ≡ true
unfolding reverse_graph
reverse_graph-closes [] p n m h = absurd (ground arith)
reverse_graph-closes ((k, ms) ∷ rest) p n m h = elim (Bool-cases (k == n)) [
  | inl e ↦
      reverse_graph-grows rest (add_edges k ms p) m
        (add_edges-grows k ms p m (let there : contains m ms ≡ true = ground arith in ground arith))
  | inr e ↦ reverse_graph-closes rest (add_edges k ms p) n m (ground arith)
]

-- The completed graph has the edges of the given one, and each edge ends at one of its keys, also
-- when it is followed backwards.
pub record Whole (g0 : TxGraph) (p : TxGraph × TxGraph) : Type 0 where
  pub turned : Turned g0 p
  pub closed : (n m : ℕ) → contains m (outputs (p.0) n) ≡ true → has m (p.0) ≡ true

pub reverse_graph-Whole : (g0 : TxGraph) → Whole g0 (reverse_graph g0 (g0, []))
reverse_graph-Whole g0 =
    let t =
      reverse_graph-Turned g0 g0 (g0, []) (λ n h. h)
        (record {
          same_edges = λ j. refl;
          kept = λ j h. h;
          back = λ j m h. absurd (ground arith);
        }) in
    record {
      turned = t;
      closed = λ n m h.
          reverse_graph-closes g0 (g0, []) n m (ap (contains m) (sym (t.same_edges n)) ∙ h);
    }

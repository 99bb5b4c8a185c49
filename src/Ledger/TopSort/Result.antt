-- ===== src/Ledger/TopSort/Result.antt =====
-- `TopSortDFS` gives an order of the whole graph just if the graph has no cycle.
use corechain.Ledger.TopSort.Cover.{Whole, contains-keys, reverse_graph-Whole}
use corechain.Ledger.TopSort.Ordered.{visit_parts_lem}
use corechain.Ledger.TopSort.{
  Sorted, TxGraph, fresh_state, keys, outputs, reverse_graph, sub_graphs, top_sort_dfs, visit_parts,
}
use corechain.Ledger.TopSort.Visit.{Cyclic, InOrder, Way, edge, free, onward}
use corechain.Ledger.TopSort.Parts.{concat, or-cases, or_left, or_right, sub_graphs_lem}
use corechain.Prelude.{
  ==_iff, List, [], ap, arith, contains, contains-append, false, inl, inr, length, none, refl, some,
  suc, sym, true, ℕ, ◌++◌, ◌==◌, ◌∙◌, ◌∷◌, ◌≡◌, ◌⊎◌,
}
use corechain.Prelude.Dict.{has}

Way-same : (g h : TxGraph) (c a : ℕ) → ((j : ℕ) → outputs g j ≡ outputs h j) → Way g c a → Way h c a
Way-same g h c a f (edge e) = edge (ap (contains c) (sym (f a)) ∙ e)
Way-same g h c a f (onward b e w) =
    onward b (ap (contains b) (sym (f a)) ∙ e) (Way-same g h c b f w)

InOrder-same :
    (g h : TxGraph) (l : List ℕ) → ((j : ℕ) → outputs g j ≡ outputs h j) → InOrder g l → InOrder h l
InOrder-same g h [] f o = tt
InOrder-same g h (n ∷ l) f (o, off, rest) =
    (λ m hm. o m (ap (contains m) (f n) ∙ hm), off, InOrder-same g h l f rest)

later :
    (g : TxGraph) (a m : ℕ) (l : List ℕ)
    → InOrder g l
    → contains a l ≡ true
    → contains m (outputs g a) ≡ true
    → contains m l ≡ true
later g a m [] o h e = absurd (ground arith)
later g a m (n ∷ l) (ahead, off, o) h e = elim (or-cases (a == n) (contains a l) h) [
  | inl same ↦
      or_right (m == n) (contains m l)
        (ahead m (ap (λ z. contains m (outputs g z)) (sym ((==_iff a n).0 same)) ∙ e))
  | inr h' ↦ or_right (m == n) (contains m l) (later g a m l o h' e)
]

-- In an order one comes only to nodes of the order.
Way-later :
    (g : TxGraph) (l : List ℕ) (c a : ℕ)
    → InOrder g l
    → contains a l ≡ true
    → Way g c a
    → contains c l ≡ true
Way-later g l c a o h (edge e) = later g a c l o h e
Way-later g l c a o h (onward b e w) = Way-later g l c b o (later g a b l o h e) w

first_later :
    (g : TxGraph) (l : List ℕ) (c a : ℕ)
    → ((m : ℕ) → contains m (outputs g a) ≡ true → contains m l ≡ true)
    → InOrder g l
    → Way g c a
    → contains c l ≡ true
first_later g l c a ahead o (edge e) = ahead c e
first_later g l c a ahead o (onward b e w) = Way-later g l c b o (ahead b e) w

InOrder-acyclic :
    (g : TxGraph) (l : List ℕ) (n : ℕ) → InOrder g l → contains n l ≡ true → Way g n n → ⊥
InOrder-acyclic g [] n o h w = absurd (ground arith)
InOrder-acyclic g (x ∷ l) n (ahead, off, o) h w = elim (or-cases (n == x) (contains n l) h) [
  | inr h' ↦ InOrder-acyclic g l n o h' w
  | inl same ↦
      let e : n ≡ x = (==_iff n x).0 same in
      let there =
        first_later g l n n (λ m hm. ahead m (ap (λ z. contains m (outputs g z)) (sym e) ∙ hm)) o
          w in
      cc (off, there, ap (λ z. contains z l) e)
]

-- A way ends with an edge.
ending : (g : TxGraph) (c a : ℕ) → Way g c a → (m : ℕ) × (contains c (outputs g m) ≡ true)
ending g c a (edge e) = (a, e)
ending g c a (onward b e w) = ending g c b w

free-length : (us : List ℕ) → free [] us ≡ length us
free-length [] = refl
free-length (u ∷ us) = let e = free-length us in ground arith

top_sort_runs :
    (g0 : TxGraph) (parts : List (List ℕ)) (r : Sorted)
    → sub_graphs
        (suc (length (keys ((reverse_graph g0 (g0, [])).0))))
        ((reverse_graph g0 (g0, [])).0)
        ((reverse_graph g0 (g0, [])).1)
        (keys ((reverse_graph g0 (g0, [])).0))
        []
        []
      ≡ some parts
    → visit_parts
        (suc (length (keys ((reverse_graph g0 (g0, [])).0))))
        ((reverse_graph g0 (g0, [])).0)
        parts
        []
        fresh_state
      ≡ some r
    → top_sort_dfs g0 ≡ some r
unfolding top_sort_dfs
top_sort_runs g0 parts r e1 e2 = rw (e1, top_sort_dfs) e2

-- The nodes of a graph are its keys and the ends of its edges.
abbrev pub IsNode : TxGraph → ℕ → Type 0
IsNode g n = (has n g ≡ true) ⊎ ((m : ℕ) × (contains n (outputs g m) ≡ true))

-- `TopSortDFS` ends on every graph of dependencies. Either it reports a cycle and no order, and then
-- some transaction depends on itself along one edge or more; or it reports none and gives an order in
-- which every transaction of the graph stands once, before everything that it has an edge to, and
-- then no transaction depends on itself.
pub top_sort_orders :
    (g : TxGraph)
    → (r : Sorted) × (top_sort_dfs g ≡ some r)
      × (((r.cyclic ≡ true) × (r.order ≡ none) × Cyclic g)
          ⊎ ((l : List ℕ) × (r.cyclic ≡ false)
              × (r.order ≡ some l)
              × InOrder g l
              × ((n : ℕ) → IsNode g n → contains n l ≡ true)
              × ¬ Cyclic g))
top_sort_orders g0 =
    let w = reverse_graph-Whole g0 in
    let (parts, run1, holds, inside) =
      sub_graphs_lem g rev us (λ n m h. both_ways w n m h) (suc (length us)) us [] []
        (omega (arith, free-length us)) (λ x h. h) (λ x h. absurd (ground arith))
        (λ x h. absurd (ground arith)) in
    let (r, run2, out) =
      visit_parts_lem g us (λ n m h. contains-keys m g ∙ w.closed n m h) (suc (length us))
        (omega (arith, free-length us)) parts [] fresh_state inside
        (record {
          good = record { in_order = tt; apart = λ x h. absurd (ground arith); no_cycle = refl };
          no_temp = refl;
        }) in
    (
      r,
      top_sort_runs g0 parts r run1 run2,
      elim out [
        | inl (c, e, cyc) ↦
            inl (c, e, (cyc.0, Way-same g g0 (cyc.0) (cyc.0) w.turned.same_edges (cyc.1)))
        | inr (l, c, e, o, f) ↦
            let all = λ (n : ℕ) (h : contains n us ≡ true). f n (
              or_left (contains n (concat parts)) false
                (holds n (or_left (contains n us) false h))) in
            inr (
              l,
              c,
              e,
              InOrder-same g g0 l w.turned.same_edges o,
              λ n h. all n (contains-keys n g ∙ node_in w n h),
              λ (n, way).
                  InOrder-acyclic g l n o
                    (all n (contains-keys n g ∙ node_in w n (inr (ending g0 n n way))))
                    (Way-same g0 g n n (λ j. sym (w.turned.same_edges j)) way),
            )
      ],
    )
  where
    turned : TxGraph × TxGraph
    turned = reverse_graph g0 (g0, [])

    g : TxGraph
    g = turned.0

    rev : TxGraph
    rev = turned.1

    us : List ℕ
    us = keys g

    both_ways :
        Whole g0 turned
        → (n m : ℕ) → contains m (outputs g n ++ outputs rev n) ≡ true
        → contains m us ≡ true
    both_ways w n m h =
        elim (or-cases (contains m (outputs g n)) (contains m (outputs rev n))
          (sym (contains-append m (outputs g n) (outputs rev n)) ∙ h)) [
            | inl e ↦ contains-keys m g ∙ w.closed n m e
            | inr e ↦ contains-keys m g ∙ w.turned.back n m e
          ]

    node_in : Whole g0 turned → (n : ℕ) → IsNode g0 n → has n g ≡ true
    node_in w n (inl h) = w.turned.kept n h
    node_in w n (inr (m, h)) = w.closed m n (ap (contains n) (w.turned.same_edges m) ∙ h)

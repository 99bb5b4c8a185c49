-- ===== src/Ledger/TopSort/Examples.antt =====
-- Orders of small graphs of dependencies.
use corechain.Ledger.TopSort.{
  Sorted, TxGraph, add_edges, dfs, reverse_graph, sub_graphs, top_sort_dfs, visit, visit_part,
  visit_parts,
}
use corechain.Ledger.TopSort.Visit.{Cyclic, InOrder}
use corechain.Ledger.TopSort.Result.{IsNode, top_sort_orders}
use corechain.Prelude.{List, [], contains, false, none, refl, some, true, ℕ, ◌∷◌, ◌≡◌, ◌⊎◌}

-- 1 before 2 and 3, which come before 4; 5 before 6.
abbrev diamond : TxGraph
diamond = (1, 2 ∷ 3 ∷ []) ∷ (2, 4 ∷ []) ∷ (3, 4 ∷ []) ∷ (5, 6 ∷ []) ∷ []

diamond_order :
    top_sort_dfs diamond
    ≡ some (record {
      order = some (5 ∷ 6 ∷ 1 ∷ 2 ∷ 3 ∷ 4 ∷ []);
      cyclic = false;
      child_dag_size = 2 ∷ 4 ∷ [];
    })
unfolding top_sort_dfs reverse_graph add_edges sub_graphs dfs visit_parts visit_part visit
diamond_order = refl

-- Of two transactions that depend on each other there is no order.
knot_has_cycle :
    top_sort_dfs ((1, 2 ∷ []) ∷ (2, 1 ∷ []) ∷ [])
    ≡ some (record { order = none; cyclic = true; child_dag_size = 2 ∷ [] })
unfolding top_sort_dfs reverse_graph add_edges sub_graphs dfs visit_parts visit_part visit
knot_has_cycle = refl

top_sort_orders_example :
    (r : Sorted) × (top_sort_dfs diamond ≡ some r)
    × (((r.cyclic ≡ true) × (r.order ≡ none) × Cyclic diamond)
        ⊎ ((l : List ℕ) × (r.cyclic ≡ false)
            × (r.order ≡ some l)
            × InOrder diamond l
            × ((n : ℕ) → IsNode diamond n → contains n l ≡ true)
            × ¬ Cyclic diamond))
top_sort_orders_example = top_sort_orders diamond

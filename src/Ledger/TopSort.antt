-- ===== src/Ledger/TopSort.antt =====
-- ledger/tx/topsort.go: the order of the transactions of a pool by their dependencies. A Go map is an
-- association list in the order in which a loop goes through it; transactions are numbers.
pub mod Visit
pub mod Cover
pub mod Parts
pub mod Ordered
pub mod Result
mod Examples
use corechain.Prelude.{
  Bool, List, Option, [], contains, false, if◌then◌else◌, length, none, some, suc, true, zero, ℕ,
  ◌++◌, ◌==◌, ◌∷◌,
}
use corechain.Prelude.Dict.{Dict, has, insert, lookup}

-- `TxGraph`
abbrev pub TxGraph : Type 0
TxGraph = Dict (List ℕ)

-- `g[n]`, which is nil for a missing key.
abbrev pub outputs : TxGraph → ℕ → List ℕ
outputs g n = elim (lookup n g) [ none ↦ [] | some ms ↦ ms ]

-- The body of the inner loop that completes the graph and turns it round.
abbrev pub add_edge : ℕ → ℕ → TxGraph × TxGraph → TxGraph × TxGraph
add_edge n m (g, rev) =
    (if has m g then g else insert m [] g, insert m (outputs rev m ++ n ∷ []) rev)

unfoldable pub add_edges : ℕ → List ℕ → TxGraph × TxGraph → TxGraph × TxGraph
add_edges n [] p = p
add_edges n (m ∷ ms) p = add_edges n ms (add_edge n m p)

-- The first loop of `TopSortDFS`, over the entries of the graph as it was given.
unfoldable pub reverse_graph : TxGraph → TxGraph × TxGraph → TxGraph × TxGraph
reverse_graph [] p = p
reverse_graph ((n, ms) ∷ rest) p = reverse_graph rest (add_edges n ms p)

-- What `visit` works on. A node is marked for good just when it is written to `L`, which is filled
-- from its end, so `order`, the filled part of `L`, is also the set of these marks.
pub record State : Type 0 where
  pub temp : List ℕ
  pub order : List ℕ
  pub cycle_found : Bool

-- The loop of `visit` over the outputs, which stops at a cycle.
abbrev pub each : (ℕ → State → Option State) → List ℕ → State → Option State
each f [] s = some s
each f (m ∷ ms) s = elim (f m s) [
  | none ↦ none
  | some s' ↦ if s'.cycle_found then some s' else each f ms s'
]

abbrev pub without : ℕ → List ℕ → List ℕ
without n [] = []
without n (x ∷ xs) = if x == n then without n xs else x ∷ without n xs

-- The end of `visit`: the node leaves the temporary marks and gets its place.
abbrev pub settle_node : ℕ → Option State → Option State
settle_node n none = none
settle_node n (some s) =
    if s.cycle_found
    then some s
    else some (record s { temp = without n s.temp; order = n ∷ s.order })

-- `visit`, with the depth of its calls as fuel.
unfoldable pub visit : ℕ → TxGraph → ℕ → State → Option State
visit zero g n s = none
visit (suc fuel) g n s =
    let deeper = each (visit fuel g) (outputs g n) (record s { temp = n ∷ s.temp }) in
    if contains n s.temp
    then some (record s { cycle_found = true })
    else (if contains n s.order then some s else settle_node n deeper)

-- `dfs`: the marked nodes, and the part of the graph that is being collected.
abbrev pub Part : Type 0
Part = List ℕ × List ℕ

abbrev pub each_part : (ℕ → Part → Option Part) → List ℕ → Part → Option Part
each_part f [] p = some p
each_part f (m ∷ ms) p = elim (f m p) [ none ↦ none | some p' ↦ each_part f ms p' ]

abbrev pub collect : ℕ → Option Part → Option Part
collect n none = none
collect n (some (marked, part)) = some (marked, part ++ n ∷ [])

unfoldable pub dfs : ℕ → TxGraph → TxGraph → ℕ → Part → Option Part
dfs zero g rev n p = none
dfs (suc fuel) g rev n (marked, part) =
    let deeper = each_part (dfs fuel g rev) (outputs g n ++ outputs rev n) (n ∷ marked, part) in
    if contains n marked then some (marked, part) else collect n deeper

abbrev pub keys : TxGraph → List ℕ
keys [] = []
keys ((n, ms) ∷ g) = n ∷ keys g

abbrev pub more_parts :
    List (List ℕ)
    → Option Part
    → (List ℕ → List (List ℕ) → Option (List (List ℕ)))
    → Option (List (List ℕ))
more_parts parts none go = none
more_parts parts (some (marked, part)) go = go marked (parts ++ part ∷ [])

-- The loop that splits the graph into its connected parts.
unfoldable pub sub_graphs :
    ℕ → TxGraph → TxGraph → List ℕ → List ℕ → List (List ℕ) → Option (List (List ℕ))
sub_graphs fuel g rev [] marked parts = some parts
sub_graphs fuel g rev (n ∷ ns) marked parts =
    if contains n marked
    then sub_graphs fuel g rev ns marked parts
    else more_parts parts (dfs fuel g rev n (marked, [])) (sub_graphs fuel g rev ns)

-- The loop over the nodes of one part.
unfoldable pub visit_part : ℕ → TxGraph → List ℕ → State → Option State
visit_part fuel g [] s = some s
visit_part fuel g (n ∷ ns) s =
    if contains n s.order then visit_part fuel g ns s else elim (visit fuel g n s) [
      | none ↦ none
      | some s' ↦ if s'.cycle_found then some s' else visit_part fuel g ns s'
    ]

abbrev pub zeros : List (List ℕ) → List ℕ
zeros [] = []
zeros (p ∷ ps) = 0 ∷ zeros ps

-- The results: the order, which is nil after a cycle, whether there is one, and the sizes of the parts.
pub record Sorted : Type 0 where
  pub order : Option (List ℕ)
  pub cyclic : Bool
  pub child_dag_size : List ℕ

-- The loop over the parts; `sizes` is the filled end of the array of their sizes.
unfoldable pub visit_parts : ℕ → TxGraph → List (List ℕ) → List ℕ → State → Option Sorted
visit_parts fuel g [] sizes s =
    some (record { order = some s.order; cyclic = false; child_dag_size = sizes })
visit_parts fuel g (p ∷ ps) sizes s = elim (visit_part fuel g p s) [
  | none ↦ none
  | some s' ↦
      if s'.cycle_found
      then some
          (record { order = none; cyclic = true; child_dag_size = zeros ps ++ length p ∷ sizes })
      else visit_parts fuel g ps (length p ∷ sizes) s'
]

abbrev pub fresh_state : State
fresh_state = record { temp = []; order = []; cycle_found = false }

-- `TopSortDFS`; the calls may be as deep as the graph has nodes, and one more.
unfoldable pub top_sort_dfs : TxGraph → Option Sorted
top_sort_dfs g0 =
    let (g, rev) = reverse_graph g0 (g0, []) in
    let fuel = suc (length (keys g)) in
    elim (sub_graphs fuel g rev (keys g) [] []) [
      | none ↦ none
      | some parts ↦ visit_parts fuel g parts [] fresh_state
    ]

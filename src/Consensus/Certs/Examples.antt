-- ===== src/Consensus/Certs/Examples.antt =====
-- The tree of certificates at concrete certificates.
use corechain.Consensus.Certs.{
  Node, Qc, Tree, adopt_orphans, attach, below, cut, find, init_qc_tree, insert, insert_orphan,
  is_found, no_sons, node, place_orphan, update_commit, update_high_qc, update_qc_status,
  update_qcs,
}
use corechain.Consensus.Certs.Marks.{
  Call, IsChained, commit_up_to, high_never_falls, marks, marks_follow_parents, run, update_status,
}
use corechain.Consensus.Certs.Growth.{Joined, certificate_joins_tree}
use corechain.Prelude.{List, [], false, none, refl, some, true, ℕ, ◌++◌, ◌∷◌, ◌≡◌}
use corechain.Prelude.Int.{ltb_ℤ, pos}

abbrev genesis : Qc
genesis = record { id = 0; view = pos 0; parent = none }

-- A certificate whose view is its identifier.
abbrev cert : ℕ → ℕ → Node
cert i p = node (record { id = i; view = pos i; parent = some p }) no_sons

abbrev chain : List Call
chain =
    update_status (cert 1 0)
    ∷ update_status (cert 2 1)
    ∷ update_status (cert 3 2)
    ∷ update_status (cert 4 3)
    ∷ []

abbrev chained : Tree
chained = run chain (init_qc_tree genesis)

-- The highest certificate has a son, and the others stand behind it.
chain_marks : chained.commit ≡ some genesis
unfolding find insert attach adopt_orphans insert_orphan place_orphan update_qcs update_qc_status
    update_commit cut below
chain_marks = refl

-- The commit of certificate 4 makes certificate 1 the root, so 0 is gone.
commit_moves_root :
    (is_found (find 0 (run (commit_up_to 3 ∷ []) chained).root) ≡ true)
    × (is_found (find 0 (run (commit_up_to 4 ∷ []) chained).root) ≡ false)
unfolding find insert attach adopt_orphans insert_orphan place_orphan update_qcs update_qc_status
    update_commit cut below
commit_moves_root = (refl, refl)

marks_follow_parents_example :
    IsChained (marks (run (chain ++ commit_up_to 4 ∷ []) (init_qc_tree genesis)))
marks_follow_parents_example = marks_follow_parents genesis (chain ++ commit_up_to 4 ∷ [])

high_never_falls_example :
    (ltb_ℤ ((update_qc_status (cert 5 1) chained).1).high.view chained.high.view ≡ false)
    × (ltb_ℤ (update_high_qc 1 chained).high.view chained.high.view ≡ false)
high_never_falls_example = high_never_falls (cert 5 1) 1 chained

-- Certificate 7 waits for certificate 6.
abbrev waiting : Tree
waiting = (update_qc_status (cert 7 6) chained).1

six_is_new : find 6 waiting.root ≡ none
unfolding find insert attach adopt_orphans insert_orphan place_orphan update_qcs update_qc_status
    update_commit cut below
six_is_new = refl

four_is_there : is_found (find 4 waiting.root) ≡ true
unfolding find insert attach adopt_orphans insert_orphan place_orphan update_qcs update_qc_status
    update_commit cut below
four_is_there = refl

certificate_joins_tree_example : Joined (cert 6 4) waiting (update_qc_status (cert 6 4) waiting)
certificate_joins_tree_example =
    certificate_joins_tree (cert 6 4) waiting 4 six_is_new refl four_is_there

-- Certificates 8 and 9 wait for certificate 7, which waits for certificate 6. Only 8 is hung below
-- 7, and 9 stays an orphan once 7 is in the tree.
abbrev stranded : Tree
stranded =
    run
      (update_status (cert 8 7)
        ∷ update_status (cert 9 7)
        ∷ update_status (cert 7 6)
        ∷ update_status (cert 6 4)
        ∷ [])
      chained

nine_is_stranded :
    (is_found (find 7 stranded.root) ≡ true)
    × ((is_found (find 8 stranded.root) ≡ true) × (is_found (find 9 stranded.root) ≡ false))
unfolding find insert attach adopt_orphans insert_orphan place_orphan update_qcs update_qc_status
    update_commit cut below
nine_is_stranded = (refl, (refl, refl))

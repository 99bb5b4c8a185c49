-- ===== src/Ledger/TopSort/Ordered.antt =====
-- `TopSortDFS` gives an order of the whole graph, or finds a cycle.
use corechain.Ledger.TopSort.Parts.{concat, or-cases, or3-cases, or_left, or_right}
use corechain.Ledger.TopSort.{
  Sorted, State, TxGraph, outputs, visit, visit_part, visit_parts, zeros,
}
use corechain.Ledger.TopSort.Visit.{Cyclic, Done, Good, InOrder, free, visit_lem}
use corechain.Prelude.{
  ==_iff, ==_refl, Bool-cases, List, Option, [], ap, arith, contains, contains-append, false, inl,
  inr, length, none, refl, some, subst, sym, true, ℕ, ◌++◌, ◌<◌, ◌==◌, ◌||◌, ◌∙◌, ◌∷◌, ◌≡◌, ◌⊎◌,
}

module _ (g : TxGraph) (us : List ℕ)
    (closed : (n m : ℕ) → contains m (outputs g n) ≡ true → contains m us ≡ true) (fuel : ℕ)
    (enough : free [] us < fuel) where
  -- The states between two calls of `visit` from outside.
  pub record Between (s : State) : Type 0 where
    pub good : Good g s
    pub no_temp : s.temp ≡ []

  -- The nodes are placed, or there is a cycle.
  abbrev PartDone : List ℕ → State → Option State → Type 0
  PartDone ns s o =
      (s' : State) × (o ≡ some s')
      × (((s'.cycle_found ≡ true) × Cyclic g)
          ⊎ (Between s'
              × ((m : ℕ)
                  → contains m ns || contains m s.order ≡ true
                  → contains m s'.order ≡ true)))

  part-placed :
      (n : ℕ) (ns : List ℕ) (s : State)
      → contains n s.order ≡ true
      → visit_part fuel g (n ∷ ns) s ≡ visit_part fuel g ns s
  unfolding visit_part
  part-placed n ns s e = rw (e, visit_part) refl

  part-cycle :
      (n : ℕ) (ns : List ℕ) (s s1 : State)
      → contains n s.order ≡ false
      → visit fuel g n s ≡ some s1
      → s1.cycle_found ≡ true
      → visit_part fuel g (n ∷ ns) s ≡ some s1
  unfolding visit_part
  part-cycle n ns s s1 e run c = ground arith

  part-goes :
      (n : ℕ) (ns : List ℕ) (s s1 : State)
      → contains n s.order ≡ false
      → visit fuel g n s ≡ some s1
      → s1.cycle_found ≡ false
      → visit_part fuel g (n ∷ ns) s ≡ visit_part fuel g ns s1
  unfolding visit_part
  part-goes n ns s s1 e run c = ground arith

  visit_part_lem :
      (ns : List ℕ) (s : State)
      → ((x : ℕ) → contains x ns ≡ true → contains x us ≡ true)
      → Between s
      → PartDone ns s (visit_part fuel g ns s)
  unfolding visit_part
  visit_part_lem [] s sub b = (s, refl, inr (b, λ m h. h))
  visit_part_lem (n ∷ ns) s sub b = elim (Bool-cases (contains n s.order)) [
    | inl there ↦
        let (s', run, r) =
          visit_part_lem ns s (λ x h. sub x (or_right (x == n) (contains x ns) h)) b in
        (
          s',
          part-placed n ns s there ∙ run,
          elim r [ inl c ↦ inl c | inr (b', f) ↦ inr (b', λ m h. f m (still m h there)) ],
        )
    | inr new ↦
        let (s1, run1, r1) =
          visit_lem g us closed fuel n s b.good
            (sub n (or_left (n == n) (contains n ns) (==_refl n)))
            (λ t ht. absurd (cc (ap (contains t) (sym b.no_temp) ∙ ht)))
            (subst (λ z. free z us < fuel) (sym b.no_temp) enough) in
        elim r1 [
          | inl (c, cyc) ↦ (s1, part-cycle n ns s s1 new run1 c, inl (c, cyc))
          | inr d ↦
              let (s', run, r) =
                visit_part_lem ns s1 (λ x h. sub x (or_right (x == n) (contains x ns) h))
                  (record { good = d.good; no_temp = d.same_temp ∙ b.no_temp }) in
              (
                s',
                part-goes n ns s s1 new run1 d.good.no_cycle ∙ run,
                elim r [ inl c ↦ inl c | inr (b', f) ↦ inr (b', λ m h. f m (since m h s1 d)) ],
              )
        ]
  ]
    where
      still :
          (m : ℕ)
          → (m == n || contains m ns) || contains m s.order ≡ true
          → contains n s.order ≡ true
          → contains m ns || contains m s.order ≡ true
      still m h there = elim (or3-cases (m == n) (contains m ns) (contains m s.order) h) [
        | inr e ↦ e
        | inl e ↦
            or_right (contains m ns) (contains m s.order)
              (ap (λ z. contains z s.order) ((==_iff m n).0 e) ∙ there)
      ]

      since :
          (m : ℕ)
          → (m == n || contains m ns) || contains m s.order ≡ true
          → (s1 : State) → Done g (n ∷ []) s s1
          → contains m ns || contains m s1.order ≡ true
      since m h s1 d = elim (or3-cases (m == n) (contains m ns) (contains m s.order) h) [
        | inl e ↦
            or_right (contains m ns) (contains m s1.order) (d.placed m (or_left (m == n) false e))
        | inr e ↦ elim (or-cases (contains m ns) (contains m s.order) e) [
          | inl e' ↦ or_left (contains m ns) (contains m s1.order) e'
          | inr e' ↦ or_right (contains m ns) (contains m s1.order) (d.grows m e')
        ]
      ]

  -- The outcome of the loop over the parts.
  abbrev pub Outcome : List ℕ → State → Option Sorted → Type 0
  Outcome ns s o =
      (r : Sorted) × (o ≡ some r)
      × (((r.cyclic ≡ true) × (r.order ≡ none) × Cyclic g)
          ⊎ ((l : List ℕ) × (r.cyclic ≡ false)
              × (r.order ≡ some l)
              × InOrder g l
              × ((m : ℕ) → contains m ns || contains m s.order ≡ true → contains m l ≡ true)))

  parts-cycle :
      (p : List ℕ) (ps : List (List ℕ)) (sizes : List ℕ) (s s1 : State)
      → visit_part fuel g p s ≡ some s1
      → s1.cycle_found ≡ true
      → visit_parts fuel g (p ∷ ps) sizes s
        ≡ some
            (record { order = none; cyclic = true; child_dag_size = zeros ps ++ length p ∷ sizes })
  unfolding visit_parts
  parts-cycle p ps sizes s s1 run c = rw (run, visit_parts) (rw c refl)

  parts-goes :
      (p : List ℕ) (ps : List (List ℕ)) (sizes : List ℕ) (s s1 : State)
      → visit_part fuel g p s ≡ some s1
      → s1.cycle_found ≡ false
      → visit_parts fuel g (p ∷ ps) sizes s ≡ visit_parts fuel g ps (length p ∷ sizes) s1
  unfolding visit_parts
  parts-goes p ps sizes s s1 run c = rw (run, visit_parts) (rw c refl)

  pub visit_parts_lem :
      (ps : List (List ℕ)) (sizes : List ℕ) (s : State)
      → ((x : ℕ) → contains x (concat ps) ≡ true → contains x us ≡ true)
      → Between s
      → Outcome (concat ps) s (visit_parts fuel g ps sizes s)
  unfolding visit_parts
  visit_parts_lem [] sizes s sub b = (_, refl, inr (s.order, refl, refl, b.good.in_order, λ m h. h))
  visit_parts_lem (p ∷ ps) sizes s sub b =
      let (s1, run1, r1) =
        visit_part_lem p s
          (λ x h.
            sub x
              (contains-append x p (concat ps) ∙ or_left (contains x p) (contains x (concat ps)) h))
          b in
      elim r1 [
        | inl (c, cyc) ↦ (_, parts-cycle p ps sizes s s1 run1 c, inl (refl, refl, cyc))
        | inr (b1, f1) ↦
            let (r, run, out) =
              visit_parts_lem ps (length p ∷ sizes) s1
                (λ x h. sub x (
                  contains-append x p (concat ps)
                  ∙ or_right (contains x p) (contains x (concat ps)) h))
                b1 in
            (
              r,
              parts-goes p ps sizes s s1 run1 b1.good.no_cycle ∙ run,
              elim out [
                | inl c ↦ inl c
                | inr (l, e1, e2, o, f) ↦ inr (l, e1, e2, o, λ m h. f m (carried m h s1 f1))
              ],
            )
      ]
    where
      carried :
          (m : ℕ)
          → contains m (p ++ concat ps) || contains m s.order ≡ true
          → (s1 : State)
          → ((x : ℕ) → contains x p || contains x s.order ≡ true → contains x s1.order ≡ true)
          → contains m (concat ps) || contains m s1.order ≡ true
      carried m h s1 f1 =
          elim (or3-cases (contains m p) (contains m (concat ps)) (contains m s.order)
            (ap (λ z. z || contains m s.order) (sym (contains-append m p (concat ps))) ∙ h)) [
              | inl e ↦
                  or_right (contains m (concat ps)) (contains m s1.order)
                    (f1 m (or_left (contains m p) (contains m s.order) e))
              | inr e ↦ elim (or-cases (contains m (concat ps)) (contains m s.order) e) [
                | inl e' ↦ or_left (contains m (concat ps)) (contains m s1.order) e'
                | inr e' ↦
                    or_right (contains m (concat ps)) (contains m s1.order)
                      (f1 m (or_right (contains m p) (contains m s.order) e'))
              ]
            ]

-- ===== src/Ledger/TopSort/Visit.antt =====
-- `visit` places a node behind nothing that it depends on, or finds a real cycle.
use corechain.Ledger.TopSort.{State, TxGraph, each, outputs, settle_node, visit, without}
use corechain.Prelude.{
  ==_iff, Bool-cases, List, Option, [], ap, arith, contains, false, if◌then◌else◌, inl, inr, refl,
  some, subst, suc, sym, true, zero, ℕ, ◌<◌, ◌==◌, ◌∙◌, ◌∷◌, ◌≡◌, ◌≤◌, ◌⊎◌,
}

-- A way along one edge or more.
pub data Way (g : TxGraph) (c : ℕ) : ℕ → Type 0 where
  edge : {a : ℕ} → contains c (outputs g a) ≡ true → Way g c a
  onward : {a : ℕ} (b : ℕ) → contains b (outputs g a) ≡ true → Way g c b → Way g c a

further : (g : TxGraph) (b c a : ℕ) → Way g b a → contains c (outputs g b) ≡ true → Way g c a
further g b c a (edge e) h = onward b e (edge h)
further g b c a (onward x e w) h = onward x e (further g b c x w h)

abbrev pub Cyclic : TxGraph → Type 0
Cyclic g = (n : ℕ) × Way g n n

-- Each node stands before the nodes that it has an edge to, and none stands twice.
abbrev pub InOrder : TxGraph → List ℕ → Type 0
InOrder g [] = Unit {0}
InOrder g (n ∷ rest) =
    ((m : ℕ) → contains m (outputs g n) ≡ true → contains m rest ≡ true)
    × (contains n rest ≡ false)
    × InOrder g rest

pub record Good (g : TxGraph) (s : State) : Type 0 where
  pub in_order : InOrder g s.order
  pub apart : (x : ℕ) → contains x s.temp ≡ true → contains x s.order ≡ false
  pub no_cycle : s.cycle_found ≡ false

-- The nodes were visited without a cycle.
pub record Done (g : TxGraph) (ns : List ℕ) (s s' : State) : Type 0 where
  pub good : Good g s'
  pub same_temp : s'.temp ≡ s.temp
  pub placed : (m : ℕ) → contains m ns ≡ true → contains m s'.order ≡ true
  pub grows : (x : ℕ) → contains x s.order ≡ true → contains x s'.order ≡ true

abbrev pub Visited : TxGraph → List ℕ → State → Option State → Type 0
Visited g ns s o =
    (s' : State) × (o ≡ some s') × (((s'.cycle_found ≡ true) × Cyclic g) ⊎ Done g ns s s')

-- The nodes without a mark.
abbrev pub free : List ℕ → List ℕ → ℕ
free t [] = 0
free t (u ∷ us) = if contains u t then free t us else suc (free t us)

pub free-le : (n : ℕ) (t us : List ℕ) → free (n ∷ t) us ≤ free t us
free-le n t [] = omega arith
free-le n t (u ∷ us) = ground (arith, free-le n t us)

pub free-lt :
    (n : ℕ) (t us : List ℕ)
    → contains n us ≡ true
    → contains n t ≡ false
    → free (n ∷ t) us < free t us
free-lt n t [] h h' = absurd (ground arith)
free-lt n t (u ∷ us) h h' = elim (Bool-cases (n == u)) [
  | inl e ↦
      let same : n ≡ u = (==_iff n u).0 e in
      let le = free-le n t us in
      let out : contains u t ≡ false = ap (λ z. contains z t) (sym same) ∙ h' in
      ground (arith, le, out)
  | inr e ↦ let lt = free-lt n t us (ground arith) h' in ground (arith, lt)
]

without-absent : (n : ℕ) (t : List ℕ) → contains n t ≡ false → without n t ≡ t
without-absent n [] h = refl
without-absent n (x ∷ t) h = ground (arith, without-absent n t)

each-cycle :
    (f : ℕ → State → Option State) (m : ℕ) (ms : List ℕ) (s s1 : State)
    → f m s ≡ some s1
    → s1.cycle_found ≡ true
    → each f (m ∷ ms) s ≡ some s1
each-cycle f m ms s s1 run c = rw (run, each) (rw c refl)

each-goes :
    (f : ℕ → State → Option State) (m : ℕ) (ms : List ℕ) (s s1 : State)
    → f m s ≡ some s1
    → s1.cycle_found ≡ false
    → each f (m ∷ ms) s ≡ each f ms s1
each-goes f m ms s s1 run c = rw (run, each) (rw c refl)

module _ (g : TxGraph) (us : List ℕ)
    (closed : (n m : ℕ) → contains m (outputs g n) ≡ true → contains m us ≡ true) where
  -- The loop, for a function that visits one node.
  each_lem :
      (f : ℕ → State → Option State) (t : List ℕ) (ms : List ℕ)
      → ((m : ℕ)
          → contains m ms ≡ true
          → (s : State) → Good g s
          → s.temp ≡ t
          → Visited g (m ∷ []) s (f m s))
      → (s : State) → Good g s
      → s.temp ≡ t
      → Visited g ms s (each f ms s)
  each_lem f t [] ih s good e = (
    s,
    refl,
    inr (record {
      good = good;
      same_temp = refl;
      placed = λ m h. absurd (ground arith);
      grows = λ x h. h;
    }),
  )
  each_lem f t (m ∷ ms) ih s good e =
      let (s1, run, r) = ih m (ground arith) s good e in
      elim r [
        | inl (c, cyc) ↦ (s1, each-cycle f m ms s s1 run c, inl (c, cyc))
        | inr d ↦
            let (s2, run2, r2) =
              each_lem f t ms (λ x hx. ih x (ground arith)) s1 d.good (d.same_temp ∙ e) in
            (
              s2,
              each-goes f m ms s s1 run d.good.no_cycle ∙ run2,
              elim r2 [
                | inl x ↦ inl x
                | inr d2 ↦ inr (record {
                  good = d2.good;
                  same_temp = d2.same_temp ∙ d.same_temp;
                  placed = λ x hx. elim (Bool-cases (x == m)) [
                    | inl eq ↦ d2.grows x (d.placed x (ground arith))
                    | inr ne ↦ d2.placed x (ground arith)
                  ];
                  grows = λ x hx. d2.grows x (d.grows x hx);
                })
              ],
            )
      ]

  distinct : (x n : ℕ) (t : List ℕ) → contains x t ≡ true → contains n t ≡ false → (x == n) ≡ false
  distinct x n t h h' = elim (Bool-cases (x == n)) [
    | inr ne ↦ ne
    | inl e ↦ absurd (cc (h, h', ap (λ z. contains z t) ((==_iff x n).0 e)))
  ]

  visit-cycle :
      (fuel n : ℕ) (s : State)
      → contains n s.temp ≡ true
      → visit (suc fuel) g n s ≡ some (record s { cycle_found = true })
  unfolding visit
  visit-cycle fuel n s on = ground arith

  visit-placed :
      (fuel n : ℕ) (s : State)
      → contains n s.temp ≡ false
      → contains n s.order ≡ true
      → visit (suc fuel) g n s ≡ some s
  unfolding visit
  visit-placed fuel n s new there = ground arith

  visit-deeper :
      (fuel n : ℕ) (s : State)
      → contains n s.temp ≡ false
      → contains n s.order ≡ false
      → visit (suc fuel) g n s
        ≡ settle_node n (each (visit fuel g) (outputs g n) (record s { temp = n ∷ s.temp }))
  unfolding visit
  visit-deeper fuel n s new unplaced = ground arith

  marked-Good :
      (n : ℕ) (s : State)
      → Good g s
      → contains n s.order ≡ false
      → Good g (record s { temp = n ∷ s.temp })
  marked-Good n s good unplaced = record {
    in_order = good.in_order;
    apart = λ x hx. elim (Bool-cases (x == n)) [
      | inl e ↦ ap (λ z. contains z s.order) ((==_iff x n).0 e) ∙ unplaced
      | inr ne ↦ good.apart x (ground arith)
    ];
    no_cycle = good.no_cycle;
  }

  settle-cycle : (n : ℕ) (s : State) → s.cycle_found ≡ true → settle_node n (some s) ≡ some s
  settle-cycle n s c = rw c refl

  settle-done :
      (n : ℕ) (s : State)
      → s.cycle_found ≡ false
      → settle_node n (some s) ≡ some (record s { temp = without n s.temp; order = n ∷ s.order })
  settle-done n s c = rw c refl

  -- The node at hand gets its place.
  settled :
      (n : ℕ) (s s1 : State)
      → Good g s
      → contains n s.temp ≡ false
      → contains n s.order ≡ false
      → Done g (outputs g n) (record s { temp = n ∷ s.temp }) s1
      → Done g (n ∷ []) s (record s1 { temp = without n s1.temp; order = n ∷ s1.order })
  settled n s s1 good new unplaced d =
      let back : without n s1.temp ≡ s.temp =
        ap (without n) d.same_temp ∙ ground (arith, without-absent n s.temp new) in
      let off : contains n s1.order ≡ false =
        d.good.apart n (ap (contains n) d.same_temp ∙ ground arith) in
      record {
        good = record {
          in_order = (d.placed, off, d.good.in_order);
          apart = λ x hx.
              let hx' : contains x s.temp ≡ true = ap (contains x) (sym back) ∙ hx in
              let deep = d.good.apart x (ap (contains x) d.same_temp ∙ ground arith) in
              let other = distinct x n s.temp hx' new in ground arith;
          no_cycle = d.good.no_cycle;
        };
        same_temp = back;
        placed = λ m hm. ground arith;
        grows = λ x hx. let deep = d.grows x hx in ground arith;
      }

  pub visit_lem :
      (fuel n : ℕ) (s : State)
      → Good g s
      → contains n us ≡ true
      → ((t : ℕ) → contains t s.temp ≡ true → Way g n t)
      → free s.temp us < fuel
      → Visited g (n ∷ []) s (visit fuel g n s)
  visit_lem zero n s good hn ways lt = absurd (omega arith)
  visit_lem (suc fuel) n s good hn ways lt = elim (Bool-cases (contains n s.temp)) [
    | inl on ↦
        (record s { cycle_found = true }, visit-cycle fuel n s on, inl (refl, (n, ways n on)))
    | inr new ↦ elim (Bool-cases (contains n s.order)) [
      | inl there ↦ (
        s,
        visit-placed fuel n s new there,
        inr (record {
          good = good;
          same_temp = refl;
          placed = λ m hm. let e : m ≡ n = ground arith in ap (λ z. contains z s.order) e ∙ there;
          grows = λ x hx. hx;
        }),
      )
      | inr unplaced ↦
          let (s1, run, r) =
            each_lem (visit fuel g) (n ∷ s.temp) (outputs g n)
              (λ m hm s' good' e.
                visit_lem fuel m s' good' (closed n m hm)
                  (λ t ht. elim (Bool-cases (t == n)) [
                    | inl eq ↦ subst (Way g m) (sym ((==_iff t n).0 eq)) (edge hm)
                    | inr ne ↦
                        further g n m t (ways t (in_temp t m (ap (contains t) (sym e) ∙ ht) ne)) hm
                  ])
                  (subst (λ z. free z us < fuel) (sym e)
                    (omega (arith, free-lt n s.temp us hn new))))
              (record s { temp = n ∷ s.temp }) (marked-Good n s good unplaced) refl in
          elim r [
            | inl (c, cyc) ↦ (
              s1,
              visit-deeper fuel n s new unplaced ∙ ap (settle_node n) run ∙ settle-cycle n s1 c,
              inl (c, cyc),
            )
            | inr d ↦ (
              record s1 { temp = without n s1.temp; order = n ∷ s1.order },
              visit-deeper fuel n s new unplaced
                  ∙ ap (settle_node n) run
                  ∙ settle-done n s1 d.good.no_cycle,
              inr (settled n s s1 good new unplaced d),
            )
          ]
    ]
  ]
    where
      in_temp :
          (t m : ℕ) → contains t (n ∷ s.temp) ≡ true → (t == n) ≡ false → contains t s.temp ≡ true
      in_temp t m h ne = ground arith

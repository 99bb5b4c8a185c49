-- ===== src/Ledger/TopSort/Parts.antt =====
-- `dfs` and the split of the graph into its connected parts.
use corechain.Ledger.TopSort.{
  Part, TxGraph, collect, dfs, each_part, more_parts, outputs, sub_graphs,
}
use corechain.Ledger.TopSort.Visit.{free, free-lt}
use corechain.Prelude.{
  ==_iff, ==_refl, Bool, Bool-cases, List, Option, [], ap, arith, contains, contains-append, false,
  inl, inr, refl, some, suc, sym, true, zero, ℕ, ◌++◌, ◌<◌, ◌==◌, ◌||◌, ◌∙◌, ◌∷◌, ◌≡◌, ◌≤◌, ◌⊎◌,
}

-- What a search of a part adds to the marks and to the part: it only adds nodes of `us`, and each new
-- mark is in the part.
pub record Grown (us : List ℕ) (ns : List ℕ) (p p' : Part) : Type 0 where
  pub marks : (x : ℕ) → contains x (p.0) ≡ true → contains x (p'.0) ≡ true
  pub part : (x : ℕ) → contains x (p.1) ≡ true → contains x (p'.1) ≡ true
  pub seen : (x : ℕ) → contains x ns ≡ true → contains x (p'.0) ≡ true
  pub new : (x : ℕ) → contains x (p'.0) ≡ true → contains x (p.0) || contains x (p'.1) ≡ true
  pub inside : (x : ℕ) → contains x (p'.1) ≡ true → contains x (p.1) || contains x us ≡ true

abbrev pub Searched : List ℕ → List ℕ → Part → Option Part → Type 0
Searched us ns p o = (p' : Part) × (o ≡ some p') × Grown us ns p p'

pub or-cases : (a b : Bool) → a || b ≡ true → (a ≡ true) ⊎ (b ≡ true)
or-cases true b h = inl refl
or-cases false b h = inr h

pub or3-cases : (a b c : Bool) → (a || b) || c ≡ true → (a ≡ true) ⊎ (b || c ≡ true)
or3-cases true b c h = inl refl
or3-cases false b c h = inr h

pub or_left : (a b : Bool) → a ≡ true → a || b ≡ true
or_left a b h = ground arith

pub or_right : (a b : Bool) → b ≡ true → a || b ≡ true
or_right true b h = refl
or_right false b h = h

Grown-trans :
    (us ms : List ℕ) (m : ℕ) (q q1 q2 : Part)
    → Grown us (m ∷ []) q q1
    → Grown us ms q1 q2
    → Grown us (m ∷ ms) q q2
Grown-trans us ms m q q1 q2 g1 g2 = record {
  marks = λ x h. g2.marks x (g1.marks x h);
  part = λ x h. g2.part x (g1.part x h);
  seen = λ x h. elim (or-cases (x == m) (contains x ms) h) [
    | inl e ↦ g2.marks x (g1.seen x (or_left (x == m) false e))
    | inr e ↦ g2.seen x e
  ];
  new = λ x h. elim (or-cases (contains x (q1.0)) (contains x (q2.1)) (g2.new x h)) [
    | inr e ↦ or_right (contains x (q.0)) (contains x (q2.1)) e
    | inl e ↦ elim (or-cases (contains x (q.0)) (contains x (q1.1)) (g1.new x e)) [
      | inl e' ↦ or_left (contains x (q.0)) (contains x (q2.1)) e'
      | inr e' ↦ or_right (contains x (q.0)) (contains x (q2.1)) (g2.part x e')
    ]
  ];
  inside = λ x h. elim (or-cases (contains x (q1.1)) (contains x us) (g2.inside x h)) [
    | inr e ↦ or_right (contains x (q.1)) (contains x us) e
    | inl e ↦ g1.inside x e
  ];
}

-- The node itself is marked first, and collected last.
Grown-collect :
    (us ms marked part marked' part' : List ℕ) (n : ℕ)
    → contains n us ≡ true
    → Grown us ms (n ∷ marked, part) (marked', part')
    → Grown us (n ∷ []) (marked, part) (marked', part' ++ n ∷ [])
Grown-collect us ms marked part marked' part' n hn d = record {
  marks = λ x h. d.marks x (or_right (x == n) (contains x marked) h);
  part = λ x h.
      contains-append x part' (n ∷ []) ∙ or_left (contains x part') (x == n || false) (d.part x h);
  seen = λ x h. d.marks x (ground arith);
  new = λ x h. elim (or-cases (contains x (n ∷ marked)) (contains x part') (d.new x h)) [
    | inr e ↦
        or_right (contains x marked) (contains x (part' ++ n ∷ []))
          (contains-append x part' (n ∷ []) ∙ or_left (contains x part') (x == n || false) e)
    | inl e ↦ elim (or-cases (x == n) (contains x marked) e) [
      | inr e' ↦ or_left (contains x marked) (contains x (part' ++ n ∷ [])) e'
      | inl e' ↦ or_right (contains x marked) (contains x (part' ++ n ∷ [])) (
          contains-append x part' (n ∷ [])
          ∙ or_right (contains x part') (x == n || false) (or_left (x == n) false e'))
    ]
  ];
  inside = λ x h.
      elim (or-cases (contains x part') (contains x (n ∷ []))
        (sym (contains-append x part' (n ∷ [])) ∙ h)) [
          | inl e ↦ d.inside x e
          | inr e ↦
              let same : x ≡ n = ground arith in
              or_right (contains x part) (contains x us) (ap (λ z. contains z us) same ∙ hn)
        ];
}

free_mono :
    (t t' us : List ℕ)
    → ((x : ℕ) → contains x t ≡ true → contains x t' ≡ true)
    → free t' us ≤ free t us
free_mono t t' [] f = omega arith
free_mono t t' (u ∷ us) f =
    let le = free_mono t t' us f in
    elim (Bool-cases (contains u t)) [
      | inl e ↦ let e' = f u e in ground arith
      | inr e ↦ ground arith
    ]

abbrev pub concat : List (List ℕ) → List ℕ
concat [] = []
concat (p ∷ ps) = p ++ concat ps

contains-concat :
    (x : ℕ) (ps : List (List ℕ)) (p : List ℕ)
    → contains x (concat (ps ++ p ∷ [])) ≡ contains x (concat ps) || contains x p
contains-concat x [] p = ground (arith, contains-append x p [])
contains-concat x (q ∷ ps) p = ground (
  arith,
  contains-append x q (concat (ps ++ p ∷ [])),
  contains-append x q (concat ps),
  contains-concat x ps p,
)

module _ (g rev : TxGraph) (us : List ℕ)
    (closed : (n m : ℕ)
      → contains m (outputs g n ++ outputs rev n) ≡ true
      → contains m us ≡ true) where
  each_part_lem :
      (f : ℕ → Part → Option Part) (ms : List ℕ) (p : Part)
      → ((m : ℕ)
          → contains m ms ≡ true
          → (q : Part) → ((x : ℕ) → contains x (p.0) ≡ true → contains x (q.0) ≡ true)
          → Searched us (m ∷ []) q (f m q))
      → (q : Part) → ((x : ℕ) → contains x (p.0) ≡ true → contains x (q.0) ≡ true)
      → Searched us ms q (each_part f ms q)
  each_part_lem f [] p ih q le = (
    q,
    refl,
    record {
      marks = λ x h. h;
      part = λ x h. h;
      seen = λ x h. absurd (ground arith);
      new = λ x h. ground arith;
      inside = λ x h. ground arith;
    },
  )
  each_part_lem f (m ∷ ms) p ih q le =
      let (q1, run1, g1) = ih m (ground arith) q le in
      let (q2, run2, g2) =
        each_part_lem f ms p (λ x hx. ih x (ground arith)) q1 (λ x h. g1.marks x (le x h)) in
      (q2, rw (run1, each_part) run2, Grown-trans us ms m q q1 q2 g1 g2)

  dfs-marked :
      (fuel n : ℕ) (marked part : List ℕ)
      → contains n marked ≡ true
      → dfs (suc fuel) g rev n (marked, part) ≡ some (marked, part)
  unfolding dfs
  dfs-marked fuel n marked part e = rw (e, dfs) refl

  dfs-deeper :
      (fuel n : ℕ) (marked part : List ℕ)
      → contains n marked ≡ false
      → dfs (suc fuel) g rev n (marked, part)
        ≡ collect n (each_part (dfs fuel g rev) (outputs g n ++ outputs rev n) (n ∷ marked, part))
  unfolding dfs
  dfs-deeper fuel n marked part e = rw (e, dfs) refl

  dfs_lem :
      (fuel n : ℕ) (p : Part)
      → contains n us ≡ true
      → free (p.0) us < fuel
      → Searched us (n ∷ []) p (dfs fuel g rev n p)
  dfs_lem zero n p hn lt = absurd (omega arith)
  dfs_lem (suc fuel) n (marked, part) hn lt = elim (Bool-cases (contains n marked)) [
    | inl there ↦ (
      (marked, part),
      dfs-marked fuel n marked part there,
      record {
        marks = λ x h. h;
        part = λ x h. h;
        seen = λ x h. let same : x ≡ n = ground arith in ap (λ z. contains z marked) same ∙ there;
        new = λ x h. or_left (contains x marked) (contains x part) h;
        inside = λ x h. or_left (contains x part) (contains x us) h;
      },
    )
    | inr new ↦
        let (q, run, d) =
          each_part_lem (dfs fuel g rev) (outputs g n ++ outputs rev n) (n ∷ marked, part)
            (λ m hm q le.
              dfs_lem fuel m q (closed n m hm)
                (omega (arith, free_mono (n ∷ marked) (q.0) us le, free-lt n marked us hn new)))
            (n ∷ marked, part) (λ x h. h) in
        (
          (q.0, q.1 ++ n ∷ []),
          dfs-deeper fuel n marked part new ∙ ap (collect n) run,
          Grown-collect us (outputs g n ++ outputs rev n) marked part (q.0) (q.1) n hn d,
        )
  ]

  more_runs :
      (parts : List (List ℕ)) (o : Option Part) (q : Part)
      (go : List ℕ → List (List ℕ) → Option (List (List ℕ)))
      → o ≡ some q
      → more_parts parts o go ≡ go (q.0) (parts ++ (q.1) ∷ [])
  more_runs parts o q go e = rw (e, more_parts) refl

  subs-marked :
      (fuel n : ℕ) (ns marked : List ℕ) (parts : List (List ℕ))
      → contains n marked ≡ true
      → sub_graphs fuel g rev (n ∷ ns) marked parts ≡ sub_graphs fuel g rev ns marked parts
  unfolding sub_graphs
  subs-marked fuel n ns marked parts e = rw (e, sub_graphs) refl

  subs-new :
      (fuel n : ℕ) (ns marked : List ℕ) (parts : List (List ℕ))
      → contains n marked ≡ false
      → sub_graphs fuel g rev (n ∷ ns) marked parts
        ≡ more_parts parts (dfs fuel g rev n (marked, [])) (sub_graphs fuel g rev ns)
  unfolding sub_graphs
  subs-new fuel n ns marked parts e = rw (e, sub_graphs) refl

  -- The parts hold the nodes of the list, and what was marked before, and only nodes of `us`.
  pub sub_graphs_lem :
      (fuel : ℕ) (ns marked : List ℕ) (parts : List (List ℕ))
      → free [] us < fuel
      → ((x : ℕ) → contains x ns ≡ true → contains x us ≡ true)
      → ((x : ℕ) → contains x marked ≡ true → contains x (concat parts) ≡ true)
      → ((x : ℕ) → contains x (concat parts) ≡ true → contains x us ≡ true)
      → (out : List (List ℕ)) × (sub_graphs fuel g rev ns marked parts ≡ some out)
        × ((x : ℕ)
            → contains x ns || contains x (concat parts) ≡ true
            → contains x (concat out) ≡ true)
        × ((x : ℕ) → contains x (concat out) ≡ true → contains x us ≡ true)
  unfolding sub_graphs
  sub_graphs_lem fuel [] marked parts lt sub covered inside = (parts, refl, λ x h. h, inside)
  sub_graphs_lem fuel (n ∷ ns) marked parts lt sub covered inside =
      elim (Bool-cases (contains n marked)) [
        | inl there ↦
            let (out, run, holds, ins) =
              sub_graphs_lem fuel ns marked parts lt
                (λ x hx. sub x (or_right (x == n) (contains x ns) hx)) covered inside in
            (
              out,
              subs-marked fuel n ns marked parts there ∙ run,
              λ x h.
                  holds x (elim (or3-cases (x == n) (contains x ns) (contains x (concat parts)) h) [
                    | inl e ↦
                        or_right (contains x ns) (contains x (concat parts))
                          (covered x (ap (λ z. contains z marked) ((==_iff x n).0 e) ∙ there))
                    | inr e ↦ e
                  ]),
              ins,
            )
        | inr new ↦
            let (q, run1, d) =
              dfs_lem fuel n (marked, []) (sub n (or_left (n == n) (contains n ns) (==_refl n)))
                (omega (arith, free_mono [] marked us (λ x h. absurd (ground arith)))) in
            let (out, run, holds, ins) =
              sub_graphs_lem fuel ns (q.0) (parts ++ (q.1) ∷ []) lt
                (λ x hx. sub x (or_right (x == n) (contains x ns) hx))
                (λ x h.
                  in_more x (q.1) parts
                    (elim (or-cases (contains x marked) (contains x (q.1)) (d.new x h)) [
                      | inl e ↦ or_left (contains x (concat parts)) (contains x (q.1)) (covered x e)
                      | inr e ↦ or_right (contains x (concat parts)) (contains x (q.1)) e
                    ]))
                (λ x h.
                  elim (or-cases (contains x (concat parts)) (contains x (q.1))
                    (sym (contains-concat x parts (q.1)) ∙ h)) [
                      | inl e ↦ inside x e
                      | inr e ↦ d.inside x e
                    ]) in
            (
              out,
              subs-new fuel n ns marked parts new
                  ∙ more_runs parts (dfs fuel g rev n (marked, [])) q (sub_graphs fuel g rev ns)
                      run1
                  ∙ run,
              λ x h.
                  holds x (elim (or3-cases (x == n) (contains x ns) (contains x (concat parts)) h) [
                    | inl e ↦ or_right (contains x ns) (contains x (concat (parts ++ (q.1) ∷ []))) (
                        in_more x (q.1) parts (
                          or_right (contains x (concat parts)) (contains x (q.1))
                            (ap (λ z. contains z (q.1)) ((==_iff x n).0 e) ∙ first q new d)))
                    | inr e ↦ elim (or-cases (contains x ns) (contains x (concat parts)) e) [
                      | inl e' ↦
                          or_left (contains x ns) (contains x (concat (parts ++ (q.1) ∷ []))) e'
                      | inr e' ↦
                          or_right (contains x ns) (contains x (concat (parts ++ (q.1) ∷ []))) (
                            in_more x (q.1) parts
                              (or_left (contains x (concat parts)) (contains x (q.1)) e'))
                    ]
                  ]),
              ins,
            )
      ]
    where
      in_more :
          (x : ℕ) (p : List ℕ) (ps : List (List ℕ))
          → contains x (concat ps) || contains x p ≡ true
          → contains x (concat (ps ++ p ∷ [])) ≡ true
      in_more x p ps h = contains-concat x ps p ∙ h

      first :
          (q : Part)
          → contains n marked ≡ false
          → Grown us (n ∷ []) (marked, []) q
          → contains n (q.1) ≡ true
      first q new d =
          let seen = d.new n (d.seen n (or_left (n == n) false (==_refl n))) in ground arith

-- ===== src/Permission/Check/Loop.antt =====
-- The loop of `validatePermTree` gives every node the verdict of its rule on its children.
use corechain.Permission.Rules.{Float64, Status}
use corechain.Permission.Trees.{Heap, PermNode, children_of}
use corechain.Permission.Check.{
  check_node, good, said, signers, status_of, then_with, verify_list, verify_node,
}
use corechain.Permission.Check.Settled.{
  Closed, check_says, is_sound, marked, set_at, signers-marked, verify_marked, with_status,
}
use corechain.Prelude.{
  ==_iff, Bool, Bool-cases, List, Option-cases, [], ap, arith, contains, false, inl, inr, none,
  refl, some, subst, sym, true, ℕ, ◌==◌, ◌∙◌, ◌∷◌, ◌≡◌,
}

-- A node has the status that its rule gives for the statuses of its children.
abbrev pub Agrees : {r : Float64} → Heap r → (ℕ → Status) → Bool → ℕ → Type 0
Agrees {r} h st top j =
    (n : PermNode r)
    → h.nodes j ≡ some n
    → (b : Bool) × (check_node top n (signers (marked h st) n.children) ≡ said b)
      × (st j ≡ status_of b)

pub Agrees-keep :
    {r : Float64} (h : Heap r) (st st' : ℕ → Status) (top : Bool) (j : ℕ)
    → ((c : ℕ) → contains c (children_of (h.nodes j)) ≡ true → st c ≡ st' c)
    → st j ≡ st' j
    → Agrees h st top j
    → Agrees h st' top j
Agrees-keep h st st' top j same own a n e =
    let (b, run, is) = a n e in
    let seen =
      signers-marked h st st' n.children
        (λ c hc. same c (ap (λ z. contains c (children_of z)) e ∙ hc)) in
    (b, ap (check_node top n) (sym seen) ∙ run, sym own ∙ is)

Closed-child :
    {r : Float64} (h : Heap r) (is : List ℕ) (j c : ℕ)
    → Closed h is
    → contains j is ≡ true
    → contains c (children_of (h.nodes j)) ≡ true
    → contains c is ≡ true
Closed-child h [] j c k hj hc = absurd (ground arith)
Closed-child h (i ∷ is) j c (ki, k) hj hc = elim (Bool-cases (j == i)) [
  | inl e ↦
      let same : j ≡ i = (==_iff j i).0 e in
      let there = ki c (ap (λ z. contains c (children_of (h.nodes z))) (sym same) ∙ hc) in
      ground arith
  | inr ne ↦ let there = Closed-child h is j c k (ground arith) hc in ground arith
]

-- To set a status that nothing in the list depends on, or that is there already.
pub record Settles {r : Float64} (h : Heap r) (is : List ℕ) (st : ℕ → Status) : Type 0 where
  pub after : ℕ → Status
  pub runs : verify_list is (marked h st) ≡ good (marked h after)
  pub agree : (j : ℕ) → contains j is ≡ true → Agrees h after false j

pub set_other : (i j : ℕ) (b : Bool) (st : ℕ → Status) → (i == j) ≡ false → st j ≡ set_at i b st j
set_other i j b st ne = ground arith

pub set_same : (i : ℕ) (b : Bool) (st : ℕ → Status) → set_at i b st i ≡ status_of b
set_same i b st = ground arith

set_again :
    (i : ℕ) (b : Bool) (st : ℕ → Status) → st i ≡ status_of b → (j : ℕ) → st j ≡ set_at i b st j
set_again i b st e j = elim (Bool-cases (i == j)) [
  | inr ne ↦ set_other i j b st ne
  | inl eq ↦
      let same : i ≡ j = (==_iff i j).0 eq in
      ap st (sym same) ∙ e ∙ sym (set_same i b st) ∙ ap (set_at i b st) same
]

differs : (i c : ℕ) (is : List ℕ) → contains i is ≡ false → contains c is ≡ true → (i == c) ≡ false
differs i c is new there = elim (Bool-cases (i == c)) [
  | inr ne ↦ ne
  | inl eq ↦
      let same : i ≡ c = (==_iff i c).0 eq in absurd (cc (new, there, ap (λ z. contains z is) same))
]

said-inj : (a b : Bool) → said a ≡ said b → a ≡ b
said-inj a b e = ground arith

-- The node itself agrees once its status is set, if none of its children is the node.
pub self-Agrees :
    {r : Float64} (h : Heap r) (top : Bool) (i : ℕ) (st : ℕ → Status) (n : PermNode r) (b : Bool)
    → h.nodes i ≡ some n
    → check_node top n (signers (marked h st) n.children) ≡ said b
    → ((c : ℕ) → contains c n.children ≡ true → (i == c) ≡ false)
    → Agrees h (set_at i b st) top i
self-Agrees {r} h top i st n b e run apart n' e' =
    let same : n ≡ n' = cc (e, e') in
    let seen =
      signers-marked h st (set_at i b st) n.children (λ c hc. set_other i c b st (apart c hc)) in
    subst
      (λ (z : PermNode r).
        (x : Bool) × (check_node top z (signers (marked h (set_at i b st)) z.children) ≡ said x)
        × (set_at i b st i ≡ status_of x))
      same (b, ap (check_node top n) (sym seen) ∙ run, set_same i b st)

one-Agrees :
    {r : Float64} (h : Heap r) (i : ℕ) (is : List ℕ) (st : ℕ → Status) (n : PermNode r) (b : Bool)
    → ((c : ℕ) → contains c (children_of (h.nodes i)) ≡ true → contains c is ≡ true)
    → Closed h is
    → h.nodes i ≡ some n
    → check_node false n (signers (marked h st) n.children) ≡ said b
    → ((j : ℕ) → contains j is ≡ true → Agrees h st false j)
    → (j : ℕ) → contains j (i ∷ is) ≡ true
    → Agrees h (set_at i b st) false j
one-Agrees {r} h i is st n b ki k e run agree j hj = elim (Bool-cases (contains i is)) [
  | inl dup ↦
      let (b', run', own) = agree i dup n e in
      let same : b' ≡ b = said-inj b' b (sym run' ∙ run) in
      let again = set_again i b st (own ∙ ap status_of same) in
      Agrees-keep h st (set_at i b st) false j (λ c hc. again c) (again j) (agree j (in_rest dup))
  | inr new ↦ elim (Bool-cases (j == i)) [
    | inl eq ↦ subst (Agrees h (set_at i b st) false) (sym ((==_iff j i).0 eq)) (
        self-Agrees h false i st n b e run
          (λ c hc. differs i c is new (ki c (ap (λ z. contains c (children_of z)) e ∙ hc))))
    | inr ne ↦
        let there : contains j is ≡ true = ground arith in
        Agrees-keep h st (set_at i b st) false j
          (λ c hc. set_other i c b st (differs i c is new (Closed-child h is j c k there hc)))
          (set_other i j b st (differs i j is new there)) (agree j there)
  ]
]
  where
    in_rest : contains i is ≡ true → contains j is ≡ true
    in_rest dup = elim (Bool-cases (j == i)) [
      | inl eq ↦ ap (λ z. contains z is) ((==_iff j i).0 eq) ∙ dup
      | inr ne ↦ ground arith
    ]

verify_none :
    {r : Float64} (h : Heap r) (st : ℕ → Status) (top : Bool) (i : ℕ)
    → h.nodes i ≡ none
    → verify_node top i (marked h st) ≡ good (marked h st)
unfolding verify_node
verify_none h st top i e =
    let e' : (marked h st).nodes i ≡ none = ap (λ z. with_status z (st i)) e in
    rw (e', verify_node) refl

one_more :
    {r : Float64} (h : Heap r) (i : ℕ) (is : List ℕ) (st : ℕ → Status) (n : PermNode r)
    → Closed h (i ∷ is)
    → h.nodes i ≡ some n
    → is_sound false n ≡ true
    → Settles h is st
    → Settles h (i ∷ is) st
unfolding verify_list
one_more h i is st n (ki, k) e sound s =
    let (b, run) = check_says false n (signers (marked h s.after) n.children) sound in
    record {
      after = set_at i b s.after;
      runs =
          ap (λ z. then_with z (verify_node false i)) s.runs
          ∙ verify_marked h s.after false i n b e run;
      agree = λ j hj. one-Agrees h i is s.after n b ki k e run s.agree j hj;
    }

pub verify_list_lem :
    {r : Float64} (h : Heap r) (is : List ℕ) (st : ℕ → Status)
    → Closed h is
    → ((j : ℕ) (n : PermNode r) → h.nodes j ≡ some n → is_sound false n ≡ true)
    → Settles h is st
unfolding verify_list
verify_list_lem h [] st k sound = record {
  after = st;
  runs = refl;
  agree = λ j hj. absurd (ground arith);
}
verify_list_lem {r} h (i ∷ is) st k sound = elim (Option-cases (h.nodes i)) [
  | inr (n, e) ↦ one_more h i is st n k e (sound i n e) (verify_list_lem h is st (k.1) sound)
  | inl e ↦
      let s = verify_list_lem h is st (k.1) sound in
      record {
        after = s.after;
        runs = ap (λ z. then_with z (verify_node false i)) s.runs ∙ verify_none h s.after false i e;
        agree = λ j hj. elim (Bool-cases (j == i)) [
          | inl eq ↦ λ n e'. absurd (stored_not j n ((==_iff j i).0 eq) e e')
          | inr ne ↦ s.agree j (ground arith)
        ];
      }
]
  where
    stored_not : (j : ℕ) (n : PermNode r) → j ≡ i → h.nodes i ≡ none → h.nodes j ≡ some n → ⊥
    stored_not j n same e e' = let e2 = ap h.nodes same in ground arith

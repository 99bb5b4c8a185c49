-- ===== src/Permission/Check/Settled.antt =====
-- The statuses that the validation of a tree of permissions leaves.
use corechain.Permission.Rules.{
  Acl, Float64, Model, Rule, Signer, Status, ca_server, community_vote, null, sign_akset, sign_rate,
  sign_sum, sign_threshold,
}
use corechain.Permission.Names.{NameKind, account, ak, invalid, is_account}
use corechain.Permission.Trees.{Heap, PermNode, children_of, get_perm_tree_list, listed, write}
use corechain.Permission.Check.{
  by_rule, check_kind, check_model, check_node, good, kind_at, said, set_status, signers, status_of,
  verify_node,
}
use corechain.Prelude.{
  ==_iff, Bool, Bool-cases, List, Option, Option-cases, [], ap, arith, contains, contains-append,
  false, fun_ext, if◌then◌else◌, inl, inr, none, refl, some, subst, suc, sym, true, zero, ℕ, ◌++◌,
  ◌==◌, ◌∙◌, ◌∷◌, ◌≡◌,
}

-- Each child of a listed node is listed behind it.
abbrev pub Closed : {r : Float64} → Heap r → List ℕ → Type 0
Closed h [] = Unit {0}
Closed h (i ∷ is) =
    ((c : ℕ) → contains c (children_of (h.nodes i)) ≡ true → contains c is ≡ true) × Closed h is

pub listed-cases :
    (i : ℕ) (o : Option (List ℕ)) (out : List ℕ)
    → listed i o ≡ some out
    → (rest : List ℕ) × (o ≡ some rest) × (out ≡ i ∷ rest)
listed-cases i none out e = absurd (ground arith)
listed-cases i (some rest) out e = (rest, refl, ground arith)

pub list_holds :
    {r : Float64} (h : Heap r) (fuel : ℕ) (is out : List ℕ) (c : ℕ)
    → get_perm_tree_list fuel h is ≡ some out
    → contains c is ≡ true
    → contains c out ≡ true
unfolding get_perm_tree_list
list_holds h fuel [] out c e has = absurd (ground arith)
list_holds h zero (i ∷ is) out c e has = absurd (ground arith)
list_holds h (suc fuel) (i ∷ is) out c e has =
    let (rest, e', same) =
      listed-cases i (get_perm_tree_list fuel h (is ++ children_of (h.nodes i))) out e in
    elim (Bool-cases (c == i)) [
      | inl eq ↦ rw same (ground arith)
      | inr ne ↦
          let deep =
            list_holds h fuel (is ++ children_of (h.nodes i)) rest c e'
              (ground (arith, contains-append c is (children_of (h.nodes i)))) in
          rw same (ground arith)
    ]

pub list-Closed :
    {r : Float64} (h : Heap r) (fuel : ℕ) (is out : List ℕ)
    → get_perm_tree_list fuel h is ≡ some out
    → Closed h out
unfolding get_perm_tree_list
list-Closed h fuel [] out e = let same : [] ≡ out = ground arith in subst (Closed h) same tt
list-Closed h zero (i ∷ is) out e = absurd (ground arith)
list-Closed h (suc fuel) (i ∷ is) out e =
    let (rest, e', same) =
      listed-cases i (get_perm_tree_list fuel h (is ++ children_of (h.nodes i))) out e in
    subst (Closed h) (sym same) (
      λ c hc.
          list_holds h fuel (is ++ children_of (h.nodes i)) rest c e'
            (ground (arith, contains-append c is (children_of (h.nodes i)))),
      list-Closed h fuel _ rest e',
    )

-- The heap with the given statuses.
abbrev pub with_status : {r : Float64} → Option (PermNode r) → Status → Option (PermNode r)
with_status none st = none
with_status (some n) st = some (record n { status = st })

abbrev pub marked : {r : Float64} → Heap r → (ℕ → Status) → Heap r
marked h st = record h { nodes = λ j. with_status (h.nodes j) (st j) }

-- A node that no rule can refuse to judge.
abbrev pub can_judge : Rule → Bool
can_judge sign_threshold = true
can_judge sign_akset = true
can_judge _ = false

abbrev pub model_is_sound : {r : Float64} → Option (Model r) → Bool
model_is_sound none = false
model_is_sound (some m) = can_judge m.rule

abbrev pub acl_is_sound : {r : Float64} → Option (Acl r) → Bool
acl_is_sound none = true
acl_is_sound (some acl) = model_is_sound acl.pm

abbrev pub sound_as : {r : Float64} → NameKind → Option (Acl r) → Bool
sound_as invalid acl = false
sound_as ak acl = true
sound_as account acl = acl_is_sound acl

-- The name is not empty, and what counts as an account has no list, or a list with a rule that is
-- implemented.
abbrev pub is_sound : {r : Float64} → Bool → PermNode r → Bool
is_sound top n = sound_as (kind_at top (is_account n.name)) n.acl

by_rule_says :
    (r : Float64) (k : Rule) (acl : Acl r) (m : Model r) (ss : List Signer)
    → can_judge k ≡ true
    → (b : Bool) × (by_rule r k acl m ss ≡ said b)
unfolding by_rule
by_rule_says r sign_threshold acl m ss h = (_, refl)
by_rule_says r sign_akset acl m ss h = (_, refl)
by_rule_says r null acl m ss h = absurd (ground arith)
by_rule_says r sign_rate acl m ss h = absurd (ground arith)
by_rule_says r sign_sum acl m ss h = absurd (ground arith)
by_rule_says r ca_server acl m ss h = absurd (ground arith)
by_rule_says r community_vote acl m ss h = absurd (ground arith)

model_says :
    (r : Float64) (acl : Acl r) (o : Option (Model r)) (ss : List Signer)
    → model_is_sound o ≡ true
    → (b : Bool) × (check_model r acl o ss ≡ said b)
model_says r acl none ss h = absurd (ground arith)
model_says r acl (some m) ss h = by_rule_says r m.rule acl m ss h

kind_says :
    (r : Float64) (k : NameKind) (o : Option (Acl r)) (ss : List Signer)
    → sound_as k o ≡ true
    → (b : Bool) × (check_kind r k o ss ≡ said b)
kind_says r invalid o ss h = absurd (ground arith)
kind_says r ak o ss h = (true, refl)
kind_says r account none ss h = (true, refl)
kind_says r account (some acl) ss h = model_says r acl acl.pm ss h

pub check_says :
    {r : Float64} (top : Bool) (n : PermNode r) (ss : List Signer)
    → is_sound top n ≡ true
    → (b : Bool) × (check_node top n ss ≡ said b)
unfolding check_node
check_says {r} top n ss h = kind_says r (kind_at top (is_account n.name)) n.acl ss h

pub signers-marked :
    {r : Float64} (h : Heap r) (st st' : ℕ → Status) (cs : List ℕ)
    → ((c : ℕ) → contains c cs ≡ true → st c ≡ st' c)
    → signers (marked h st) cs ≡ signers (marked h st') cs
signers-marked h st st' [] f = refl
signers-marked h st st' (c ∷ cs) f =
    let same = f c (ground arith) in
    let rest = signers-marked h st st' cs (λ x hx. f x (ground arith)) in
    elim (Option-cases (h.nodes c)) [ inl e ↦ ground arith | inr (n, e) ↦ ground arith ]

-- The statuses with one of them set.
abbrev pub set_at : ℕ → Bool → (ℕ → Status) → ℕ → Status
set_at i b st j = if i == j then status_of b else st j

pub verify_at :
    {r : Float64} (h : Heap r) (top : Bool) (i : ℕ) (n : PermNode r)
    → h.nodes i ≡ some n
    → verify_node top i h ≡ set_status i n h (check_node top n (signers h n.children))
unfolding verify_node
verify_at h top i n e = rw (e, verify_node) refl

write-marked :
    {r : Float64} (h : Heap r) (st : ℕ → Status) (i : ℕ) (n : PermNode r) (b : Bool)
    → h.nodes i ≡ some n
    → write i (record n { status = status_of b }) (marked h st) ≡ marked h (set_at i b st)
write-marked {r} h st i n b e =
    ap (λ f. record { nodes = f; next = h.next }) (fun_ext (λ j. at j (i == j) refl))
  where
    at :
        (j : ℕ) (k : Bool)
        → (i == j) ≡ k
        → (if k then some (record n { status = status_of b }) else with_status (h.nodes j) (st j))
          ≡ with_status (h.nodes j) (if k then status_of b else st j)
    at j true same =
        let e' : h.nodes j ≡ some n = ap h.nodes (sym ((==_iff i j).0 same)) ∙ e in
        ap (λ z. with_status z (status_of b)) (sym e')
    at j false other = refl

pub verify_marked :
    {r : Float64} (h : Heap r) (st : ℕ → Status) (top : Bool) (i : ℕ) (n : PermNode r) (b : Bool)
    → h.nodes i ≡ some n
    → check_node top n (signers (marked h st) n.children) ≡ said b
    → verify_node top i (marked h st) ≡ good (marked h (set_at i b st))
unfolding check_node
verify_marked h st top i n b e run =
    verify_at (marked h st) top i (record n { status = st i }) (ap (λ z. with_status z (st i)) e)
    ∙ ap (set_status i (record n { status = st i }) (marked h st)) run
    ∙ ap good (write-marked h st i n b e)

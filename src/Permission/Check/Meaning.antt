-- ===== src/Permission/Check/Meaning.antt =====
-- What it means for a node of the tree to pass, stated apart from the code of the rules.
use corechain.Permission.Check.{
  by_rule, check_account, check_kind, check_model, check_node, kind_at, said,
}
use corechain.Permission.Names.{Name, NameKind, account, ak, invalid, is_account, same_name}
use corechain.Permission.Rules.{
  Acl, Float64, Model, Rule, Signer, Status, all_signed, ca_server, community_vote, entries, failed,
  find_ak, find_weight_in_acl, has_signed, is_success, not_verified, null, sets_in, sign_akset,
  sign_rate, sign_sum, sign_threshold, some_set, success, validate_ak_set, validate_ak_sets,
  validate_threshold, weight_of, weight_sum,
}
use corechain.Permission.Trees.{PermNode}
use corechain.Prelude.{
  All, Bool, Bool-cases, List, Option, [], ap, arith, false, inl, inr, none, refl, some, sym, true,
  ◌↔◌, ◌∙◌, ◌∷◌, ◌≡◌, ◌≢◌, ◌⊎◌,
}

-- The weights of those who signed, in the order of the children, and their sum.
abbrev pub signed_weights : (r : Float64) → List (Name × r.F) → List Signer → List r.F
signed_weights r ws [] = []
signed_weights r ws ((n, not_verified) ∷ ss) = signed_weights r ws ss
signed_weights r ws ((n, failed) ∷ ss) = signed_weights r ws ss
signed_weights r ws ((n, success) ∷ ss) = weight_of r n ws ∷ signed_weights r ws ss

abbrev pub total : (r : Float64) → r.F → List r.F → r.F
total r t [] = t
total r t (w ∷ ws) = total r (r.plus t w) ws

-- The first child with the name has signed.
abbrev pub Signed : Name → List Signer → Type 0
Signed a [] = ⊥
Signed a ((n, st) ∷ ss) =
    ((same_name n a ≡ true) × (st ≡ success)) ⊎ ((same_name n a ≡ false) × Signed a ss)

-- All of some set have signed; an empty set does not count.
abbrev pub SomeSigned : List (List Name) → List Signer → Type 0
SomeSigned [] ss = ⊥
SomeSigned (set ∷ sets) ss = ((set ≢ []) × All (λ a. Signed a ss) set) ⊎ SomeSigned sets ss

abbrev pub Accepts : (r : Float64) → Rule → Acl r → Model r → List Signer → Type 0
Accepts r sign_threshold acl m ss =
    r.at_least (total r r.zero_weight (signed_weights r (entries acl.aks_weight) ss)) m.accept_value
    ≡ true
Accepts r sign_akset acl m ss = SomeSigned (sets_in acl.ak_sets) ss
Accepts r _ acl m ss = ⊥

abbrev pub ModelAccepts : (r : Float64) → Acl r → Option (Model r) → List Signer → Type 0
ModelAccepts r acl none ss = ⊥
ModelAccepts r acl (some m) ss = Accepts r m.rule acl m ss

-- An account without an access control list passes.
abbrev pub AccountPasses : (r : Float64) → Option (Acl r) → List Signer → Type 0
AccountPasses r none ss = Unit {0}
AccountPasses r (some acl) ss = ModelAccepts r acl acl.pm ss

-- The name of a key passes, but for the root of a method's tree, which is judged as an account.
abbrev pub KindPasses : (r : Float64) → Bool → NameKind → Option (Acl r) → List Signer → Type 0
KindPasses r top invalid acl ss = ⊥
KindPasses r true ak acl ss = AccountPasses r acl ss
KindPasses r false ak acl ss = Unit {0}
KindPasses r top account acl ss = AccountPasses r acl ss

abbrev pub Passes : {r : Float64} → Bool → PermNode r → List Signer → Type 0
Passes {r} top n ss = KindPasses r top (is_account n.name) n.acl ss

weight-total :
    (r : Float64) (acl : Acl r) (m : Model r) (t : r.F) (ss : List Signer)
    → acl.pm ≡ some m
    → weight_sum r acl t ss ≡ total r t (signed_weights r (entries acl.aks_weight) ss)
unfolding weight_sum find_weight_in_acl
weight-total r acl m t [] e = refl
weight-total r acl m t ((n, not_verified) ∷ ss) e = weight-total r acl m t ss e
weight-total r acl m t ((n, failed) ∷ ss) e = weight-total r acl m t ss e
weight-total r acl m t ((n, success) ∷ ss) e =
    let own : find_weight_in_acl r n (some acl) ≡ weight_of r n (entries acl.aks_weight) =
      rw e refl in
    ap (λ w. weight_sum r acl (r.plus t w) ss) own
    ∙ weight-total r acl m (r.plus t (weight_of r n (entries acl.aks_weight))) ss e

success_of : (st : Status) → is_success st ≡ true → st ≡ success
success_of not_verified h = absurd (ground arith)
success_of success h = refl
success_of failed h = absurd (ground arith)

signed_lem : (a : Name) (ss : List Signer) → (has_signed (find_ak a ss) ≡ true) ↔ Signed a ss
signed_lem a [] = (λ h. ground arith, λ h. absurd h)
signed_lem a ((n, st) ∷ ss) =
    let (to, from) = signed_lem a ss in
    (
      λ h. elim (Bool-cases (same_name n a)) [
        | inl e ↦ inl (e, success_of st (ground arith))
        | inr e ↦ inr (e, to (ground arith))
      ],
      λ x. elim x [ inl (e, is) ↦ rw (e, is) refl | inr (e, later) ↦ rw e (from later) ],
    )

all_signed_lem :
    (set : List Name) (ss : List Signer) → (all_signed set ss ≡ true) ↔ All (λ a. Signed a ss) set
unfolding all_signed
all_signed_lem [] ss = (λ h. tt, λ h. refl)
all_signed_lem (a ∷ set) ss =
    let (to, from) = signed_lem a ss in
    let (to_all, from_all) = all_signed_lem set ss in
    (
      λ h. (to (ground arith), to_all (ground arith)),
      λ (h, hs). ground (arith, from h, from_all hs),
    )

set_lem :
    (set : List Name) (ss : List Signer)
    → (validate_ak_set set ss ≡ true) ↔ ((set ≢ []) × All (λ a. Signed a ss) set)
unfolding validate_ak_set
set_lem [] ss = (λ h. absurd (ground arith), λ (h, hs). absurd (h refl))
set_lem (a ∷ set) [] = (λ h. absurd (ground arith), λ (h, (x, hs)). absurd x)
set_lem (a ∷ set) (s ∷ ss) =
    let (to, from) = all_signed_lem (a ∷ set) (s ∷ ss) in
    (λ h. (λ e. ground arith, to h), λ (h, hs). from hs)

sets_lem :
    (sets : List (List Name)) (ss : List Signer) → (some_set sets ss ≡ true) ↔ SomeSigned sets ss
unfolding some_set
sets_lem [] ss = (λ h. ground arith, λ h. absurd h)
sets_lem (set ∷ sets) ss =
    let (to, from) = set_lem set ss in
    let (to_rest, from_rest) = sets_lem sets ss in
    (
      λ h. elim (Bool-cases (validate_ak_set set ss)) [
        | inl e ↦ inl (to e)
        | inr e ↦ inr (to_rest (ground arith))
      ],
      λ x. elim x [ inl y ↦ ground (arith, from y) | inr y ↦ ground (arith, from_rest y) ],
    )

said-inj : (a b : Bool) → said a ≡ said b → a ≡ b
said-inj a b e = ground arith

-- A verdict that agrees with a test.
by_test : (t b : Bool) (P : Type 0) → said t ≡ said b → (t ≡ true) ↔ P → (b ≡ true) ↔ P
by_test t b P e (to, from) =
    let same = said-inj t b e in (λ h. to (same ∙ h), λ x. sym same ∙ from x)

rule_lem :
    (r : Float64) (k : Rule) (acl : Acl r) (m : Model r) (ss : List Signer) (b : Bool)
    → acl.pm ≡ some m
    → by_rule r k acl m ss ≡ said b
    → (b ≡ true) ↔ Accepts r k acl m ss
unfolding by_rule validate_threshold validate_ak_sets
rule_lem r sign_threshold acl m ss b e h =
    let same = ap (λ t. r.at_least t m.accept_value) (weight-total r acl m r.zero_weight ss e) in
    by_test _ b (Accepts r sign_threshold acl m ss) h (λ x. sym same ∙ x, λ x. same ∙ x)
rule_lem r sign_akset acl m ss b e h =
    by_test _ b (SomeSigned (sets_in acl.ak_sets) ss) h (sets_lem (sets_in acl.ak_sets) ss)
rule_lem r null acl m ss b e h = absurd (ground arith)
rule_lem r sign_rate acl m ss b e h = absurd (ground arith)
rule_lem r sign_sum acl m ss b e h = absurd (ground arith)
rule_lem r ca_server acl m ss b e h = absurd (ground arith)
rule_lem r community_vote acl m ss b e h = absurd (ground arith)

model_lem :
    (r : Float64) (acl : Acl r) (o : Option (Model r)) (ss : List Signer) (b : Bool)
    → acl.pm ≡ o
    → check_model r acl o ss ≡ said b
    → (b ≡ true) ↔ ModelAccepts r acl o ss
model_lem r acl none ss b e h = absurd (ground arith)
model_lem r acl (some m) ss b e h = rule_lem r m.rule acl m ss b e h

account_lem :
    (r : Float64) (acl : Option (Acl r)) (ss : List Signer) (b : Bool)
    → check_account r acl ss ≡ said b
    → (b ≡ true) ↔ AccountPasses r acl ss
account_lem r none ss b h = (λ x. tt, λ x. sym (said-inj true b h))
account_lem r (some acl) ss b h = model_lem r acl acl.pm ss b refl h

kind_lem :
    (r : Float64) (top : Bool) (k : NameKind) (acl : Option (Acl r)) (ss : List Signer) (b : Bool)
    → check_kind r (kind_at top k) acl ss ≡ said b
    → (b ≡ true) ↔ KindPasses r top k acl ss
kind_lem r true invalid acl ss b h = absurd (ground arith)
kind_lem r false invalid acl ss b h = absurd (ground arith)
kind_lem r true ak acl ss b h = account_lem r acl ss b h
kind_lem r false ak acl ss b h = (λ x. tt, λ x. sym (said-inj true b h))
kind_lem r true account acl ss b h = account_lem r acl ss b h
kind_lem r false account acl ss b h = account_lem r acl ss b h

-- The verdict on a node is that it passes just if it does.
pub check_node-Passes :
    {r : Float64} (top : Bool) (n : PermNode r) (ss : List Signer) (b : Bool)
    → check_node top n ss ≡ said b
    → (b ≡ true) ↔ Passes top n ss
unfolding check_node
check_node-Passes {r} top n ss b h = kind_lem r top (is_account n.name) n.acl ss b h

-- ===== src/Permission/Accounts/Reflection.antt =====
-- The table of keys mirrors the access control lists of the accounts.
use corechain.Permission.Names.{Name, same_name, same_name→eq}
use corechain.Permission.Rules.{Acl, Float64, Rule, null, sign_akset, sign_threshold}
use corechain.Permission.Accounts.{
  Buckets, aks_of, del_all, del_pair, get_acl, has_pair, named_by, put_acl, put_all, rule_of,
  same_pair, valid_acl, valid_for,
}
use corechain.Prelude.{
  Bool, Bool-cases, List, Option, [], ap, arith, false, if◌then◌else◌, inl, inr, none, not, refl,
  some, true, ◌&&◌, ◌||◌, ◌∷◌, ◌≡◌,
}

same_left : (x y z : Name) → same_name x y ≡ true → same_name x z ≡ same_name y z
same_left x y z h = ap (λ w. same_name w z) (same_name→eq x y h)

same_right : (x y z : Name) → same_name y z ≡ true → same_name x y ≡ same_name x z
same_right x y z h = ap (same_name x) (same_name→eq y z h)

pair_left : (x y z : Name × Name) → same_pair x y ≡ true → same_pair x z ≡ same_pair y z
pair_left (a, b) (c, d) (e, f) h =
    let l = same_left a c e (ground arith) in
    let r = same_left b d f (ground arith) in rw (l, r) refl

pair_right : (x y z : Name × Name) → same_pair y z ≡ true → same_pair x y ≡ same_pair x z
pair_right (a, b) (c, d) (e, f) h =
    let l = same_right a c e (ground arith) in
    let r = same_right b d f (ground arith) in rw (l, r) refl

has-del_pair :
    (x y : Name × Name) (t : List (Name × Name))
    → has_pair x (del_pair y t) ≡ (if same_pair y x then false else has_pair x t)
has-del_pair x y [] = ground arith
has-del_pair x y (k ∷ t) = elim (Bool-cases (same_pair k y)) [
  | inl e ↦ ground (arith, has-del_pair x y t, pair_left k y x e)
  | inr e ↦ ground (arith, has-del_pair x y t, pair_right k y x)
]

abbrev pub has_name : Name → List Name → Bool
has_name a [] = false
has_name a (x ∷ xs) = same_name x a || has_name a xs

pub has-put_all :
    (a o owner : Name) (aks : List Name) (t : List (Name × Name))
    → has_pair (a, o) (put_all aks owner t)
      ≡ (if same_name owner o then has_name a aks || has_pair (a, o) t else has_pair (a, o) t)
unfolding put_all
has-put_all a o owner [] t = ground arith
has-put_all a o owner (x ∷ aks) t = ground (
  arith,
  has-put_all a o owner aks ((x, owner) ∷ del_pair (x, owner) t),
  has-del_pair (a, o) (x, owner) t,
)

pub has-del_all :
    (a o owner : Name) (aks : List Name) (t : List (Name × Name))
    → has_pair (a, o) (del_all aks owner t)
      ≡ (if same_name owner o then not (has_name a aks) && has_pair (a, o) t else has_pair (a, o) t)
unfolding del_all
has-del_all a o owner [] t = ground arith
has-del_all a o owner (x ∷ aks) t =
    ground
      (arith, has-del_all a o owner aks (del_pair (x, owner) t), has-del_pair (a, o) (x, owner) t)

pub get-put :
    {r : Float64} (n m : Name) (acl : Acl r) (xs : List (Name × Acl r))
    → get_acl m (put_acl n acl xs) ≡ (if same_name n m then some acl else get_acl m xs)
get-put n m acl [] = refl
get-put n m acl ((k, old) ∷ xs) = elim (Bool-cases (same_name k n)) [
  | inl e ↦ ground (arith, same_left k n m e)
  | inr e ↦ ground (arith, get-put n m acl xs, same_right k n m)
]

-- Whether the list stored for the account names the key.
abbrev pub in_list : Name → Option (List Name) → Bool
in_list a none = false
in_list a (some aks) = has_name a aks

abbrev pub named_in : {r : Float64} → Name → Option (Acl r) → Bool
named_in a none = false
named_in a (some acl) = in_list a (aks_of acl)

-- The table has just the pairs of a key and an account whose list names the key.
abbrev pub Mirrors : {r : Float64} → Buckets r → Type 0
Mirrors s = (a o : Name) → has_pair (a, o) s.ak2account ≡ named_in a (get_acl o s.accounts)

pub valid_names :
    {r : Float64} (acl : Acl r) → valid_acl acl ≡ true → (aks : List Name) × (aks_of acl ≡ some aks)
unfolding valid_acl
valid_names acl h = by_rule (rule_of acl.pm) (ground arith)
  where
    by_rule : (k : Rule) → valid_for k acl ≡ true → (aks : List Name) × (named_by k acl ≡ some aks)
    by_rule sign_threshold h = (_, refl)
    by_rule sign_akset h = (_, refl)
    by_rule null h = absurd (ground arith)
    by_rule _ h = absurd (ground arith)

-- ===== src/Permission/Rules.antt =====
-- permission/rule/validator*.go: the rules by which an account accepts its signers. The weights are
-- floating-point numbers, a parameter with an addition and a comparison.
use corechain.Permission.Names.{Name, same_name}
use corechain.Prelude.{
  Bool, List, Option, [], false, if◌then◌else◌, none, some, true, ◌&&◌, ◌||◌, ◌∷◌,
}

-- What the code uses of `float64`.
pub record Float64 : Type 1 where
  pub F : Type 0
  pub zero_weight : F
  pub plus : F → F → F
  pub at_least : F → F → Bool

-- `PermissionRule`
pub data Rule : Type 0 where
  null sign_threshold sign_akset sign_rate sign_sum ca_server community_vote : Rule

module _ (r : Float64) where
  -- `PermissionModel`
  pub record Model : Type 0 where
    pub rule : Rule
    pub accept_value : r.F

  -- `Acl`, with its maps as lists. A map may be nil, and so may the sets and the map in them.
  pub record Acl : Type 0 where
    pub pm : Option Model
    pub aks_weight : Option (List (Name × r.F))
    pub ak_sets : Option (Option (List (List Name)))

-- `ValidateStatus`
pub data Status : Type 0 where
  not_verified success failed : Status

abbrev pub is_success : Status → Bool
is_success not_verified = false
is_success success = true
is_success failed = false

-- What a rule sees of a child: its name and its status.
abbrev pub Signer : Type 0
Signer = Name × Status

-- A nil map has no entries.
abbrev pub entries {ℓ} : {A : Type ℓ} → Option (List A) → List A
entries none = []
entries (some xs) = xs

abbrev pub sets_in : Option (Option (List (List Name))) → List (List Name)
sets_in none = []
sets_in (some sets) = entries sets

abbrev pub weight_of : (r : Float64) → Name → List (Name × r.F) → r.F
weight_of r name [] = r.zero_weight
weight_of r name ((n, w) ∷ ws) = if same_name n name then w else weight_of r name ws

-- `findWeightInACL`
unfoldable pub find_weight_in_acl : (r : Float64) → Name → Option (Acl r) → r.F
find_weight_in_acl r name none = r.zero_weight
find_weight_in_acl r name (some acl) = elim acl.pm [
  | none ↦ r.zero_weight
  | some m ↦ weight_of r name (entries acl.aks_weight)
]

unfoldable pub weight_sum : (r : Float64) → Acl r → r.F → List Signer → r.F
weight_sum r acl total [] = total
weight_sum r acl total ((name, st) ∷ ss) =
    weight_sum r acl
      (if is_success st then r.plus total (find_weight_in_acl r name (some acl)) else total) ss

-- `ThresholdValidator.Validate`
unfoldable pub validate_threshold : (r : Float64) → Acl r → Model r → List Signer → Bool
validate_threshold r acl m ss = r.at_least (weight_sum r acl r.zero_weight ss) m.accept_value

-- `findAkInNodeList`
abbrev pub find_ak : Name → List Signer → Option Status
find_ak name [] = none
find_ak name ((n, st) ∷ ss) = if same_name n name then some st else find_ak name ss

abbrev pub has_signed : Option Status → Bool
has_signed none = false
has_signed (some st) = is_success st

unfoldable pub all_signed : List Name → List Signer → Bool
all_signed [] ss = true
all_signed (a ∷ aks) ss = has_signed (find_ak a ss) && all_signed aks ss

-- `validateAkSet`
unfoldable pub validate_ak_set : List Name → List Signer → Bool
validate_ak_set [] ss = false
validate_ak_set (a ∷ aks) [] = false
validate_ak_set (a ∷ aks) (s ∷ ss) = all_signed (a ∷ aks) (s ∷ ss)

unfoldable pub some_set : List (List Name) → List Signer → Bool
some_set [] ss = false
some_set (set ∷ sets) ss = validate_ak_set set ss || some_set sets ss

-- `AKSetsValidator.Validate` for an access control list that is there.
unfoldable pub validate_ak_sets : Option (Option (List (List Name))) → List Signer → Bool
validate_ak_sets sets ss = some_set (sets_in sets) ss

-- ===== src/Permission/Accounts.antt =====
-- permission/contract.go and account.go: the kernel contract that keeps the access control lists, and
-- for every key the accounts that name it. A list is stored as it is parsed. An entry of the table of
-- keys is the pair of key and account, since the code joins them at the last byte 1 of its key.
pub mod Reflection
pub mod Mirror
mod Examples
use corechain.Permission.Names.{Name, same_name, valid_raw_account}
use corechain.Permission.Rules.{
  Acl, Float64, Model, Rule, entries, null, sets_in, sign_akset, sign_threshold,
}
use corechain.Prelude.{
  Bool, List, Option, [], false, if◌then◌else◌, leb, length, none, not, some, true, ℕ, ◌&&◌, ◌++◌,
  ◌||◌, ◌∷◌,
}
use corechain.Prelude.Int.{ltb_ℤ, pos, quot_ℤ, ℤ}

-- The buckets.
pub record Buckets (r : Float64) : Type 0 where
  pub accounts : List (Name × Acl r)
  pub methods : List ((Name × Name) × Acl r)
  pub ak2account : List (Name × Name)

pub data Denied : Type 0 where
  gas_not_enough bad_acl no_account_name bad_account_name no_bcname : Denied
  account_exists not_found no_method no_model : Denied

-- A method returns an error or the fee it used.
pub data Reply : Type 0 where
  used : ℤ → Reply
  denied : Denied → Reply

abbrev pub same_pair : Name × Name → Name × Name → Bool
same_pair (a, b) (c, d) = same_name a c && same_name b d

abbrev pub get_acl : {r : Float64} → Name → List (Name × Acl r) → Option (Acl r)
get_acl name [] = none
get_acl name ((n, acl) ∷ rest) = if same_name n name then some acl else get_acl name rest

abbrev pub put_acl : {r : Float64} → Name → Acl r → List (Name × Acl r) → List (Name × Acl r)
put_acl name acl [] = (name, acl) ∷ []
put_acl name acl ((n, old) ∷ rest) =
    if same_name n name then (n, acl) ∷ rest else (n, old) ∷ put_acl name acl rest

abbrev pub put_method :
    {r : Float64}
    → Name × Name
    → Acl r
    → List ((Name × Name) × Acl r)
    → List ((Name × Name) × Acl r)
put_method key acl [] = (key, acl) ∷ []
put_method key acl ((k, old) ∷ ms) =
    if same_pair k key then (k, acl) ∷ ms else (k, old) ∷ put_method key acl ms

abbrev pub has_pair : Name × Name → List (Name × Name) → Bool
has_pair key [] = false
has_pair key (k ∷ ks) = same_pair k key || has_pair key ks

abbrev pub del_pair : Name × Name → List (Name × Name) → List (Name × Name)
del_pair key [] = []
del_pair key (k ∷ ks) = if same_pair k key then del_pair key ks else k ∷ del_pair key ks

abbrev pub keys_of {ℓ} : {A : Type ℓ} → List (Name × A) → List Name
keys_of [] = []
keys_of ((n, w) ∷ ws) = n ∷ keys_of ws

abbrev pub joined : List (List Name) → List Name
joined [] = []
joined (set ∷ sets) = set ++ joined sets

-- The keys that `update` goes through, for the rule of a list.
abbrev pub named_by : {r : Float64} → Rule → Acl r → Option (List Name)
named_by sign_threshold acl = some (keys_of (entries acl.aks_weight))
named_by sign_akset acl = some (joined (sets_in acl.ak_sets))
named_by _ acl = none

-- `acl.GetPm().GetRule()`
abbrev pub rule_of : {r : Float64} → Option (Model r) → Rule
rule_of none = null
rule_of (some m) = m.rule

abbrev pub aks_of : {r : Float64} → Acl r → Option (List Name)
aks_of acl = named_by (rule_of acl.pm) acl

-- `updateForThreshold` and `updateForAKSet` with `Del`, and with `Put`.
unfoldable pub del_all : List Name → Name → List (Name × Name) → List (Name × Name)
del_all [] owner t = t
del_all (a ∷ aks) owner t = del_all aks owner (del_pair (a, owner) t)

unfoldable pub put_all : List Name → Name → List (Name × Name) → List (Name × Name)
put_all [] owner t = t
put_all (a ∷ aks) owner t = put_all aks owner ((a, owner) ∷ del_pair (a, owner) t)

-- `UpdateAK2AccountReflection`, with the old list if there is one.
unfoldable pub update_reflection :
    {r : Float64} → Option (Acl r) → Acl r → Name → List (Name × Name) → Option (List (Name × Name))
update_reflection none new owner t = elim (aks_of new) [
  | none ↦ none
  | some aks ↦ some (put_all aks owner t)
]
update_reflection (some old) new owner t = elim (aks_of old) [
  | none ↦ none
  | some gone ↦ elim (aks_of new) [
    | none ↦ none
    | some aks ↦ some (put_all aks owner (del_all gone owner t))
  ]
]

abbrev pub ak_limit : ℕ
ak_limit = 1024

-- A map that is not nil and not too long.
abbrev pub is_short {ℓ} : {A : Type ℓ} → Option (List A) → Bool
is_short none = false
is_short (some xs) = leb (length xs) ak_limit

abbrev pub short_sets : Option (Option (List (List Name))) → Bool
short_sets none = false
short_sets (some sets) = is_short sets

abbrev pub is_nil {ℓ} : {A : Type ℓ} → Option A → Bool
is_nil none = true
is_nil (some a) = false

-- The checks of `validACL` for a rule.
abbrev pub valid_for : {r : Float64} → Rule → Acl r → Bool
valid_for sign_threshold acl = is_short acl.aks_weight
valid_for sign_akset acl = short_sets acl.ak_sets
valid_for _ acl = false

-- `validACL`
unfoldable pub valid_acl : {r : Float64} → Acl r → Bool
valid_acl acl =
    not (is_nil acl.pm)
    && (not (is_nil acl.ak_sets && is_nil acl.aks_weight) && valid_for (rule_of acl.pm) acl)

-- `KernMethod`, and the arguments and the limit of a call; a list that cannot be parsed is `none`.
pub record Call (r : Float64) : Type 0 where
  pub bcname : Name
  pub new_account_resource_amount : ℤ
  pub xfee_limit : ℤ
  pub account_name : Option Name
  pub contract_name : Option Name
  pub method_name : Option Name
  pub acl : Option (Acl r)

-- `MakeAccountKey`: `XC`, the number, `@` and the name of the chain.
abbrev pub make_account_key : Name → Name → Name
make_account_key bcname name = 88 ∷ 67 ∷ name ++ 64 ∷ bcname

abbrev pub is_nil_name : Name → Bool
is_nil_name [] = true
is_nil_name (c ∷ cs) = false

abbrev pub small_fee : {r : Float64} → Call r → ℤ
small_fee c = quot_ℤ c.new_account_resource_amount (pos 1000)

-- The end of `NewAccount`: the new list goes into both buckets.
unfoldable pub open_account : {r : Float64} → Call r → Name → Acl r → Buckets r → Reply × Buckets r
open_account c owner acl s = elim (get_acl owner s.accounts) [
  | some old ↦ (denied account_exists, s)
  | none ↦
      let s1 = record s { accounts = put_acl owner acl s.accounts } in
      elim (update_reflection none acl owner s1.ak2account) [
        | none ↦ (denied no_model, s1)
        | some t ↦ (used c.new_account_resource_amount, record s1 { ak2account = t })
      ]
]

-- `NewAccount`, once the list is parsed.
unfoldable pub check_account_name :
    {r : Float64} → Call r → Option Name → Acl r → Buckets r → Reply × Buckets r
check_account_name c none acl s = (denied no_account_name, s)
check_account_name c (some name) acl s =
    if not (valid_raw_account name)
    then (denied bad_account_name, s)
    else (if is_nil_name c.bcname
        then (denied no_bcname, s)
        else (if not (valid_acl acl)
            then (denied bad_acl, s)
            else open_account c (make_account_key c.bcname name) acl s))

unfoldable pub new_account : {r : Float64} → Call r → Buckets r → Reply × Buckets r
new_account c s =
    if ltb_ℤ c.xfee_limit c.new_account_resource_amount
    then (denied gas_not_enough, s)
    else elim c.acl [
      | none ↦ (denied bad_acl, s)
      | some acl ↦ check_account_name c c.account_name acl s
    ]

abbrev pub given_name : Option Name → Name
given_name none = []
given_name (some n) = n

-- `SetAccountACL`, once the new list is found to be valid.
unfoldable pub replace_acl : {r : Float64} → Call r → Name → Acl r → Buckets r → Reply × Buckets r
replace_acl c owner acl s = elim (get_acl owner s.accounts) [
  | none ↦ (denied not_found, s)
  | some old ↦ elim (update_reflection (some old) acl owner s.ak2account) [
    | none ↦ (denied no_model, s)
    | some t ↦
        (used (small_fee c), record s { ak2account = t; accounts = put_acl owner acl s.accounts })
  ]
]

unfoldable pub set_account_acl : {r : Float64} → Call r → Buckets r → Reply × Buckets r
set_account_acl c s =
    if ltb_ℤ c.xfee_limit (small_fee c) then (denied gas_not_enough, s) else elim c.acl [
      | none ↦ (denied bad_acl, s)
      | some acl ↦
          if not (valid_acl acl)
          then (denied bad_acl, s)
          else replace_acl c (given_name c.account_name) acl s
    ]

-- `SetMethodACL`, once both names are there.
unfoldable pub put_method_acl : {r : Float64} → Call r → Name × Name → Buckets r → Reply × Buckets r
put_method_acl c key s = elim c.acl [
  | none ↦ (denied bad_acl, s)
  | some acl ↦
      if not (valid_acl acl)
      then (denied bad_acl, s)
      else (used (small_fee c), record s { methods = put_method key acl s.methods })
]

unfoldable pub set_method_acl : {r : Float64} → Call r → Buckets r → Reply × Buckets r
set_method_acl c s =
    if ltb_ℤ c.xfee_limit (small_fee c) then (denied gas_not_enough, s) else elim c.contract_name [
      | none ↦ (denied no_method, s)
      | some contract ↦ elim c.method_name [
        | none ↦ (denied no_method, s)
        | some method ↦ put_method_acl c (contract, method) s
      ]
    ]

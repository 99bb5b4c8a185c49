-- ===== src/Permission/Accounts/Mirror.antt =====
-- Every method of the contract keeps the table of keys and the lists in step.
use corechain.Prelude.Int.{ltb_ℤ}
use corechain.Permission.Names.{Name, same_name, same_name→eq, valid_raw_account}
use corechain.Permission.Rules.{Acl, Float64}
use corechain.Permission.Accounts.{
  Buckets, Call, Reply, aks_of, bad_acl, check_account_name, del_all, denied, get_acl, given_name,
  has_pair, is_nil_name, make_account_key, new_account, open_account, put_acl, put_all, put_method,
  put_method_acl, replace_acl, set_account_acl, set_method_acl, small_fee, update_reflection, used,
  valid_acl,
}
use corechain.Permission.Accounts.Reflection.{
  Mirrors, get-put, has-del_all, has-put_all, has_name, in_list, named_in, valid_names,
}
use corechain.Prelude.{
  Bool, Bool-cases, List, Option, Option-cases, [], ap, arith, false, if◌then◌else◌, inl, inr, none,
  not, refl, some, subst, sym, true, ◌∙◌, ◌∷◌, ◌≡◌,
}

opened :
    {r : Float64} (c : Call r) (o : Name) (acl : Acl r) (aks : List Name) (s : Buckets r)
    → get_acl o s.accounts ≡ none
    → aks_of acl ≡ some aks
    → open_account c o acl s ≡ (
      used c.new_account_resource_amount,
      record s { accounts = put_acl o acl s.accounts; ak2account = put_all aks o s.ak2account },
    )
unfolding open_account update_reflection
opened c o acl aks s e e' = rw (e, open_account) (rw (e', update_reflection) refl)

open-Mirrors :
    {r : Float64} (c : Call r) (o : Name) (acl : Acl r) (s : Buckets r)
    → valid_acl acl ≡ true
    → Mirrors s
    → Mirrors ((open_account c o acl s).1)
unfolding open_account
open-Mirrors {r} c o acl s v m = elim (Option-cases (get_acl o s.accounts)) [
  | inr (old, e) ↦ rw (e, open_account) m
  | inl e ↦
      let (aks, e') = valid_names acl v in
      subst (λ x. Mirrors (x.1)) (sym (opened c o acl aks s e e')) (λ a p. mirrored a p aks e e')
]
  where
    mirrored :
        (a p : Name) (aks : List Name)
        → get_acl o s.accounts ≡ none
        → aks_of acl ≡ some aks
        → has_pair (a, p) (put_all aks o s.ak2account)
          ≡ named_in a (get_acl p (put_acl o acl s.accounts))
    mirrored a p aks e e' = elim (Bool-cases (same_name o p)) [
      | inr other ↦
          ground (arith, has-put_all a p o aks s.ak2account, get-put o p acl s.accounts, m a p)
      | inl same ↦
          let there : get_acl p s.accounts ≡ none =
            ap (λ z. get_acl z s.accounts) (sym (same_name→eq o p same)) ∙ e in
          ground (arith, has-put_all a p o aks s.ak2account, get-put o p acl s.accounts, m a p)
    ]

replaced :
    {r : Float64} (c : Call r) (o : Name) (old acl : Acl r) (gone aks : List Name) (s : Buckets r)
    → get_acl o s.accounts ≡ some old
    → aks_of old ≡ some gone
    → aks_of acl ≡ some aks
    → replace_acl c o acl s ≡ (
      used (small_fee c),
      record s {
        ak2account = put_all aks o (del_all gone o s.ak2account);
        accounts = put_acl o acl s.accounts;
      },
    )
unfolding replace_acl update_reflection
replaced c o old acl gone aks s e e1 e2 =
    rw (e, replace_acl) (rw (e1, update_reflection) (rw (e2, update_reflection) refl))

replace-Mirrors :
    {r : Float64} (c : Call r) (o : Name) (acl : Acl r) (s : Buckets r)
    → valid_acl acl ≡ true
    → Mirrors s
    → Mirrors ((replace_acl c o acl s).1)
unfolding replace_acl update_reflection
replace-Mirrors {r} c o acl s v m = elim (Option-cases (get_acl o s.accounts)) [
  | inl e ↦ rw (e, replace_acl) m
  | inr (old, e) ↦ elim (Option-cases (aks_of old)) [
    | inl e1 ↦ rw (e, replace_acl) (rw (e1, update_reflection) m)
    | inr (gone, e1) ↦
        let (aks, e2) = valid_names acl v in
        subst (λ x. Mirrors (x.1)) (sym (replaced c o old acl gone aks s e e1 e2))
          (λ a p. mirrored a p old gone aks e e1 e2)
  ]
]
  where
    mirrored :
        (a p : Name) (old : Acl r) (gone aks : List Name)
        → get_acl o s.accounts ≡ some old
        → aks_of old ≡ some gone
        → aks_of acl ≡ some aks
        → has_pair (a, p) (put_all aks o (del_all gone o s.ak2account))
          ≡ named_in a (get_acl p (put_acl o acl s.accounts))
    mirrored a p old gone aks e e1 e2 = elim (Bool-cases (same_name o p)) [
      | inr other ↦ ground (
        arith,
        has-put_all a p o aks (del_all gone o s.ak2account),
        has-del_all a p o gone s.ak2account,
        get-put o p acl s.accounts,
        m a p,
      )
      | inl same ↦
          let there : get_acl p s.accounts ≡ some old =
            ap (λ z. get_acl z s.accounts) (sym (same_name→eq o p same)) ∙ e in
          let had : has_pair (a, p) s.ak2account ≡ has_name a gone =
            m a p ∙ ap (named_in a) there ∙ ap (in_list a) e1 in
          ground (
            arith,
            has-put_all a p o aks (del_all gone o s.ak2account),
            has-del_all a p o gone s.ak2account,
            get-put o p acl s.accounts,
          )
    ]

-- A call of one of the methods.
pub data Method (r : Float64) : Type 0 where
  new_account_call set_account_acl_call set_method_acl_call : Call r → Method r

abbrev pub invoke_acl : {r : Float64} → Method r → Buckets r → Reply × Buckets r
invoke_acl (new_account_call c) s = new_account c s
invoke_acl (set_account_acl_call c) s = set_account_acl c s
invoke_acl (set_method_acl_call c) s = set_method_acl c s

abbrev pub invoke_all : {r : Float64} → List (Method r) → Buckets r → Buckets r
invoke_all [] s = s
invoke_all (m ∷ ms) s = invoke_all ms ((invoke_acl m s).1)

abbrev pub no_buckets : (r : Float64) → Buckets r
no_buckets r = record { accounts = []; methods = []; ak2account = [] }

if-Mirrors :
    {r : Float64} (b : Bool) (x y : Reply × Buckets r)
    → Mirrors (x.1)
    → (b ≡ false → Mirrors (y.1))
    → Mirrors ((if b then x else y).1)
if-Mirrors true x y p q = p
if-Mirrors false x y p q = q refl

option-Mirrors :
    {r : Float64} {A : Type 0} (o : Option A) (x : Reply × Buckets r) (f : A → Reply × Buckets r)
    → Mirrors (x.1)
    → ((a : A) → Mirrors ((f a).1))
    → Mirrors ((elim o as (λ _. Reply × Buckets r) [ none ↦ x | some a ↦ f a ]).1)
option-Mirrors none x f p q = p
option-Mirrors (some a) x f p q = q a

not-not : (b : Bool) → not b ≡ false → b ≡ true
not-not b h = ground arith

name-Mirrors :
    {r : Float64} (c : Call r) (n : Option Name) (acl : Acl r) (s : Buckets r)
    → Mirrors s
    → Mirrors ((check_account_name c n acl s).1)
unfolding check_account_name
name-Mirrors c none acl s m = m
name-Mirrors c (some name) acl s m = if-Mirrors (not (valid_raw_account name)) _ _ m (λ _.
    if-Mirrors (is_nil_name c.bcname) _ _ m (λ _.
      if-Mirrors (not (valid_acl acl)) _ _ m
        (λ v. open-Mirrors c (make_account_key c.bcname name) acl s (not-not (valid_acl acl) v) m)))

invoke-Mirrors :
    {r : Float64} (x : Method r) (s : Buckets r) → Mirrors s → Mirrors ((invoke_acl x s).1)
unfolding new_account set_account_acl set_method_acl put_method_acl
invoke-Mirrors (new_account_call c) s m =
    if-Mirrors (ltb_ℤ c.xfee_limit c.new_account_resource_amount) _ _ m (λ _.
      option-Mirrors c.acl _ (λ acl. check_account_name c c.account_name acl s) m
        (λ acl. name-Mirrors c c.account_name acl s m))
invoke-Mirrors (set_account_acl_call c) s m =
    if-Mirrors (ltb_ℤ c.xfee_limit (small_fee c)) _ _ m (λ _.
      option-Mirrors c.acl _
        (λ acl.
          if not (valid_acl acl)
          then (denied bad_acl, s)
          else replace_acl c (given_name c.account_name) acl s)
        m
        (λ acl.
          if-Mirrors (not (valid_acl acl)) _ _ m (λ v.
            replace-Mirrors c (given_name c.account_name) acl s (not-not (valid_acl acl) v) m)))
invoke-Mirrors (set_method_acl_call c) s m =
    if-Mirrors (ltb_ℤ c.xfee_limit (small_fee c)) _ _ m (λ _.
      option-Mirrors c.contract_name _ _ m (λ contract.
        option-Mirrors c.method_name _ (λ method. put_method_acl c (contract, method) s) m
          (λ method.
            option-Mirrors c.acl _
              (λ acl. if not (valid_acl acl) then (denied bad_acl, s) else (
                used (small_fee c),
                record s { methods = put_method (contract, method) acl s.methods },
              ))
              m (λ acl. if-Mirrors (not (valid_acl acl)) _ _ m (λ v. m)))))

invoke_all-Mirrors :
    {r : Float64} (ms : List (Method r)) (s : Buckets r) → Mirrors s → Mirrors (invoke_all ms s)
invoke_all-Mirrors [] s m = m
invoke_all-Mirrors (x ∷ ms) s m = invoke_all-Mirrors ms _ (invoke-Mirrors x s m)

-- After every sequence of calls of the contract's methods on empty buckets, the table of keys holds a
-- key and an account just if the access control list stored for the account names the key.
pub table_mirrors_lists :
    {r : Float64} (ms : List (Method r)) (a o : Name)
    → has_pair (a, o) (invoke_all ms (no_buckets r)).ak2account
      ≡ named_in a (get_acl o (invoke_all ms (no_buckets r)).accounts)
table_mirrors_lists {r} ms a o = invoke_all-Mirrors ms (no_buckets r) (λ b p. refl) a o

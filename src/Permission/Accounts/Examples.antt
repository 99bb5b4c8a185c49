-- ===== src/Permission/Accounts/Examples.antt =====
-- An account is opened for two keys, and then handed to a set with one of them.
use corechain.Permission.Names.{Name, valid_raw_account}
use corechain.Permission.Rules.{Acl, Float64, sign_akset, sign_threshold}
use corechain.Permission.Accounts.{
  Call, check_account_name, del_all, get_acl, has_pair, make_account_key, new_account, open_account,
  put_all, replace_acl, set_account_acl, update_reflection, valid_acl,
}
use corechain.Permission.Accounts.Reflection.{named_in}
use corechain.Permission.Accounts.Mirror.{
  Method, invoke_all, new_account_call, no_buckets, set_account_acl_call, table_mirrors_lists,
}
use corechain.Prelude.{List, [], false, leb, none, refl, some, true, ℕ, ◌+◌, ◌∷◌, ◌≡◌}
use corechain.Prelude.Int.{pos, quot_ℤ}

abbrev floats : Float64
floats = record { F = ℕ; zero_weight = 0; plus = λ a b. a + b; at_least = λ a b. leb b a }

abbrev alice : Name
alice = 97 ∷ []

abbrev bob : Name
bob = 98 ∷ []

abbrev chain : Name
chain = 120 ∷ []

abbrev number : Name
number = 49 ∷ 49 ∷ 49 ∷ 49 ∷ 49 ∷ 49 ∷ 49 ∷ 49 ∷ 49 ∷ 49 ∷ 49 ∷ 49 ∷ 49 ∷ 49 ∷ 49 ∷ 49 ∷ []

abbrev owner : Name
owner = make_account_key chain number

abbrev weighted : Acl floats
weighted = record {
  pm = some (record { rule = sign_threshold; accept_value = 2 });
  aks_weight = some ((alice, 1) ∷ (bob, 2) ∷ []);
  ak_sets = none;
}

abbrev set_of_bob : Acl floats
set_of_bob = record {
  pm = some (record { rule = sign_akset; accept_value = 0 });
  aks_weight = none;
  ak_sets = some (some ((bob ∷ []) ∷ []));
}

abbrev call : Name → Acl floats → Call floats
call name acl = record {
  bcname = chain;
  new_account_resource_amount = pos 1000;
  xfee_limit = pos 5000;
  account_name = some name;
  contract_name = none;
  method_name = none;
  acl = some acl;
}

abbrev calls : List (Method floats)
calls = new_account_call (call number weighted) ∷ set_account_acl_call (call owner set_of_bob) ∷ []

-- Bob's key still points to the account, and Alice's no longer does.
handed_over :
    (has_pair (alice, owner) (invoke_all calls (no_buckets floats)).ak2account ≡ false)
    × (has_pair (bob, owner) (invoke_all calls (no_buckets floats)).ak2account ≡ true)
unfolding new_account set_account_acl valid_acl check_account_name open_account replace_acl
    update_reflection put_all del_all valid_raw_account quot_ℤ
handed_over = (refl, refl)

table_mirrors_lists_example :
    has_pair (bob, owner) (invoke_all calls (no_buckets floats)).ak2account
    ≡ named_in bob (get_acl owner (invoke_all calls (no_buckets floats)).accounts)
table_mirrors_lists_example = table_mirrors_lists calls bob owner

-- ===== src/Permission/Names.antt =====
-- permission/base/valid.go: the names of accounts. A string is the list of its bytes.
use corechain.Prelude.{
  Bool, List, [], arith, false, if◌then◌else◌, leb, length, refl, true, ℕ, ◌&&◌, ◌==◌, ◌∷◌, ◌≡◌,
}

abbrev pub Name : Type 0
Name = List ℕ

abbrev pub same_name : Name → Name → Bool
same_name [] [] = true
same_name [] (y ∷ ys) = false
same_name (x ∷ xs) [] = false
same_name (x ∷ xs) (y ∷ ys) = x == y && same_name xs ys

pub same_name_refl : (xs : Name) → same_name xs xs ≡ true
same_name_refl [] = refl
same_name_refl (x ∷ xs) = ground (arith, same_name_refl xs)

pub same_name→eq : (xs ys : Name) → same_name xs ys ≡ true → xs ≡ ys
same_name→eq [] [] h = refl
same_name→eq [] (y ∷ ys) h = absurd (ground arith)
same_name→eq (x ∷ xs) [] h = absurd (ground arith)
same_name→eq (x ∷ xs) (y ∷ ys) h =
    let e : x ≡ y = ground arith in let es = same_name→eq xs ys (ground arith) in cc

abbrev pub account_size : ℕ
account_size = 16

-- `'0'` to `'9'`
abbrev pub is_digit : ℕ → Bool
is_digit c = leb 48 c && leb c 57

abbrev pub all_digits : Name → Bool
all_digits [] = true
all_digits (c ∷ cs) = is_digit c && all_digits cs

-- `ValidRawAccount`; its errors differ in their texts.
unfoldable pub valid_raw_account : Name → Bool
valid_raw_account name = length name == account_size && all_digits name

-- The part of a name before `'@'`.
abbrev pub before_bcname : Name → Name
before_bcname [] = []
before_bcname (c ∷ cs) = if c == 64 then [] else c ∷ before_bcname cs

-- The three results of `IsAccount`: -1, 0 and 1.
pub data NameKind : Type 0 where
  invalid ak account : NameKind

-- `IsAccount`; the prefix is `"XC"`, which the cut at `'@'` leaves in place.
unfoldable pub is_account : Name → NameKind
is_account [] = invalid
is_account (a ∷ []) = ak
is_account (a ∷ (b ∷ cs)) =
    if a == 88 && b == 67
    then (if valid_raw_account (before_bcname cs) then account else ak)
    else ak

-- ===== src/Settings/Setters.antt =====
-- The setters of eval_options.go. Parameters are the environment and the compiler of regular
-- expressions.
use policy_bot.Prelude.{ℤ}
use policy_bot.Prelude.{
  String, Bool, true, false, Option, none, some, List, [], ◌∷◌, str_eq, if◌then◌else◌, any, Attempt,
  ok, err, ◌<>◌,
}
use policy_bot.Settings.Values.{parse_bool, atoi, split_commas}

-- A setter returns whether it set the value, and the value.
abbrev pub Setting {ℓ} : Type ℓ → Type ℓ
Setting A = Bool × A

unfoldable pub is_any : List Bool → Bool
is_any bs = any (λ b. b) bs

-- A value that is read, or the one of before.
abbrev pub set_to {ℓ} : {A : Type ℓ} → Option A → A → Setting A
set_to none old = (false, old)
set_to (some new) old = (true, new)

abbrev pub read_with {ℓ} : {A : Type ℓ} → (String → Option A) → Option String → Option A
read_with read none = none
read_with read (some v) = read v

module _ (lookup_env : String → Option String) where
  unfoldable pub set_string_from_env : String → String → String → Setting String
  set_string_from_env key prefix value = set_to (lookup_env (prefix <> key)) value

  abbrev some_of {ℓ} : {A : Type ℓ} → Option A → Option (Option A)
  some_of none = none
  some_of (some a) = some (some a)

  unfoldable pub set_string_ptr_from_env : String → String → Option String → Setting (Option String)
  set_string_ptr_from_env key prefix value = set_to (some_of (lookup_env (prefix <> key))) value

  -- An empty value is an empty list, which is not nil.
  abbrev list_of : String → Option (List String)
  list_of v = some (if str_eq v "" then [] else split_commas v)

  unfoldable pub set_string_list_from_env :
      String → String → Option (List String) → Setting (Option (List String))
  set_string_list_from_env key prefix value =
      set_to (some_of (read_with list_of (lookup_env (prefix <> key)))) value

  -- The items that can be read; the others are dropped.
  abbrev add_readable {ℓ} : {A : Type ℓ} → Attempt A → List A → List A
  add_readable (ok a) items = a ∷ items
  add_readable (err e) items = items

  abbrev pub readable {ℓ} : {A : Type ℓ} → (String → Attempt A) → List String → List A
  readable read [] = []
  readable read (s ∷ ss) = add_readable (read s) (readable read ss)

  abbrev nil_if_empty {ℓ} : {A : Type ℓ} → List A → Option (List A)
  nil_if_empty [] = none
  nil_if_empty (x ∷ xs) = some (x ∷ xs)

  -- A list of which no item can be read stays nil.
  abbrev read_list {ℓ} : {A : Type ℓ} → (String → Attempt A) → String → Option (List A)
  read_list read v = if str_eq v "" then some [] else nil_if_empty (readable read (split_commas v))

  unfoldable pub set_list_from_env {ℓ} :
      {A : Type ℓ}
      → (String → Attempt A)
      → String
      → String
      → Option (List A)
      → Setting (Option (List A))
  set_list_from_env read key prefix value =
      set_to (read_with (λ v. some (read_list read v)) (lookup_env (prefix <> key))) value

  unfoldable pub set_bool_from_env : String → String → Bool → Setting Bool
  set_bool_from_env key prefix value =
      set_to (read_with parse_bool (lookup_env (prefix <> key))) value

  unfoldable pub set_bool_ptr_from_env : String → String → Option Bool → Setting (Option Bool)
  set_bool_ptr_from_env key prefix value =
      set_to (some_of (read_with parse_bool (lookup_env (prefix <> key)))) value

  unfoldable pub set_int_from_env : String → String → ℤ → Setting ℤ
  set_int_from_env key prefix value = set_to (read_with atoi (lookup_env (prefix <> key))) value

-- ===== src/Settings/Values.antt =====
-- `strconv.ParseBool`, `strconv.Atoi` and `strings.SplitSeq` on commas.
use Prim.Native.Char.{Char, code}
use policy_bot.Prelude.{ℤ, pos, negsuc, zero, suc}
use policy_bot.Prelude.{
  ℕ, ◌+◌, ◌-◌, ◌*◌, String, Bool, true, false, ◌&&◌, Option, none, some, List, [], ◌∷◌, ◌^◌, ltb,
  leb, ◌==◌, if◌then◌else◌, contains,
}

unfoldable pub parse_bool : String → Option Bool
parse_bool s =
    if contains ("1" ∷ "t" ∷ "T" ∷ "TRUE" ∷ "true" ∷ "True" ∷ []) s
    then some true
    else if contains ("0" ∷ "f" ∷ "F" ∷ "FALSE" ∷ "false" ∷ "False" ∷ []) s
    then some false
    else none

-- Digits, after a number that is read already.
read_digits : ℕ → String → Option ℕ
read_digits n String.[] = some n
read_digits n (String.◌∷◌ c s) =
    let rest = read_digits (n * 10 + (code c - 48)) s in
    if leb 48 (code c) && leb (code c) 57 then rest else none

read_number : String → Option ℕ
unfolding read_digits
read_number String.[] = none
read_number (String.◌∷◌ c s) = read_digits 0 (String.◌∷◌ c s)

-- A number of 64 bits with a sign.
in_range : Bool → Option ℕ → Option ℤ
in_range negative none = none
in_range true (some zero) = some (pos 0)
in_range true (some (suc n)) = if ltb n (2 ^ 63) then some (negsuc n) else none
in_range false (some n) = if ltb n (2 ^ 63) then some (pos n) else none

unfoldable pub atoi : String → Option ℤ
unfolding in_range read_number
atoi String.[] = none
atoi (String.◌∷◌ c s) =
    if code c == 45
    then in_range true (read_number s)
    else if code c == 43
    then in_range false (read_number s)
    else in_range false (read_number (String.◌∷◌ c s))

-- The items between commas; the text before the next comma is the first.
abbrev add_char : Char → List String → List String
add_char c [] = String.◌∷◌ c "" ∷ []
add_char c (w ∷ ws) = String.◌∷◌ c w ∷ ws

unfoldable pub split_commas : String → List String
split_commas String.[] = "" ∷ []
split_commas (String.◌∷◌ c s) =
    let rest = split_commas s in if code c == 44 then "" ∷ rest else add_char c rest

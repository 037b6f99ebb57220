-- ===== src/Prelude/Text.antt =====
-- The parts of Go's `fmt`, `strings` and `strconv` that the program's messages use.
use Prim.Native.Nat.{ℕ, zero, suc, ◌-◌, ◌/◌, ◌%◌}
use Prim.Native.Char.{Char, code}
use Prim.Native.String
use Prim.Native.String.{String, char_at}
use mathlib.Core.Bool.{Bool, true, false, ◌&&◌}
use mathlib.Core.Option.{none, some}
use mathlib.Core.List.{List, [], ◌∷◌}
use text.Mathlib.Text.{find?}
use policy_bot.Prelude.Tests.{ltb, leb, ◌==◌, if◌then◌else◌}

infixr 65 ◌<>◌
abbrev pub ◌<>◌ : String → String → String
s <> t = String.◌++◌ s t

digit : ℕ → String
digit d =
    if d == 0
    then "0"
    else if d == 1
    then "1"
    else if d == 2
    then "2"
    else if d == 3
    then "3"
    else if d == 4
    then "4"
    else if d == 5
    then "5"
    else if d == 6
    then "6"
    else if d == 7
    then "7"
    else if d == 8
    then "8"
    else "9"

show_fuel : ℕ → ℕ → String
show_fuel zero n = ""
show_fuel (suc f) n =
    let front = show_fuel f (n / 10) in if ltb n 10 then digit n else front <> digit (n % 10)

-- `%d`; `suc n` digits are more than enough.
unfoldable pub show : ℕ → String
unfolding digit show_fuel
show n = show_fuel (suc n) n

-- `%.7s`, `%.10s`: the first characters.
unfoldable pub first_chars : ℕ → String → String
first_chars zero s = ""
first_chars (suc n) String.[] = ""
first_chars (suc n) (String.◌∷◌ c s) = String.◌∷◌ c (first_chars n s)

unfoldable pub join : String → List String → String
join sep [] = ""
join sep (x ∷ []) = x
join sep (x ∷ y ∷ xs) = x <> sep <> join sep (y ∷ xs)

-- `strings.Contains`
unfoldable pub contains_text : String → String → Bool
contains_text s t = elim (find? s t) [ none ↦ false | some _ ↦ true ]

lower_char : Char → Char
lower_char c =
    if leb 65 (code c) && leb (code c) 90
    then char_at "abcdefghijklmnopqrstuvwxyz" (code c - 65)
    else c

-- `strings.ToLower`, of the ASCII letters; no other letter is changed.
unfoldable pub to_lower : String → String
unfolding lower_char
to_lower String.[] = ""
to_lower (String.◌∷◌ c s) = String.◌∷◌ (lower_char c) (to_lower s)

-- One character of `%q`: quotes, backslashes and the named control characters are escaped.
quote_char : Char → String
quote_char c =
    if code c == 34
    then "\\\""
    else if code c == 92
    then "\\\\"
    else if code c == 10
    then "\\n"
    else if code c == 13
    then "\\r"
    else if code c == 9
    then "\\t"
    else String.◌∷◌ c String.[]

quote_chars : String → String
unfolding quote_char
quote_chars String.[] = ""
quote_chars (String.◌∷◌ c s) = quote_char c <> quote_chars s

-- `%q`, for texts without other control characters and unprintable ones.
unfoldable pub quote : String → String
unfolding quote_chars
quote s = "\"" <> quote_chars s <> "\""

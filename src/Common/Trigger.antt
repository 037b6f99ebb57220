-- ===== src/Common/Trigger.antt =====
-- policy/common/trigger.go: flag sets of the event types that can change an evaluation.
pub mod Bits
pub mod Flags
pub mod Inclusion
use Prim.Native.Nat.{bit_and, bit_or}
use policy_bot.Prelude.{
  ℕ, zero, suc, ◌/◌, ◌%◌, String, Bool, true, false, List, [], ◌∷◌, ltb, ◌==◌, if◌then◌else◌, ◌<>◌,
  show,
}

-- `uint32`; only the six lowest bits are ever set, and `|` and `&` never leave the word.
abbrev pub Trigger : Type 0
Trigger = ℕ

abbrev pub trigger_static : Trigger
trigger_static = 0

abbrev pub trigger_commit : Trigger
trigger_commit = 1

abbrev pub trigger_comment : Trigger
trigger_comment = 2

abbrev pub trigger_review : Trigger
trigger_review = 4

abbrev pub trigger_label : Trigger
trigger_label = 8

abbrev pub trigger_status : Trigger
trigger_status = 16

abbrev pub trigger_pull_request : Trigger
trigger_pull_request = 32

abbrev pub trigger_all : Trigger
trigger_all = 63

-- Go's `|`.
infixl 60 ◌or◌
abbrev pub ◌or◌ : Trigger → Trigger → Trigger
t or u = bit_or t u

-- `t |= u` under a condition.
abbrev pub or_if : Bool → Trigger → Trigger → Trigger
or_if c u t = if c then t or u else t

-- `t |= x.Trigger()` for each entry.
abbrev pub or_all {ℓ} : {A : Type ℓ} → (A → Trigger) → List A → Trigger → Trigger
or_all f [] t = t
or_all f (x ∷ xs) t = or_all f xs (t or f x)

unfoldable pub matches : Trigger → Trigger → Bool
matches t flags = ltb 0 (bit_and t flags)

trigger_strings : List (Trigger × String)
trigger_strings =
    (trigger_commit, "Commit")
    ∷ (trigger_comment, "Comment")
    ∷ (trigger_review, "Review")
    ∷ (trigger_label, "Label")
    ∷ (trigger_status, "Status")
    ∷ (trigger_pull_request, "PullRequest")
    ∷ []

-- One digit of `%x`.
hex_digit : ℕ → String
hex_digit d =
    if ltb d 10
    then show d
    else if d == 10
    then "a"
    else if d == 11
    then "b"
    else if d == 12
    then "c"
    else if d == 13
    then "d"
    else if d == 14
    then "e"
    else "f"

show_hex : ℕ → ℕ → String
show_hex zero n = ""
show_hex (suc f) n =
    let front = show_hex f (n / 16) in if ltb n 16 then hex_digit n else front <> hex_digit (n % 16)

-- The loop over the names; `first` is the test `i == 0`.
flag_names : Trigger → Bool → List (Trigger × String) → String
unfolding matches
flag_names t first [] = ""
flag_names t first ((flag, name) ∷ rest) =
    let skipped = flag_names t first rest in
    let written = (if first then "=" else "|") <> name <> flag_names t false rest in
    if matches t flag then written else skipped

-- A word of 32 bits has eight hexadecimal digits.
pub string : Trigger → String
unfolding flag_names show_hex trigger_strings hex_digit show
string t =
    if t == trigger_static
    then "Trigger(0x0=Static)"
    else "Trigger(0x" <> show_hex 8 t <> flag_names t true trigger_strings <> ")"

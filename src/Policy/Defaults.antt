-- ===== src/Policy/Defaults.antt =====
-- The rules that a policy is parsed with, and the order in which their options are looked up.
use policy_bot.Prelude.{
  String, ◌≡◌, refl, sym, ap, ◌∙◌, Bool, true, false, Option, none, some, List, [], ◌∷◌, ◌++◌, map,
  Mem, Nodup, eq_iff, str_eq, if◌then◌else◌, get, put, raised, ok, err, ok-injective, ◌<>◌, quote,
}
use mathlib.Core.Logic.Or
use mathlib.Core.List.{
  mem-cons, not-mem-nil, Nodup-cons, Nodup-nil, perm_append_comm, append-nil, append_assoc,
  map-append,
}
use mathlib.Core.List.Perm
use policy_bot.Approval.Options.{OptionFields, Options, options, fields}
use policy_bot.Approval.Options.Resolution.{option_levels}
use policy_bot.Approval.Rule.{Rule}
use policy_bot.Approval.Parse.{Rules}
use policy_bot.Policy.{
  Config, GlobalOptions, Defaults, with_option_defaults, server_defaults, hardcoded_fields,
  default_approval_options, override, with_rule_defaults, exists, rules_by_name,
}

-- A level that may be missing.
abbrev pub level : Option Defaults → List OptionFields
level none = []
level (some none) = []
level (some (some o)) = fields o ∷ []

with_option_defaults-levels :
    (existing : Options) (d : Option Defaults)
    → option_levels (with_option_defaults existing d) ≡ level d ++ option_levels existing
with_option_defaults-levels existing none = refl
with_option_defaults-levels existing (some none) = refl
with_option_defaults-levels existing (some (some o)) = refl

-- The options of a parsed rule are looked up in the rule, with the server's override of edited comments,
-- then in the policy's defaults, then in the server's, then in the hardcoded ones.
pub with_rule_defaults-levels :
    (c : Config) (opts : Option GlobalOptions) (ignore : Option Bool) (r : Rule)
    → option_levels (with_rule_defaults (default_approval_options c opts) ignore r).options
      ≡ override ignore (fields r.options)
        ∷ (level c.approval_defaults ++ (level (server_defaults opts) ++ (hardcoded_fields ∷ [])))
unfolding with_rule_defaults default_approval_options
with_rule_defaults-levels c opts ignore r = ap (◌∷◌ (override ignore (fields r.options))) (
    with_option_defaults-levels
      (with_option_defaults (options hardcoded_fields) (server_defaults opts)) c.approval_defaults
    ∙ ap (λ l. level c.approval_defaults ++ l)
        (with_option_defaults-levels (options hardcoded_fields) (server_defaults opts)))

module _ (defaults : Options) (ignore : Option Bool) where
  abbrev pub entry : Rule → String × Rule
  entry r = (r.name, with_rule_defaults defaults ignore r)

  put-new : (k : String) (r : Rule) (m : Rules) → get k m ≡ none → put k r m ≡ m ++ ((k, r) ∷ [])
  put-new k r [] h = refl
  put-new k r ((j, v) ∷ m) h = by_test (str_eq j k) refl h (put-new k r m)
    where
      by_test :
          (b : Bool)
          → str_eq j k ≡ b
          → (if b then some v else get k m) ≡ none
          → (get k m ≡ none → put k r m ≡ m ++ ((k, r) ∷ []))
          → (if b then (k, r) ∷ m else (j, v) ∷ put k r m) ≡ (j, v) ∷ (m ++ ((k, r) ∷ []))
      by_test true e h hyp = cc h
      by_test false e h hyp = ap (◌∷◌ (j, v)) (hyp h)

  get-absent : (k : String) (m : Rules) → get k m ≡ none → ¬ Mem k (map (λ e. e.0) m)
  get-absent k [] h among = not-mem-nil among
  get-absent k ((j, v) ∷ m) h among = by_test (str_eq j k) refl h (get-absent k m)
    where
      by_test :
          (b : Bool)
          → str_eq j k ≡ b
          → (if b then some v else get k m) ≡ none
          → (get k m ≡ none → ¬ Mem k (map (λ e. e.0) m))
          → ⊥
      by_test true e h hyp = cc h
      by_test false e h hyp =
          Or.elim (λ x y. absurd x) (mem-cons.0 among)
            (λ same. let hit : str_eq j k ≡ true = (eq_iff j k).1 (sym same) in cc (hit, e)) (hyp h)

  abbrev keys : Rules → List String
  keys m = map (λ e. e.0) m

  not_exists : {A : Type 0} (o : Option A) → exists o ≡ false → o ≡ none
  not_exists none h = refl
  not_exists (some a) h = cc h

  keys-put-Nodup :
      (k : String) (r : Rule) (m : Rules)
      → get k m ≡ none
      → Nodup (keys m)
      → Nodup (keys (m ++ ((k, r) ∷ [])))
  keys-put-Nodup k r m h d = rw (map-append (λ e. e.0) m ((k, r) ∷ [])) (
      Perm.nodup (Perm.symm (perm_append_comm (keys m) (k ∷ [])))
        (Nodup-cons.1 (get-absent k m h, d)))

  record IsIndexed (rs : List Rule) (m out : Rules) : Type 0 where
    distinct : Nodup (keys out)
    entries : out ≡ m ++ map entry rs

  rules_by_name-IsIndexed :
      (rs : List Rule) (m out : Rules)
      → Nodup (keys m)
      → rules_by_name defaults ignore rs m ≡ ok out
      → IsIndexed rs m out
  unfolding rules_by_name
  rules_by_name-IsIndexed [] m out d h =
      rw (← ok-injective h) (record { distinct = d; entries = sym (append-nil m) })
  rules_by_name-IsIndexed (r ∷ rs) m out d h =
      by_test (exists (get r.name m)) refl h (λ k d2 h2. rules_by_name-IsIndexed rs k out d2 h2)
    where
      next : Rules
      next = put r.name (with_rule_defaults defaults ignore r) m

      by_test :
          (b : Bool)
          → exists (get r.name m) ≡ b
          → (if b
              then err (raised ("duplicate approval rule name " <> quote r.name))
              else rules_by_name defaults ignore rs next)
            ≡ ok out
          → ((k : Rules)
              → Nodup (keys k)
              → rules_by_name defaults ignore rs k ≡ ok out
              → IsIndexed rs k out)
          → IsIndexed (r ∷ rs) m out
      by_test true e h hyp = cc h
      by_test false e h hyp =
          let absent = not_exists (get r.name m) e in
          let same = put-new r.name (with_rule_defaults defaults ignore r) m absent in
          let i = hyp (m ++ (entry r ∷ [])) (keys-put-Nodup r.name _ m absent d) (rw same at h) in
          record {
            distinct = i.distinct;
            entries = i.entries ∙ append_assoc m (entry r ∷ []) (map entry rs);
          }

  -- If the rules of a configuration are accepted, then their names are distinct and each name stands for
  -- its rule, with its defaults attached and edited comments overridden.
  pub rules_by_name-distinct :
      (rs : List Rule) (out : Rules)
      → rules_by_name defaults ignore rs [] ≡ ok out
      → Nodup (map (λ r. r.name) rs)
        × (out ≡ map (λ r. (r.name, with_rule_defaults defaults ignore r)) rs)
  rules_by_name-distinct rs out h =
      let i = rules_by_name-IsIndexed rs [] out Nodup-nil h in
      (rw (names rs) (rw i.entries at i.distinct), i.entries)
    where
      names : (l : List Rule) → map (λ r. r.name) l ≡ keys (map entry l)
      names [] = refl
      names (r ∷ l) = ap (◌∷◌ r.name) (names l)

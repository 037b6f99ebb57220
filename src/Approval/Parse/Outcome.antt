-- ===== src/Approval/Parse/Outcome.antt =====
-- The values that are policies, and the requirements that they are parsed into.
use policy_bot.Prelude.{
  ℕ, suc, ◌≤◌, String, ◌≡◌, refl, ◌↔◌, ◌⊎◌, inl, inr, true, false, Option, none, some, arith,
  eq_iff, ltb, str_eq, if◌then◌else◌, Bool-cases, get, Error, raised, Attempt, ok, err, ◌>>=◌, wrap,
  >>=-eq-ok, wrap-eq-ok, ok-injective, ◌<>◌, MapOrder,
}
use policy_bot.Approval.Rule.{Rule}
use policy_bot.Approval.Requirements.{
  Requirement, Requirements, rule_requirement, or_requirement, and_requirement, no_requirements,
  and_also,
}
use policy_bot.Approval.Parse.{
  Value, text, mapping, sequence, other, Values, no_values, and_value, Entries, no_entries,
  and_entry, Rules, parse_rule, conjoin, parse_value, parse_entries, parse_conjunction,
  parse_values, undefined_rule, rule_or,
}

-- The grammar: a text names a rule, and a map with the one key `or` or `and` holds a list of values that
-- is not empty, one level deeper. No level is deeper than 10.
mutual
  pub data Reads (rules : Rules) : ℕ → Value → Requirement → Type 0 where
    reads_rule :
        {depth : ℕ} {name : String} {rule : Rule}
        → depth ≤ 10
        → get name rules ≡ some rule
        → Reads rules depth (text name) (rule_requirement rule)
    reads_or :
        {depth : ℕ} {v : Value} {vs : Values} {reqs : Requirements}
        → depth ≤ 10
        → ReadsAll rules (suc depth) (and_value v vs) reqs
        → Reads rules depth
            (mapping (and_entry "or" (sequence (and_value v vs)) no_entries))
            (or_requirement reqs)
    reads_and :
        {depth : ℕ} {v : Value} {vs : Values} {reqs : Requirements}
        → depth ≤ 10
        → ReadsAll rules (suc depth) (and_value v vs) reqs
        → Reads rules depth
            (mapping (and_entry "and" (sequence (and_value v vs)) no_entries))
            (and_requirement reqs)

  pub data ReadsAll (rules : Rules) : ℕ → Values → Requirements → Type 0 where
    reads_none : {depth : ℕ} → ReadsAll rules depth no_values no_requirements
    reads_next :
        {depth : ℕ} {v : Value} {vs : Values} {req : Requirement} {reqs : Requirements}
        → Reads rules depth v req
        → ReadsAll rules depth vs reqs
        → ReadsAll rules depth (and_value v vs) (and_also req reqs)

module _ (order : MapOrder String) (rules : Rules) where
  -- The depth test comes first.
  within :
      (depth : ℕ) (e : Error) (m : Attempt Requirement) (req : Requirement)
      → (if ltb 10 depth then err e else m) ≡ ok req
      → (depth ≤ 10) × (m ≡ ok req)
  within depth e m req h = elim (Bool-cases (ltb 10 depth)) [
    | inl deep ↦ cc (rw deep at h)
    | inr fits ↦ (ground arith, rw fits at h)
  ]

  parse_rule-Reads :
      (depth : ℕ) (name : String) (req : Requirement)
      → depth ≤ 10
      → parse_rule order rules name ≡ ok req
      → Reads rules depth (text name) req
  unfolding parse_rule
  parse_rule-Reads depth name req fits h = by_rule (get name rules) refl h
    where
      by_rule :
          (o : Option Rule)
          → get name rules ≡ o
          → rule_or (undefined_rule order rules name) o ≡ ok req
          → Reads rules depth (text name) req
      by_rule (some rule) found h = rw (← ok-injective h) (reads_rule fits found)
      by_rule none found h = cc h

  conjoin-Reads :
      (depth : ℕ) (op : String) (v : Value) (vs : Values) (reqs : Requirements) (req : Requirement)
      → depth ≤ 10
      → ReadsAll rules (suc depth) (and_value v vs) reqs
      → conjoin op reqs ≡ ok req
      → Reads rules depth (mapping (and_entry op (sequence (and_value v vs)) no_entries)) req
  unfolding conjoin
  conjoin-Reads depth op v vs reqs req fits children h = elim (Bool-cases (str_eq op "or")) [
    | inl e ↦
        let same : or_requirement reqs ≡ req = ok-injective (rw e at h) in
        rw ((eq_iff op "or").0 e, ← same) (reads_or fits children)
    | inr e ↦ by_and (Bool-cases (str_eq op "and")) (rw e at h)
  ]
    where
      by_and :
          (str_eq op "and" ≡ true) ⊎ (str_eq op "and" ≡ false)
          → (if str_eq op "and"
              then ok (and_requirement reqs)
              else err (raised ("invalid conjunction '" <> op <> "', allowed values: [or, and]")))
            ≡ ok req
          → Reads rules depth (mapping (and_entry op (sequence (and_value v vs)) no_entries)) req
      by_and (inl e) h =
          let same : and_requirement reqs ≡ req = ok-injective (rw e at h) in
          rw ((eq_iff op "and").0 e, ← same) (reads_and fits children)
      by_and (inr e) h = cc (rw e at h)

  mutual
    unfolding parse_value

    parse_value-Reads :
        (depth : ℕ) (v : Value) (req : Requirement)
        → parse_value order rules depth v ≡ ok req
        → Reads rules depth v req
    parse_value-Reads depth (text name) req h =
        let (fits, found) = within depth _ (parse_rule order rules name) req h in
        parse_rule-Reads depth name req fits found
    parse_value-Reads depth (mapping es) req h =
        let (fits, parsed) = within depth _ (parse_entries order rules depth es) req h in
        parse_entries-Reads depth es req fits parsed
    parse_value-Reads depth (sequence vs) req h =
        let (fits, e) = within depth _ (err _) req h in cc e
    parse_value-Reads depth (other t) req h = let (fits, e) = within depth _ (err _) req h in cc e

    parse_entries-Reads :
        (depth : ℕ) (es : Entries) (req : Requirement)
        → depth ≤ 10
        → parse_entries order rules depth es ≡ ok req
        → Reads rules depth (mapping es) req
    parse_entries-Reads depth no_entries req fits h = cc h
    parse_entries-Reads depth (and_entry op v no_entries) req fits h =
        parse_conjunction-Reads depth op v req fits h
    parse_entries-Reads depth (and_entry op v (and_entry k w es)) req fits h = cc h

    parse_conjunction-Reads :
        (depth : ℕ) (op : String) (v : Value) (req : Requirement)
        → depth ≤ 10
        → parse_conjunction order rules depth op v ≡ ok req
        → Reads rules depth (mapping (and_entry op v no_entries)) req
    parse_conjunction-Reads depth op (sequence no_values) req fits h = cc h
    parse_conjunction-Reads depth op (sequence (and_value v vs)) req fits h =
        let (reqs, parsed, joined) =
          >>=-eq-ok (parse_values order rules (suc depth) op (and_value v vs)) (conjoin op) h in
        conjoin-Reads depth op v vs reqs req fits
          (parse_values-Reads (suc depth) op (and_value v vs) reqs parsed) joined
    parse_conjunction-Reads depth op (text s) req fits h = cc h
    parse_conjunction-Reads depth op (mapping es) req fits h = cc h
    parse_conjunction-Reads depth op (other t) req fits h = cc h

    parse_values-Reads :
        (depth : ℕ) (op : String) (vs : Values) (reqs : Requirements)
        → parse_values order rules depth op vs ≡ ok reqs
        → ReadsAll rules depth vs reqs
    parse_values-Reads depth op no_values reqs h = rw (← ok-injective h) reads_none
    parse_values-Reads depth op (and_value v vs) reqs h =
        let more = λ (req : Requirement) (l : Requirements).
          let x : Attempt Requirements = ok (and_also req l) in x in
        let step = λ (req : Requirement). parse_values order rules depth op vs >>= more req in
        let (req, parsed, rest) = >>=-eq-ok (wrap _ (parse_value order rules depth v)) step h in
        let (l, others, same) = >>=-eq-ok (parse_values order rules depth op vs) (more req) rest in
        rw (← ok-injective same) (
          reads_next
            (parse_value-Reads depth v req (wrap-eq-ok _ (parse_value order rules depth v) parsed))
            (parse_values-Reads depth op vs l others))

  shallow : (depth : ℕ) → depth ≤ 10 → ltb 10 depth ≡ false
  shallow depth fits = ground arith

  mutual
    unfolding parse_value parse_rule conjoin

    Reads-parse_value :
        {depth : ℕ} {v : Value} {req : Requirement}
        → Reads rules depth v req
        → parse_value order rules depth v ≡ ok req
    Reads-parse_value (reads_rule {depth} fits found) = rw (shallow depth fits, found) refl
    Reads-parse_value (reads_or {depth} fits children) =
        rw (shallow depth fits, ReadsAll-parse_values "or" children) refl
    Reads-parse_value (reads_and {depth} fits children) =
        rw (shallow depth fits, ReadsAll-parse_values "and" children) refl

    ReadsAll-parse_values :
        {depth : ℕ} {vs : Values} {reqs : Requirements} (op : String)
        → ReadsAll rules depth vs reqs
        → parse_values order rules depth op vs ≡ ok reqs
    ReadsAll-parse_values op reads_none = refl
    ReadsAll-parse_values op (reads_next first rest) =
        rw (Reads-parse_value first, ReadsAll-parse_values op rest) refl

  pub parse_value-iff_Reads :
      (depth : ℕ) (v : Value) (req : Requirement)
      → (parse_value order rules depth v ≡ ok req) ↔ Reads rules depth v req
  parse_value-iff_Reads depth v req = (parse_value-Reads depth v req, Reads-parse_value)

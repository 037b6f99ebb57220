-- ===== src/Approval/Rule/Soundness.antt =====
-- A rule that evaluates to approved has what it requires.
use policy_bot.Prelude.{
  ◌≤◌, ◌<◌, String, ◌≡◌, refl, sym, ap, ◌∙◌, ◌⊎◌, inl, inr, Bool, true, false, ◌&&◌, List, [], ◌∷◌,
  map, Mem, Nodup, arith, leb, if◌then◌else◌, leb→le, Bool-cases, length, keep, All, All-zip,
  All-keep, All-of_mem, All-kept, All-under, Attempt, ok, err, ◌>>=◌, >>=-eq-ok, ok-injective,
}
use mathlib.Core.Logic.Or
use mathlib.Core.List.{
  mem-cons, mem-cons_self, mem-cons_of_mem, Mem-prop, Nodup-cons, Nodup-nil, map-append,
  Nodup-append, mem-append_left,
}
use mathlib.Core.List.Perm
use policy_bot.Pull.{Context}
use policy_bot.Common.Actors.Membership.{IsAllowed}
use policy_bot.Common.Methods.{Candidate, Orders, candidates, candidates-deduplicated}
use policy_bot.Common.Methods.Latest.{deduplicate_candidates-latest}
use policy_bot.Common.Result.{Report, report, RequiresResult, PredicateResult, approved, skipped}
use policy_bot.Predicate.{predicates}
use policy_bot.Approval.Options.{is_invalidate_on_push, is_ignore_edited_comments, get_methods}
use policy_bot.Approval.Rule.{
  Rule, Split, Preconditions, failed, unsatisfied, satisfied, preconditions, filtered_candidates,
  is_approved, is_approved_by_actors, is_approved_by_conditions, approval_report, rule_report,
  verdict_report, decided, base_report, evaluate,
}
use policy_bot.Approval.Rule.Filtering.{IsUnedited, IsFresh, IsFiltered}
use policy_bot.Approval.Rule.Partition.{filtered_candidates-IsFiltered}
use policy_bot.Approval.Rule.Approvers.{
  accepts, is_approved_by_actors-none_required, accepts_sound, Counted,
  is_approved_by_actors-Counted, MayApprove, banned_users-MayApprove,
}
use policy_bot.Approval.Rule.Conditions.{
  Holds, is_approved_by_conditions-Holds, preconditions-Holds,
}

abbrev user_of : Candidate → String
user_of c = c.user

mem-keep :
    (p : Candidate → Bool) (k : String) (cs : List Candidate)
    → Mem k (map user_of (keep p cs))
    → Mem k (map user_of cs)
mem-keep p k [] m = m
mem-keep p k (c ∷ cs) m = by_test (λ n. mem-keep p k cs n) (p c) m
  where
    by_test :
        (Mem k (map user_of (keep p cs)) → Mem k (map user_of cs))
        → (b : Bool) → Mem k (map user_of (if b then c ∷ keep p cs else keep p cs))
        → Mem k (map user_of (c ∷ cs))
    by_test later true n =
        Or.elim Mem-prop (mem-cons.0 n) (λ e. rw e mem-cons_self)
          (λ l. mem-cons_of_mem c.user (later l))
    by_test later false n = mem-cons_of_mem c.user (later n)

-- Distinct users stay distinct in a part of the candidates.
Nodup-keep :
    (p : Candidate → Bool) (cs : List Candidate)
    → Nodup (map user_of cs)
    → Nodup (map user_of (keep p cs))
Nodup-keep p [] d = d
Nodup-keep p (c ∷ cs) d =
    let (fresh, rest) = Nodup-cons.0 d in by_test (p c) fresh (Nodup-keep p cs rest)
  where
    by_test :
        (b : Bool)
        → ¬ Mem c.user (map user_of cs)
        → Nodup (map user_of (keep p cs))
        → Nodup (map user_of (if b then c ∷ keep p cs else keep p cs))
    by_test true fresh rest = Nodup-cons.1 ((λ m. fresh (mem-keep p c.user cs m)), rest)
    by_test false fresh rest = rest

pair_eq : {X : Type 0} (v : Bool × X) {b : Bool} {x : X} → v.0 ≡ b → v.1 ≡ x → v ≡ (b, x)
pair_eq v p q = λ i. (p i, q i)

module _ (orders : Orders) (r : Rule) (ctx : Context) where
  -- A candidate that counts as an approver.
  pub record IsApprover (c : Candidate) : Type 0 where
    pub found : List Candidate
    pub asked : candidates orders.candidates (get_methods r.options) ctx ≡ ok found
    pub among : Mem c found
    pub allowed : IsAllowed r.requires.actors ctx c.user
    pub permitted : MayApprove r ctx c.user
    pub unedited : is_ignore_edited_comments r.options ≡ true → IsUnedited c
    pub fresh : is_invalidate_on_push r.options ≡ true → IsFresh r ctx c

  -- What a rule requires, of the approvers that its report names.
  pub record IsEarned (rep : Report) : Type 0 where
    pub predicates_hold : All (Holds orders.keys ctx) (predicates r.predicates)
    pub conditions_hold : All (Holds orders.keys ctx) (predicates r.requires.conditions)
    pub enough : r.requires.count ≤ length rep.requires.approvers
    pub distinct : Nodup (map (λ c. c.user) rep.requires.approvers)
    pub approvers : All IsApprover rep.requires.approvers

  -- How a report comes to be approved.
  record Decision (rep : Report) : Type 0 where
    results : List PredicateResult
    split : Split
    by_predicates : preconditions orders.keys ctx (predicates r.predicates) ≡ satisfied results
    by_split : filtered_candidates orders r ctx ≡ ok split
    by_rule : is_approved orders.keys r ctx split.0 ≡ ok (true, rep.requires)

  decision :
      (report (evaluate orders r ctx)).status ≡ approved → Decision (report (evaluate orders r ctx))
  unfolding evaluate rule_report approval_report verdict_report decided base_report
  decision h = by_preconditions (preconditions orders.keys ctx (predicates r.predicates)) refl h
    where
      by_verdict :
          (rep : Report) (results : List PredicateResult) (split : Split)
          → preconditions orders.keys ctx (predicates r.predicates) ≡ satisfied results
          → filtered_candidates orders r ctx ≡ ok split
          → (v : Attempt (Bool × RequiresResult)) → is_approved orders.keys r ctx split.0 ≡ v
          → rep.status ≡ skipped
          → (verdict_report r rep split v).status ≡ approved
          → Decision (verdict_report r rep split v)
      by_verdict rep results split p f (err e) i s h = cc (s, h)
      by_verdict rep results split p f (ok (false, req)) i s h = cc
      by_verdict rep results split p f (ok (true, req)) i s h = record {
        results = results;
        split = split;
        by_predicates = p;
        by_split = f;
        by_rule = i;
      }

      by_split :
          (rep : Report) (results : List PredicateResult)
          → preconditions orders.keys ctx (predicates r.predicates) ≡ satisfied results
          → rep.status ≡ skipped
          → (s : Attempt Split) → filtered_candidates orders r ctx ≡ s
          → (approval_report orders.keys r ctx rep s).status ≡ approved
          → Decision (approval_report orders.keys r ctx rep s)
      by_split rep results p skip (err e) f h = cc (skip, h)
      by_split rep results p skip (ok split) f h =
          by_verdict rep results split p f (is_approved orders.keys r ctx split.0) refl skip h

      by_preconditions :
          (p : Preconditions)
          → preconditions orders.keys ctx (predicates r.predicates) ≡ p
          → (rule_report orders r ctx p).status ≡ approved
          → Decision (rule_report orders r ctx p)
      by_preconditions (failed e) same h = cc
      by_preconditions (unsatisfied u) same h = cc
      by_preconditions (satisfied results) same h =
          by_split (record (base_report r) { predicate_results = results }) results same refl
            (filtered_candidates orders r ctx) refl h

  -- Both parts of a verdict.
  record Parts (cs : List Candidate) (req : RequiresResult) : Type 0 where
    conditions : List PredicateResult
    by_actors : is_approved_by_actors r ctx cs ≡ ok (true, req.approvers)
    by_conditions : is_approved_by_conditions orders.keys r ctx ≡ ok (true, conditions)

  parts :
      (cs : List Candidate) (req : RequiresResult)
      → is_approved orders.keys r ctx cs ≡ ok (true, req)
      → Parts cs req
  unfolding is_approved
  parts cs req h =
      let (actors, asked, h1) = >>=-eq-ok (is_approved_by_actors r ctx cs) step h in
      let (conditions, tested, h2) =
        >>=-eq-ok (is_approved_by_conditions orders.keys r ctx) (verdict actors) h1 in
      let both : (actors.0 && conditions.0) ≡ true = ap (λ v. v.0) (ok-injective h2) in
      let found : actors.1 ≡ req.approvers = ap (λ v. v.1.approvers) (ok-injective h2) in
      let (left, right) = and_true actors.0 conditions.0 both in
      record {
        conditions = conditions.1;
        by_actors = asked ∙ ap ok (pair_eq actors left found);
        by_conditions = tested ∙ ap ok (pair_eq conditions right refl);
      }
    where
      and_true : (a b : Bool) → (a && b) ≡ true → (a ≡ true) × (b ≡ true)
      and_true a b e = ground arith

      verdict :
          Bool × List Candidate → Bool × List PredicateResult → Attempt (Bool × RequiresResult)
      verdict actors conditions = ok (
        actors.0 && conditions.0,
        record {
          count = r.requires.count;
          actors = r.requires.actors;
          approvers = actors.1;
          conditions = conditions.1;
        },
      )

      step : Bool × List Candidate → Attempt (Bool × RequiresResult)
      step actors = is_approved_by_conditions orders.keys r ctx >>= verdict actors

  asked-distinct :
      (found : List Candidate)
      → candidates orders.candidates (get_methods r.options) ctx ≡ ok found
      → Nodup (map user_of found)
  asked-distinct found h =
      let (all_found, e) =
        candidates-deduplicated orders.candidates (get_methods r.options) ctx found h in
      rw (← e) (deduplicate_candidates-latest orders.candidates all_found).0

  -- The kept candidates are of distinct users.
  kept_distinct : (s : Split) → IsFiltered r ctx orders s → Nodup (map user_of s.0)
  kept_distinct s f =
      let users = Perm.map user_of f.partition in
      let both = Perm.nodup (Perm.symm users) (asked-distinct f.found f.asked) in
      (Nodup-append.0 (rw (map-append user_of s.0 (map (λ d. d.candidate) s.1)) at both)).0

  kept_among :
      (s : Split) (f : IsFiltered r ctx orders s) (c : Candidate) → Mem c s.0 → Mem c f.found
  kept_among s f c m = (Perm.mem_iff f.partition).0 (mem-append_left (map (λ d. d.candidate) s.1) m)

  approvers_of :
      (s : Split) (f : IsFiltered r ctx orders s) (approvers : List Candidate)
      → Counted r ctx s.0 approvers
      → All IsApprover approvers
  approvers_of s f approvers counted =
      let test = accepts r.requires.actors ctx counted.banned in
      rw counted.kept (
        All-zip make (keep test s.0)
          (All-keep (λ c. Mem c s.0 × Options c) test s.0
            (All-zip (λ c m o. (m, o)) s.0 (All-of_mem (λ c. Mem c s.0) s.0 (λ c m. m))
              (All-zip (λ c e p. (e, p)) s.0
                (All-under IsUnedited (is_ignore_edited_comments r.options) s.0 f.unedited)
                (All-under (IsFresh r ctx) (is_invalidate_on_push r.options) s.0 f.fresh))))
          (All-kept (λ c. test c ≡ true) test (λ c e. e) s.0))
    where
      Options : Candidate → Type 0
      Options c =
          (is_ignore_edited_comments r.options ≡ true → IsUnedited c)
          × (is_invalidate_on_push r.options ≡ true → IsFresh r ctx c)

      make :
          (c : Candidate)
          → Mem c s.0 × Options c
          → accepts r.requires.actors ctx counted.banned c ≡ true
          → IsApprover c
      make c (m, (unedited, fresh)) e =
          let (unbanned, allowed) = accepts_sound r.requires.actors ctx counted.banned c e in
          record {
            found = f.found;
            asked = f.asked;
            among = kept_among s f c m;
            allowed = allowed;
            permitted = banned_users-MayApprove r ctx counted.banned c.user counted.asked unbanned;
            unedited = unedited;
            fresh = fresh;
          }

  -- If the report of a rule is approved, then every predicate of the rule and every condition that it
  -- requires evaluates without an error and is satisfied, and the report names at least the required
  -- number of approvers, of distinct users. Each of them is among the candidates that the rule's
  -- methods find and is one of the required actors. It is not the author, unless the author or
  -- contributors may approve; it is no other user of a counted commit, unless contributors or non-author
  -- contributors may; it was not edited where edited comments are ignored; and it is newer than
  -- the push of the last counted commit where pushes invalidate.
  pub evaluate-IsEarned :
      (report (evaluate orders r ctx)).status ≡ approved → IsEarned (report (evaluate orders r ctx))
  evaluate-IsEarned h =
      let d = decision h in
      let p = parts d.split.0 ((report (evaluate orders r ctx)).requires) d.by_rule in
      by_count d p (Bool-cases (leb r.requires.count 0))
    where
      by_count :
          (d : Decision (report (evaluate orders r ctx)))
          → Parts d.split.0 ((report (evaluate orders r ctx)).requires)
          → (leb r.requires.count 0 ≡ true) ⊎ (leb r.requires.count 0 ≡ false)
          → IsEarned (report (evaluate orders r ctx))
      by_count d p (inl zero_count) =
          let none_required = is_approved_by_actors-none_required r ctx d.split.0 zero_count in
          let nobody = ap (λ v. v.1) (ok-injective (sym none_required ∙ p.by_actors)) in
          let few = leb→le r.requires.count 0 zero_count in
          record {
            predicates_hold = preconditions-Holds orders.keys ctx _ d.results d.by_predicates;
            conditions_hold =
                is_approved_by_conditions-Holds orders.keys r ctx p.conditions p.by_conditions;
            enough = rw (← nobody) few;
            distinct = rw (← nobody) Nodup-nil;
            approvers = rw (← nobody) tt;
          }
      by_count d p (inr some_count) =
          let counts : 0 < r.requires.count = ground arith in
          let filtered = filtered_candidates-IsFiltered orders r ctx d.split counts d.by_split in
          let counted = is_approved_by_actors-Counted r ctx d.split.0 _ counts p.by_actors in
          record {
            predicates_hold = preconditions-Holds orders.keys ctx _ d.results d.by_predicates;
            conditions_hold =
                is_approved_by_conditions-Holds orders.keys r ctx p.conditions p.by_conditions;
            enough = counted.enough;
            distinct = rw counted.kept (Nodup-keep _ d.split.0 (kept_distinct d.split filtered));
            approvers = approvers_of d.split filtered _ counted;
          }

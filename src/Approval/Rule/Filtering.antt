-- ===== src/Approval/Rule/Filtering.antt =====
-- The candidates of a rule: what is kept, and what is dismissed.
use policy_bot.Prelude.{
  ◌≤◌, ◌<◌, String, ◌≡◌, ◌≢◌, ◌⊎◌, inl, inr, true, List, [], ◌∷◌, ◌++◌, map, arith, ltb, ◌==◌,
  if◌then◌else◌, ==_iff, ltb→lt, Bool-cases, All, All-imp, Attempt, ok, wrap, >>=-eq-ok, wrap-eq-ok,
  ok-injective, ◌<>◌, first_chars,
}
use mathlib.Core.List.{Perm, perm_middle, append-nil}
use mathlib.Core.List.Perm
use mathlib.Core.Path.{subst}
use policy_bot.Pull.{Time, Commit, Context}
use policy_bot.Common.Methods.{Candidate, Orders, candidates}
use policy_bot.Common.Result.{Dismissal}
use policy_bot.Approval.Options.{is_invalidate_on_push, is_ignore_edited_comments, get_methods}
use policy_bot.Approval.Commits.{filtered_commits}
use policy_bot.Approval.Rule.{
  Rule, Split, split_edited, filter_edited_candidates, split_invalid, invalid_split,
  filter_invalid_candidates,
}

abbrev pub dismissed : Dismissal → Candidate
dismissed d = d.candidate

-- What a split kept and dismissed is what it was given.
abbrev pub Partitions : List Candidate → Split → Type 0
Partitions cs s = Perm (s.0 ++ map dismissed s.1) cs

partition_allow :
    (c : Candidate) (cs kept : List Candidate) (out : List Dismissal)
    → Partitions cs (kept, out)
    → Partitions (c ∷ cs) (c ∷ kept, out)
partition_allow c cs kept out h = Perm.cons c h

partition_dismiss :
    (c : Candidate) (reason : String) (cs kept : List Candidate) (out : List Dismissal)
    → Partitions cs (kept, out)
    → Partitions (c ∷ cs) (kept, record { candidate = c; reason = reason } ∷ out)
partition_dismiss c reason cs kept out h =
    Perm.trans (perm_middle kept (map dismissed out)) (Perm.cons c h)

split_edited-Partitions : (cs : List Candidate) → Partitions cs (split_edited cs)
unfolding split_edited
split_edited-Partitions [] = Perm.refl []
split_edited-Partitions (c ∷ cs) = elim (Bool-cases (c.last_edited_at == 0)) [
  | inl e ↦ rw e (partition_allow c cs _ _ (split_edited-Partitions cs))
  | inr e ↦ rw e (partition_dismiss c "Comment was edited" cs _ _ (split_edited-Partitions cs))
]

split_invalid-Partitions :
    (sha : String) (t : Time) (cs : List Candidate) → Partitions cs (split_invalid sha t cs)
unfolding split_invalid
split_invalid-Partitions sha t [] = Perm.refl []
split_invalid-Partitions sha t (c ∷ cs) = elim (Bool-cases (ltb t c.created_at)) [
  | inl e ↦ rw e (partition_allow c cs _ _ (split_invalid-Partitions sha t cs))
  | inr e ↦ rw e (
      partition_dismiss c ("Invalidated by push of " <> first_chars 7 sha) cs _ _
        (split_invalid-Partitions sha t cs))
]

nothing_dismissed : (cs : List Candidate) → Partitions cs (cs, [])
nothing_dismissed cs = rw append-nil (Perm.refl cs)

-- Kept candidates meet `P`, and dismissed ones `Q`.
abbrev Sorts : (Candidate → Type 0) → (Candidate → Type 0) → Split → Type 0
Sorts P Q s = All P s.0 × All (λ d. Q d.candidate) s.1

split_edited-Sorts :
    (cs : List Candidate)
    → Sorts (λ c. c.last_edited_at ≡ 0) (λ c. c.last_edited_at ≢ 0) (split_edited cs)
unfolding split_edited
split_edited-Sorts [] = (tt, tt)
split_edited-Sorts (c ∷ cs) = elim (Bool-cases (c.last_edited_at == 0)) [
  | inl e ↦ let (kept, out) = split_edited-Sorts cs in rw e (((==_iff _ _).0 e, kept), out)
  | inr e ↦ let (kept, out) = split_edited-Sorts cs in rw e (kept, (ground arith, out))
]

split_invalid-Sorts :
    (sha : String) (t : Time) (cs : List Candidate)
    → Sorts (λ c. t < c.created_at) (λ c. c.created_at ≤ t) (split_invalid sha t cs)
unfolding split_invalid
split_invalid-Sorts sha t [] = (tt, tt)
split_invalid-Sorts sha t (c ∷ cs) = elim (Bool-cases (ltb t c.created_at)) [
  | inl e ↦ let (kept, out) = split_invalid-Sorts sha t cs in rw e ((ltb→lt _ _ e, kept), out)
  | inr e ↦ let (kept, out) = split_invalid-Sorts sha t cs in rw e (kept, (ground arith, out))
]

split_invalid-All :
    (P : Candidate → Type 0) (sha : String) (t : Time) (cs : List Candidate)
    → All P cs
    → All P (split_invalid sha t cs).0
unfolding split_invalid
split_invalid-All P sha t [] h = tt
split_invalid-All P sha t (c ∷ cs) (p, h) = elim (Bool-cases (ltb t c.created_at)) [
  | inl e ↦ rw e (p, split_invalid-All P sha t cs h)
  | inr e ↦ rw e (split_invalid-All P sha t cs h)
]

abbrev pub IsUnedited : Candidate → Type 0
IsUnedited c = c.last_edited_at ≡ 0

module _ (r : Rule) (ctx : Context) where
  -- The candidate was edited, and edited comments are ignored.
  abbrev pub IsEdited : Candidate → Type 0
  IsEdited c = (is_ignore_edited_comments r.options ≡ true) × (c.last_edited_at ≢ 0)

  -- The candidate is not newer than the last push of a counted commit, and pushes invalidate.
  pub record IsStale (c : Candidate) : Type 0 where
    pub option : is_invalidate_on_push r.options ≡ true
    pub last : Commit
    pub others : List Commit
    pub pushed : Time
    pub counted : filtered_commits r.options ctx ≡ ok (last ∷ others)
    pub push : ctx.pushed_at last.sha ≡ ok pushed
    pub before : c.created_at ≤ pushed

  -- The candidate is newer than the last push of the counted commits, if there is one.
  abbrev pub IsFresh : Candidate → Type 0
  IsFresh c =
      (last : Commit) (others : List Commit) (pushed : Time)
      → filtered_commits r.options ctx ≡ ok (last ∷ others)
      → ctx.pushed_at last.sha ≡ ok pushed
      → pushed < c.created_at

  pub record EditStep (cs : List Candidate) (s : Split) : Type 0 where
    pub partition : Partitions cs s
    pub kept : is_ignore_edited_comments r.options ≡ true → All IsUnedited s.0
    pub out : All (λ d. IsEdited d.candidate) s.1

  pub edit_step :
      (cs : List Candidate)
      → EditStep cs
          (if is_ignore_edited_comments r.options then filter_edited_candidates r cs else (cs, []))
  unfolding filter_edited_candidates
  edit_step cs = elim (Bool-cases (is_ignore_edited_comments r.options)) [
    | inl e ↦
        let (kept, out) = split_edited-Sorts cs in
        rw e (record {
          partition = split_edited-Partitions cs;
          kept = λ _. kept;
          out = All-imp (λ d ne. (e, ne)) _ out;
        })
    | inr e ↦ rw e (record { partition = nothing_dismissed cs; kept = λ on. cc (e, on); out = tt })
  ]

  pub record PushStep (cs : List Candidate) (s : Split) : Type 0 where
    pub partition : Partitions cs s
    pub kept : is_invalidate_on_push r.options ≡ true → All IsFresh s.0
    pub same : All IsUnedited cs → All IsUnedited s.0
    pub out : All (λ d. IsStale d.candidate) s.1

  invalid_step :
      (cs : List Candidate) (commits : List Commit) (s : Split)
      → is_invalidate_on_push r.options ≡ true
      → filtered_commits r.options ctx ≡ ok commits
      → invalid_split ctx cs commits ≡ ok s
      → PushStep cs s
  unfolding invalid_split
  invalid_step cs [] s on counted h = subst (PushStep cs) (ok-injective h) (record {
    partition = nothing_dismissed cs;
    kept = λ _. none_fresh cs;
    same = λ all_cs. all_cs;
    out = tt;
  })
    where
      none_fresh : (l : List Candidate) → All IsFresh l
      none_fresh [] = tt
      none_fresh (c ∷ l) = ((λ last others t e _. cc (counted, e)), none_fresh l)
  invalid_step cs (k ∷ ks) s on counted h =
      let step = λ (t : Time). let x : Attempt Split = ok (split_invalid k.sha t cs) in x in
      let (t, wrapped_push, e) =
        >>=-eq-ok (wrap "failed to get last push timestamp" (ctx.pushed_at k.sha)) step h in
      let pushed_at = wrap-eq-ok _ (ctx.pushed_at k.sha) wrapped_push in
      let (kept, out) = split_invalid-Sorts k.sha t cs in
      subst (PushStep cs) (ok-injective e) (record {
        partition = split_invalid-Partitions k.sha t cs;
        kept = λ _. All-imp (fresh t pushed_at) _ kept;
        same = split_invalid-All IsUnedited k.sha t cs;
        out =
            All-imp
              (λ d before. record {
                option = on;
                last = k;
                others = ks;
                pushed = t;
                counted = counted;
                push = pushed_at;
                before = before;
              })
              _ out;
      })
    where
      fresh :
          (t : Time) → ctx.pushed_at k.sha ≡ ok t → (c : Candidate) → t < c.created_at → IsFresh c
      fresh t at_t c newer last others pushed e p =
          let same_last : k ≡ last = cc (counted, e) in
          let same_push : t ≡ pushed = cc (at_t, same_last, p) in rw (← same_push) newer

  pub push_step :
      (cs : List Candidate) (s : Split)
      → (if is_invalidate_on_push r.options
          then filter_invalid_candidates r ctx cs
          else ok (cs, []))
        ≡ ok s
      → PushStep cs s
  unfolding filter_invalid_candidates
  push_step cs s h = elim (Bool-cases (is_invalidate_on_push r.options)) [
    | inl e ↦
        let (commits, counted, split) =
          >>=-eq-ok (filtered_commits r.options ctx) (invalid_split ctx cs) (rw e at h) in
        invalid_step cs commits s e counted split
    | inr e ↦ subst (PushStep cs) (ok-injective (rw e at h)) (record {
      partition = nothing_dismissed cs;
      kept = λ on. cc (e, on);
      same = λ all_cs. all_cs;
      out = tt;
    })
  ]

  -- Why a candidate is dismissed.
  abbrev pub IsDismissible : Candidate → Type 0
  IsDismissible c =
      ((is_ignore_edited_comments r.options ≡ true) × (c.last_edited_at ≢ 0)) ⊎ IsStale c

  -- What a rule makes of the candidates that its methods find.
  pub record IsFiltered (orders : Orders) (s : Split) : Type 0 where
    pub found : List Candidate
    pub asked : candidates orders.candidates (get_methods r.options) ctx ≡ ok found
    pub partition : Perm (s.0 ++ map (λ d. d.candidate) s.1) found
    pub unedited : is_ignore_edited_comments r.options ≡ true → All IsUnedited s.0
    pub fresh : is_invalidate_on_push r.options ≡ true → All IsFresh s.0
    pub dismissals : All (λ d. IsDismissible d.candidate) s.1

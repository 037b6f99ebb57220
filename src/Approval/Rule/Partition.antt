-- ===== src/Approval/Rule/Partition.antt =====
-- `FilteredCandidates` loses no candidate, and says why it dismisses one.
use policy_bot.Prelude.{
  ◌<◌, ◌≡◌, inl, inr, false, List, [], ◌++◌, map, arith, leb, if◌then◌else◌, All-append, All-imp,
  sort-perm, Attempt, ok, ◌>>=◌, wrap, >>=-eq-ok, wrap-eq-ok, ok-injective, sort,
}
use mathlib.Core.List.{Perm, append_assoc, map-append, perm_append_comm}
use mathlib.Core.List.Perm
use policy_bot.Pull.{Context}
use policy_bot.Common.Methods.{Candidate, Orders, candidates, created_before}
use policy_bot.Common.Result.{Dismissal}
use policy_bot.Approval.Options.{is_invalidate_on_push, is_ignore_edited_comments, get_methods}
use policy_bot.Approval.Rule.{
  Rule, Split, filter_edited_candidates, filter_invalid_candidates, filtered_candidates,
}
use policy_bot.Approval.Rule.Filtering.{dismissed, Partitions, IsFiltered, edit_step, push_step}

partition_twice :
    (found sorted kept allowed : List Candidate) (edits pushes : List Dismissal)
    → Perm sorted found
    → Partitions sorted (kept, edits)
    → Partitions kept (allowed, pushes)
    → Perm (allowed ++ map dismissed (edits ++ pushes)) found
partition_twice found sorted kept allowed edits pushes order first second =
    rw (map-append dismissed edits pushes) (
      Perm.trans
        (Perm.append_left allowed (perm_append_comm (map dismissed edits) (map dismissed pushes)))
        (rw (← append_assoc)
          (Perm.trans (Perm.append_right (map dismissed edits) second) (Perm.trans first order))))

-- If a rule requires approvals and `FilteredCandidates` returns, then the kept candidates and the
-- dismissed ones together are those that the rule's methods find, each as often. Where edited comments
-- are ignored, no kept candidate was edited; where pushes invalidate, every kept candidate is newer
-- than the push of the last counted commit. Each dismissed candidate was edited under the first
-- option, or is not newer than that push under the second.
pub filtered_candidates-IsFiltered :
    (orders : Orders) (r : Rule) (ctx : Context) (s : Split)
    → 0 < r.requires.count
    → filtered_candidates orders r ctx ≡ ok s
    → IsFiltered r ctx orders s
unfolding filtered_candidates
filtered_candidates-IsFiltered orders r ctx s some_count h =
    let counts : leb r.requires.count 0 ≡ false = ground arith in
    let (found, wrapped_found, h1) =
      >>=-eq-ok
        (wrap "failed to get approval candidates"
          (candidates orders.candidates (get_methods r.options) ctx))
        rest (rw counts at h) in
    let (invalid, invalid_ok, h2) =
      >>=-eq-ok (invalid_of found) (λ i. ok (i.0, (edited_of found).1 ++ i.1)) h1 in
    let edits = edit_step r ctx (sort created_before found) in
    let pushes = push_step r ctx (edited_of found).0 invalid invalid_ok in
    rw (← ok-injective h2) (record {
      found = found;
      asked = wrap-eq-ok _ (candidates orders.candidates (get_methods r.options) ctx) wrapped_found;
      partition =
          partition_twice found (sort created_before found) (edited_of found).0 invalid.0
            (edited_of found).1 invalid.1 (sort-perm created_before found) edits.partition
            pushes.partition;
      unedited = λ on. pushes.same (edits.kept on);
      fresh = pushes.kept;
      dismissals =
          All-append _ (edited_of found).1 invalid.1 (All-imp (λ d e. inl e) _ edits.out)
            (All-imp (λ d e. inr e) _ pushes.out);
    })
  where
    edited_of : List Candidate → Split
    edited_of found =
        if is_ignore_edited_comments r.options
        then filter_edited_candidates r (sort created_before found)
        else (sort created_before found, [])

    invalid_of : List Candidate → Attempt Split
    invalid_of found =
        if is_invalidate_on_push r.options
        then filter_invalid_candidates r ctx (edited_of found).0
        else ok ((edited_of found).0, [])

    rest : List Candidate → Attempt Split
    rest found = invalid_of found >>= λ i. ok (i.0, (edited_of found).1 ++ i.1)

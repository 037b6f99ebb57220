-- ===== src/Predicate/Signature.antt =====
-- policy/predicate/signature.go
use policy_bot.Prelude.{
  String, Bool, true, false, Option, none, some, List, [], ◌∷◌, ◌++◌, map, str_eq, if◌then◌else◌,
  contains, Attempt, ok, ◌>>=◌, wrap, ◌<>◌, first_chars, quote, MapOrder,
}
use policy_bot.Pull.{Commit, signature_gpg, Context}
use policy_bot.Common.Actors.{Actors, is_actor}
use policy_bot.Common.Result.{PredicateResult, no_predicate_result}
use policy_bot.Predicate.Author.{membership_map, add_user}

unfoldable pub has_valid_signature : Commit → Bool × String
has_valid_signature c = elim c.signature [
  | none ↦ (false, "Commit " <> first_chars 10 c.sha <> " has no signature")
  | some s ↦ if s.is_valid then (true, "") else (
    false,
    "Commit " <> first_chars 10 c.sha <> " has an invalid signature due to " <> s.state,
  )
]

signatures_loop : Bool → PredicateResult → List String → List Commit → PredicateResult
signatures_loop pred r hashes [] =
    if pred then record r { values = hashes; satisfied = true } else record r {
      values = hashes;
      satisfied = false;
      description = "All commits are signed and have valid signatures";
    }
signatures_loop pred r hashes (c ∷ commits) =
    let rest = signatures_loop pred r (hashes ++ c.sha ∷ []) commits in
    if (has_valid_signature c).0
    then rest
    else if pred
    then record r {
      values = c.sha ∷ [];
      description = (has_valid_signature c).1;
      satisfied = false;
    }
    else record r { values = c.sha ∷ []; satisfied = true }

unfoldable pub has_valid_signatures : Bool → Context → Attempt PredicateResult
unfolding signatures_loop has_valid_signature
has_valid_signatures pred ctx = do
  commits ← wrap "failed to get commits" ctx.commits
  ok (
      signatures_loop pred
        (record no_predicate_result {
          condition_phrase = "have";
          condition_values = "valid signatures" ∷ [];
        })
        [] commits)

-- The signer and key of a signed commit; the loops read them of valid commits only.
abbrev pub signer_of : Commit → String
signer_of c = elim c.signature [ none ↦ "" | some s ↦ s.signer ]

abbrev pub key_of : Commit → String
key_of c = elim c.signature [ none ↦ "" | some s ↦ s.key_id ]

abbrev pub type_of : Commit → String
type_of c = elim c.signature [ none ↦ "" | some s ↦ s.type ]

-- The first commit without a valid signature.
unfoldable pub first_invalid : List Commit → Option Commit
unfolding has_valid_signature
first_invalid [] = none
first_invalid (c ∷ commits) = if (has_valid_signature c).0 then first_invalid commits else some c

abbrev pub shas : List Commit → List String
shas = map (λ c. c.sha)

-- The keys of the map that the loop fills.
unfoldable pub key_set : (Commit → String) → List Commit → List String → List String
unfolding add_user
key_set key [] set = set
key_set key (c ∷ commits) set = key_set key commits (add_user (key c) set)

unfoldable pub signers_loop :
    Actors → Context → PredicateResult → List String → List String → Attempt PredicateResult
signers_loop pred ctx r hashes [] = ok (record r {
  condition_phrase = "have valid signatures by members of";
  values = hashes;
  value_phrase = "commits";
  satisfied = true;
})
signers_loop pred ctx r hashes (signer ∷ signers) =
    let rest = signers_loop pred ctx r hashes signers in
    is_actor pred ctx signer >>= λ member.
    if member
    then rest
    else ok (record r {
      condition_phrase = "satisfy the required membership conditions";
      values = signer ∷ [];
      value_phrase = "signers";
      description =
          "Contributor "
          <> quote signer
          <> " does not meet the required membership conditions for signing";
      satisfied = false;
    })

-- What follows the loop over the commits, which an invalid signature ends.
unfoldable pub after_commits :
    MapOrder String → Actors → Context → List Commit → Option Commit → Attempt PredicateResult
unfolding signers_loop
after_commits order pred ctx commits (some c) = ok (record no_predicate_result {
  conditions_map = membership_map pred;
  condition_phrase = "have valid signatures by members of";
  value_phrase = "commits";
  values = c.sha ∷ [];
  description = (has_valid_signature c).1;
  satisfied = false;
})
after_commits order pred ctx commits none =
    signers_loop pred ctx (record no_predicate_result { conditions_map = membership_map pred })
      (shas commits) (order.arrange (key_set signer_of commits []))

-- All commits are looked at before a signer is; the signers come in the order of the map.
unfoldable pub has_valid_signatures_by :
    MapOrder String → Actors → Context → Attempt PredicateResult
unfolding signers_loop
has_valid_signatures_by order pred ctx = do
  commits ← wrap "failed to get commits" ctx.commits
  after_commits order pred ctx commits (first_invalid commits)

-- The first commit that ends the first loop, by an invalid signature or one that is not GPG.
first_not_gpg : PredicateResult → List Commit → Option PredicateResult
first_not_gpg r [] = none
first_not_gpg r (c ∷ commits) =
    if (has_valid_signature c).0
    then if str_eq (type_of c) signature_gpg
      then first_not_gpg r commits
      else some (record r {
        values = c.sha ∷ [];
        value_phrase = "commits";
        condition_phrase = "have GPG signatures";
        description = "Commit " <> first_chars 10 c.sha <> " signature is not a GPG signature";
        satisfied = false;
      })
    else some (record r {
      values = c.sha ∷ [];
      description = (has_valid_signature c).1;
      value_phrase = "commits";
      satisfied = false;
    })

keys_loop : List String → PredicateResult → List String → List String → PredicateResult
keys_loop key_ids r hashes [] = record r {
  values = hashes;
  value_phrase = "commits";
  satisfied = true;
}
keys_loop key_ids r hashes (key ∷ keys) =
    let rest = keys_loop key_ids r hashes keys in
    if contains key_ids key then rest else record r {
      condition_phrase = "exist in the set of allowed keys";
      values = key ∷ [];
      value_phrase = "keys";
      description = "Key " <> quote key <> " does not meet the required key conditions for signing";
      satisfied = false;
    }

unfoldable pub has_valid_signatures_by_keys :
    MapOrder String → List String → Context → Attempt PredicateResult
unfolding first_not_gpg keys_loop
has_valid_signatures_by_keys order key_ids ctx = do
  commits ← wrap "failed to get commits" ctx.commits
  let base = record no_predicate_result {
    condition_phrase = "have valid signatures by keys";
    condition_values = key_ids;
  }
  elim (first_not_gpg base commits) [
    | some r ↦ ok r
    | none ↦ ok (keys_loop key_ids base (shas commits) (order.arrange (key_set key_of commits [])))
  ]

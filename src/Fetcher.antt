-- ===== src/Fetcher.antt =====
-- server/handler/fetcher.go: the policy of a branch. Parameters are the loader's answers, one for each
-- call, the questions about errors, the decoder of YAML, and what ends a wait.
pub mod Retries
pub mod Seen
use policy_bot.Prelude.{
  ℕ, zero, suc, ◌+◌, ◌*◌, String, Bool, true, false, not, ◌&&◌, ◌||◌, Option, none, some, ltb, leb,
  if◌then◌else◌, Error, diverged, Attempt, ok, err,
}
use policy_bot.Policy.{Config}
use policy_bot.Caches.{SeenPolicyKey, SeenPolicyCache, get_seen, set_seen}
use policy_bot.Caches.Policies.{AppConfig}

pub record FetchedConfig : Type 0 where
  pub config : Option Config
  pub load_error : Option Error
  pub parse_error : Option Error
  pub source : String
  pub path : String
  pub seen_policy : Bool

-- `errors.AsType[*github.ErrorResponse]` finds a status code, or nothing.
unfoldable pub is_server_error : (Error → Option ℕ) → Error → Bool
is_server_error status_code e = in_range (status_code e)
  where
    in_range : Option ℕ → Bool
    in_range none = false
    in_range (some code) = leb 500 code && leb code 599

-- What a run of the loop returned, after how many calls of the loader and how many seconds of waiting.
pub record Retried : Type 0 where
  pub config : AppConfig
  pub error : Option Error
  pub calls : ℕ
  pub waited : ℕ

abbrev pub waited_more : ℕ → Attempt Retried → Attempt Retried
waited_more delay (ok r) = ok (record r { waited = delay + r.waited })
waited_more delay (err e) = err e

module _ (loader : ℕ → AppConfig × Option Error) (is_timeout : Error → Bool)
    (status_code : Error → Option ℕ) (interrupted : ℕ → Option (ℕ × Error)) where
  -- The negation of the condition of the early return.
  unfoldable pub is_transient : Option Error → Bool
  unfolding is_server_error
  is_transient none = false
  is_transient (some e) = is_timeout e || is_server_error status_code e

  -- The `select`: the context is done after some seconds, before the delay is over, or the loop goes on.
  unfoldable pub wait : Attempt Retried → ℕ → ℕ → Option (ℕ × Error) → Attempt Retried
  wait later retries delay (some (seconds, cancelled)) = ok (record {
    config = (loader retries).0;
    error = some cancelled;
    calls = suc retries;
    waited = if leb seconds delay then seconds else delay;
  })
  wait later retries delay none = waited_more delay later

  -- The loop, on fuel: `retries` are the calls before.
  unfoldable pub retry_loop : ℕ → ℕ → ℕ → Attempt Retried
  unfolding is_transient wait
  retry_loop zero retries delay = err diverged
  retry_loop (suc n) retries delay =
      let later = retry_loop n (suc retries) (delay * 2) in
      if not (is_transient (loader retries).1) || ltb 3 (suc retries)
      then ok (record {
        config = (loader retries).0;
        error = (loader retries).1;
        calls = suc retries;
        waited = 0;
      })
      else wait later retries delay (interrupted retries)

  unfoldable pub load_config_with_retries : Attempt Retried
  unfolding retry_loop
  load_config_with_retries = retry_loop 4 0 1

unfoldable pub parsed : AppConfig → Attempt Config → FetchedConfig
parsed c (err e) = record {
  config = none;
  load_error = none;
  parse_error = some e;
  source = c.source;
  path = c.path;
  seen_policy = true;
}
parsed c (ok config) = record {
  config = some config;
  load_error = none;
  parse_error = none;
  source = c.source;
  path = c.path;
  seen_policy = true;
}

abbrev pub not_loaded : AppConfig → Option Error → Bool → FetchedConfig
not_loaded c error seen = record {
  config = none;
  load_error = error;
  parse_error = none;
  source = c.source;
  path = c.path;
  seen_policy = seen;
}

module _ (is_undefined : AppConfig → Bool) (unmarshal_strict : String → Attempt Config) where
  -- From the answer of the loader, behind its cache or not, and the set of seen branches.
  unfoldable pub config_for_repository_branch :
      SeenPolicyKey → SeenPolicyCache → AppConfig × Option Error → FetchedConfig × SeenPolicyCache
  unfolding parsed get_seen set_seen
  config_for_repository_branch key seen (c, some e) =
      (not_loaded c (some e) (get_seen seen key), seen)
  config_for_repository_branch key seen (c, none) =
      if is_undefined c
      then (not_loaded c none false, seen)
      else (parsed c (unmarshal_strict c.content), set_seen key seen)

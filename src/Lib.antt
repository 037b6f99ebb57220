-- ===== src/Lib.antt =====
-- policy-bot decides whether a pull request may be merged: a configuration is parsed into an evaluator,
-- which is evaluated against the pull request. This library models the decision, and the server's way to
-- it: the caches of policies, the events that are skipped, and what an evaluation sends to GitHub.
--
-- The parts, from the inside out, and the modules that model them:
--   Prelude        names passed on, tests, lists, texts, errors and stable sorting (fmt, strings, sort)
--   Pull           pull/context.go and pull/permission.go: the data, and the context as a record of answers
--   Common         policy/common: actors, patterns, triggers, methods with their candidates, results
--   Predicate      policy/predicate: every predicate, its evaluation and its trigger
--   Approval       policy/approval: Options, Commits, Rule, Requirements and Parse are approve.go,
--                  options.go, evaluate.go and parse.go
--   Disapproval    policy/disapproval/disapprove.go
--   Policy         policy/policy.go: ParsePolicy, and the evaluator of the two parts
--   Reviewer       policy/reviewer/reviewer.go: whom to ask for a review
--   Simulated      policy/simulated: a context with comments and reviews taken away and added
--   Handler        server/handler/eval_context_dismissal.go: the dismissal of stale reviews
--   Settings       server/handler/eval_options.go: the server's options, their defaults and the environment
--   Caches         server/handler/seen_policy_cache.go, and in Policies policy_config_cache.go
--   Fetcher        server/handler/fetcher.go: retries, and the policy of a branch
--   Relevance      server/handler/policy_relevance.go, and the tests of check_run.go and workflow_run.go
--                  that skip an event
--   Evaluation     server/handler/eval_context.go and eval_context_reviewers.go: from the configuration
--                  to the statuses, review requests and dismissals that are sent
--   Github         pull/github.go and pull/global_cache.go: GitHub's answers as the data of the context
--   Examples       one pull request and its policy, on which the theorems are applied
-- A function keeps its Go name in snake case. A loop is a function by clauses over its list, named for
-- what it does; a function that returns (A, error) returns Attempt A. Modules below a part hold its
-- larger pieces and its theorems.
--
-- How they interact: Policy parses the rules, gives each its chain of defaults and evaluates Approval and
-- Disapproval on one context. Approval is a tree of requirements whose leaves are rules. A rule asks its
-- predicates, then Common.Methods for candidates, filters them by the counted commits, and asks
-- Common.Actors which of them may approve. Triggers are the sets of events after which an evaluation is due.
-- On the server, Fetcher loads the policy of a branch behind the two caches, Relevance may skip the event
-- for it, and Evaluation parses it, evaluates it by Policy, posts the result, and then asks Reviewer for
-- requests and Handler for dismissals.
--
-- How the code is represented:
--   - pull.Context is a record of the answers to its queries, each of them a value or an error, so an
--     evaluation asks the same question twice and gets the same answer; times are numbers, and 0 is the zero
--     time; logging is left out;
--   - an error is the text it was made with and the texts that wrap it; the mark diverged stands for a run
--     that never returns or that panics. The fuel of the walk through the commits is
--     one round for each commit and one more, and a theorem shows that it is enough for ranked commits. The
--     loop of retries has four rounds and the eviction of the cache one for each entry and one more, both
--     shown to be enough. Loops over GitHub's pages, cursors and child commits have their fuel as an
--     argument, since only GitHub's answers end them;
--   - what the cache of policies does under its lock is one step; a load is two of them, and steps of
--     any callers come in any order. The elements of its list are told apart by numbers, sizes and times are
--     natural numbers, and its size does not wrap;
--   - a struct of GitHub's clients is a record of what its getters answer, and a query is a parameter, a
--     function of the page or of its variables;
--   - what an evaluation sends is returned in its order; what only is logged is left out, and so is the
--     delay before a review request;
--   - a regular expression is its source and a function that matches, and a glob a function whose answer may
--     be an error: the engines are not the program's code;
--   - the random generator is the list of the numbers that it gives, and a run that needs more of them
--     diverges;
--   - the order in which Go ranges over a map is a parameter, a function that permutes;
--   - Go's pointers in options are Option, and a chain of defaults is a list that ends;
--   - a required count is a natural number, since one below zero acts as zero; the count of a request has a
--     sign, and a slice with a negative bound diverges; sums of lines wrap at 64 bits;
--   - the lengths that the cache of policies adds up are those of UTF-8; a simulation reads its clock once
--     for each added review and comment;
--   - sort.Stable, sort.Strings and sort.Slice are insertion, which is stable;
--   - quoted and lowered texts are those of ASCII; the keys of a conjunction are texts, since the code
--     panics on another key.
--
-- Not modelled: the decoding of YAML and of webhooks, the handlers that take an event apart and call the
-- evaluation (server/handler), its pages and its set-up (server), the kept answers about teams and
-- organizations (pull/github_membership.go, pull/list_teams.go), the reading of comparison expressions, and
-- what is vendored, generated or drawn.
mod Prelude
pub mod Pull
pub mod Common
pub mod Predicate
pub mod Approval
pub mod Disapproval
pub mod Policy
pub mod Reviewer
pub mod Simulated
pub mod Handler
pub mod Settings
pub mod Caches
pub mod Fetcher
pub mod Relevance
pub mod Evaluation
pub mod Github
mod Examples

-- ===== src/Matchmaker/Match.antt =====
-- `Matchmaker.Match` of negotiator/matchmaker/matchmaker.go.
pub mod Gates
pub mod Tests
use golang_collector.Base.{
  ℕ, zero, suc, ◌++◌, Bool, true, false, not, Option, none, some, List, [], ◌∷◌, ltb, if◌then◌else◌,
}
use golang_collector.Base.Text.{Text, codes, is_empty}
use golang_collector.Matchmaker.Floats.{Floats, Classads}
use golang_collector.Matchmaker.Candidate.{Candidate}
use golang_collector.Matchmaker.Limits.{reject_for_concurrency_limits}
use golang_collector.Matchmaker.Eval.{RejCounters, no_rejections, Config, MatchLimits, CandRef}
use golang_collector.Matchmaker.Shard.{parallel_scan}

pub record RejectInfo : Type 0 where
  pub reason : Text
  pub for_submitter_limit : ℕ
  pub for_concurrency_lim : ℕ
  pub for_preemption_policy : ℕ
  pub for_preemption_rank : ℕ

pub data Failure : Type 0 where
  cancelled nil_request nil_limits : Failure

abbrev pub reason_no_match : Text
reason_no_match = codes "no match found"

abbrev pub reason_submitter_limit : Text
reason_submitter_limit = codes "submitter limit exceeded"

abbrev pub reason_preemption_policy : Text
reason_preemption_policy = codes "PREEMPTION_REQUIREMENTS == False"

abbrev pub reason_concurrency_limit_match : Text
reason_concurrency_limit_match = codes "concurrency limit reached for all candidate matches"

abbrev pub reason_concurrency_limit : Text → Text
reason_concurrency_limit names = codes "concurrency limit " ++ names ++ codes " reached"

-- The ladder of reasons where no candidate is left.
unfoldable pub dominant_reason : RejCounters → Text
dominant_reason rej =
    if ltb 0 rej.concurrency
    then reason_concurrency_limit_match
    else if ltb 0 rej.preempt_policy
    then reason_preemption_policy
    else if ltb 0 rej.submitter_limit
    then reason_submitter_limit
    else reason_no_match

unfoldable pub reject_info : RejCounters → RejectInfo
unfolding dominant_reason
reject_info rej = record {
  reason = dominant_reason rej;
  for_submitter_limit = rej.submitter_limit;
  for_concurrency_lim = rej.concurrency;
  for_preemption_policy = rej.preempt_policy;
  for_preemption_rank = rej.preempt_rank;
}

module _ (f : Floats) (ca : Classads f) where
  -- The three results of the source, of which one is not nil.
  pub data Outcome : Type 0 where
    matched : Candidate f ca.Ad → Outcome
    rejected : RejectInfo → Outcome
    failed : Failure → Outcome

  -- What the gate before the scan decides: reject the request, or scan, with or without the check
  -- of the limits at each match.
  pub data Gate : Type 0 where
    reject : Text → Gate
    scan : Bool → Gate

  unfoldable pub concurrency_gate : ca.Ad → MatchLimits f ca → Gate
  concurrency_gate job limits = elim limits.concurrency [
    | none ↦ scan false
    | some v ↦ elim (ca.eval_string job (codes "ConcurrencyLimits")) [
      | none ↦ scan (ca.has_attr job (codes "ConcurrencyLimits"))
      | some cl ↦ if is_empty cl then scan false else elim (reject_for_concurrency_limits f cl v) [
        | none ↦ scan false
        | some names ↦ reject names
      ]
    ]
  ]

  report : Option (Candidate f ca.Ad) × RejCounters → Outcome
  unfolding reject_info
  report (some best, rej) = matched best
  report (none, rej) = rejected (reject_info rej)

  after_gate : Config f ca → ca.Ad → List (CandRef f ca) → MatchLimits f ca → Gate → Outcome
  unfolding report
  after_gate m job cands limits (reject names) = rejected (record {
    reason = reason_concurrency_limit names;
    for_submitter_limit = 0;
    for_concurrency_lim = 1;
    for_preemption_policy = 0;
    for_preemption_rank = 0;
  })
  after_gate m job cands limits (scan match_conc) =
      report (parallel_scan f ca m limits match_conc job cands)

  -- `done` is whether the context has ended; `cands` is what `gather` finds in the view.
  unfoldable pub match :
      Config f ca → Bool → Option ca.Ad → List (CandRef f ca) → Option (MatchLimits f ca) → Outcome
  unfolding after_gate concurrency_gate
  match m true job cands limits = failed cancelled
  match m false none cands limits = failed nil_request
  match m false (some job) cands none = failed nil_limits
  match m false (some job) cands (some limits) =
      after_gate m job cands limits (concurrency_gate job limits)

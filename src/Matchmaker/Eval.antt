-- ===== src/Matchmaker/Eval.antt =====
-- negotiator/matchmaker/shard.go, ranks.go and the gates of matchmaker.go: the test of one
-- candidate. An expression that is not configured is `none`.
pub mod Counters
pub mod Gates
use golang_collector.Base.{
  ℕ, zero, suc, ◌+◌, ◌==◌, Bool, true, false, not, ◌&&◌, ◌||◌, Option, none, some, List, [], ◌∷◌,
  if◌then◌else◌,
}
use golang_collector.Base.Text.{Text, codes, is_empty, text_eq}
use golang_collector.Matchmaker.Floats.{
  Floats, Classads, Value, bool_value, string_value, number_of,
}
use golang_collector.Matchmaker.Candidate.{Candidate}
use golang_collector.Matchmaker.Limits.{ConcurrencyLimits, reject_for_concurrency_limits}

abbrev pub prio_preemption : ℕ
prio_preemption = 0

abbrev pub rank_preemption : ℕ
rank_preemption = 1

abbrev pub no_preemption : ℕ
no_preemption = 2

pub record RejCounters : Type 0 where
  pub submitter_limit : ℕ
  pub preempt_policy : ℕ
  pub preempt_rank : ℕ
  pub concurrency : ℕ

abbrev pub no_rejections : RejCounters
no_rejections = record {
  submitter_limit = 0;
  preempt_policy = 0;
  preempt_rank = 0;
  concurrency = 0;
}

-- `rejCounters.add`
abbrev pub add : RejCounters → RejCounters → RejCounters
add r o = record {
  submitter_limit = r.submitter_limit + o.submitter_limit;
  preempt_policy = r.preempt_policy + o.preempt_policy;
  preempt_rank = r.preempt_rank + o.preempt_rank;
  concurrency = r.concurrency + o.concurrency;
}

module _ (f : Floats) (ca : Classads f) where
  -- The configured part of a `Matchmaker`.
  pub record Config : Type 0 where
    pub pre_job_rank : Option ca.Expr
    pub post_job_rank : Option ca.Expr
    pub consider_preemption : Bool
    pub preemption_req : Option ca.Expr
    pub preemption_rank : Option ca.Expr
    pub rank_cond_std : ca.Expr
    pub rank_cond_prio_preempt : ca.Expr
    pub workers : ℕ
    pub use_slot_weights : Bool

  -- The fields of `MatchLimits` that the matchmaker reads.
  pub record MatchLimits : Type 0 where
    pub submitter_limit : f.R
    pub limit_used : f.R
    pub submitter_limit_unclaimed : f.R
    pub limit_used_unclaimed : f.R
    pub only_for_startd_rank : Bool
    pub submitter_name : Text
    pub concurrency : Option (ConcurrencyLimits f)

  pub record CandRef : Type 0 where
    pub idx : ℕ
    pub slot : ca.Ad

  unfoldable pub rank_right : ca.Ad → ca.Ad → Option ca.Expr → f.R
  rank_right job slot none = f.rank_unset
  rank_right job slot (some e) = elim (number_of f (ca.eval_right job slot e)) [
    | none ↦ f.rank_unset
    | some r ↦ r
  ]

  unfoldable pub job_rank : ca.Ad → ca.Ad → f.R
  job_rank job slot = elim (ca.rank_left job slot) [ none ↦ f.zero | some r ↦ r ]

  abbrev as_bool : Value f.R → Bool
  as_bool (bool_value b) = b
  as_bool _ = false

  unfoldable pub eval_bool_right : ca.Ad → ca.Ad → ca.Expr → Bool
  eval_bool_right job slot e = as_bool (ca.eval_right job slot e)

  weight_attr : ca.Ad → Text → Option f.R
  weight_attr slot name = elim (number_of f (ca.eval_attr slot name)) [
    | none ↦ none
    | some r ↦ if f.le f.zero r then some r else none
  ]

  unfoldable pub slot_weight : Config → ca.Ad → f.R
  unfolding weight_attr
  slot_weight m slot =
      if not m.use_slot_weights then f.one else elim (weight_attr slot (codes "SlotWeight")) [
        | some r ↦ r
        | none ↦ elim (weight_attr slot (codes "Cpus")) [ some r ↦ r | none ↦ f.one ]
      ]

  unfoldable pub submitter_limit_permits : f.R → f.R → f.R → Bool
  submitter_limit_permits used allowed cost =
      f.le (f.add used cost) allowed || (f.le used f.zero && f.lt f.zero allowed)

  first_user : ca.Ad → List Text → Text
  first_user slot [] = []
  first_user slot (attr ∷ rest) = elim (ca.eval_string slot attr) [
    | none ↦ first_user slot rest
    | some v ↦ if is_empty v then first_user slot rest else v
  ]

  unfoldable pub lookup_remote_user : ca.Ad → Text
  unfolding first_user
  lookup_remote_user slot = first_user slot (
      codes "PreemptingAccountingGroup"
      ∷ codes "PreemptingUser"
      ∷ codes "AccountingGroup"
      ∷ codes "RemoteUser"
      ∷ [])

  -- The tier, or the counters with the reason why the candidate is skipped.
  pub data Tier : Type 0 where
    tier : ℕ → Tier
    skip : RejCounters → Tier

  -- PREEMPTION_REQUIREMENTS, if it is configured, does not hold.
  forbidden : Config → ca.Ad → ca.Ad → Bool
  forbidden m job slot = elim m.preemption_req [
    | none ↦ false
    | some e ↦ not (eval_bool_right job slot e)
  ]

  unfoldable pub classify_preemption : Config → ca.Ad → ca.Ad → MatchLimits → RejCounters → Tier
  unfolding forbidden
  classify_preemption m job slot limits rej =
      let remote_user = lookup_remote_user slot in
      if limits.only_for_startd_rank
      then if is_empty remote_user
        then skip rej
        else if not (eval_bool_right job slot m.rank_cond_std)
        then skip rej
        else tier rank_preemption
      else if not (is_empty remote_user)
      then if eval_bool_right job slot m.rank_cond_std
        then tier rank_preemption
        else if not (text_eq remote_user limits.submitter_name)
        then if forbidden m job slot
          then skip (record rej { preempt_policy = rej.preempt_policy + 1 })
          else if not (eval_bool_right job slot m.rank_cond_prio_preempt)
          then skip (record rej { preempt_rank = rej.preempt_rank + 1 })
          else tier prio_preemption
        else skip rej
      else tier no_preemption

  abbrev by_tier : ℕ → Bool → Bool → Bool → Bool
  by_tier t prio rank other = elim t [ zero ↦ prio | suc zero ↦ rank | _ ↦ other ]

  unfoldable pub submitter_limit_gate : Config → ℕ → MatchLimits → f.R → Bool
  unfolding submitter_limit_permits
  submitter_limit_gate m t limits cost =
      let full = submitter_limit_permits limits.limit_used limits.submitter_limit cost in
      if not m.consider_preemption
      then full
      else by_tier t full true (
          submitter_limit_permits limits.limit_used_unclaimed limits.submitter_limit_unclaimed cost)

  abbrev as_text : Value f.R → Option Text
  as_text (string_value s) = if is_empty s then none else some s
  as_text _ = none

  -- The check of the limits that a match itself names.
  over_limit : Bool → ca.Ad → ca.Ad → MatchLimits → Bool
  over_limit false job slot limits = false
  over_limit true job slot limits = elim limits.concurrency [
    | none ↦ false
    | some v ↦ elim (as_text (ca.eval_left job slot (codes "ConcurrencyLimits"))) [
      | none ↦ false
      | some s ↦ elim (reject_for_concurrency_limits f s v) [ none ↦ false | some name ↦ true ]
    ]
  ]

  candidate_tier : Config → ca.Ad → ca.Ad → MatchLimits → RejCounters → Tier
  candidate_tier m job slot limits rej =
      if m.consider_preemption
      then classify_preemption m job slot limits rej
      else tier no_preemption

  unfoldable pub candidate : Config → ca.Ad → CandRef → ℕ → Candidate f ca.Ad
  candidate m job c t = record {
    slot = c.slot;
    pre_job_rank = rank_right job c.slot m.pre_job_rank;
    rank = job_rank job c.slot;
    post_job_rank = rank_right job c.slot m.post_job_rank;
    preempt_tier = t;
    preempt_rank =
        if t == no_preemption then f.preempt_rank_def else rank_right job c.slot m.preemption_rank;
    scan_index = c.idx;
  }

  -- The submitter-limit gate and the rank tuple, once the tier is known.
  finish :
      Config
      → ca.Ad
      → CandRef
      → MatchLimits
      → RejCounters
      → Tier
      → Option (Candidate f ca.Ad) × RejCounters
  finish m job c limits rej (skip rej') = (none, rej')
  finish m job c limits rej (tier t) =
      if submitter_limit_gate m t limits (slot_weight m c.slot)
      then (some (candidate m job c t), rej)
      else (none, record rej { submitter_limit = rej.submitter_limit + 1 })

  -- The candidate, unless it is filtered out, and the counters after it.
  unfoldable pub eval_candidate :
      Config
      → ca.Ad
      → MatchLimits
      → Bool
      → CandRef
      → RejCounters
      → Option (Candidate f ca.Ad) × RejCounters
  unfolding finish candidate_tier over_limit
  eval_candidate m job limits match_conc c rej =
      if not (ca.symmetry job c.slot)
      then (none, rej)
      else if over_limit match_conc job c.slot limits
      then (none, record rej { concurrency = rej.concurrency + 1 })
      else finish m job c limits rej (candidate_tier m job c.slot limits rej)

-- ===== src/Matchmaker/Match/Tests.antt =====
-- Runs of the matchmaker at single inputs. A rank is a natural number, and an ad is its own rank;
-- an ad of rank 0 matches no job.
use golang_collector.Base.{
  ℕ, ◌+◌, ◌≡◌, refl, ◌↔◌, true, false, none, some, List, [], ◌∷◌, ltb, leb, ◌==◌, arith, Somewhere,
  keep, not, ◌&&◌, if◌then◌else◌,
}
use golang_collector.Base.Int.{pos_part}
use golang_collector.Base.Text.{codes, text_eq, cut}
use golang_collector.Matchmaker.Floats.{Floats, IsOrdered, Classads, other_value, number_of}
use golang_collector.Matchmaker.Candidate.{Candidate, better}
use golang_collector.Matchmaker.Limits.Tokens.{HasRoom, reject_for_concurrency_limits_iff}
use golang_collector.Matchmaker.Limits.{
  ConcurrencyLimits, reject_for_concurrency_limits, valid_limit_name,
}
use golang_collector.Matchmaker.Eval.{
  Config, MatchLimits, CandRef, eval_candidate, submitter_limit_gate, slot_weight, candidate,
  rank_right, job_rank,
}
use golang_collector.Matchmaker.Eval.Gates.{Passes}
use golang_collector.Matchmaker.Shard.{parallel_scan, scan_range}
use golang_collector.Matchmaker.Shard.Serial.{parallel_scan-scan_range}
use golang_collector.Matchmaker.Shard.Winner.{yields, IsBest, parallel_scan-IsBest}
use golang_collector.Matchmaker.Match.{match, matched}
use golang_collector.Matchmaker.Match.Gates.{match-Passes}
use golang_collector.Matchmaker.SlotView.{SlotView, new_slot_view, consume, gather, flag}
use golang_collector.Matchmaker.SlotView.Live.{gather-consume}

abbrev pub naturals : Floats
naturals = record {
  R = ℕ;
  lt = ltb;
  le = leb;
  eq = ◌==◌;
  add = ◌+◌;
  zero = 0;
  one = 1;
  of_int = pos_part;
  parse_float = λ s. none;
  rank_unset = 0;
  preempt_rank_def = 0;
}

pub naturals-IsOrdered : IsOrdered naturals
naturals-IsOrdered = record {
  eq_sound = λ a b h. ground arith;
  eq_refl = λ a. ground arith;
  lt_irrefl = λ a. ground arith;
  lt_trans = λ a b c h k. ground arith;
  lt_total = λ a b h. ground arith;
}

abbrev pub ranks : Classads naturals
ranks = record {
  Ad = ℕ;
  Expr = ℕ;
  eval_string = λ ad attr. none;
  eval_attr = λ ad attr. other_value;
  has_attr = λ ad attr. false;
  symmetry = λ job slot. ltb 0 slot;
  eval_left = λ job slot attr. other_value;
  eval_right = λ job slot e. other_value;
  rank_left = λ job slot. some slot;
}

abbrev config : Config naturals ranks
config = record {
  pre_job_rank = none;
  post_job_rank = none;
  consider_preemption = false;
  preemption_req = none;
  preemption_rank = none;
  rank_cond_std = 0;
  rank_cond_prio_preempt = 0;
  workers = 3;
  use_slot_weights = true;
}

abbrev limits : MatchLimits naturals ranks
limits = record {
  submitter_limit = 5;
  limit_used = 1;
  submitter_limit_unclaimed = 5;
  limit_used_unclaimed = 1;
  only_for_startd_rank = false;
  submitter_name = codes "alice";
  concurrency = none;
}

abbrev slots : List (CandRef naturals ranks)
slots =
    record { idx = 0; slot = 2 }
    ∷ record { idx = 1; slot = 7 }
    ∷ record { idx = 2; slot = 0 }
    ∷ record { idx = 3; slot = 7 }
    ∷ record { idx = 4; slot = 3 }
    ∷ []

abbrev seven : Candidate naturals ℕ
seven = record {
  slot = 7;
  pre_job_rank = 0;
  rank = 7;
  post_job_rank = 0;
  preempt_tier = 2;
  preempt_rank = 0;
  scan_index = 1;
}

-- Of two slots of the same rank the first wins, also across the parts of three workers.
match_run : match naturals ranks config false (some 0) slots (some limits) ≡ matched seven
unfolding match parallel_scan eval_candidate submitter_limit_gate slot_weight candidate rank_right
    job_rank number_of better
match_run = refl

match-Passes_example : Somewhere (Passes naturals ranks config 0 limits seven) slots
match-Passes_example =
    match-Passes naturals naturals-IsOrdered ranks config 0 limits slots seven match_run

parallel_scan-scan_range_example :
    parallel_scan naturals ranks config limits false 0 slots
    ≡ scan_range naturals ranks config limits false 0 slots
parallel_scan-scan_range_example =
    parallel_scan-scan_range naturals naturals-IsOrdered ranks config limits false 0 slots

parallel_scan-IsBest_example :
    IsBest naturals naturals-IsOrdered
      (yields naturals naturals-IsOrdered ranks config limits false 0)
      slots
      (parallel_scan naturals ranks config limits false 0 slots).0
parallel_scan-IsBest_example =
    parallel_scan-IsBest naturals naturals-IsOrdered ranks config limits false 0 slots

abbrev weighing : Floats
weighing = record naturals { parse_float = λ s. if text_eq s (codes "2") then some 2 else none }

abbrev seats : ConcurrencyLimits weighing
seats = record { usage = λ name. 1; max = λ name. 3 }

reject_for_concurrency_limits_iff_example :
    ((reject_for_concurrency_limits weighing (codes "db,Sw.a:9") seats ≡ none) ↔ (
      (reject_for_concurrency_limits weighing (codes "db") seats ≡ none)
      × (reject_for_concurrency_limits weighing (codes "Sw.a:9") seats ≡ none)))
    × ((reject_for_concurrency_limits weighing (codes "sw.a") seats ≡ none)
        ↔ HasRoom weighing seats (codes "sw.a") 1)
    × ((reject_for_concurrency_limits weighing (codes "sw.a:2") seats ≡ none)
        ↔ HasRoom weighing seats (codes "sw.a") 2)
unfolding valid_limit_name cut
reject_for_concurrency_limits_iff_example =
    reject_for_concurrency_limits_iff weighing seats (codes "db") (codes "Sw.a:9") (codes "sw.a")
      (codes "2") 2 refl refl refl refl refl refl

-- Three slots, of which the second is partitionable.
abbrev view : SlotView ℕ
view = new_slot_view (λ s. s == 7) (2 ∷ 7 ∷ 3 ∷ []) none

gather-consume_example : gather (consume view 0) ≡ (
    if flag view.live 0 && not (flag view.pslot 0)
    then keep (λ c. not (c.0 == 0)) (gather view)
    else gather view)
gather-consume_example = gather-consume view 0

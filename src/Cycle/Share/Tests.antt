-- ===== src/Cycle/Share/Tests.antt =====
-- Runs of the shares and the order of the submitters, over natural numbers.
use golang_collector.Base.{
  ℕ, ◌≡◌, refl, true, false, List, [], ◌∷◌, keep, length, ◌-◌, ◌*◌, ◌/◌, ◌&&◌, any, All, ltb,
}
use golang_collector.Base.Int.{ℤ, pos}
use golang_collector.Base.Text.{Text, codes}
use golang_collector.Matchmaker.Match.Tests.{naturals, naturals-IsOrdered}
use golang_collector.Cycle.Share.{
  Arithmetic, SubState, RoundInfo, Accounts, SpinEnv, calculate_submitter_limit, sort_submitters,
}
use golang_collector.Cycle.Share.Bounds.{headroom, calculate_submitter_limit-within}
use golang_collector.Cycle.Share.Order.{InOrder, ByPrio, sort_submitters-ByPrio}
use golang_collector.Cycle.Share.Insertion.{insertion_sort, insertion_sort-IsSort}
use golang_collector.Cycle.JobPrio.{consolidate_job_prios}
use golang_collector.Cycle.JobPrio.Runs.{Separate, covers, consolidate_job_prios-Separate}

abbrev pub whole_numbers : Arithmetic naturals
whole_numbers = record {
  minus = ◌-◌;
  times = ◌*◌;
  divide = ◌/◌;
  max_float64 = 1000000;
  min_float64 = 0;
  max_float32 = 100000;
}

abbrev pub books : Accounts naturals
books = record {
  priority = λ name. 2;
  weighted_used = λ name. 1;
  floor = λ name. 3;
  ceiling = λ name. 50;
}

abbrev pub group : RoundInfo naturals
group = record { name = codes "physics"; quota = 8; is_floor = true }

abbrev env : SpinEnv naturals
env = record {
  first_spin = true;
  groupusage = 2;
  max_prio = 2;
  normal_factor = 1;
  slot_weight_total = 8;
  pie_left = 8;
  prio = λ name. 2;
  ignore_submitter_limit = false;
}

calculate_submitter_limit-within_example :
    (naturals.lt
        (headroom naturals naturals-IsOrdered whole_numbers group env)
        (calculate_submitter_limit naturals whole_numbers false books group env true
          (codes "u")).limit_unclaimed
      ≡ false)
    × (true
          && naturals.lt
              (headroom naturals naturals-IsOrdered whole_numbers group env)
              (calculate_submitter_limit naturals whole_numbers false books group env true
                (codes "u")).limit
        ≡ false)
    × (true
          && naturals.lt 3
              (calculate_submitter_limit naturals whole_numbers false books group env true
                (codes "u")).limit
        ≡ false)
calculate_submitter_limit-within_example =
    calculate_submitter_limit-within naturals naturals-IsOrdered whole_numbers false true books
      group env (codes "u") refl

abbrev pub submitter : Text → ℤ → ℕ → SubState naturals ℕ
submitter name prio i = record {
  name = name;
  schedd_name = codes "s";
  schedd_addr = codes "<a>";
  idle_jobs = pos 4;
  last_heard = pos 100;
  orig_idx = i;
  starvation = 0;
  time_used = pos 0;
  job_prio = prio;
  job_prio_min = prio;
  job_prio_max = prio;
  has_job_prio_array = true;
  session = 0;
}

abbrev submitters : List (SubState naturals ℕ)
submitters =
    submitter (codes "u") (pos 1) 0
    ∷ submitter (codes "v") (pos 5) 1
    ∷ submitter (codes "u") (pos 9) 2
    ∷ []

sort_submitters-ByPrio_example :
    InOrder naturals naturals-IsOrdered
      (ByPrio naturals naturals-IsOrdered true (λ name. 2))
      (sort_submitters naturals (insertion_sort naturals) true (λ name. 2) submitters)
    × (length (
          keep
            (λ s. ltb 1 s.orig_idx)
            (sort_submitters naturals (insertion_sort naturals) true (λ name. 2) submitters))
        ≡ length (keep (λ s. ltb 1 s.orig_idx) submitters))
sort_submitters-ByPrio_example =
    sort_submitters-ByPrio naturals naturals-IsOrdered (insertion_sort naturals)
      (insertion_sort-IsSort naturals naturals-IsOrdered) true (λ name. 2) (λ s. ltb 1 s.orig_idx)
      submitters

consolidate_job_prios-Separate_example :
    Separate naturals (consolidate_job_prios naturals submitters)
    × All
        (λ x. any (covers naturals x) (consolidate_job_prios naturals submitters) ≡ true)
        submitters
consolidate_job_prios-Separate_example = consolidate_job_prios-Separate naturals submitters

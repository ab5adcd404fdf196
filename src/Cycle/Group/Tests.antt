-- ===== src/Cycle/Group/Tests.antt =====
-- Runs of the spins of a group, over natural numbers: the state is the number of free slots.
use golang_collector.Base.{ℕ, zero, suc, ◌-◌, ◌≡◌, refl, true, false, List, [], ◌∷◌}
use golang_collector.Base.Int.{pos}
use golang_collector.Base.Text.{codes}
use golang_collector.Matchmaker.Match.Tests.{naturals}
use golang_collector.Cycle.Submitter.{MmResult, mm_resume, mm_done}
use golang_collector.Cycle.Share.{SubState, SpinEnv, RoundInfo}
use golang_collector.Cycle.Share.Tests.{whole_numbers, books, submitter}
use golang_collector.Cycle.Share.Insertion.{insertion_sort}
use golang_collector.Cycle.Group.{Knobs, Outside, run_subs}
use golang_collector.Cycle.Group.Halted.{only_ended, run_subs-quota_met}

abbrev knobs : Knobs naturals whole_numbers
knobs = record {
  consider_preemption = false;
  want_global_job_prio = true;
  max_time_per_cycle = pos 100;
  max_time_per_submitter = pos 50;
  max_time_per_spin = pos 20;
}

-- One slot is matched, if one is free.
abbrev one_match :
    SpinEnv naturals → SubState naturals ℕ → ℕ → MmResult × (SubState naturals ℕ × (ℕ × ℕ))
one_match env sub zero = (mm_done, (sub, (env.pie_left, zero)))
one_match env sub (suc free) = (mm_resume, (sub, (env.pie_left - 1, free)))

abbrev outside : Outside naturals whole_numbers ℕ ℕ
outside = record {
  cancelled = λ free. false;
  now = λ free. pos 10;
  cycle_start = pos 0;
  untrimmed_total = 6;
  min_slot_weight = 1;
  accounts = λ free. books;
  slots_left = λ free. free;
  set_submitter_share = λ name share limit free. free;
  slice_stable = insertion_sort naturals;
  prefetch = λ subs free. (subs, free);
  negotiate = λ terms env sub free. one_match env sub free;
  end_round = λ broken sub free. (sub, free);
}

abbrev everyone : List (SubState naturals ℕ)
everyone = submitter (codes "u") (pos 1) 0 ∷ submitter (codes "v") (pos 5) 1 ∷ []

-- The group uses as much as its quota.
abbrev full_group : RoundInfo naturals
full_group = record { name = codes "physics"; quota = 1; is_floor = false }

abbrev spinning : SpinEnv naturals
spinning = record {
  first_spin = true;
  groupusage = 8;
  max_prio = 2;
  normal_factor = 1;
  slot_weight_total = 8;
  pie_left = 4;
  prio = λ name. 2;
  ignore_submitter_limit = false;
}

run_subs-quota_met_example :
    run_subs naturals whole_numbers knobs outside full_group spinning false 4 0 everyone 3
    ≡ only_ended naturals whole_numbers knobs outside full_group 4 0 everyone 3
run_subs-quota_met_example =
    run_subs-quota_met naturals whole_numbers knobs outside full_group spinning false 4 0 everyone 3
      refl refl refl refl

-- ===== src/Cycle/Group.antt =====
-- negotiator/cycle/spin.go: the spins of a group over its submitters. The negotiation with one submitter
-- and its session are given by their operations.
pub mod Halted
pub mod Tests
use golang_collector.Base.{
  ℕ, zero, suc, ◌+◌, ◌==◌, Bool, true, false, not, ◌&&◌, ◌||◌, Option, none, some, List, [], ◌∷◌,
  any, ltb, length, if◌then◌else◌,
}
use golang_collector.Base.Int.{ℤ, pos, ltb_int, ◌-ℤ◌}
use golang_collector.Base.Text.{Text, text_eq, is_empty}
use golang_collector.Matchmaker.Floats.{Floats}
use golang_collector.Cycle.Submitter.{MmResult, mm_resume, mm_done, mm_error}
use golang_collector.Cycle.Share.{
  Arithmetic, SubState, RoundInfo, Accounts, SpinEnv, Limits, at_most, at_least, normalize,
  calculate_submitter_limit, calculate_pie_left, Sort, sort_submitters, filter_idle,
}
use golang_collector.Cycle.JobPrio.{consolidate_job_prios}

module _ (f : Floats) (ar : Arithmetic f) where
  pub record Knobs : Type 0 where
    pub consider_preemption : Bool
    pub want_global_job_prio : Bool
    -- Durations.
    pub max_time_per_cycle : ℤ
    pub max_time_per_submitter : ℤ
    pub max_time_per_spin : ℤ

  -- The limits that a negotiation with a submitter is given.
  pub record Terms : Type 0 where
    pub prio : f.R
    pub limit : f.R
    pub limit_unclaimed : f.R
    pub headroom : f.R
    pub deadline : ℤ

  -- What the spins call: `W` is the state of the sessions, the slots, the clock and the accountant.
  pub record Outside (X W : Type 0) : Type 0 where
    pub cancelled : W → Bool
    pub now : W → ℤ
    pub cycle_start : ℤ
    pub untrimmed_total : f.R
    pub min_slot_weight : f.R
    pub accounts : W → Accounts f
    pub slots_left : W → ℕ
    pub set_submitter_share : Text → f.R → f.R → W → W
    -- sort.SliceStable, on submitters.
    pub slice_stable : Sort f X
    pub prefetch : List (SubState f X) → W → List (SubState f X) × W
    -- `negotiateSubmitter`: the result, the submitter, what is left of the pie and the state after it.
    pub negotiate : Terms → SpinEnv f → SubState f X → W → MmResult × (SubState f X × (f.R × W))
    pub end_round : Bool → SubState f X → W → SubState f X × W

  pub record Stats : Type 0 where
    pub pies : ℕ
    pub pie_spins : ℕ
    pub submitters_failed : ℕ
    pub submitters_out_of_time : ℕ
    pub schedds_out_of_time : ℕ

  module _ {X W : Type 0} (knobs : Knobs) (out : Outside X W) (ri : RoundInfo f) where
    abbrev min_duration : ℤ → ℤ → ℤ
    min_duration a b = if ltb_int a b then a else b

    -- The test of a duration `<= 0`.
    abbrev spent : ℤ → Bool
    spent d = not (ltb_int (pos 0) d)

    unfoldable pub headroom_of : Accounts f → Text → f.R
    headroom_of acct name =
        if f.le f.zero (acct.ceiling name)
        then at_least f f.zero (ar.minus (acct.ceiling name) (acct.weighted_used name))
        else ar.max_float64

    -- The result of a submitter, itself, the pie and the state after it.
    abbrev pub Negotiated : Type 0
    Negotiated = MmResult × (SubState f X × (f.R × W))

    abbrev is_error : MmResult → Bool
    is_error mm_error = true
    is_error _ = false

    -- The round is closed.
    unfoldable pub closed : Negotiated → Negotiated
    closed (result, (sub, (pie, w))) =
        let ended = out.end_round (is_error result) sub w in (result, (ended.0, (pie, ended.1)))

    -- The time that the negotiation took is added to the submitter's.
    abbrev pub timed : ℤ → Negotiated → Negotiated
    timed start (result, (sub, (pie, w))) =
        (result, (record sub { time_used = sub.time_used -ℤ (start -ℤ out.now w) }, (pie, w)))

    abbrev pub terms_of : Limits f → f.R → f.R → ℤ → Terms
    terms_of l limit headroom deadline = record {
      prio = l.prio;
      limit = limit;
      limit_unclaimed = l.limit_unclaimed;
      headroom = headroom;
      deadline = deadline;
    }

    -- The switch of `negotiateOne`: out of jobs or time, too little for this spin, or the ceiling is
    -- reached, before a negotiation.
    unfoldable pub attempt : Bool → Bool → Bool → SubState f X → f.R → W → Negotiated → Negotiated
    attempt finished too_little at_ceiling sub pie w negotiated =
        if finished
        then (mm_done, (sub, (pie, w)))
        else if too_little
        then (mm_resume, (sub, (pie, w)))
        else if at_ceiling
        then (mm_done, (sub, (pie, w)))
        else negotiated

    -- `negotiateOne`
    unfoldable pub negotiate_one : SpinEnv f → SubState f X → W → Negotiated
    negotiate_one env sub w0 =
        let l =
          calculate_submitter_limit f ar knobs.consider_preemption (out.accounts w0) ri env
            ri.is_floor sub.name in
        let w =
          if env.first_spin
          then out.set_submitter_share sub.name l.share (ar.times l.share env.slot_weight_total) w0
          else w0 in
        let limit = at_most f env.pie_left l.limit in
        let headroom = headroom_of (out.accounts w) sub.name in
        let now = out.now w in
        let remaining_cycle = knobs.max_time_per_cycle -ℤ (now -ℤ out.cycle_start) in
        let remaining_submitter = knobs.max_time_per_submitter -ℤ sub.time_used in
        let allowed =
          min_duration knobs.max_time_per_spin (min_duration remaining_cycle remaining_submitter) in
        let terms = terms_of l limit headroom (now -ℤ (pos 0 -ℤ allowed)) in
        closed (
          attempt (spent sub.idle_jobs || spent remaining_submitter || spent remaining_cycle)
            (not env.first_spin
              && (f.lt limit out.min_slot_weight || f.lt env.pie_left out.min_slot_weight))
            (f.le headroom f.zero || f.lt headroom out.min_slot_weight) sub env.pie_left w
            (timed now (out.negotiate terms env sub w)))

    -- The group has reached its quota.
    unfoldable pub quota_met : W → Bool
    quota_met w = f.le ri.quota ((out.accounts w).weighted_used ri.name)

    -- The state in the midst of a spin: the submitters that stay, the pie, the outside, the failures.
    pub record Spin : Type 0 where
      pub next : List (SubState f X)
      pub pie : f.R
      pub world : W
      pub failed : ℕ

    abbrev pub add_kept : SubState f X → Spin → Spin
    add_kept sub s = record s { next = sub ∷ s.next }

    -- A submitter that resumes stays; one that is done or failed is removed.
    unfoldable pub on_result : Negotiated → (ℕ → Spin) → ℕ → Spin
    on_result (mm_resume, (sub, rest)) go_on n = add_kept sub (go_on n)
    on_result (mm_done, rest) go_on n = go_on n
    on_result (mm_error, rest) go_on n = go_on (suc n)

    -- The submitters of a spin, in order. `halted`: the group met its quota.
    unfoldable pub run_subs : SpinEnv f → Bool → f.R → ℕ → List (SubState f X) → W → Spin
    unfolding quota_met
    run_subs env halted pie n [] w = record { next = []; pie = pie; world = w; failed = n }
    run_subs env halted pie n (sub ∷ subs) w =
        let ended = out.end_round false sub w in
        let r = negotiate_one (record env { pie_left = pie }) sub w in
        elim (halted || out.cancelled w) [
          | true ↦ add_kept ended.0 (run_subs env halted pie n subs ended.1)
          | false ↦ elim (not env.ignore_submitter_limit && not (is_empty ri.name) && quota_met w) [
            | true ↦ add_kept ended.0 (run_subs env true pie n subs ended.1)
            | false ↦ on_result r (λ m. run_subs env halted r.1.1.0 m subs r.1.1.1) n
          ]
        ]

    -- All the submitters' rounds are closed, as broken, when the cycle is cancelled.
    end_all : List (SubState f X) → W → List (SubState f X) × W
    end_all [] w = ([], w)
    end_all (sub ∷ subs) w =
        let ended = out.end_round true sub w in
        let rest = end_all subs ended.1 in (ended.0 ∷ rest.0, rest.1)

    -- The distinct names of schedds that are not empty.
    schedds_of : List Text → List (SubState f X) → ℕ
    schedds_of seen [] = 0
    schedds_of seen (sub ∷ subs) =
        if is_empty sub.schedd_name || any (text_eq sub.schedd_name) seen
        then schedds_of seen subs
        else suc (schedds_of (sub.schedd_name ∷ seen) subs)

    pub record Group : Type 0 where
      pub subs : List (SubState f X)
      pub world : W
      pub stats : Stats

    new_env : Bool → Accounts f → SpinEnv f
    new_env first acct = record {
      first_spin = first;
      groupusage = if is_empty ri.name then f.zero else acct.weighted_used ri.name;
      max_prio = f.zero;
      normal_factor = f.zero;
      slot_weight_total = at_most f ri.quota out.untrimmed_total;
      pie_left = f.zero;
      prio = acct.priority;
      ignore_submitter_limit = first && knobs.consider_preemption;
    }

    -- The environment of a spin over the submitters, and the submitters with their starvation.
    unfoldable pub spin_env : Bool → List (SubState f X) → W → SpinEnv f × List (SubState f X)
    unfolding at_most new_env
    spin_env first subs w =
        let acct = out.accounts w in
        let env = normalize f ar subs (new_env first acct) in
        let pie = calculate_pie_left f ar knobs.consider_preemption acct ri env f.zero subs in
        (record env { pie_left = pie.0 }, pie.1)

    -- The submitters of the first spin, sorted and consolidated.
    unfoldable pub arrange : Bool → SpinEnv f → List (SubState f X) → List (SubState f X)
    arrange first env subs =
        let sorted = sort_submitters f out.slice_stable knobs.want_global_job_prio env.prio subs in
        if not first
        then subs
        else if knobs.want_global_job_prio
        then consolidate_job_prios f sorted
        else sorted

    -- The submitters that take part in a spin.
    unfoldable pub idle_only : List (SubState f X) → List (SubState f X)
    idle_only subs = if knobs.consider_preemption then subs else filter_idle f subs

    -- The group's quota ends the spins, before one starts.
    unfoldable pub quota_halt : Bool → W → Bool
    unfolding quota_met
    quota_halt first w =
        not (first && knobs.consider_preemption) && not (is_empty ri.name) && quota_met w

    -- A spin over the submitters, who are some, in its environment.
    unfoldable pub spin : Bool → SpinEnv f → List (SubState f X) → W → Spin
    unfolding arrange
    spin first env subs w =
        let ready = out.prefetch (arrange first env subs) w in
        run_subs env false env.pie_left 0 ready.0 ready.1

    -- The number of submitters that a spin starts with.
    unfoldable pub spin_size : Bool → SpinEnv f → List (SubState f X) → ℕ
    unfolding arrange
    spin_size first env subs = length (arrange first env subs)

    -- Another spin follows: there was progress, submitters and slots are left, and this is no floor
    -- round.
    unfoldable pub goes_on : f.R → ℕ → Spin → Bool
    goes_on pie n s =
        (f.lt s.pie pie || ltb (length s.next) n)
        && not (length s.next == 0)
        && not (out.slots_left s.world == 0)
        && not ri.is_floor

    abbrev pub after : Stats → Spin → Group
    after stats s = record {
      subs = s.next;
      world = s.world;
      stats = record stats { submitters_failed = stats.submitters_failed + s.failed };
    }

    -- A turn of the loop ends it, cancelled or not, or another spin follows.
    pub data GroupTurn : Type 0 where
      finish : Bool → Group → GroupTurn
      again : Group → GroupTurn

    unfoldable pub abandoned : Group → Group
    unfolding end_all schedds_of
    abandoned g =
        let ended = end_all g.subs g.world in
        record {
          subs = ended.0;
          world = ended.1;
          stats = record g.stats {
            submitters_out_of_time = g.stats.submitters_out_of_time + length g.subs;
            schedds_out_of_time = g.stats.schedds_out_of_time + schedds_of [] g.subs;
          };
        }

    unfoldable pub group_turn : Bool → Group → GroupTurn
    group_turn first g =
        let subs = idle_only g.subs in
        let env = (spin_env first subs g.world).0 in
        let stamped = (spin_env first subs g.world).1 in
        let s = spin first env stamped g.world in
        let counted = record g.stats { pie_spins = suc g.stats.pie_spins } in
        elim (out.cancelled g.world) [
          | true ↦ finish true (abandoned g)
          | false ↦ elim (quota_halt first g.world) [
            | true ↦ finish false (record g { stats = counted })
            | false ↦
                elim (length subs == 0
                  || not knobs.consider_preemption && f.le env.pie_left f.zero) [
                    | true ↦ finish false (record g { subs = subs; stats = counted })
                    | false ↦ elim (goes_on env.pie_left (spin_size first env stamped) s) [
                      | false ↦ finish false (after counted s)
                      | true ↦ again (after counted s)
                    ]
                  ]
          ]
        ]

    -- The loop of `negotiateWithGroup`; the first result is `true` if the cycle was cancelled, and
    -- `none` is out of fuel.
    unfoldable pub spin_all : ℕ → Bool → Group → Option (Bool × Group)
    unfolding group_turn
    spin_all zero first g = none
    spin_all (suc fuel) first g = elim (group_turn first g) [
      | finish cancelled l ↦ some (cancelled, l)
      | again rest ↦ spin_all fuel false rest
    ]

    -- `negotiateWithGroup`: a round that is no floor round counts as a pie.
    unfoldable pub negotiate_with_group : ℕ → Group → Option (Bool × Group)
    unfolding spin_all
    negotiate_with_group fuel g = spin_all fuel true (record g {
      stats = if ri.is_floor then g.stats else record g.stats { pies = suc g.stats.pies };
    })

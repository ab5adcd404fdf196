-- ===== src/Cycle/Share/Bounds.antt =====
-- negotiator/cycle/spin.go: the bounds on a submitter's limit.
use golang_collector.Base.{◌≡◌, refl, Bool, true, false, not, ◌&&◌, if◌then◌else◌, arith}
use golang_collector.Base.Text.{Text, is_empty}
use golang_collector.Matchmaker.Floats.{Floats, IsOrdered}
use golang_collector.Cycle.Share.{
  Arithmetic, RoundInfo, Accounts, SpinEnv, at_most, at_least, calculate_submitter_limit,
}

module _ (f : Floats) (ordered : IsOrdered f) where
  at_most-le : (bound x : f.R) → f.lt bound (at_most f bound x) ≡ false
  unfolding at_most
  at_most-le bound x = ground (arith, ordered.lt_irrefl bound)

  -- A bound on `x` is one on what a cut leaves of it.
  at_most-keeps :
      (bound other x : f.R) → f.lt other x ≡ false → f.lt other (at_most f bound x) ≡ false
  unfolding at_most
  at_most-keeps bound other x h = ground (arith, ordered.lt_trans other bound x)

  cut_to : Bool → Bool → f.R → f.R → f.R → f.R
  cut_to preempt is_floor room low fair =
      let limit = if preempt then fair else at_most f room fair in
      if is_floor then at_most f low limit else limit

  cut_to-le :
      (preempt is_floor : Bool) (room low fair : f.R)
      → (not preempt && f.lt room (cut_to preempt is_floor room low fair) ≡ false)
        × (is_floor && f.lt low (cut_to preempt is_floor room low fair) ≡ false)
  unfolding cut_to
  cut_to-le true true room low fair = (refl, at_most-le low fair)
  cut_to-le true false room low fair = (refl, refl)
  cut_to-le false true room low fair = (
    at_most-keeps low room (at_most f room fair) (at_most-le room fair),
    at_most-le low (at_most f room fair),
  )
  cut_to-le false false room low fair = (at_most-le room fair, refl)

  module _ (ar : Arithmetic f) where
    -- What is left of the quota of a group.
    abbrev pub headroom : RoundInfo f → SpinEnv f → f.R
    headroom ri env = at_least f f.zero (ar.minus ri.quota env.groupusage)

    -- In a group, the limit of a submitter on unclaimed slots is within what is left of the group's
    -- quota; without preemption the whole limit is, and in a floor round it is within the submitter's
    -- floor, too.
    pub calculate_submitter_limit-within :
        (preempt is_floor : Bool) (acct : Accounts f) (ri : RoundInfo f) (env : SpinEnv f)
        (name : Text)
        → is_empty ri.name ≡ false
        → (f.lt
              (headroom ri env)
              (calculate_submitter_limit f ar preempt acct ri env is_floor name).limit_unclaimed
            ≡ false)
          × (not preempt
                && f.lt
                    (headroom ri env)
                    (calculate_submitter_limit f ar preempt acct ri env is_floor name).limit
              ≡ false)
          × (is_floor
                && f.lt
                    (acct.floor name)
                    (calculate_submitter_limit f ar preempt acct ri env is_floor name).limit
              ≡ false)
    unfolding calculate_submitter_limit cut_to
    calculate_submitter_limit-within preempt is_floor acct ri env name h =
        let share = ar.divide env.max_prio (ar.times (env.prio name) env.normal_factor) in
        let fair =
          at_least f f.zero
            (ar.minus (ar.times share env.slot_weight_total) (acct.weighted_used name)) in
        let (p, q) = cut_to-le preempt is_floor (headroom ri env) (acct.floor name) fair in
        rw h (at_most-le (headroom ri env) fair, p, q)

-- ===== src/Cycle/Share.antt =====
-- negotiator/cycle/spin.go: the submitters of a spin, their shares of the pie and their order. The
-- arithmetic of float64 and the accountant's figures are parameters.
pub mod Bounds
pub mod Order
pub mod Insertion
pub mod Tests
use golang_collector.Base.{
  ℕ, zero, suc, ◌%◌, ◌-◌, Bool, true, false, not, ◌&&◌, ◌||◌, Option, none, some, List, [], ◌∷◌,
  any, ltb, is_some, ◌==◌, if◌then◌else◌,
}
use golang_collector.Base.Int.{ℤ, pos, negsuc, ltb_int, eq_int}
use golang_collector.Base.Text.{Text, text_eq, is_empty}
use golang_collector.Matchmaker.Floats.{Floats}

-- `%` of Go, which has the sign of the dividend.
abbrev pub mod_1009 : ℤ → ℤ
mod_1009 (pos n) = pos (n % 1009)
mod_1009 (negsuc n) = if suc n % 1009 == 0 then pos 0 else negsuc (suc n % 1009 - 1)

module _ (f : Floats) where
  -- The operations of float64 beyond those of the matchmaker.
  pub record Arithmetic : Type 0 where
    pub minus : f.R → f.R → f.R
    pub times : f.R → f.R → f.R
    pub divide : f.R → f.R → f.R
    pub max_float64 : f.R
    pub min_float64 : f.R
    pub max_float32 : f.R

  -- subState: `X` is its session and what goes with it.
  pub record SubState (X : Type 0) : Type 0 where
    pub name : Text
    pub schedd_name : Text
    pub schedd_addr : Text
    pub idle_jobs : ℤ
    pub last_heard : ℤ
    pub orig_idx : ℕ
    pub starvation : f.R
    pub time_used : ℤ
    pub job_prio : ℤ
    pub job_prio_min : ℤ
    pub job_prio_max : ℤ
    pub has_job_prio_array : Bool
    pub session : X

  -- roundInfo, as far as the limits read it.
  pub record RoundInfo : Type 0 where
    pub name : Text
    pub quota : f.R
    pub is_floor : Bool

  -- What the accountant knows of a submitter.
  pub record Accounts : Type 0 where
    pub priority : Text → f.R
    pub weighted_used : Text → f.R
    pub floor : Text → f.R
    pub ceiling : Text → f.R

  -- spinEnv: `prio` has the priorities read at the start of the spin.
  pub record SpinEnv : Type 0 where
    pub first_spin : Bool
    pub groupusage : f.R
    pub max_prio : f.R
    pub normal_factor : f.R
    pub slot_weight_total : f.R
    pub pie_left : f.R
    pub prio : Text → f.R
    pub ignore_submitter_limit : Bool

  -- The results of `calculateSubmitterLimit`.
  pub record Limits : Type 0 where
    pub limit : f.R
    pub limit_unclaimed : f.R
    pub share : f.R
    pub usage : f.R
    pub prio : f.R

  -- `if x > bound { x = bound }` and `if x < bound { x = bound }`
  unfoldable pub at_most : f.R → f.R → f.R
  at_most bound x = if f.lt bound x then bound else x

  unfoldable pub at_least : f.R → f.R → f.R
  at_least bound x = if f.lt x bound then bound else x

  module _ (ar : Arithmetic) where
    unfoldable pub calculate_submitter_limit :
        Bool → Accounts → RoundInfo → SpinEnv → Bool → Text → Limits
    unfolding at_most at_least
    calculate_submitter_limit consider_preemption acct ri env is_floor_round name =
        let prio = env.prio name in
        let usage = acct.weighted_used name in
        let share = ar.divide env.max_prio (ar.times prio env.normal_factor) in
        let fair = at_least f.zero (ar.minus (ar.times share env.slot_weight_total) usage) in
        let unclaimed =
          if is_empty ri.name
          then fair
          else at_most (at_least f.zero (ar.minus ri.quota env.groupusage)) fair in
        let limit = if consider_preemption then fair else unclaimed in
        record {
          limit = if is_floor_round then at_most (acct.floor name) limit else limit;
          limit_unclaimed = unclaimed;
          share = share;
          usage = usage;
          prio = prio;
        }

    unfoldable pub starvation_ratio : f.R → f.R → f.R
    starvation_ratio usage allocated =
        if f.lt f.zero allocated then ar.divide usage allocated else ar.max_float32

    module _ {X : Type 0} where
      abbrev worst : (Text → f.R) → f.R → List (SubState X) → f.R
      worst prio acc [] = acc
      worst prio acc (sub ∷ subs) =
          worst prio (if f.lt acc (prio sub.name) then prio sub.name else acc) subs

      abbrev shares : (Text → f.R) → f.R → List Text → f.R → List (SubState X) → f.R
      shares prio max_prio seen acc [] = acc
      shares prio max_prio seen acc (sub ∷ subs) =
          if any (text_eq sub.name) seen
          then shares prio max_prio seen acc subs
          else shares prio max_prio (sub.name ∷ seen)
              (f.add acc (ar.divide max_prio (prio sub.name))) subs

      unfoldable pub max_prio_of : (Text → f.R) → List (SubState X) → f.R
      max_prio_of prio subs = worst prio ar.min_float64 subs

      unfoldable pub normal_factor_of : (Text → f.R) → List (SubState X) → f.R
      normal_factor_of prio subs = shares prio (max_prio_of prio subs) [] f.zero subs

      -- `calculateNormalizationFactor`
      unfoldable pub normalize : List (SubState X) → SpinEnv → SpinEnv
      unfolding max_prio_of normal_factor_of
      normalize subs env = record env {
        max_prio = max_prio_of env.prio subs;
        normal_factor = normal_factor_of env.prio subs;
      }

      -- `calculatePieLeft`: the sum of the limits, and the submitters with their starvation.
      unfoldable pub calculate_pie_left :
          Bool → Accounts → RoundInfo → SpinEnv → f.R → List (SubState X) → f.R × List (SubState X)
      unfolding calculate_submitter_limit starvation_ratio
      calculate_pie_left preempt acct ri env pie [] = (pie, [])
      calculate_pie_left preempt acct ri env pie (sub ∷ subs) =
          let l = calculate_submitter_limit preempt acct ri env false sub.name in
          let rest = calculate_pie_left preempt acct ri env (f.add pie l.limit) subs in
          (
            rest.0,
            record sub { starvation = starvation_ratio l.usage (f.add l.usage l.limit) } ∷ rest.1,
          )

  -- A sort of the submitters by a comparison, as sort.SliceStable is one.
  abbrev pub Sort : Type 0 → Type 0
  Sort X = (SubState X → SubState X → Bool) → List (SubState X) → List (SubState X)

  module _ {X : Type 0} where
    -- The order of `sortSubmitters`.
    unfoldable pub precedes : Bool → (Text → f.R) → SubState X → SubState X → Bool
    precedes want_job_prio prio a b =
        if not (f.eq (prio a.name) (prio b.name))
        then f.lt (prio a.name) (prio b.name)
        else if want_job_prio && not (eq_int a.job_prio b.job_prio)
        then ltb_int b.job_prio a.job_prio
        else if not (f.eq a.starvation b.starvation)
        then f.lt a.starvation b.starvation
        else if not (eq_int (mod_1009 a.last_heard) (mod_1009 b.last_heard))
        then ltb_int (mod_1009 a.last_heard) (mod_1009 b.last_heard)
        else ltb a.orig_idx b.orig_idx

    -- `sortSubmitters`
    unfoldable pub sort_submitters :
        Sort X → Bool → (Text → f.R) → List (SubState X) → List (SubState X)
    unfolding precedes
    sort_submitters slice_stable want_job_prio prio subs =
        slice_stable (precedes want_job_prio prio) subs

    unfoldable pub filter_idle : List (SubState X) → List (SubState X)
    filter_idle [] = []
    filter_idle (sub ∷ subs) =
        let rest = filter_idle subs in if ltb_int (pos 0) sub.idle_jobs then sub ∷ rest else rest

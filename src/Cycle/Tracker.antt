-- ===== src/Cycle/Tracker.antt =====
-- negotiator/cycle/limits.go: the cycle's view of the usage of the concurrency limits. The map of
-- usages is an association list in which the first entry of a name counts.
pub mod Charged
pub mod Tests
use golang_collector.Base.{Bool, ◌||◌, ◌==◌, Option, none, some, List, [], ◌∷◌, if◌then◌else◌}
use golang_collector.Base.Text.{Text, fields, text_eq, to_lower}
use golang_collector.Matchmaker.Floats.{Floats}
use golang_collector.Accountant.Limits.{parse_concurrency_limit}

unfoldable pub split_concurrency_limits : Text → List Text
split_concurrency_limits = fields (λ c. c == b',' || c == 32 || c == 9 || c == 10 || c == 13)

module _ (f : Floats) where
  -- What the tracker is made with; `none` is nil. The seed is a method of the accountant: it reads the
  -- accountant's counts, `W`, as they are when it is called.
  pub record Sources (W : Type 0) : Type 0 where
    pub seed : Option (W → Text → f.R)
    pub max : Option (Text → f.R)
    pub default_max : f.R

  abbrev pub Tracker : Type 0
  Tracker = List (Text × f.R)

  unfoldable pub value_at : Tracker → Text → Option f.R
  value_at [] name = none
  value_at ((key, v) ∷ rest) name = if text_eq key name then some v else value_at rest name

  module _ {W : Type 0} (src : Sources W) where
    abbrev pub base : W → Text → f.R
    base w name = elim src.seed [ none ↦ f.zero | some seed ↦ seed w name ]

    -- `Usage`
    unfoldable pub usage : W → Text → Tracker → f.R × Tracker
    unfolding value_at
    usage w name t = elim (value_at t (to_lower name)) [
      | some v ↦ (v, t)
      | none ↦ (base w (to_lower name), (to_lower name, base w (to_lower name)) ∷ t)
    ]

    -- `Max`
    unfoldable pub max_of : Text → f.R
    max_of name = elim src.max [ none ↦ src.default_max | some max ↦ max (to_lower name) ]

    -- One turn of the loop of `add`.
    unfoldable pub add_token : W → Text → Tracker → Tracker
    unfolding usage
    add_token w tok t = elim (parse_concurrency_limit f tok) [
      | none ↦ t
      | some (name, inc) ↦ let (v, t) = usage w name t in (name, f.add v inc) ∷ t
    ]

    abbrev pub add_tokens : W → List Text → Tracker → Tracker
    add_tokens w [] t = t
    add_tokens w (tok ∷ toks) t = add_tokens w toks (add_token w tok t)

    -- `add`; of the empty list of limits there is no token.
    unfoldable pub add : W → Text → Tracker → Tracker
    unfolding add_token split_concurrency_limits
    add w [] t = t
    add w (c ∷ limits) t = add_tokens w (split_concurrency_limits (to_lower (c ∷ limits))) t

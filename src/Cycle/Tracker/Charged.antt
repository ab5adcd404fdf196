-- ===== src/Cycle/Tracker/Charged.antt =====
-- negotiator/cycle/limits.go: a limit's usage is its base, as it was when the limit was first touched,
-- and what was charged since.
use golang_collector.Base.{
  ◌≡◌, ◌∙◌, inl, inr, refl, ap, Option, none, some, List, [], ◌∷◌, Option-cases, Bool-cases,
  if◌then◌else◌, arith,
}
use golang_collector.Base.Text.{Text, text_eq, text_eq_iff, to_lower, fields}
use golang_collector.Matchmaker.Floats.{Floats}
use golang_collector.Accountant.Limits.{parse_concurrency_limit, parse_concurrency_limit-to_lower}
use golang_collector.Cycle.Tracker.{
  Sources, Tracker, value_at, base, usage, add_token, add_tokens, add, split_concurrency_limits,
}

-- What happens to the tracker: a usage is read, a request is committed; and what happens beside it:
-- the accountant's counts change.
pub data Call (W : Type 0) : Type 0 where
  read : Text → Call W
  commit : Text → Call W
  moves : W → Call W

module _ (f : Floats) {W : Type 0} (src : Sources f W) where
  abbrev pub run : List (Call W) → W → Tracker f → W × Tracker f
  run [] w t = (w, t)
  run (read name ∷ calls) w t = run calls w (usage f src w name t).1
  run (commit limits ∷ calls) w t = run calls w (add f src w limits t)
  run (moves v ∷ calls) w t = run calls v t

  -- The usage of one limit: `none` until it is first touched, when it is the accountant's count.
  abbrev pub touch : Text → W → Option f.R → f.R
  touch name w none = base f src w name
  touch name w (some v) = v

  -- After one token, and after many.
  abbrev pub charge : Text → W → Option f.R → Text → Option f.R
  charge name w v tok = elim (parse_concurrency_limit f tok) [
    | none ↦ v
    | some (other, inc) ↦ if text_eq other name then some (f.add (touch name w v) inc) else v
  ]

  abbrev pub charge_all : Text → W → Option f.R → List Text → Option f.R
  charge_all name w v [] = v
  charge_all name w v (tok ∷ toks) = charge_all name w (charge name w v tok) toks

  -- The accountant's count of a limit at the first read or charge of it, with the weights of the
  -- committed requests that name it, in their order.
  abbrev pub charged : Text → W → Option f.R → List (Call W) → f.R
  charged name w v [] = touch name w v
  charged name w v (read other ∷ calls) =
      charged name w (if text_eq (to_lower other) name then some (touch name w v) else v) calls
  charged name w v (commit limits ∷ calls) =
      charged name w (charge_all name w v (split_concurrency_limits (to_lower limits))) calls
  charged name w v (moves u ∷ calls) = charged name u v calls

  usage-touch :
      (w : W) (t : Tracker f) (name : Text)
      → (usage f src w name t).0 ≡ touch (to_lower name) w (value_at f t (to_lower name))
  unfolding usage
  usage-touch w t name = elim (Option-cases (value_at f t (to_lower name))) [
    | inl e ↦ ground (arith, e)
    | inr (v, e) ↦ ground (arith, e)
  ]

  value_at-usage :
      (w : W) (t : Tracker f) (other name : Text)
      → value_at f (usage f src w other t).1 name ≡ (
          if text_eq (to_lower other) name
          then some (touch name w (value_at f t name))
          else value_at f t name)
  unfolding usage value_at
  value_at-usage w t other name = elim (Option-cases (value_at f t (to_lower other))) [
    | inl e ↦ ground (arith, e, text_eq_iff (to_lower other) name)
    | inr (v, e) ↦ ground (arith, e, text_eq_iff (to_lower other) name)
  ]

  first_charge :
      (w : W) (t : Tracker f) (other name : Text) (inc : f.R)
      → to_lower other ≡ other
      → value_at f ((other, f.add (usage f src w other t).0 inc) ∷ (usage f src w other t).1) name
        ≡ (if text_eq other name
            then some (f.add (touch name w (value_at f t name)) inc)
            else value_at f t name)
  unfolding value_at
  first_charge w t other name inc h = elim (Bool-cases (text_eq other name)) [
    | inl k ↦ rw k (
        ap (λ v. some (f.add v inc))
          (usage-touch w t other
            ∙ ap (λ n. touch n w (value_at f t n)) (h ∙ (text_eq_iff other name).0 k)))
    | inr k ↦ rw k (ground (arith, value_at-usage w t other name, h, k))
  ]

  value_at-add_token :
      (w : W) (t : Tracker f) (tok name : Text)
      → value_at f (add_token f src w tok t) name ≡ charge name w (value_at f t name) tok
  unfolding add_token
  value_at-add_token w t tok name = elim (Option-cases (parse_concurrency_limit f tok)) [
    | inl e ↦ ground (arith, e)
    | inr ((other, inc), e) ↦
        rw (e, add_token, charge)
          (first_charge w t other name inc (parse_concurrency_limit-to_lower f tok other inc e))
  ]

  value_at-add_tokens :
      (w : W) (toks : List Text) (t : Tracker f) (name : Text)
      → value_at f (add_tokens f src w toks t) name ≡ charge_all name w (value_at f t name) toks
  value_at-add_tokens w [] t name = refl
  value_at-add_tokens w (tok ∷ toks) t name =
      value_at-add_tokens w toks (add_token f src w tok t) name
      ∙ ap (λ v. charge_all name w v toks) (value_at-add_token w t tok name)

  value_at-add :
      (w : W) (limits : Text) (t : Tracker f) (name : Text)
      → value_at f (add f src w limits t) name
        ≡ charge_all name w (value_at f t name) (split_concurrency_limits (to_lower limits))
  unfolding add to_lower split_concurrency_limits fields
  value_at-add w [] t name = refl
  value_at-add w (c ∷ limits) t name =
      value_at-add_tokens w (split_concurrency_limits (to_lower (c ∷ limits))) t name

  abbrev Agrees : Text → List (Call W) → W → Tracker f → Type 0
  Agrees name calls w t =
      touch name (run calls w t).0 (value_at f (run calls w t).1 name)
      ≡ charged name w (value_at f t name) calls

  run-Agrees : (calls : List (Call W)) (w : W) (t : Tracker f) (name : Text) → Agrees name calls w t
  run-Agrees [] w t name = refl
  run-Agrees (read other ∷ calls) w t name =
      run-Agrees calls w (usage f src w other t).1 name
      ∙ ap (λ v. charged name w v calls) (value_at-usage w t other name)
  run-Agrees (commit limits ∷ calls) w t name =
      run-Agrees calls w (add f src w limits t) name
      ∙ ap (λ v. charged name w v calls) (value_at-add w limits t name)
  run-Agrees (moves u ∷ calls) w t name = run-Agrees calls u t name

  -- After any reads and commits on a new tracker, with the accountant's counts changing in between, the
  -- usage of a limit is the accountant's count at the first read or charge of that limit, or now if there
  -- was none, with the weight of each token that names it in the committed requests, added in their
  -- order: no later change of the accountant's counts is counted.
  pub usage-charged :
      (calls : List (Call W)) (w : W) (name : Text)
      → (usage f src (run calls w []).0 name (run calls w []).1).0
        ≡ charged (to_lower name) w none calls
  unfolding value_at
  usage-charged calls w name =
      usage-touch (run calls w []).0 (run calls w []).1 name ∙ run-Agrees calls w [] (to_lower name)

-- ===== src/Matchmaker/Limits.antt =====
-- negotiator/matchmaker/concurrency.go: the gate of the concurrency limits.
pub mod Tokens
use golang_collector.Base.{
  ℕ, ◌≡◌, ◌↔◌, Bool, true, false, ◌&&◌, ◌||◌, Option, none, some, List, [], ◌∷◌, ◌==◌, leb, All,
  Option-cases, inl, inr, arith, if◌then◌else◌,
}
use golang_collector.Base.Text.{Text, cut, fields, to_lower, trim_space}
use golang_collector.Matchmaker.Floats.{Floats}

abbrev alpha : ℕ → Bool
alpha c = c == b'_' || (leb b'a' c && leb c b'z') || (leb b'A' c && leb c b'Z')

attr_name_tail : Text → Bool
attr_name_tail [] = true
attr_name_tail (c ∷ s) = (alpha c || (leb b'0' c && leb c b'9')) && attr_name_tail s

unfoldable pub is_valid_attr_name : Text → Bool
unfolding attr_name_tail
is_valid_attr_name [] = false
is_valid_attr_name (c ∷ s) = alpha c && attr_name_tail s

unfoldable pub valid_limit_name : Text → Bool
unfolding is_valid_attr_name
valid_limit_name name = elim (cut b'.' name) [
  | none ↦ is_valid_attr_name name
  | some (prefix, suffix) ↦ is_valid_attr_name prefix && is_valid_attr_name suffix
]

abbrev pub separator : ℕ → Bool
separator c = c == b',' || c == 32 || c == 9 || c == 10 || c == 13

unfoldable pub split_limits : Text → List Text
split_limits = fields separator

module _ (f : Floats) where
  -- The live view that the cycle hands in.
  pub record ConcurrencyLimits : Type 0 where
    pub usage : Text → f.R
    pub max : Text → f.R

  abbrev or_one : Option f.R → f.R
  or_one none = f.one
  or_one (some r) = r

  -- The name and the increment, the name not yet in lower case.
  unfoldable pub split_weight : Text → Text × f.R
  split_weight s = elim (cut b':' s) [
    | none ↦ (s, f.one)
    | some (name, weight) ↦ (name, or_one (f.parse_float (trim_space weight)))
  ]

  -- `none` is the third result `false`.
  unfoldable pub parse_limit_token : Text → Option (Text × f.R)
  unfolding split_weight valid_limit_name
  parse_limit_token token =
      let (s, weight) = split_weight (trim_space token) in
      let increment = if f.le weight f.zero then f.one else weight in
      let name = to_lower (trim_space s) in
      if valid_limit_name name then some (name, increment) else none

  -- The test of one token; `some name` rejects.
  reject_token : ConcurrencyLimits → Text → Option Text
  unfolding parse_limit_token
  reject_token v tok = elim (parse_limit_token tok) [
    | none ↦ none
    | some (name, inc) ↦
        if f.lt (v.usage name) f.zero
        then some name
        else if f.lt (v.max name) (f.add (v.usage name) inc)
        then some name
        else none
  ]

  reject_loop : ConcurrencyLimits → List Text → Option Text
  reject_loop v [] = none
  reject_loop v (tok ∷ rest) = elim (reject_token v tok) [
    | some name ↦ some name
    | none ↦ reject_loop v rest
  ]

  -- `some name` is the result `true, name`.
  unfoldable pub reject_for_concurrency_limits : Text → ConcurrencyLimits → Option Text
  unfolding reject_loop reject_token split_limits
  reject_for_concurrency_limits limits v = reject_loop v (split_limits (to_lower limits))

  -- A token asks for no more of a limit than there is left.
  abbrev pub Fits : ConcurrencyLimits → Option (Text × f.R) → Type 0
  Fits v none = Unit
  Fits v (some (name, inc)) =
      (f.lt (v.usage name) f.zero ≡ false) × (f.lt (v.max name) (f.add (v.usage name) inc) ≡ false)

  unfoldable pub FitsAll : ConcurrencyLimits → Text → Type 0
  FitsAll v limits = All (λ tok. Fits v (parse_limit_token tok)) (split_limits (to_lower limits))

  reject_token-Fits :
      (v : ConcurrencyLimits) (tok : Text)
      → (reject_token v tok ≡ none) ↔ Fits v (parse_limit_token tok)
  unfolding reject_token
  reject_token-Fits v tok = elim (Option-cases (parse_limit_token tok)) [
    | inl e ↦ ground arith
    | inr ((name, inc), e) ↦ ground arith
  ]

  reject_loop-Fits :
      (v : ConcurrencyLimits) (toks : List Text)
      → (reject_loop v toks ≡ none) ↔ All (λ tok. Fits v (parse_limit_token tok)) toks
  unfolding reject_loop
  reject_loop-Fits v [] = ground arith
  reject_loop-Fits v (tok ∷ rest) =
      let (ok, back) = reject_token-Fits v tok in
      let (oks, backs) = reject_loop-Fits v rest in
      elim (Option-cases (reject_token v tok)) [
        | inl e ↦
            (λ h. (ok e, oks (rw (e, reject_loop) at h)), λ h. rw (e, reject_loop) (backs h.1))
        | inr (name, e) ↦ (λ h. absurd (ground arith), λ h. absurd (ground (arith, back h.0)))
      ]

  -- The gate lets a request pass exactly when every limit that it names, at the weight that it
  -- names, has room for it in the live view.
  pub reject_for_concurrency_limits-FitsAll :
      (limits : Text) (v : ConcurrencyLimits)
      → (reject_for_concurrency_limits limits v ≡ none) ↔ FitsAll v limits
  unfolding reject_for_concurrency_limits FitsAll
  reject_for_concurrency_limits-FitsAll limits v =
      reject_loop-Fits v (split_limits (to_lower limits))

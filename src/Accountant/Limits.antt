-- ===== src/Accountant/Limits.antt =====
-- negotiator/accountant/limits.go: the tokens of a list of concurrency limits.
use golang_collector.Base.{
  ℕ, ◌≡◌, Bool, true, false, ◌&&◌, ◌||◌, Option, none, some, [], ◌∷◌, ◌==◌, leb, Option-cases, inl,
  inr, arith, if◌then◌else◌,
}
use golang_collector.Base.Text.{Text, cut, to_lower, to_lower_idem, trim_space}
use golang_collector.Matchmaker.Floats.{Floats}

abbrev is_alpha : ℕ → Bool
is_alpha c = c == b'_' || (leb b'a' c && leb c b'z') || (leb b'A' c && leb c b'Z')

all_alphanumeric : Text → Bool
all_alphanumeric [] = true
all_alphanumeric (c ∷ s) = (is_alpha c || (leb b'0' c && leb c b'9')) && all_alphanumeric s

unfoldable pub is_attr_name : Text → Bool
unfolding all_alphanumeric
is_attr_name [] = false
is_attr_name (c ∷ s) = is_alpha c && all_alphanumeric s

unfoldable pub valid_name : Text → Bool
unfolding is_attr_name
valid_name name = elim (cut b'.' name) [
  | none ↦ is_attr_name name
  | some (prefix, suffix) ↦ is_attr_name prefix && is_attr_name suffix
]

module _ (f : Floats) where
  abbrev weight_of : Option f.R → f.R
  weight_of none = f.one
  weight_of (some r) = r

  abbrev positive : f.R → f.R
  positive r = if f.le r f.zero then f.one else r

  abbrev named : Text → f.R → Option (Text × f.R)
  named s increment =
      let name = to_lower (trim_space s) in if valid_name name then some (name, increment) else none

  -- `ParseConcurrencyLimit`; `none` is the third result `false`. An increment that is not positive is 1.
  unfoldable pub parse_concurrency_limit : Text → Option (Text × f.R)
  unfolding valid_name
  parse_concurrency_limit token =
      let s = trim_space token in
      elim (cut b':' s) [
        | none ↦ named s (positive f.one)
        | some (name, weight) ↦
            named name (positive (weight_of (f.parse_float (trim_space weight))))
      ]

  named_lower : (s n : Text) (w r : f.R) → named s w ≡ some (n, r) → to_lower n ≡ n
  named_lower s n w r h = ground (arith, h, to_lower_idem (trim_space s))

  -- The name of a limit is in lower case.
  pub parse_concurrency_limit-to_lower :
      (token name : Text) (r : f.R)
      → parse_concurrency_limit token ≡ some (name, r)
      → to_lower name ≡ name
  unfolding parse_concurrency_limit
  parse_concurrency_limit-to_lower token name r h =
      elim (Option-cases (cut b':' (trim_space token))) [
        | inl e ↦
            named_lower (trim_space token) name (positive f.one) r
              (rw (e, parse_concurrency_limit) at h)
        | inr ((s, w), e) ↦
            named_lower s name (positive (weight_of (f.parse_float (trim_space w)))) r
              (rw (e, parse_concurrency_limit) at h)
      ]

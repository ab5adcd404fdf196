-- ===== src/Matchmaker/Limits/Tokens.antt =====
-- negotiator/matchmaker/concurrency.go: lists of concurrency limits as they are written.
use mathlib.Core.Path.{subst}
use mathlib.Core.List.{append-nil, reverse, reverse-cons, reverse-reverse}
use golang_collector.Base.{
  ℕ, ◌≡◌, ◌∙◌, ◌↔◌, refl, ap, Bool, true, false, ◌&&◌, ◌||◌, none, some, List, [], ◌∷◌, ◌++◌, ◌==◌,
  leb, any, All, All-append, Bool-cases, inl, inr, arith,
}
use golang_collector.Base.Text.{
  Text, cut, fields, in_field, add_front, is_space, lower, to_lower, trim_left, trim_right,
  trim_space,
}
use golang_collector.Matchmaker.Floats.{Floats}
use golang_collector.Matchmaker.Limits.{
  ConcurrencyLimits, separator, split_limits, valid_limit_name, is_valid_attr_name, split_weight,
  parse_limit_token, Fits, FitsAll, reject_for_concurrency_limits,
  reject_for_concurrency_limits-FitsAll,
}

-- A byte that is a comma, a blank, a colon or an upper-case letter.
abbrev pub special : ℕ → Bool
special c = c == b',' || is_space c || c == b':' || (leb b'A' c && leb c b'Z')

any-append : (p : ℕ → Bool) (s t : Text) → any p (s ++ t) ≡ (any p s || any p t)
any-append p [] t = refl
any-append p (c ∷ s) t = ground (arith, any-append p s t)

any-reverse : (p : ℕ → Bool) (s : Text) → any p (reverse s) ≡ any p s
any-reverse p [] = refl
any-reverse p (c ∷ s) =
    ap (any p) (reverse-cons c s)
    ∙ ground (arith, any-append p (reverse s) (c ∷ []), any-reverse p s)

any_weaken :
    (p q : ℕ → Bool)
    → ((c : ℕ) → q c ≡ false → p c ≡ false)
    → (s : Text) → any q s ≡ false
    → any p s ≡ false
any_weaken p q h [] e = refl
any_weaken p q h (c ∷ s) e = ground (arith, h c, any_weaken p q h s, e)

to_lower_plain : (s : Text) → any special s ≡ false → to_lower s ≡ s
unfolding to_lower lower
to_lower_plain [] h = refl
to_lower_plain (c ∷ s) h = ground (arith, h, to_lower_plain s)

trim_left_plain : (s : Text) → any is_space s ≡ false → trim_left s ≡ s
unfolding trim_left
trim_left_plain [] h = refl
trim_left_plain (c ∷ s) h = ground (arith, h)

trim_space_plain : (s : Text) → any is_space s ≡ false → trim_space s ≡ s
unfolding trim_space trim_right
trim_space_plain s h =
    ap (λ t. reverse (trim_left (reverse t))) (trim_left_plain s h)
    ∙ ap reverse (trim_left_plain (reverse s) (any-reverse is_space s ∙ h))
    ∙ reverse-reverse s

cut_first : (c : ℕ) (s t : Text) → any (λ d. d == c) s ≡ false → cut c (s ++ c ∷ t) ≡ some (s, t)
unfolding cut
cut_first c [] t h = ground arith
cut_first c (d ∷ s) t h = ground (arith, h, cut_first c s t)

cut-none : (c : ℕ) (s : Text) → any (λ d. d == c) s ≡ false → cut c s ≡ none
unfolding cut
cut-none c [] h = refl
cut-none c (d ∷ s) h = ground (arith, h, cut-none c s)

fields_one :
    (sep : ℕ → Bool) (c : ℕ) (s : Text)
    → any sep (c ∷ s) ≡ false
    → fields sep (c ∷ s) ≡ (c ∷ s) ∷ []
unfolding fields
fields_one sep c [] h = ground (arith, h)
fields_one sep c (d ∷ s) h = ground (arith, h, fields_one sep d s)

add_front_starts :
    (c : ℕ) (ls : List Text) → (l : Text) × (rest : List Text) × (add_front c ls ≡ l ∷ rest)
add_front_starts c [] = (c ∷ [], [], refl)
add_front_starts c (l ∷ ls) = (c ∷ l, ls, refl)

-- A text that starts with no separator starts with a field.
fields_starts :
    (sep : ℕ → Bool) (c : ℕ) (s : Text)
    → sep c ≡ false
    → (l : Text) × (ls : List Text) × (fields sep (c ∷ s) ≡ l ∷ ls)
unfolding fields
fields_starts sep c s h = elim (Bool-cases (in_field sep s)) [
  | inr e ↦ (c ∷ [], fields sep s, ground (arith, h, e))
  | inl e ↦ let (l, ls, p) = add_front_starts c (fields sep s) in (l, ls, ground (arith, h, e, p))
]

fields-append :
    (sep : ℕ → Bool) (c : ℕ) (a b : Text)
    → sep c ≡ true
    → fields sep (a ++ c ∷ b) ≡ fields sep a ++ fields sep b
unfolding fields
fields-append sep c [] b h = ground (arith, h)
fields-append sep c (d ∷ []) b h = ground (arith, h)
fields-append sep c (d ∷ e ∷ a) b h = elim (Bool-cases (sep e)) [
  | inl k ↦ ground (arith, h, k, fields-append sep c (e ∷ a) b)
  | inr k ↦
      let (l, ls, p) = fields_starts sep e a k in
      ground (arith, h, k, p, fields-append sep c (e ∷ a) b)
]

to_lower-append : (s t : Text) → to_lower (s ++ t) ≡ to_lower s ++ to_lower t
unfolding to_lower
to_lower-append [] t = refl
to_lower-append (c ∷ s) t = ap (◌∷◌ (lower c)) (to_lower-append s t)

split_limits-comma :
    (a b : Text)
    → split_limits (to_lower (a ++ b',' ∷ b))
      ≡ split_limits (to_lower a) ++ split_limits (to_lower b)
unfolding split_limits to_lower lower
split_limits-comma a b =
    ap split_limits (to_lower-append a (b',' ∷ b))
    ∙ fields-append separator b',' (to_lower a) (to_lower b) refl

module _ (f : Floats) where
  All-split :
      {A : Type 0} (P : A → Type 0) (xs ys : List A) → All P (xs ++ ys) → All P xs × All P ys
  All-split P [] ys h = (tt, h)
  All-split P (x ∷ xs) ys (h, hs) = let (p, q) = All-split P xs ys hs in ((h, p), q)

  FitsAll-comma :
      (v : ConcurrencyLimits f) (a b : Text)
      → FitsAll f v (a ++ b',' ∷ b) ↔ (FitsAll f v a × FitsAll f v b)
  unfolding FitsAll
  FitsAll-comma v a b =
      let P : Text → Type 0 = λ tok. Fits f v (parse_limit_token f tok) in
      let xs = split_limits (to_lower a) in
      let ys = split_limits (to_lower b) in
      (
        λ h. All-split P xs ys (rw (split_limits-comma a b) at h),
        λ h. rw (split_limits-comma a b) (All-append P xs ys h.0 h.1),
      )

  space_plain : (s : Text) → any special s ≡ false → any is_space s ≡ false
  space_plain = any_weaken is_space special (λ c h. ground (arith, h))

  colon_plain : (s : Text) → any special s ≡ false → any (λ d. d == b':') s ≡ false
  colon_plain = any_weaken (λ d. d == b':') special (λ c h. ground (arith, h))

  -- A name, and a name with a weight, as tokens.
  parse_name :
      (name : Text)
      → any special name ≡ false
      → valid_limit_name name ≡ true
      → f.le f.one f.zero ≡ false
      → parse_limit_token f name ≡ some (name, f.one)
  unfolding parse_limit_token split_weight
  parse_name name h k l = ground (
    arith,
    trim_space_plain name (space_plain name h),
    cut-none b':' name (colon_plain name h),
    to_lower_plain name h,
    k,
    l,
  )

  parse_weight :
      (name weight : Text) (r : f.R)
      → any special name ≡ false
      → any special weight ≡ false
      → valid_limit_name name ≡ true
      → f.parse_float weight ≡ some r
      → f.le r f.zero ≡ false
      → parse_limit_token f (name ++ b':' ∷ weight) ≡ some (name, r)
  unfolding parse_limit_token split_weight
  parse_weight name weight r h g k p l =
      let blank : any is_space (name ++ b':' ∷ weight) ≡ false = ground (
        arith,
        any-append is_space name (b':' ∷ weight),
        space_plain name h,
        space_plain weight g,
      ) in
      ground (
        arith,
        trim_space_plain (name ++ b':' ∷ weight) blank,
        cut_first b':' name weight (colon_plain name h),
        trim_space_plain weight (space_plain weight g),
        trim_space_plain name (space_plain name h),
        to_lower_plain name h,
        k,
        p,
        l,
      )

  split_one :
      (name rest : Text)
      → valid_limit_name name ≡ true
      → any separator (name ++ rest) ≡ false
      → to_lower (name ++ rest) ≡ name ++ rest
      → split_limits (to_lower (name ++ rest)) ≡ (name ++ rest) ∷ []
  unfolding split_limits valid_limit_name is_valid_attr_name cut
  split_one [] rest k h l = absurd (ground (arith, k))
  split_one (c ∷ name) rest k h l = ap split_limits l ∙ fields_one separator c (name ++ rest) h

  separator_plain : (s : Text) → any special s ≡ false → any separator s ≡ false
  separator_plain = any_weaken separator special (λ c h. ground (arith, h))

  -- There is room in a limit for an increment.
  abbrev pub HasRoom : ConcurrencyLimits f → Text → f.R → Type 0
  HasRoom v name inc =
      (f.lt (v.usage name) f.zero ≡ false) × (f.lt (v.max name) (f.add (v.usage name) inc) ≡ false)

  FitsAll-one :
      (v : ConcurrencyLimits f) (s name : Text) (r : f.R)
      → split_limits (to_lower s) ≡ s ∷ []
      → parse_limit_token f s ≡ some (name, r)
      → FitsAll f v s ↔ HasRoom v name r
  unfolding FitsAll
  FitsAll-one v s name r h p = (λ k. (rw (h, p) at k).0, λ k. rw (h, p) (k, tt))

  reject_trans :
      (v : ConcurrencyLimits f) (s : Text) (P : Type 0)
      → FitsAll f v s ↔ P
      → (reject_for_concurrency_limits f s v ≡ none) ↔ P
  reject_trans v s P h =
      let g = reject_for_concurrency_limits-FitsAll f s v in (λ e. h.0 (g.0 e), λ p. g.1 (h.1 p))

  reject_name :
      (v : ConcurrencyLimits f) (name : Text)
      → any special name ≡ false
      → valid_limit_name name ≡ true
      → f.le f.one f.zero ≡ false
      → (reject_for_concurrency_limits f name v ≡ none) ↔ HasRoom v name f.one
  reject_name v name h k l = reject_trans v name (HasRoom v name f.one) (
      FitsAll-one v name name f.one
        (subst (λ s. split_limits (to_lower s) ≡ s ∷ []) (append-nil name)
          (split_one name [] k (ground (arith, append-nil name, separator_plain name h))
            (ground (arith, append-nil name, to_lower_plain name h))))
        (parse_name name h k l))

  reject_weight :
      (v : ConcurrencyLimits f) (name weight : Text) (r : f.R)
      → any special name ≡ false
      → any special weight ≡ false
      → valid_limit_name name ≡ true
      → f.parse_float weight ≡ some r
      → f.le r f.zero ≡ false
      → (reject_for_concurrency_limits f (name ++ b':' ∷ weight) v ≡ none) ↔ HasRoom v name r
  unfolding to_lower lower
  reject_weight v name weight r h g k p l =
      reject_trans v (name ++ b':' ∷ weight) (HasRoom v name r) (
        FitsAll-one v (name ++ b':' ∷ weight) name r
          (split_one name (b':' ∷ weight) k
            (ground (
              arith,
              any-append separator name (b':' ∷ weight),
              separator_plain name h,
              separator_plain weight g,
            ))
            (to_lower-append name (b':' ∷ weight)
              ∙ ground (arith, to_lower_plain name h, to_lower_plain weight g)))
          (parse_weight name weight r h g k p l))

  -- The gate passes a list of limits exactly when it passes what is before and what is after any of its
  -- commas, each tested alone. It passes the name of a limit exactly when the limit has room for 1 above
  -- its usage, which is not negative; and a name with a positive weight exactly when there is room for
  -- the weight. Names are valid, and neither they nor weights have a comma, a blank, a colon or an
  -- upper-case letter.
  pub reject_for_concurrency_limits_iff :
      (v : ConcurrencyLimits f) (a b name weight : Text) (r : f.R)
      → any special name ≡ false
      → any special weight ≡ false
      → valid_limit_name name ≡ true
      → f.parse_float weight ≡ some r
      → f.le r f.zero ≡ false
      → f.le f.one f.zero ≡ false
      → ((reject_for_concurrency_limits f (a ++ b',' ∷ b) v ≡ none) ↔ (
          (reject_for_concurrency_limits f a v ≡ none)
          × (reject_for_concurrency_limits f b v ≡ none)))
        × ((reject_for_concurrency_limits f name v ≡ none) ↔ HasRoom v name f.one)
        × ((reject_for_concurrency_limits f (name ++ b':' ∷ weight) v ≡ none) ↔ HasRoom v name r)
  reject_for_concurrency_limits_iff v a b name weight r h g k p l o =
      let whole = reject_for_concurrency_limits-FitsAll f (a ++ b',' ∷ b) v in
      let left = reject_for_concurrency_limits-FitsAll f a v in
      let right = reject_for_concurrency_limits-FitsAll f b v in
      let comma = FitsAll-comma v a b in
      (
        (
          λ e. let (x, y) = comma.0 (whole.0 e) in (left.1 x, right.1 y),
          λ e. whole.1 (comma.1 (left.0 e.0, right.0 e.1)),
        ),
        reject_name v name h k o,
        reject_weight v name weight r h g k p l,
      )

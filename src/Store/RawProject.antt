-- ===== src/Store/RawProject.antt =====
-- store/rawproject.go: the local projection of ads in wire form.
use mathlib.Core.Path.{fun_ext}
use golang_collector.Base.{
  ℕ, ◌≡◌, refl, ap, ◌∙◌, Bool, true, false, not, ◌||◌, ◌==◌, List, [], ◌∷◌, map, any, keep,
  drop_from_first, drop_from_first-keep, if◌then◌else◌,
}
use golang_collector.Base.Text.{Text, text_eq, to_lower}

-- collections.RawAd, as far as the program uses it.
pub record RawAd : Type 0 where
  pub exprs : List Text
  pub my_type : Text
  pub target_type : Text

abbrev is_blank : ℕ → Bool
is_blank c = c == 32 || c == 9

skip_blanks : Text → Text
skip_blanks [] = []
skip_blanks (c ∷ s) = let rest = skip_blanks s in if is_blank c then rest else c ∷ s

up_to_end : Text → Text
up_to_end [] = []
up_to_end (c ∷ s) = let rest = up_to_end s in if c == b'=' || is_blank c then [] else c ∷ rest

unfoldable pub raw_expr_attr_name : Text → Text
unfolding skip_blanks up_to_end
raw_expr_attr_name expr = up_to_end (skip_blanks expr)

-- Whether the set of lower-case names has the attribute of an expression.
unfoldable pub kept : List Text → Text → Bool
kept names expr = any (text_eq (to_lower (raw_expr_attr_name expr))) names

-- `drop` is the index of the first expression that is not kept.
unfoldable pub project_raw_exprs : List Text → List Text → List Text
project_raw_exprs names exprs = drop_from_first (λ e. not (kept names e)) exprs

project_ad : List Text → RawAd → RawAd
unfolding project_raw_exprs
project_ad names ad = record ad { exprs = project_raw_exprs names ad.exprs }

unfoldable pub project_raw_seq : List Text → List RawAd → List RawAd
unfolding project_ad
project_raw_seq [] ads = ads
project_raw_seq (a ∷ projection) ads = map (project_ad (map to_lower (a ∷ projection))) ads

-- What a projection of an ad is: its types, and the expressions whose attribute is named.
unfoldable pub projected : List Text → RawAd → RawAd
projected names ad = record ad { exprs = keep (kept names) ad.exprs }

not-not : (b : Bool) → not (not b) ≡ b
not-not true = refl
not-not false = refl

project_raw_exprs-keep :
    (names exprs : List Text) → project_raw_exprs names exprs ≡ keep (kept names) exprs
unfolding project_raw_exprs
project_raw_exprs-keep names exprs =
    drop_from_first-keep (λ e. not (kept names e)) exprs
    ∙ ap (λ (p : Text → Bool). keep p exprs) (fun_ext λ e. not-not (kept names e))

project_ad-projected : (names : List Text) (ad : RawAd) → project_ad names ad ≡ projected names ad
unfolding project_ad projected
project_ad-projected names ad =
    ap (λ (es : List Text). record ad { exprs = es }) (project_raw_exprs-keep names ad.exprs)

-- A projection that is not empty leaves of each ad, in order, the expressions that it names in any
-- case, and the ad's types, whether or not the first pass finds something to drop.
pub project_raw_seq-projected :
    (a : Text) (projection : List Text) (ads : List RawAd)
    → project_raw_seq (a ∷ projection) ads ≡ map (projected (map to_lower (a ∷ projection))) ads
unfolding project_raw_seq
project_raw_seq-projected a projection ads =
    ap (λ (f : RawAd → RawAd). map f ads)
      (fun_ext (project_ad-projected (map to_lower (a ∷ projection))))

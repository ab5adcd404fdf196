-- ===== src/Server/Query.antt =====
-- server/query.go: what a query ad asks for. The ad and its expressions are those of the ClassAd
-- library, of which a query reads attributes, unevaluated or evaluated.
use golang_collector.Base.{
  ℕ, ◌≡◌, Bool, ◌||◌, ◌==◌, Option, none, some, List, [], ◌∷◌, ◌++◌, if◌then◌else◌, arith,
}
use golang_collector.Base.Text.{Text, codes, trim_space, fields, is_empty, newline}
use golang_collector.Base.Int.{ℤ, pos, negsuc}
use golang_collector.Store.AdType.{equal_fold}

pub record QueryAds : Type 1 where
  pub Ad : Type 0
  pub Expr : Type 0
  pub empty : Ad
  pub lookup : Ad → Text → Option Expr
  pub insert_expr : Text → Expr → Ad → Ad
  pub string : Expr → Text
  pub evaluate_attr_string : Ad → Text → Option Text
  pub evaluate_attr_int : Ad → Text → Option ℤ

abbrev pub attr_requirements : Text
attr_requirements = codes "Requirements"

abbrev pub attr_projection : Text
attr_projection = codes "Projection"

abbrev pub attr_projection_attributes : Text
attr_projection_attributes = codes "ProjectionAttributes"

abbrev pub attr_limit_results : Text
attr_limit_results = codes "LimitResults"

pub record Query : Type 0 where
  pub constraint : Text
  pub projection : List Text
  pub limit : ℕ

abbrev between : ℕ → Bool
between c = c == b',' || c == 32 || c == 9 || c == newline

unfoldable pub split_attrs : Text → List Text
split_attrs s = fields between s

-- A positive limit.
abbrev positive : Option ℤ → Option ℕ
positive none = none
positive (some (negsuc n)) = none
positive (some (pos n)) = if n == 0 then none else some n

abbrev or_unlimited : Option ℕ → ℕ
or_unlimited none = 0
or_unlimited (some n) = n

-- A text that is there and not blank.
abbrev not_blank : Option Text → Option Text
not_blank none = none
not_blank (some s) = if is_empty (trim_space s) then none else some s

module _ (q : QueryAds) where
  -- The constraint of an expression: none where it is absent or reads `true`.
  unfoldable pub constraint_of : Option q.Expr → Text
  constraint_of none = []
  constraint_of (some e) =
      let s = trim_space (q.string e) in if equal_fold s (codes "true") then [] else s

  unfoldable pub parse_projection : q.Ad → List Text
  parse_projection ad = elim (not_blank (q.evaluate_attr_string ad attr_projection)) [
    | some s ↦ split_attrs s
    | none ↦ elim (not_blank (q.evaluate_attr_string ad attr_projection_attributes)) [
      | some s ↦ split_attrs s
      | none ↦ []
    ]
  ]

  unfoldable pub parse_query : q.Ad → Query
  parse_query ad = record {
    constraint = constraint_of (q.lookup ad attr_requirements);
    projection = parse_projection ad;
    limit = or_unlimited (positive (q.evaluate_attr_int ad attr_limit_results));
  }

  unfoldable pub parse_sub_query : q.Ad → Text → Query
  parse_sub_query ad target = record {
    constraint = elim (q.lookup ad (target ++ attr_requirements)) [
      | some e ↦ constraint_of (q.lookup ad (target ++ attr_requirements))
      | none ↦ constraint_of (q.lookup ad attr_requirements)
    ];
    projection = elim (not_blank (q.evaluate_attr_string ad (target ++ attr_projection))) [
      | some s ↦ split_attrs s
      | none ↦ parse_projection ad
    ];
    limit = elim (positive (q.evaluate_attr_int ad (target ++ attr_limit_results))) [
      | some n ↦ n
      | none ↦ or_unlimited (positive (q.evaluate_attr_int ad attr_limit_results))
    ];
  }

  unfoldable pub project_from : q.Ad → List Text → q.Ad → q.Ad
  project_from ad [] out = out
  project_from ad (a ∷ attrs) out = elim (q.lookup ad a) [
    | some e ↦ project_from ad attrs (q.insert_expr a e out)
    | none ↦ project_from ad attrs out
  ]

  unfoldable pub project : q.Ad → List Text → q.Ad
  project ad [] = ad
  project ad (a ∷ attrs) = project_from ad (a ∷ attrs) q.empty

  -- A query of several types asks of each type what a query of that type alone would ask, unless
  -- it has an attribute of that type's own: a type without any has the global query.
  pub parse_sub_query-parse_query :
      (ad : q.Ad) (target : Text)
      → q.lookup ad (target ++ attr_requirements) ≡ none
      → not_blank (q.evaluate_attr_string ad (target ++ attr_projection)) ≡ none
      → positive (q.evaluate_attr_int ad (target ++ attr_limit_results)) ≡ none
      → parse_sub_query ad target ≡ parse_query ad
  unfolding parse_sub_query parse_query
  parse_sub_query-parse_query ad target h k l = ground arith

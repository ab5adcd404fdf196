-- ===== src/Store/Tables/Query.antt =====
-- store/store.go: the queries over the tables, as whole ads and in wire form.
use golang_collector.Base.{
  ◌≡◌, refl, inl, inr, Option-cases, Bool, false, ◌||◌, Option, none, some, List, [], ◌∷◌, ◌++◌,
  if◌then◌else◌, arith,
}
use golang_collector.Base.Text.{Text, codes, trim_space, is_empty}
use golang_collector.Store.AdType.{
  AdType, any_ad, startd_pvt_ad, same_table, storage_types, equal_fold,
}
use golang_collector.Store.RawProject.{RawAd}
use golang_collector.Store.Tables.{Collections, Store, set_col}

-- `none` outside is an error, `none` inside the query of all ads. `compile` parses a constraint, takes
-- the scope TARGET away and compiles it.
unfoldable pub parse_constraint :
    {Query : Type 0} → (Text → Option Query) → Text → Option (Option Query)
unfolding trim_space
parse_constraint compile constraint =
    let s = trim_space constraint in
    if is_empty s || equal_fold s (codes "true")
    then some none
    else elim (compile s) [ none ↦ none | some q ↦ some (some q) ]

-- The loop of a query over all tables but the private one.
unfoldable pub each_public : {X : Type 0} → (AdType → List X) → List AdType → List X
each_public f [] = []
each_public f (t ∷ ts) =
    let rest = each_public f ts in if same_table t startd_pvt_ad then rest else f t ++ rest

unfoldable pub over_tables : {X : Type 0} → (AdType → List X) → AdType → List X
over_tables f t = if same_table t any_ad then each_public f storage_types else f t

each_public-private :
    {X : Type 0} (f g : AdType → List X)
    → ((t : AdType) → same_table t startd_pvt_ad ≡ false → f t ≡ g t)
    → (ts : List AdType) → each_public f ts ≡ each_public g ts
unfolding each_public
each_public-private f g h [] = refl
each_public-private f g h (t ∷ ts) = ground (arith, each_public-private f g h ts, h t)

over_tables-private :
    {X : Type 0} (f g : AdType → List X)
    → ((t : AdType) → same_table t startd_pvt_ad ≡ false → f t ≡ g t)
    → over_tables f any_ad ≡ over_tables g any_ad
unfolding over_tables
over_tables-private f g h = each_public-private f g h storage_types

module _ {Ad Query : Type 0} (cs : Collections Ad Query) where
  abbrev pub query_one : Store cs.Col → Option Query → AdType → List Ad
  query_one s q t = elim (s.cols t) [
    | none ↦ []
    | some c ↦ elim q [ none ↦ cs.scan c | some compiled ↦ cs.query compiled c ]
  ]

  abbrev pub query_one_raw : Store cs.Col → Option Query → Bool → AdType → List RawAd
  query_one_raw s q redact t = elim (s.cols t) [
    | none ↦ []
    | some c ↦ elim q [
      | none ↦ cs.scan_raw redact c
      | some compiled ↦ cs.query_raw redact compiled c
    ]
  ]

  abbrev pub query_one_raw_projected :
      Store cs.Col → Option Query → List Text → Bool → AdType → List RawAd
  query_one_raw_projected s q projection redact t = elim (s.cols t) [
    | none ↦ []
    | some c ↦ elim q [
      | none ↦ cs.scan_raw_projected projection redact c
      | some compiled ↦ cs.query_raw_projected projection redact compiled c
    ]
  ]

  -- A query by a compiled constraint, and by the text of one.
  unfoldable pub select : Store cs.Col → AdType → Option Query → List Ad
  select s t q = over_tables (query_one s q) t

  unfoldable pub query_raw_opt : Store cs.Col → AdType → Option Query → Bool → List RawAd
  query_raw_opt s t q redact = over_tables (query_one_raw s q redact) t

  unfoldable pub query_raw_projected :
      Store cs.Col → AdType → Option Query → List Text → Bool → List RawAd
  query_raw_projected s t q projection redact =
      over_tables (query_one_raw_projected s q projection redact) t

  module _ (compile : Text → Option Query) where
    unfoldable pub query : Store cs.Col → AdType → Text → Option (List Ad)
    unfolding parse_constraint
    query s t constraint = elim (parse_constraint compile constraint) [
      | none ↦ none
      | some q ↦ some (select s t q)
    ]

    -- `QueryRaw` and `QueryRawRedacted`.
    unfoldable pub query_raw : Bool → Store cs.Col → AdType → Text → Option (List RawAd)
    unfolding parse_constraint
    query_raw redact s t constraint = elim (parse_constraint compile constraint) [
      | none ↦ none
      | some q ↦ some (query_raw_opt s t q redact)
    ]

    -- `QueryRawProject` and `QueryRawProjectRedacted`.
    unfoldable pub query_raw_project :
        Bool → Store cs.Col → AdType → Text → List Text → Option (List RawAd)
    unfolding parse_constraint
    query_raw_project redact s t constraint projection =
        elim (parse_constraint compile constraint) [
          | none ↦ none
          | some q ↦ some (query_raw_projected s t q projection redact)
        ]

    query_one-private :
        (s : Store cs.Col) (c : cs.Col) (q : Option Query) (t : AdType)
        → same_table t startd_pvt_ad ≡ false
        → query_one (set_col startd_pvt_ad c s) q t ≡ query_one s q t
    unfolding set_col
    query_one-private s c q t h = ground arith

    query_one_raw-private :
        (s : Store cs.Col) (c : cs.Col) (q : Option Query) (redact : Bool) (t : AdType)
        → same_table t startd_pvt_ad ≡ false
        → query_one_raw (set_col startd_pvt_ad c s) q redact t ≡ query_one_raw s q redact t
    unfolding set_col
    query_one_raw-private s c q redact t h = ground arith

    query_one_raw_projected-private :
        (s : Store cs.Col) (c : cs.Col) (q : Option Query) (attrs : List Text) (redact : Bool)
        (t : AdType)
        → same_table t startd_pvt_ad ≡ false
        → query_one_raw_projected (set_col startd_pvt_ad c s) q attrs redact t
          ≡ query_one_raw_projected s q attrs redact t
    unfolding set_col
    query_one_raw_projected-private s c q attrs redact t h = ground arith

    -- No query over all tables reads the private one: whatever stands there, `Query`, `QueryRaw` and
    -- `QueryRawProject` return the same, redacted or not.
    pub query-any_private :
        (s : Store cs.Col) (c : cs.Col) (constraint : Text) (projection : List Text) (redact : Bool)
        → (query (set_col startd_pvt_ad c s) any_ad constraint ≡ query s any_ad constraint)
          × (query_raw redact (set_col startd_pvt_ad c s) any_ad constraint
              ≡ query_raw redact s any_ad constraint)
          × (query_raw_project redact (set_col startd_pvt_ad c s) any_ad constraint projection
              ≡ query_raw_project redact s any_ad constraint projection)
    unfolding query query_raw query_raw_project select query_raw_opt query_raw_projected
    query-any_private s c constraint projection redact =
        elim (Option-cases (parse_constraint compile constraint)) [
          | inl h ↦ ground arith
          | inr (q, h) ↦ ground (
            arith,
            over_tables-private (query_one (set_col startd_pvt_ad c s) q) (query_one s q)
                (query_one-private s c q),
            over_tables-private (query_one_raw (set_col startd_pvt_ad c s) q redact)
                (query_one_raw s q redact) (query_one_raw-private s c q redact),
            over_tables-private
                (query_one_raw_projected (set_col startd_pvt_ad c s) q projection redact)
                (query_one_raw_projected s q projection redact)
                (query_one_raw_projected-private s c q projection redact),
          )
        ]

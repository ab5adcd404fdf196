-- ===== src/Store/Tables/Laws.antt =====
-- store/store.go: what is documented of a collection, and the tables of a store as a map from keys to
-- ads.
use golang_collector.Base.{
  ℕ, ◌≡◌, refl, Bool, true, false, Option, none, some, List, [], ◌∷◌, any, keep, is_some, All,
  Somewhere, if◌then◌else◌, arith, inl, inr, Bool-cases, Option-cases,
}
use golang_collector.Base.Text.{Text, text_eq, text_eq_refl, text_eq_iff}
use golang_collector.Store.AdType.{AdType, same_table}
use golang_collector.Store.HashKey.{Evaluator, hash_key}
use golang_collector.Store.Tables.{Collections, Store, set_col}
use golang_collector.Store.Tables.Sweep.{count, delete_keys, keys_of}

module _ {Ad Query : Type 0} (cs : Collections Ad Query) where
  -- A collection keeps one ad under a key. `parse_old` is the ad that wire text denotes.
  pub record IsCollection (parse_old : Text → Ad) (matches : Query → Ad → Bool) : Type 0 where
    pub get_new : (t : AdType) (j : Text) → cs.get j (cs.new t) ≡ none
    pub get_put :
        (k j : Text) (ad : Ad) (c : cs.Col)
        → (cs.put k ad c).0 ≡ none
        → cs.get j (cs.put k ad c).1 ≡ (if text_eq j k then some ad else cs.get j c)
    pub get_update :
        (k j text : Text) (c : cs.Col)
        → (cs.update_old k text c).0 ≡ none
        → cs.get j (cs.update_old k text c).1
          ≡ (if text_eq j k then some (parse_old text) else cs.get j c)
    pub delete_present : (k : Text) (c : cs.Col) → (cs.delete k c).0 ≡ is_some (cs.get k c)
    pub get_delete :
        (k j : Text) (c : cs.Col)
        → cs.get j (cs.delete k c).1 ≡ (if text_eq j k then none else cs.get j c)
    -- A scan lists the ads that are kept under some key, and no other.
    pub scan_held : (c : cs.Col) → All (λ ad. (k : Text) × (cs.get k c ≡ some ad)) (cs.scan c)
    pub scan_all :
        (k : Text) (ad : Ad) (c : cs.Col)
        → cs.get k c ≡ some ad
        → Somewhere (λ a. a ≡ ad) (cs.scan c)
    pub query_scan : (q : Query) (c : cs.Col) → cs.query q c ≡ keep (matches q) (cs.scan c)

  -- The ad under a key of a table.
  unfoldable pub view : Store cs.Col → AdType → Text → Option Ad
  view s t k = elim (s.cols t) [ none ↦ none | some c ↦ cs.get k c ]

  pub view-some :
      (s : Store cs.Col) (t : AdType) (c : cs.Col) (j : Text)
      → s.cols t ≡ some c
      → view s t j ≡ cs.get j c
  unfolding view
  view-some s t c j e = ground arith

  pub view-set_col :
      (s : Store cs.Col) (t u : AdType) (c : cs.Col) (j : Text)
      → view (set_col t c s) u j ≡ (if same_table u t then cs.get j c else view s u j)
  unfolding view set_col
  view-set_col s t u c j = ground arith

  -- Every ad of a collection is kept under its own key.
  unfoldable pub Keyed : Evaluator Ad → AdType → cs.Col → Type 0
  Keyed ev t c = (k : Text) (ad : Ad) → cs.get k c ≡ some ad → hash_key ev t ad ≡ some k

  unfoldable pub without : (Ad → Bool) → Option Ad → Option Ad
  without gone none = none
  without gone (some ad) = if gone ad then none else some ad

  -- There is an ad, and it passes the test.
  unfoldable pub passes : (Ad → Bool) → Option Ad → Bool
  passes gone none = false
  passes gone (some ad) = gone ad

  module _ {parse_old : Text → Ad} {matches : Query → Ad → Bool}
      (laws : IsCollection parse_old matches) (ev : Evaluator Ad) where
    pub get-delete_keys :
        (keys : List Text) (n : ℕ) (c : cs.Col) (j : Text)
        → cs.get j (delete_keys ev cs keys n c).1
          ≡ (if any (text_eq j) keys then none else cs.get j c)
    unfolding delete_keys
    get-delete_keys [] n c j = refl
    get-delete_keys (k ∷ keys) n c j = ground (
      arith,
      get-delete_keys keys (count ev cs (cs.delete k c).0 n) (cs.delete k c).1 j,
      laws.get_delete k j c,
    )

    -- A key is among those of some ads exactly if one of them has it.
    keys_of-any :
        (t : AdType) (j : Text) (ad : Ad) (gone : Ad → Bool) (ads : List Ad)
        → Somewhere (λ a. a ≡ ad) ads
        → gone ad ≡ true
        → hash_key ev t ad ≡ some j
        → any (text_eq j) (keys_of ev t (keep gone ads)) ≡ true
    unfolding keys_of
    keys_of-any t j ad gone [] w g h = elim w [ ]
    keys_of-any t j ad gone (a ∷ ads) w g h = elim w [
      | inl e ↦ ground (arith, text_eq_refl j)
      | inr v ↦ ground (arith, keys_of-any t j ad gone ads v g h)
    ]

    keys_of-found :
        (t : AdType) (j : Text) (gone : Ad → Bool) (c : cs.Col) (ads : List Ad)
        → Keyed ev t c
        → All (λ a. (k : Text) × (cs.get k c ≡ some a)) ads
        → any (text_eq j) (keys_of ev t (keep gone ads)) ≡ true
        → (ad : Ad) × (cs.get j c ≡ some ad) × (gone ad ≡ true)
    unfolding keys_of Keyed
    keys_of-found t j gone c [] keyed held e = ground arith
    keys_of-found t j gone c (a ∷ ads) keyed held e = elim (Bool-cases (gone a)) [
      | inl g ↦ elim (Bool-cases (text_eq j held.0.0)) [
        | inl h ↦ (a, rw ((text_eq_iff j held.0.0).0 h) (held.0.1), g)
        | inr h ↦
            ground (arith, keys_of-found t j gone c ads keyed held.1, keyed held.0.0 a held.0.1)
      ]
      | inr g ↦ ground (arith, keys_of-found t j gone c ads keyed held.1)
    ]

    -- Where every ad is kept under its own key, the keys of the ads that pass a test are those under
    -- which such an ad is.
    pub keys_of-any_iff :
        (t : AdType) (gone : Ad → Bool) (c : cs.Col) (j : Text)
        → Keyed ev t c
        → any (text_eq j) (keys_of ev t (keep gone (cs.scan c))) ≡ passes gone (cs.get j c)
    unfolding passes Keyed
    keys_of-any_iff t gone c j keyed =
        elim (Bool-cases (any (text_eq j) (keys_of ev t (keep gone (cs.scan c))))) [
          | inl h ↦ ground (arith, keys_of-found t j gone c (cs.scan c) keyed (laws.scan_held c) h)
          | inr h ↦ elim (Option-cases (cs.get j c)) [
            | inl e ↦ ground arith
            | inr (ad, e) ↦
                ground (
                  arith,
                  keys_of-any t j ad gone (cs.scan c) (laws.scan_all j ad c e),
                  keyed j ad e,
                )
          ]
        ]

    -- Deleting the keys of some of the ads that a scan lists removes those ads, and nothing else.
    pub get-delete_keys_of :
        (t : AdType) (gone : Ad → Bool) (n : ℕ) (c : cs.Col) (j : Text)
        → Keyed ev t c
        → cs.get j (delete_keys ev cs (keys_of ev t (keep gone (cs.scan c))) n c).1
          ≡ without gone (cs.get j c)
    unfolding without passes
    get-delete_keys_of t gone n c j keyed = ground (
      arith,
      get-delete_keys (keys_of ev t (keep gone (cs.scan c))) n c j,
      keys_of-any_iff t gone c j keyed,
    )

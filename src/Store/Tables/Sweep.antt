-- ===== src/Store/Tables/Sweep.antt =====
-- store/store.go: the removal of ads, by invalidation and by age.
use golang_collector.Base.{
  ℕ, suc, Bool, false, ◌⊎◌, inl, inr, Option, none, some, List, [], ◌∷◌, if◌then◌else◌,
}
use golang_collector.Base.Text.{Text}
use golang_collector.Base.Int.{ℤ, ltb_int, ◌-ℤ◌, wrap64}
use golang_collector.Store.AdType.{AdType, startd_ad, startd_pvt_ad, same_table, storage_types}
use golang_collector.Store.HashKey.{
  Evaluator, hash_key, attr_last_heard_from, attr_classad_lifetime,
}
use golang_collector.Store.Tables.{Collections, Store, Error, bad_constraint, set_col}
use golang_collector.Store.Tables.Query.{parse_constraint}

module _ {Ad : Type 0} (ev : Evaluator Ad) where
  -- The keys of the ads that have one, in order.
  unfoldable pub keys_of : AdType → List Ad → List Text
  keys_of t [] = []
  keys_of t (ad ∷ ads) =
      let rest = keys_of t ads in elim (hash_key ev t ad) [ none ↦ rest | some key ↦ key ∷ rest ]

  -- The receive time of an ad is further back than its lifetime; the subtraction wraps around.
  unfoldable pub is_stale : ℤ → ℤ → Ad → Bool
  unfolding ◌-ℤ◌ wrap64
  is_stale now default_lifetime ad = elim (ev.eval_int ad attr_last_heard_from) [
    | none ↦ false
    | some last_heard ↦ elim (ev.eval_int ad attr_classad_lifetime) [
      | none ↦ ltb_int default_lifetime (wrap64 (now -ℤ last_heard))
      | some lifetime ↦ ltb_int lifetime (wrap64 (now -ℤ last_heard))
    ]
  ]

  -- The keys that the sweep of a table collects.
  unfoldable pub stale_keys : ℤ → ℤ → AdType → List Ad → List Text
  stale_keys now default_lifetime t [] = []
  stale_keys now default_lifetime t (ad ∷ ads) =
      let rest = stale_keys now default_lifetime t ads in
      if is_stale now default_lifetime ad
      then elim (hash_key ev t ad) [ none ↦ rest | some key ↦ key ∷ rest ]
      else rest

  module _ {Query : Type 0} (cs : Collections Ad Query) where
    unfoldable pub count : Bool → ℕ → ℕ
    count removed n = if removed then suc n else n

    -- The keys are deleted; the count is of those that were there.
    unfoldable pub delete_keys : List Text → ℕ → cs.Col → ℕ × cs.Col
    unfolding count
    delete_keys [] n c = (n, c)
    delete_keys (key ∷ keys) n c =
        delete_keys keys (count (cs.delete key c).0 n) (cs.delete key c).1

    abbrev pub delete_pvt : Text → Option cs.Col → Option cs.Col
    delete_pvt key none = none
    delete_pvt key (some c) = some (cs.delete key c).1

    -- The loop of `Invalidate`: `pvt` is the private table, where it is swept along.
    unfoldable pub remove_keys :
        List Text → ℕ → cs.Col → Option cs.Col → ℕ × (cs.Col × Option cs.Col)
    unfolding count
    remove_keys [] n c pvt = (n, (c, pvt))
    remove_keys (key ∷ keys) n c pvt =
        remove_keys keys (count (cs.delete key c).0 n) (cs.delete key c).1 (delete_pvt key pvt)

    -- The keys to remove: of the ads that match, or of the one ad that is named.
    unfoldable pub doomed : AdType → Option Query → Option Ad → cs.Col → List Text
    unfolding keys_of
    doomed t none none c = []
    doomed t none (some key_ad) c = keys_of t (key_ad ∷ [])
    doomed t (some q) key_ad c = keys_of t (cs.query q c)

    abbrev pub pvt_table : AdType → Store cs.Col → Option cs.Col
    pvt_table t s = if same_table t startd_ad then s.cols startd_pvt_ad else none

    abbrev pub put_back : AdType → ℕ × (cs.Col × Option cs.Col) → Store cs.Col → ℕ × Store cs.Col
    put_back t (n, (c, none)) s = (n, set_col t c s)
    put_back t (n, (c, some pvt)) s = (n, set_col startd_pvt_ad pvt (set_col t c s))

    -- The removal by a parsed constraint.
    unfoldable pub remove : AdType → Option Query → Option Ad → Store cs.Col → ℕ × Store cs.Col
    unfolding remove_keys doomed
    remove t q key_ad s = elim (s.cols t) [
      | none ↦ (0, s)
      | some c ↦ put_back t (remove_keys (doomed t q key_ad c) 0 c (pvt_table t s)) s
    ]

    unfoldable pub invalidate :
        (Text → Option Query)
        → AdType
        → Text
        → Option Ad
        → Store cs.Col
        → (Error ⊎ ℕ) × Store cs.Col
    unfolding parse_constraint remove
    invalidate compile t constraint key_ad s = elim (parse_constraint compile constraint) [
      | none ↦ (inl bad_constraint, s)
      | some q ↦ (inr (remove t q key_ad s).0, (remove t q key_ad s).1)
    ]

    -- One table of the sweep.
    unfoldable pub sweep : ℤ → AdType → ℕ → Store cs.Col → ℕ × Store cs.Col
    unfolding delete_keys stale_keys
    sweep now t n s = elim (s.cols t) [
      | none ↦ (n, s)
      | some c ↦
          let keys = stale_keys now s.default_lifetime t (cs.scan c) in
          ((delete_keys keys n c).0, set_col t (delete_keys keys n c).1 s)
    ]

    unfoldable pub sweep_all : ℤ → List AdType → ℕ → Store cs.Col → ℕ × Store cs.Col
    unfolding sweep
    sweep_all now [] n s = (n, s)
    sweep_all now (t ∷ ts) n s = sweep_all now ts (sweep now t n s).0 (sweep now t n s).1

    unfoldable pub expire : ℤ → Store cs.Col → ℕ × Store cs.Col
    unfolding sweep_all
    expire now s = sweep_all now storage_types 0 s

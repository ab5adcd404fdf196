-- ===== src/Store/Tables/Expiry.antt =====
-- store/store.go: what the sweep of `Expire` leaves.
use golang_collector.Base.{
  ℕ, ◌≡◌, ◌≢◌, ◌∙◌, refl, ap, sym, Bool, true, false, some, List, [], ◌∷◌, any, keep, All, arith,
  inl, inr, Bool-cases, Option-cases,
}
use golang_collector.Base.Int.{ℤ}
use golang_collector.Base.Text.{Text, text_eq, text_eq_iff}
use golang_collector.Store.AdType.{
  AdType, any_ad, startd_pvt_ad, same_table, same_table_sound, storage_types,
}
use golang_collector.Store.HashKey.{Evaluator, hash_key}
use golang_collector.Store.Tables.{Collections, Store, set_col}
use golang_collector.Store.Tables.Sweep.{
  is_stale, stale_keys, keys_of, delete_keys, sweep, sweep_all, expire,
}
use golang_collector.Store.Tables.Laws.{
  IsCollection, view, view-some, Keyed, without, get-delete_keys, get-delete_keys_of,
}

-- The tables of a list are distinct.
abbrev Distinct : List AdType → Type 0
Distinct [] = Unit
Distinct (t ∷ ts) = (any (same_table t) ts ≡ false) × Distinct ts

storage_types-Distinct : Distinct storage_types
storage_types-Distinct = ground arith

storage_types-all :
    (u : AdType) → same_table u any_ad ≡ false → any (same_table u) storage_types ≡ true
storage_types-all u h = ground arith

module _ {Ad Query : Type 0} (cs : Collections Ad Query) (ev : Evaluator Ad) where
  stale_keys-keys_of :
      (now life : ℤ) (t : AdType) (ads : List Ad)
      → stale_keys ev now life t ads ≡ keys_of ev t (keep (is_stale ev now life) ads)
  unfolding stale_keys keys_of
  stale_keys-keys_of now life t [] = refl
  stale_keys-keys_of now life t (ad ∷ ads) = ground (arith, stale_keys-keys_of now life t ads)

  stale_keys-avoid :
      (now life : ℤ) (t : AdType) (j : Text) (ads : List Ad)
      → All (λ ad. hash_key ev t ad ≢ some j) ads
      → any (text_eq j) (stale_keys ev now life t ads) ≡ false
  unfolding stale_keys
  stale_keys-avoid now life t j [] h = refl
  stale_keys-avoid now life t j (ad ∷ ads) h = elim (Option-cases (hash_key ev t ad)) [
    | inl e ↦ ground (arith, stale_keys-avoid now life t j ads h.1)
    | inr (k, e) ↦ ground (arith, stale_keys-avoid now life t j ads h.1, text_eq_iff j k)
  ]

  -- A table after its sweep.
  unfoldable pub swept : ℤ → ℤ → AdType → ℕ → cs.Col → cs.Col
  swept now life t n c = (delete_keys ev cs (stale_keys ev now life t (cs.scan c)) n c).1

  swept-keys_of :
      (now life : ℤ) (t : AdType) (n : ℕ) (c : cs.Col)
      → swept now life t n c
        ≡ (delete_keys ev cs (keys_of ev t (keep (is_stale ev now life) (cs.scan c))) n c).1
  unfolding swept
  swept-keys_of now life t n c =
      ap (λ keys. (delete_keys ev cs keys n c).1) (stale_keys-keys_of now life t (cs.scan c))

  sweep-cols :
      (now : ℤ) (t u : AdType) (n : ℕ) (s : Store cs.Col)
      → same_table u t ≡ false
      → (sweep ev cs now t n s).1.cols u ≡ s.cols u
  unfolding sweep set_col
  sweep-cols now t u n s h = ground arith

  sweep_self :
      (now : ℤ) (t : AdType) (n : ℕ) (c : cs.Col) (s : Store cs.Col)
      → s.cols t ≡ some c
      → (sweep ev cs now t n s).1.cols t ≡ some (swept now s.default_lifetime t n c)
  unfolding sweep set_col swept
  sweep_self now t n c s h = ground arith

  sweep-lifetime :
      (now : ℤ) (t : AdType) (n : ℕ) (s : Store cs.Col)
      → (sweep ev cs now t n s).1.default_lifetime ≡ s.default_lifetime
  unfolding sweep set_col
  sweep-lifetime now t n s = ground arith

  -- The other tables stay.
  sweep_all-other :
      (now : ℤ) (u : AdType) (ts : List AdType) (n : ℕ) (s : Store cs.Col)
      → any (same_table u) ts ≡ false
      → (sweep_all ev cs now ts n s).1.cols u ≡ s.cols u
  unfolding sweep_all
  sweep_all-other now u [] n s h = refl
  sweep_all-other now u (t ∷ ts) n s h = ground (
    arith,
    sweep_all-other now u ts (sweep ev cs now t n s).0 (sweep ev cs now t n s).1,
    sweep-cols now t u n s,
  )

  sweep_all-first :
      (now : ℤ) (t : AdType) (ts : List AdType) (n : ℕ) (c : cs.Col) (s : Store cs.Col)
      → any (same_table t) ts ≡ false
      → s.cols t ≡ some c
      → (sweep_all ev cs now (t ∷ ts) n s).1.cols t ≡ some (swept now s.default_lifetime t n c)
  unfolding sweep_all
  sweep_all-first now t ts n c s d e =
      sweep_all-other now t ts (sweep ev cs now t n s).0 (sweep ev cs now t n s).1 d
      ∙ sweep_self now t n c s e

  -- Each table of the list is swept once, as it was at the start.
  sweep_all-table :
      (now : ℤ) (u : AdType) (ts : List AdType) (n : ℕ) (c : cs.Col) (s : Store cs.Col)
      → Distinct ts
      → any (same_table u) ts ≡ true
      → s.cols u ≡ some c
      → (m : ℕ) × ((sweep_all ev cs now ts n s).1.cols u
          ≡ some (swept now s.default_lifetime u m c))
  unfolding sweep_all
  sweep_all-table now u [] n c s d h e = ground arith
  sweep_all-table now u (t ∷ ts) n c s d h e = elim (Bool-cases (same_table u t)) [
    | inl g ↦
        let p = same_table_sound u t g in (n, rw p (sweep_all-first now t ts n c s d.0 (rw p at e)))
    | inr g ↦ ground (
      arith,
      sweep_all-table now u ts (sweep ev cs now t n s).0 c (sweep ev cs now t n s).1 d.1,
      sweep-cols now t u n s g,
      sweep-lifetime now t n s,
    )
  ]

  -- The sweep deletes, in each of its tables, the keys that its stale ads have.
  expire-cols :
      (now : ℤ) (u : AdType) (c : cs.Col) (s : Store cs.Col)
      → same_table u any_ad ≡ false
      → s.cols u ≡ some c
      → (m : ℕ) × ((expire ev cs now s).1.cols u ≡ some (swept now s.default_lifetime u m c))
  unfolding expire
  expire-cols now u c s h e =
      sweep_all-table now u storage_types 0 c s storage_types-Distinct (storage_types-all u h) e

  module _ {parse_old : Text → Ad} {matches : Query → Ad → Bool}
      (laws : IsCollection cs parse_old matches) where
    -- The ads under their own keys that a sweep at `now` leaves in a table are those that are not stale
    -- then: no more, and no fewer.
    pub expire-view :
        (now : ℤ) (u : AdType) (c : cs.Col) (j : Text) (s : Store cs.Col)
        → same_table u any_ad ≡ false
        → s.cols u ≡ some c
        → Keyed cs ev u c
        → view cs (expire ev cs now s).1 u j
          ≡ without cs (is_stale ev now s.default_lifetime) (view cs s u j)
    expire-view now u c j s h e keyed =
        let (m, p) = expire-cols now u c s h e in
        view-some cs (expire ev cs now s).1 u (swept now s.default_lifetime u m c) j p
        ∙ rw (swept-keys_of now s.default_lifetime u m c, view-some cs s u c j e)
            (get-delete_keys_of cs laws ev u (is_stale ev now s.default_lifetime) m c j keyed)

    -- A private ad under a key that no stored private ad has is never swept, however old it is.
    pub expire-private_kept :
        (now : ℤ) (c : cs.Col) (j : Text) (s : Store cs.Col)
        → s.cols startd_pvt_ad ≡ some c
        → All (λ ad. hash_key ev startd_pvt_ad ad ≢ some j) (cs.scan c)
        → view cs (expire ev cs now s).1 startd_pvt_ad j ≡ view cs s startd_pvt_ad j
    unfolding swept
    expire-private_kept now c j s e none_has =
        let (m, p) = expire-cols now startd_pvt_ad c s refl e in
        view-some cs (expire ev cs now s).1 startd_pvt_ad
          (swept now s.default_lifetime startd_pvt_ad m c) j p
        ∙ get-delete_keys cs laws ev
            (stale_keys ev now s.default_lifetime startd_pvt_ad (cs.scan c)) m c j
        ∙ rw (stale_keys-avoid now s.default_lifetime startd_pvt_ad j (cs.scan c) none_has)
            (sym (view-some cs s startd_pvt_ad c j e))

-- ===== src/Store/Tables/Removal.antt =====
-- store/store.go: what `Invalidate` removes from the tables.
use golang_collector.Base.{
  ℕ, ◌≡◌, ◌∙◌, refl, Bool, false, Option, none, some, List, [], ◌∷◌, any, is_some, if◌then◌else◌,
  arith, ◌⊎◌, inl, inr, Bool-cases,
}
use golang_collector.Base.Text.{Text, text_eq}
use golang_collector.Store.AdType.{AdType, startd_ad, startd_pvt_ad, same_table, same_table_sound}
use golang_collector.Store.HashKey.{Evaluator, hash_key}
use golang_collector.Store.Tables.{Collections, Store, set_col}
use golang_collector.Store.Tables.Sweep.{
  keys_of, count, delete_pvt, remove_keys, doomed, pvt_table, put_back, remove,
}
use golang_collector.Store.Tables.Laws.{
  IsCollection, view, view-some, view-set_col, Keyed, without, passes, keys_of-any_iff,
}

module _ {Ad Query : Type 0} (cs : Collections Ad Query) (ev : Evaluator Ad) where
  module _ {parse_old : Text → Ad} {matches : Query → Ad → Bool}
      (laws : IsCollection cs parse_old matches) where
    -- What is left under a key of the table and of the private table once the keys are removed.
    get-remove_keys :
        (keys : List Text) (n : ℕ) (c : cs.Col) (pvt : Option cs.Col) (j : Text)
        → cs.get j (remove_keys ev cs keys n c pvt).1.0
          ≡ (if any (text_eq j) keys then none else cs.get j c)
    unfolding remove_keys
    get-remove_keys [] n c pvt j = refl
    get-remove_keys (k ∷ keys) n c pvt j = ground (
      arith,
      laws.get_delete k j c,
      get-remove_keys keys (count ev cs (cs.delete k c).0 n) (cs.delete k c).1
          (delete_pvt ev cs k pvt) j,
    )

    get-remove_keys_pvt :
        (keys : List Text) (n : ℕ) (c d : cs.Col)
        → (e : cs.Col) × ((remove_keys ev cs keys n c (some d)).1.1 ≡ some e)
          × ((j : Text) → cs.get j e ≡ (if any (text_eq j) keys then none else cs.get j d))
    unfolding remove_keys
    get-remove_keys_pvt [] n c d = (d, refl, λ j. refl)
    get-remove_keys_pvt (k ∷ keys) n c d =
        let (e, p, h) =
          get-remove_keys_pvt keys (count ev cs (cs.delete k c).0 n) (cs.delete k c).1
            (cs.delete k d).1 in
        (e, p, λ j. ground (arith, h j, laws.get_delete k j d))

    remove_keys-pvt_none :
        (keys : List Text) (n : ℕ) (c : cs.Col) → (remove_keys ev cs keys n c none).1.1 ≡ none
    unfolding remove_keys
    remove_keys-pvt_none [] n c = refl
    remove_keys-pvt_none (k ∷ keys) n c =
        remove_keys-pvt_none keys (count ev cs (cs.delete k c).0 n) (cs.delete k c).1

    view-put_back :
        (t : AdType) (n : ℕ) (d : cs.Col) (pvt : Option cs.Col) (s : Store cs.Col) (j : Text)
        → (pvt ≡ none) ⊎ (same_table t startd_pvt_ad ≡ false)
        → view cs (put_back ev cs t (n, (d, pvt)) s).1 t j ≡ cs.get j d
    view-put_back t n d none s j h = ground (arith, view-set_col cs s t t d j)
    view-put_back t n d (some e) s j h =
        ground
          (arith, view-set_col cs s t t d j, view-set_col cs (set_col t d s) startd_pvt_ad t e j)

    view-put_back_pvt :
        (n : ℕ) (d e : cs.Col) (s : Store cs.Col) (j : Text)
        → view cs (put_back ev cs startd_ad (n, (d, some e)) s).1 startd_pvt_ad j ≡ cs.get j e
    view-put_back_pvt n d e s j =
        view-set_col cs (set_col startd_ad d s) startd_pvt_ad startd_pvt_ad e j

    count-put_back :
        (t : AdType) (r : ℕ × (cs.Col × Option cs.Col)) (s : Store cs.Col)
        → (put_back ev cs t r s).0 ≡ r.0
    count-put_back t (n, (d, none)) s = refl
    count-put_back t (n, (d, some e)) s = refl

    count-remove_keys :
        (k : Text) (c : cs.Col) (pvt : Option cs.Col)
        → (remove_keys ev cs (k ∷ []) 0 c pvt).0 ≡ (if is_some (cs.get k c) then 1 else 0)
    unfolding remove_keys count
    count-remove_keys k c pvt = ground (arith, laws.delete_present k c)

    doomed-named :
        (t : AdType) (ad : Ad) (k : Text) (c : cs.Col)
        → hash_key ev t ad ≡ some k
        → doomed ev cs t none (some ad) c ≡ k ∷ []
    unfolding doomed keys_of
    doomed-named t ad k c h = ground arith

    remove-some :
        (t : AdType) (q : Option Query) (key_ad : Option Ad) (c : cs.Col) (s : Store cs.Col)
        → s.cols t ≡ some c
        → remove ev cs t q key_ad s
          ≡ put_back ev cs t
              (remove_keys ev cs (doomed ev cs t q key_ad c) 0 c (pvt_table ev cs t s))
              s
    unfolding remove
    remove-some t q key_ad c s e = ground arith

    -- The private table is written along with a table other than itself.
    pvt-apart :
        (t : AdType) (keys : List Text) (c : cs.Col) (s : Store cs.Col)
        → ((remove_keys ev cs keys 0 c (pvt_table ev cs t s)).1.1 ≡ none)
          ⊎ (same_table t startd_pvt_ad ≡ false)
    pvt-apart t keys c s = elim (Bool-cases (same_table t startd_ad)) [
      | inl h ↦ inr (rw (same_table_sound t startd_ad h) refl)
      | inr h ↦ inl (rw h (remove_keys-pvt_none keys 0 c))
    ]

    -- What is left in the table itself.
    view-remove :
        (t : AdType) (q : Option Query) (key_ad : Option Ad) (c : cs.Col) (s : Store cs.Col)
        (j : Text)
        → s.cols t ≡ some c
        → view cs (remove ev cs t q key_ad s).1 t j
          ≡ (if any (text_eq j) (doomed ev cs t q key_ad c) then none else view cs s t j)
    view-remove t q key_ad c s j e =
        let keys = doomed ev cs t q key_ad c in
        let r = remove_keys ev cs keys 0 c (pvt_table ev cs t s) in
        rw (remove-some t q key_ad c s e, view-some cs s t c j e)
          (view-put_back t r.0 r.1.0 r.1.1 s j (pvt-apart t keys c s)
            ∙ get-remove_keys keys 0 c (pvt_table ev cs t s) j)

    -- An invalidation by a constraint leaves, of the ads that a table keeps under their own keys, those
    -- that do not match it: no more, and no fewer.
    pub remove-matching :
        (t : AdType) (q : Query) (key_ad : Option Ad) (c : cs.Col) (s : Store cs.Col) (j : Text)
        → s.cols t ≡ some c
        → Keyed cs ev t c
        → view cs (remove ev cs t (some q) key_ad s).1 t j ≡ without cs (matches q) (view cs s t j)
    unfolding doomed passes without
    remove-matching t q key_ad c s j e keyed = ground (
      arith,
      view-remove t (some q) key_ad c s j e,
      laws.query_scan q c,
      keys_of-any_iff cs laws ev t (matches q) c j keyed,
      view-some cs s t c j e,
    )

    -- What is left in the private table, under each key.
    view-remove_pvt :
        (q : Option Query) (key_ad : Option Ad) (c d : cs.Col) (s : Store cs.Col) (j : Text)
        → s.cols startd_ad ≡ some c
        → s.cols startd_pvt_ad ≡ some d
        → view cs (remove ev cs startd_ad q key_ad s).1 startd_pvt_ad j ≡ (
            if any (text_eq j) (doomed ev cs startd_ad q key_ad c)
            then none
            else view cs s startd_pvt_ad j)
    view-remove_pvt q key_ad c d s j e f =
        let keys = doomed ev cs startd_ad q key_ad c in
        let (rest, p, left) = get-remove_keys_pvt keys 0 c d in
        let r = remove_keys ev cs keys 0 c (some d) in
        rw (remove-some startd_ad q key_ad c s e, f, p)
          (ground (
            arith,
            view-put_back_pvt r.0 r.1.0 rest s j,
            left j,
            view-some cs s startd_pvt_ad d j f,
          ))

    -- An invalidation of startd ads by a constraint removes the private ads under the keys of the startd
    -- ads that match it, where these stand under their own keys, and no other private ad. One of a named
    -- startd ad removes the private ad under that ad's key, whether a startd ad stands there or not, and
    -- no other.
    pub remove-private :
        (q : Query) (key_ad : Option Ad) (ad : Ad) (k : Text) (c d : cs.Col) (s : Store cs.Col)
        (j : Text)
        → s.cols startd_ad ≡ some c
        → s.cols startd_pvt_ad ≡ some d
        → Keyed cs ev startd_ad c
        → hash_key ev startd_ad ad ≡ some k
        → (view cs (remove ev cs startd_ad (some q) key_ad s).1 startd_pvt_ad j ≡ (
            if passes cs (matches q) (view cs s startd_ad j)
            then none
            else view cs s startd_pvt_ad j))
          × (view cs (remove ev cs startd_ad none (some ad) s).1 startd_pvt_ad j
              ≡ (if text_eq j k then none else view cs s startd_pvt_ad j))
    unfolding doomed
    remove-private q key_ad ad k c d s j e f keyed h = (
      ground (
        arith,
        view-remove_pvt (some q) key_ad c d s j e f,
        laws.query_scan q c,
        keys_of-any_iff cs laws ev startd_ad (matches q) c j keyed,
        view-some cs s startd_ad c j e,
      ),
      ground (arith, view-remove_pvt none (some ad) c d s j e f, doomed-named startd_ad ad k c h),
    )

    -- The invalidation of a named ad removes the ad under its key and nothing else from the table, and
    -- counts 1 exactly if there was one.
    pub remove-named :
        (t : AdType) (ad : Ad) (k : Text) (c : cs.Col) (s : Store cs.Col) (j : Text)
        → s.cols t ≡ some c
        → hash_key ev t ad ≡ some k
        → ((remove ev cs t none (some ad) s).0 ≡ (if is_some (view cs s t k) then 1 else 0))
          × (view cs (remove ev cs t none (some ad) s).1 t j
              ≡ (if text_eq j k then none else view cs s t j))
    unfolding doomed
    remove-named t ad k c s j e h = (
      rw (remove-some t none (some ad) c s e, view-some cs s t c k e, doomed-named t ad k c h)
          (count-put_back t (remove_keys ev cs (k ∷ []) 0 c (pvt_table ev cs t s)) s
            ∙ count-remove_keys k c (pvt_table ev cs t s)),
      ground (arith, view-remove t none (some ad) c s j e, doomed-named t ad k c h),
    )

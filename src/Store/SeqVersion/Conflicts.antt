-- ===== src/Store/SeqVersion/Conflicts.antt =====
-- What `resolveConflicts` commits again.
use golang_collector.Base.{
  ◌≡◌, ◌↔◌, ◌⊎◌, Bool, true, false, ◌&&◌, inl, inr, Option, some, List, [], ◌∷◌, any, Bool-cases,
  arith,
}
use golang_collector.Base.Text.{Text, text_eq, text_eq_iff, text_eq_refl}
use golang_collector.Base.Int.{ltb_int, eq_int}
use golang_collector.Store.SeqVersion.Order.{eq_int_sound, eq_int_refl, ltb_int_irrefl}
use golang_collector.Store.SeqVersion.{
  AdVersion, Lookup, failed, absent, present, lookup_text, KeyedText, newer_than, version_from_text,
  ours, replaces, rewrite_loop, resolve_conflicts,
}

-- The version is newer: what is compared with has no usable one, or an earlier start of the daemon, or
-- the same start and a lower sequence number.
abbrev pub IsNewer : AdVersion → AdVersion → Type 0
IsNewer a b =
    (b.valid ≡ false)
    ⊎ ((ltb_int b.start_time a.start_time ≡ true)
        ⊎ ((a.start_time ≡ b.start_time) × (ltb_int b.seq_no a.seq_no ≡ true)))

-- The lookup fails, or finds nothing, or an ad than which `text` is newer.
abbrev pub Yields : Lookup → Text → Type 0
Yields failed text = Unit
Yields absent text = Unit
Yields (present s) text = IsNewer (version_from_text text) (version_from_text s)

-- An update may be committed again: it is ours, for a conflicted key, with a usable version, and
-- what is stored yields to it.
pub record IsRewrite (keys : List Text) (look : Text → Lookup) (items : List KeyedText)
    (it : KeyedText) : Type 0 where
  pub conflicted : any (text_eq it.key) keys ≡ true
  pub from_batch : ours keys items it.key ≡ some it.text
  pub versioned : (version_from_text it.text).valid ≡ true
  pub stored : Yields (look it.key) it.text

newer_than_iff-IsNewer : (a b : AdVersion) → a.valid ≡ true → (newer_than a b ≡ true) ↔ IsNewer a b
unfolding newer_than
newer_than_iff-IsNewer a b v = (
  λ h. elim (Bool-cases b.valid) [
    | inr g ↦ inl g
    | inl g ↦ elim (Bool-cases (eq_int a.start_time b.start_time)) [
      | inl e ↦ inr (inr (eq_int_sound a.start_time b.start_time e, ground (arith, h, v, g, e)))
      | inr e ↦ inr (inl (ground (arith, h, v, g, e)))
    ]
  ],
  λ h. elim h [
    | inl g ↦ ground (arith, v, g)
    | inr (inl g) ↦
        ground (arith, v, g, eq_int_sound a.start_time b.start_time, ltb_int_irrefl a.start_time)
    | inr (inr (e, g)) ↦ ground (arith, v, e, g, eq_int_refl a.start_time)
  ],
)

-- Whether a list of updates has this one.
abbrev pub has : Text → Text → List KeyedText → Bool
has key text = any (λ it. text_eq it.key key && text_eq it.text text)

has_cons :
    (key text : Text) (it : KeyedText) (its : List KeyedText)
    → has key text its ≡ true
    → has key text (it ∷ its) ≡ true
has_cons key text it its h = ground arith

rewrite_loop_complete :
    (our_text : Text → Option Text) (look : Text → Lookup) (keys : List Text) (key text : Text)
    → any (text_eq key) keys ≡ true
    → our_text key ≡ some text
    → replaces text (lookup_text (look key)) ≡ true
    → has key text (rewrite_loop our_text look keys) ≡ true
unfolding rewrite_loop
rewrite_loop_complete our_text look [] key text h e r = cc
rewrite_loop_complete our_text look (k ∷ rest) key text h e r = ground (
  arith,
  text_eq_iff key k,
  text_eq_refl key,
  text_eq_refl text,
  rewrite_loop_complete our_text look rest key text,
)

Yields-replaces :
    (text : Text) (found : Lookup)
    → (version_from_text text).valid ≡ true
    → Yields found text
    → replaces text (lookup_text found) ≡ true
unfolding replaces lookup_text
Yields-replaces text failed v h = ground arith
Yields-replaces text absent v h = ground arith
Yields-replaces text (present s) v h =
    ground (arith, v, (newer_than_iff-IsNewer (version_from_text text) (version_from_text s) v).1 h)

-- Each update of ours for a conflicted key that has a usable version is committed again where it is
-- newer, by the start of its daemon and then by its sequence number, than the ad that the lookup found,
-- and where the lookup found nothing or failed.
pub resolve_conflicts_complete :
    (keys : List Text) (look : Text → Lookup) (items : List KeyedText) (it : KeyedText)
    → IsRewrite keys look items it
    → has it.key it.text (resolve_conflicts (some keys) look items) ≡ true
unfolding resolve_conflicts
resolve_conflicts_complete keys look items it r =
    rewrite_loop_complete (ours keys items) look keys it.key it.text r.conflicted r.from_batch
      (Yields-replaces it.text (look it.key) r.versioned r.stored)

-- ===== src/Server/Relay/Bounds.antt =====
-- The invariant of a response while its ads are sent.
use golang_collector.Base.{
  ℕ, suc, ◌+◌, ◌≤◌, ◌≡◌, refl, Bool, true, false, not, ◌&&◌, ltb, leb, Option, some, List, [], ◌∷◌,
  ◌++◌, All, All-append, Bool-cases, Option-cases, inl, inr, arith, if◌then◌else◌,
}
use golang_collector.Base.Text.{Text, codes}
use golang_collector.Store.RawProject.{RawAd, raw_expr_attr_name}
use golang_collector.Server.TypeAttrs.{
  with, with_raw_type_attrs, IsCached, with-IsCached, with-with_raw_type_attrs, my_type_line,
  target_type_line,
}
use golang_collector.Server.Redact.{private_expr, redact_raw_exprs, redact_raw_exprs-All}
use golang_collector.Server.Query.{QueryAds, project}
use golang_collector.Server.Relay.{
  Error, Frame, int32, raw_ad, classad, Sending, relay_ad, send_exprs, send_one, send_row,
  send_classad, scan,
}

-- How many ads have been sent.
pub count_ads : {Ad : Type 0} → List (Frame Ad) → ℕ
count_ads [] = 0
count_ads (int32 k ∷ fs) = count_ads fs
count_ads (raw_ad exprs ∷ fs) = suc (count_ads fs)
count_ads (classad ad redacted ∷ fs) = suc (count_ads fs)

abbrev is_ad : {Ad : Type 0} → Frame Ad → Bool
is_ad (int32 k) = false
is_ad (raw_ad exprs) = true
is_ad (classad ad redacted) = true

count_ads-append :
    {Ad : Type 0} (fs : List (Frame Ad)) (f : Frame Ad)
    → is_ad f ≡ true
    → (count_ads (fs ++ int32 1 ∷ []) ≡ count_ads fs)
      × (count_ads (fs ++ int32 1 ∷ f ∷ []) ≡ suc (count_ads fs))
unfolding count_ads
count_ads-append [] (int32 k) h = cc
count_ads-append [] (raw_ad e) h = (refl, refl)
count_ads-append [] (classad a r) h = (refl, refl)
count_ads-append (int32 k ∷ fs) f h = count_ads-append fs f h
count_ads-append (raw_ad e ∷ fs) f h = ground (arith, count_ads-append fs f h)
count_ads-append (classad a r ∷ fs) f h = ground (arith, count_ads-append fs f h)

module _ (is_private : Text → Bool) where
  abbrev pub AllPublic : List Text → Type 0
  AllPublic = All (λ e. not (private_expr is_private e) ≡ true)

  -- A frame shows no private attribute.
  abbrev pub Public : {Ad : Type 0} → Frame Ad → Type 0
  Public (int32 k) = Unit
  Public (raw_ad exprs) = AllPublic exprs
  Public (classad ad redacted) = redacted ≡ true

  with_raw_type_attrs-AllPublic :
      (exprs : List Text) (my_type target_type : Text)
      → is_private (codes "MyType") ≡ false
      → is_private (codes "TargetType") ≡ false
      → AllPublic exprs
      → AllPublic (with_raw_type_attrs exprs my_type target_type)
  unfolding with_raw_type_attrs my_type_line target_type_line private_expr raw_expr_attr_name
  with_raw_type_attrs-AllPublic exprs [] [] h k p = p
  with_raw_type_attrs-AllPublic exprs (c ∷ m) [] h k p = (ground arith, p)
  with_raw_type_attrs-AllPublic exprs [] (c ∷ t) h k p = (ground arith, p)
  with_raw_type_attrs-AllPublic exprs (c ∷ m) (d ∷ t) h k p = (ground arith, (ground arith, p))

module _ (q : QueryAds) {Row : Type 0} (is_private : Text → Bool) (render : Row → Option RawAd)
    (accepts : List (Frame q.Ad) → Frame q.Ad → Option Error) (limit : ℕ) (redact : Bool)
    (before : List (Frame q.Ad)) where
  -- What holds of a response all the way: it is public if it should be, it counts its ads, it is
  -- within the limit, and the cache is right.
  pub record Inv (s : Sending q.Ad) : Type 0 where
    pub public : redact ≡ true → All (Public is_private) s.out
    pub bounded : ltb 0 limit ≡ true → s.n ≤ limit
    pub counted : count_ads s.out ≡ count_ads before + s.n
    pub cached : IsCached s.types

  relay_ad-Inv :
      (f : Frame q.Ad) (s : Sending q.Ad)
      → is_ad f ≡ true
      → (redact ≡ true → Public is_private f)
      → (ltb 0 limit && leb limit s.n) ≡ false
      → Inv s
      → Inv (relay_ad q is_private render accepts limit redact f s).1
  unfolding relay_ad
  relay_ad-Inv f s a p below h = elim (Option-cases (accepts s.out (int32 1))) [
    | inr (x, e) ↦
        rw (e, relay_ad)
          (record {
            public = h.public;
            bounded = h.bounded;
            counted = h.counted;
            cached = h.cached;
          })
    | inl e ↦ elim (Option-cases (accepts (s.out ++ int32 1 ∷ []) f)) [
      | inr (x, k) ↦
          rw (e, k, relay_ad)
            (record {
              public =
                  λ r. All-append (Public is_private) s.out (int32 1 ∷ []) (h.public r) (tt, tt);
              bounded = h.bounded;
              counted = ground (arith, count_ads-append s.out f a, h.counted);
              cached = h.cached;
            })
      | inl k ↦
          rw (e, k, relay_ad)
            (record {
              public = λ r.
                  All-append (Public is_private) s.out (int32 1 ∷ f ∷ []) (h.public r)
                    (tt, (p r, tt));
              bounded = λ l. ground (arith, h.bounded l);
              counted = ground (arith, count_ads-append s.out f a, h.counted);
              cached = h.cached;
            })
    ]
  ]

  send_exprs-Inv :
      (exprs : List Text) (ra : RawAd) (s : Sending q.Ad)
      → is_private (codes "MyType") ≡ false
      → is_private (codes "TargetType") ≡ false
      → (redact ≡ true → AllPublic is_private exprs)
      → (ltb 0 limit && leb limit s.n) ≡ false
      → Inv s
      → Inv (send_exprs q is_private render accepts limit redact exprs ra s).1
  unfolding send_exprs
  send_exprs-Inv exprs ra s m t p below h =
      relay_ad-Inv (raw_ad (with s.types exprs ra.my_type ra.target_type).0)
        (record s { types = (with s.types exprs ra.my_type ra.target_type).1 }) refl
        (λ r.
          rw (with-with_raw_type_attrs s.types exprs ra.my_type ra.target_type h.cached)
            (with_raw_type_attrs-AllPublic is_private exprs ra.my_type ra.target_type m t (p r)))
        below
        (record {
          public = h.public;
          bounded = h.bounded;
          counted = h.counted;
          cached = with-IsCached s.types exprs ra.my_type ra.target_type h.cached;
        })

  -- A step of the relay keeps the invariant.
  abbrev pub Keeps : {A : Type 0} → (A → Sending q.Ad → Bool × Sending q.Ad) → A → Type 0
  Keeps send a = (s : Sending q.Ad) → Inv s → Inv (send a s).1

  pub scan-Inv :
      {A : Type 0} (send : A → Sending q.Ad → Bool × Sending q.Ad) (rows : List A)
      → All (Keeps send) rows
      → (s : Sending q.Ad) → Inv s
      → Inv (scan q is_private render accepts limit redact send rows s).1
  unfolding scan
  scan-Inv send [] keeps s h = h
  scan-Inv send (a ∷ rest) keeps s h =
      let next = keeps.0 s h in
      let all = scan-Inv send rest keeps.1 (send a s).1 next in
      elim (Bool-cases (send a s).0) [ inl e ↦ rw e all | inr e ↦ rw e next ]

  module _ (m : is_private (codes "MyType") ≡ false)
      (t : is_private (codes "TargetType") ≡ false) where
    -- Ads that the source has redacted show nothing private.
    abbrev pub PublicAd : RawAd → Type 0
    PublicAd ra = AllPublic is_private ra.exprs

    pub send_one-Keeps :
        (src : Bool) (ra : RawAd)
        → (src ≡ true → redact ≡ true → PublicAd ra)
        → Keeps (send_one q is_private render accepts limit redact src) ra
    unfolding send_one
    send_one-Keeps src ra p s h = elim (Bool-cases (ltb 0 limit && leb limit s.n)) [
      | inl e ↦ rw (e, send_one) h
      | inr e ↦
          rw (e, send_one)
            (send_exprs-Inv
              (if redact && not src then redact_raw_exprs is_private ra.exprs else ra.exprs) ra s m
              t (λ r. public_exprs src ra p r) e h)
    ]
      where
        public_exprs :
            (src : Bool) (ra : RawAd)
            → (src ≡ true → redact ≡ true → PublicAd ra)
            → redact ≡ true
            → AllPublic is_private
                (if redact && not src then redact_raw_exprs is_private ra.exprs else ra.exprs)
        public_exprs true ra p r = rw r (p refl r)
        public_exprs false ra p r = rw r (redact_raw_exprs-All is_private ra.exprs)

    pub send_row-Keeps :
        (row : Row)
        → ((ra : RawAd) → render row ≡ some ra → redact ≡ true → PublicAd ra)
        → Keeps (send_row q is_private render accepts limit redact) row
    unfolding send_row
    send_row-Keeps row p s h = elim (Bool-cases (ltb 0 limit && leb limit s.n)) [
      | inl e ↦ rw (e, send_row) h
      | inr e ↦ elim (Option-cases (render row)) [
        | inl k ↦ rw (e, k, send_row) h
        | inr (ra, k) ↦ rw (e, k, send_row) (send_exprs-Inv ra.exprs ra s m t (p ra k) e h)
      ]
    ]

  pub send_classad-Keeps :
      (projection : List Text) (ad : q.Ad)
      → Keeps (send_classad q is_private render accepts limit redact projection) ad
  unfolding send_classad
  send_classad-Keeps projection ad s h = elim (Bool-cases (ltb 0 limit && leb limit s.n)) [
    | inl e ↦ rw (e, send_classad) h
    | inr e ↦
        rw (e, send_classad)
          (relay_ad-Inv (classad (project q ad projection) redact) s refl (λ r. r) e h)
  ]

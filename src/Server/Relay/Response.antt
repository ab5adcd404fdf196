-- ===== src/Server/Relay/Response.antt =====
-- What the response to a query holds, whichever path it was sent by.
use golang_collector.Base.{ℕ, ◌+◌, ◌≤◌, ◌≡◌, Bool, true, false, ltb, Option, none, List, All, arith}
use golang_collector.Base.Text.{Text, codes}
use golang_collector.Store.AdType.{AdType}
use golang_collector.Store.RawProject.{RawAd}
use golang_collector.Server.TypeAttrs.{no_type_attrs}
use golang_collector.Server.Query.{QueryAds}
use golang_collector.Server.Relay.{Error, Frame, Backend, relay_matches}
use golang_collector.Server.Relay.Bounds.{count_ads, Public, Inv}
use golang_collector.Server.Relay.Paths.{relay_from-Inv}
use golang_collector.Server.Relay.Sources.{Redacts}

module _ (q : QueryAds) {Row : Type 0} (is_private : Text → Bool) (render : Row → Option RawAd)
    (accepts : List (Frame q.Ad) → Frame q.Ad → Option Error) (limit : ℕ) (redact : Bool)
    (b : Backend q.Ad Row) (t : AdType) (constraint : Text) (projection : List Text) where
  start-Inv :
      (before : List (Frame q.Ad))
      → (redact ≡ true → All (Public is_private) before)
      → Inv q is_private render accepts limit redact before
          (record { n = 0; types = no_type_attrs; out = before; send_err = none })
  start-Inv before p = record {
    public = p;
    bounded = λ l. omega arith;
    counted = omega arith;
    cached = record { my_type = tt; target_type = tt };
  }

  -- A response to a redacted query shows no private attribute, whichever of its paths the backend
  -- offers, and whether or not it ends in an error, where a backend that redacts at the source does.
  pub relay_matches-Public :
      (before : List (Frame q.Ad))
      → is_private (codes "MyType") ≡ false
      → is_private (codes "TargetType") ≡ false
      → Redacts q is_private render accepts limit redact b
      → redact ≡ true
      → All (Public is_private) before
      → All
          (Public is_private)
          (relay_matches q is_private render accepts limit redact b t constraint projection
            before).1
  unfolding relay_matches
  relay_matches-Public before m u r on p =
      (relay_from-Inv q is_private render accepts limit redact before m u b t constraint projection
          (record { n = 0; types = no_type_attrs; out = before; send_err = none }) r
          (start-Inv before (λ r'. p))).public
        on

  -- A query with a limit is sent no more ads than that, where a backend that redacts at the source
  -- does.
  pub count_ads-relay_matches-le :
      (before : List (Frame q.Ad))
      → is_private (codes "MyType") ≡ false
      → is_private (codes "TargetType") ≡ false
      → Redacts q is_private render accepts limit redact b
      → (redact ≡ true → All (Public is_private) before)
      → ltb 0 limit ≡ true
      → count_ads
          (relay_matches q is_private render accepts limit redact b t constraint projection
            before).1
        ≤ count_ads before + limit
  unfolding relay_matches
  count_ads-relay_matches-le before m u r p l =
      let inv =
        relay_from-Inv q is_private render accepts limit redact before m u b t constraint projection
          (record { n = 0; types = no_type_attrs; out = before; send_err = none }) r
          (start-Inv before p) in
      omega (arith, inv.counted, inv.bounded l)

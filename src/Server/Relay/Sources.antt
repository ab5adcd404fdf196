-- ===== src/Server/Relay/Sources.antt =====
-- What a backend that redacts at the source is relied on for.
use golang_collector.Base.{ℕ, ◌≡◌, refl, Bool, true, Option, none, some, List, [], ◌∷◌, All}
use golang_collector.Base.Text.{Text}
use golang_collector.Store.AdType.{AdType}
use golang_collector.Store.RawProject.{RawAd}
use golang_collector.Server.Query.{QueryAds}
use golang_collector.Server.Relay.{Error, Result, ok, err, Stream, Frame, Backend, given}
use golang_collector.Server.Relay.Bounds.{AllPublic}

pub every : {A : Type 0} (P : A → Type 0) → ((a : A) → P a) → (as_list : List A) → All P as_list
every P f [] = tt
every P f (a ∷ rest) = (f a, every P f rest)

-- Of a list of ads, if there is one.
abbrev pub AllOk : {A : Type 0} → (A → Type 0) → Option (Result (List A)) → Type 0
AllOk P none = Unit
AllOk P (some (err e)) = Unit
AllOk P (some (ok ads)) = All P ads

AllOk-some :
    {A : Type 0} (P : A → Type 0) (r : Result (List A))
    → ((ads : List A) → r ≡ ok ads → All P ads)
    → AllOk P (some r)
AllOk-some P (err e) h = tt
AllOk-some P (ok ads) h = h ads refl

pub given-AllOk :
    {F A : Type 0} {P : A → Type 0} (use_it : F → Result (List A)) (o : Option F)
    → ((f : F) (ads : List A) → o ≡ some f → use_it f ≡ ok ads → All P ads)
    → AllOk P (given use_it o)
given-AllOk use_it none h = tt
given-AllOk {P} use_it (some f) h = AllOk-some P (use_it f) (λ ads. h f ads refl)

module _ (q : QueryAds) {Row : Type 0} (is_private : Text → Bool) (render : Row → Option RawAd)
    (accepts : List (Frame q.Ad) → Frame q.Ad → Option Error) (limit : ℕ) (redact : Bool) where
  -- What is relied on of a backend that redacts at the source: an ad that it returns for a redacted
  -- query has no private attribute.
  pub record Redacts (b : Backend q.Ad Row) : Type 0 where
    pub raw :
        (f : AdType → Text → ℕ → Result (List RawAd)) (t : AdType) (constraint : Text)
        (ads : List RawAd)
        → b.query_raw_redacted ≡ some f
        → f t constraint limit ≡ ok ads
        → All (λ (ra : RawAd). AllPublic is_private ra.exprs) ads
    pub projected :
        (f : AdType → Text → List Text → ℕ → Result (List RawAd)) (t : AdType) (constraint : Text)
        (projection : List Text) (ads : List RawAd)
        → b.query_raw_project_redacted ≡ some f
        → f t constraint projection limit ≡ ok ads
        → All (λ (ra : RawAd). AllPublic is_private ra.exprs) ads
    pub wire :
        (f : AdType → Text → List Text → ℕ → Bool → Stream Row) (t : AdType) (constraint : Text)
        (projection : List Text)
        → b.query_raw_wire_stream ≡ some f
        → redact ≡ true
        → All
            (λ (row : Row). (ra : RawAd) → render row ≡ some ra → AllPublic is_private ra.exprs)
            (f t constraint projection limit redact).rows

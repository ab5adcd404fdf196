-- ===== src/Server/Relay.antt =====
-- server/server.go: `relayMatches`, which sends the ads of a query by the best path that the
-- backend has. What has been sent is a list of frames; `accepts` is the connection, which may
-- refuse a frame depending on all that was sent. A stream of rows is the rows that it would yield,
-- and the error that it ends in once so many of them were consumed.
pub mod Bounds
pub mod Sources
pub mod Paths
pub mod Response
use golang_collector.Base.{
  ℕ, suc, ◌+◌, ◌≡◌, Bool, true, false, not, ◌&&◌, ltb, leb, Option, none, some, List, [], ◌∷◌, ◌++◌,
  if◌then◌else◌,
}
use golang_collector.Base.Text.{Text}
use golang_collector.Store.AdType.{AdType}
use golang_collector.Store.RawProject.{RawAd}
use golang_collector.Server.TypeAttrs.{TypeAttrs, no_type_attrs, with}
use golang_collector.Server.Redact.{redact_raw_exprs}
use golang_collector.Server.Query.{QueryAds, project}

pub data Error : Type 0 where
  redaction_not_supported : Error
  other : ℕ → Error

pub data Result (A : Type 0) : Type 0 where
  ok : A → Result A
  err : Error → Result A

pub record Stream (A : Type 0) : Type 0 where
  pub rows : List A
  pub outcome : ℕ → Option Error

pub data Frame (Ad : Type 0) : Type 0 where
  int32 : ℕ → Frame Ad
  raw_ad : List Text → Frame Ad
  -- An ad that the ClassAd library serializes, with or without its private attributes.
  classad : Ad → Bool → Frame Ad

-- What a backend can do for a query; only `query` is always there.
pub record Backend (Ad Row : Type 0) : Type 0 where
  pub query : AdType → Text → ℕ → Result (List Ad)
  pub query_raw : Option (AdType → Text → ℕ → Result (List RawAd))
  pub query_raw_stream : Option (AdType → Text → ℕ → Stream RawAd)
  pub query_raw_redacted : Option (AdType → Text → ℕ → Result (List RawAd))
  pub query_raw_project : Option (AdType → Text → List Text → ℕ → Result (List RawAd))
  pub query_raw_project_stream : Option (AdType → Text → List Text → ℕ → Stream RawAd)
  pub query_raw_project_redacted : Option (AdType → Text → List Text → ℕ → Result (List RawAd))
  pub query_raw_wire_stream : Option (AdType → Text → List Text → ℕ → Bool → Stream Row)

-- The use of a capability, where the backend has it.
abbrev pub given : {F A : Type 0} → (F → A) → Option F → Option A
given use_it none = none
given use_it (some f) = some (use_it f)

-- The variables of a response: the ads sent, the cached type lines, the frames, a failed write.
pub record Sending (Ad : Type 0) : Type 0 where
  pub n : ℕ
  pub types : TypeAttrs
  pub out : List (Frame Ad)
  pub send_err : Option Error

module _ (q : QueryAds) {Row : Type 0} (is_private : Text → Bool) (render : Row → Option RawAd)
    (accepts : List (Frame q.Ad) → Frame q.Ad → Option Error) (limit : ℕ) (redact : Bool) where
  -- `PutInt32(1)` and then an ad: whether to go on.
  unfoldable pub relay_ad : Frame q.Ad → Sending q.Ad → Bool × Sending q.Ad
  relay_ad f s = elim (accepts s.out (int32 1)) [
    | some e ↦ (false, record s { send_err = some e })
    | none ↦ elim (accepts (s.out ++ int32 1 ∷ []) f) [
      | some e ↦ (false, record s { send_err = some e; out = s.out ++ int32 1 ∷ [] })
      | none ↦ (true, record s { n = suc s.n; out = s.out ++ int32 1 ∷ f ∷ [] })
    ]
  ]

  -- Sends one ad with its types as attributes, below the limit.
  unfoldable pub send_exprs : List Text → RawAd → Sending q.Ad → Bool × Sending q.Ad
  send_exprs exprs ra s =
      let (lines, types) = with s.types exprs ra.my_type ra.target_type in
      relay_ad (raw_ad lines) (record s { types = types })

  unfoldable pub send_one : Bool → RawAd → Sending q.Ad → Bool × Sending q.Ad
  send_one src_redacted ra s =
      if ltb 0 limit && leb limit s.n
      then (false, s)
      else send_exprs
          (if redact && not src_redacted then redact_raw_exprs is_private ra.exprs else ra.exprs) ra
          s

  -- A row of the wire form: one that does not render is passed over.
  unfoldable pub send_row : Row → Sending q.Ad → Bool × Sending q.Ad
  send_row row s =
      if ltb 0 limit && leb limit s.n
      then (false, s)
      else elim (render row) [ none ↦ (true, s) | some ra ↦ send_exprs ra.exprs ra s ]

  unfoldable pub send_classad : List Text → q.Ad → Sending q.Ad → Bool × Sending q.Ad
  send_classad projection ad s =
      if ltb 0 limit && leb limit s.n
      then (false, s)
      else relay_ad (classad (project q ad projection) redact) s

  -- Sends until one says to stop: how many were consumed.
  unfoldable pub scan :
      {A : Type 0}
      → (A → Sending q.Ad → Bool × Sending q.Ad)
      → List A
      → Sending q.Ad
      → ℕ × Sending q.Ad
  scan send [] s = (0, s)
  scan send (a ∷ rest) s =
      let (go_on, s') = send a s in
      let (k, s'') = scan send rest s' in if go_on then (suc k, s'') else (1, s')

  abbrev pub Sent : Type 0
  Sent = Option Error × Sending q.Ad

  -- A list of ads: the error is that of a write.
  unfoldable pub send_list :
      {A : Type 0}
      → (A → Sending q.Ad → Bool × Sending q.Ad)
      → Result (List A)
      → Sending q.Ad
      → Sent
  send_list send (err e) s = (some e, s)
  send_list send (ok ads) s = let (k, s') = scan send ads s in (s'.send_err, s')

  unfoldable pub send_stream : Stream RawAd → Sending q.Ad → Sent
  send_stream st s =
      let (k, s') = scan (send_one false) st.rows s in
      elim (st.outcome k) [ some e ↦ (some e, s') | none ↦ (s'.send_err, s') ]

  -- The paths without redaction at the source, down to the materialized one.
  unfoldable pub plain_paths :
      Option (Stream RawAd)
      → Option (Result (List RawAd))
      → List Text
      → Result (List q.Ad)
      → Sending q.Ad
      → Sent
  plain_paths (some st) raw projection ads s = send_stream st s
  plain_paths none (some raw) projection ads s = send_list (send_one false) raw s
  plain_paths none none projection ads s = send_list (send_classad projection) ads s

  -- The ads that the source has redacted, unless it cannot.
  unfoldable pub redacted_or : Option (Result (List RawAd)) → Sent → Sending q.Ad → Sent
  redacted_or none rest s = rest
  redacted_or (some (ok ads)) rest s = if redact then send_list (send_one true) (ok ads) s else rest
  redacted_or (some (err redaction_not_supported)) rest s = rest
  redacted_or (some (err (other e))) rest s = if redact then (some (other e), s) else rest

  module _ (b : Backend q.Ad Row) (t : AdType) (constraint : Text) where
    unfoldable pub text_paths : List Text → Sending q.Ad → Sent
    text_paths [] s =
        redacted_or (given (λ f. f t constraint limit) b.query_raw_redacted)
          (plain_paths (given (λ f. f t constraint limit) b.query_raw_stream)
            (given (λ f. f t constraint limit) b.query_raw) [] (b.query t constraint limit) s)
          s
    text_paths (a ∷ p) s =
        redacted_or (given (λ f. f t constraint (a ∷ p) limit) b.query_raw_project_redacted)
          (plain_paths (given (λ f. f t constraint (a ∷ p) limit) b.query_raw_project_stream)
            (given (λ f. f t constraint (a ∷ p) limit) b.query_raw_project) (a ∷ p)
            (b.query t constraint limit) s)
          s

    -- After the wire rows: the other paths are tried only if no row went out. An ad is counted in `n`
    -- exactly where `relayed` is set.
    unfoldable pub after_wire : List Text → Option Error → Sending q.Ad → Sent
    after_wire projection werr s = elim s.send_err [
      | some e ↦ (some e, s)
      | none ↦ elim werr [
        | none ↦ (none, s)
        | some e ↦ if ltb 0 s.n then (some e, s) else text_paths projection s
      ]
    ]

    unfoldable pub relay_from : List Text → Sending q.Ad → Sent
    relay_from projection s = elim b.query_raw_wire_stream [
      | none ↦ text_paths projection s
      | some f ↦
          let st = f t constraint projection limit redact in
          let (k, s') = scan send_row st.rows s in after_wire projection (st.outcome k) s'
    ]

    unfoldable pub relay_matches : List Text → List (Frame q.Ad) → Option Error × List (Frame q.Ad)
    relay_matches projection out =
        let (e, s) =
          relay_from projection
            (record { n = 0; types = no_type_attrs; out = out; send_err = none }) in
        (e, s.out)

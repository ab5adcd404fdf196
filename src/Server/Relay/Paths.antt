-- ===== src/Server/Relay/Paths.antt =====
-- The invariant of a response along each path that the ads may be sent by.
use golang_collector.Base.{
  ℕ, ◌≡◌, Bool, true, false, ltb, Option, none, some, List, [], ◌∷◌, All, All-map, Bool-cases,
  Option-cases, inl, inr, if◌then◌else◌,
}
use golang_collector.Base.Text.{Text, codes}
use golang_collector.Store.AdType.{AdType}
use golang_collector.Store.RawProject.{RawAd}
use golang_collector.Server.Query.{QueryAds}
use golang_collector.Server.Relay.{
  Error, redaction_not_supported, other, Result, ok, err, Stream, Frame, Backend, Sending, given,
  send_one, send_row, send_classad, scan, send_list, send_stream, plain_paths, redacted_or,
  text_paths, after_wire, relay_from,
}
use golang_collector.Server.Relay.Bounds.{
  AllPublic, Inv, Keeps, scan-Inv, send_one-Keeps, send_row-Keeps, send_classad-Keeps,
}
use golang_collector.Server.Relay.Sources.{every, AllOk, given-AllOk, Redacts}

module _ (q : QueryAds) {Row : Type 0} (is_private : Text → Bool) (render : Row → Option RawAd)
    (accepts : List (Frame q.Ad) → Frame q.Ad → Option Error) (limit : ℕ) (redact : Bool) where
  module _ (before : List (Frame q.Ad)) (m : is_private (codes "MyType") ≡ false)
      (u : is_private (codes "TargetType") ≡ false) where
    abbrev Holds : Sending q.Ad → Type 0
    Holds s = Inv q is_private render accepts limit redact before s

    send_list-Inv :
        {A : Type 0} (send : A → Sending q.Ad → Bool × Sending q.Ad) (r : Result (List A))
        (s : Sending q.Ad)
        → AllOk (Keeps q is_private render accepts limit redact before send) (some r)
        → Holds s
        → Holds (send_list q is_private render accepts limit redact send r s).1
    unfolding send_list
    send_list-Inv send (err e) s k h = h
    send_list-Inv send (ok ads) s k h =
        scan-Inv q is_private render accepts limit redact before send ads k s h

    -- An ad that was not redacted at the source is redacted when it is sent.
    one_by_one :
        (ra : RawAd)
        → Keeps q is_private render accepts limit redact before
            (send_one q is_private render accepts limit redact false)
            ra
    one_by_one ra =
        send_one-Keeps q is_private render accepts limit redact before m u false ra (λ x. cc)

    either :
        (b : Bool) (x y : Option Error × Sending q.Ad)
        → Holds x.1
        → Holds y.1
        → Holds (if b then x else y).1
    either true x y h k = h
    either false x y h k = k

    ended :
        (o : Option Error) (s : Sending q.Ad)
        → Holds s
        → Holds
            (elim o as (λ x. Option Error × Sending q.Ad) [
              | some e ↦ (some e, s)
              | none ↦ (s.send_err, s)
            ]).1
    ended none s h = h
    ended (some e) s h = h

    plain_paths-Inv :
        (stream : Option (Stream RawAd)) (raw : Option (Result (List RawAd)))
        (projection : List Text) (ads : Result (List q.Ad)) (s : Sending q.Ad)
        → Holds s
        → Holds (plain_paths q is_private render accepts limit redact stream raw projection ads s).1
    unfolding plain_paths send_stream send_list
    plain_paths-Inv (some st) raw projection ads s h =
        let kept =
          scan-Inv q is_private render accepts limit redact before
            (send_one q is_private render accepts limit redact false) st.rows
            (every
              (Keeps q is_private render accepts limit redact before
                (send_one q is_private render accepts limit redact false))
              one_by_one st.rows)
            s h in
        ended
          (st.outcome
            (scan q is_private render accepts limit redact
              (send_one q is_private render accepts limit redact false) st.rows s).0)
          (scan q is_private render accepts limit redact
            (send_one q is_private render accepts limit redact false) st.rows s).1
          kept
    plain_paths-Inv none (some (err e)) projection ads s h = h
    plain_paths-Inv none (some (ok raw)) projection ads s h =
        scan-Inv q is_private render accepts limit redact before
          (send_one q is_private render accepts limit redact false) raw
          (every
            (Keeps q is_private render accepts limit redact before
              (send_one q is_private render accepts limit redact false))
            one_by_one raw)
          s h
    plain_paths-Inv none none projection (err e) s h = h
    plain_paths-Inv none none projection (ok ads) s h =
        scan-Inv q is_private render accepts limit redact before
          (send_classad q is_private render accepts limit redact projection) ads
          (every
            (Keeps q is_private render accepts limit redact before
              (send_classad q is_private render accepts limit redact projection))
            (send_classad-Keeps q is_private render accepts limit redact before projection) ads)
          s h

    redacted_or-Inv :
        (r : Option (Result (List RawAd))) (rest : Option Error × Sending q.Ad) (s : Sending q.Ad)
        → AllOk (λ (ra : RawAd). AllPublic is_private ra.exprs) r
        → Holds rest.1
        → Holds s
        → Holds (redacted_or q is_private render accepts limit redact r rest s).1
    unfolding redacted_or send_list
    redacted_or-Inv none rest s k g h = g
    redacted_or-Inv (some (err redaction_not_supported)) rest s k g h = g
    redacted_or-Inv (some (err (other e))) rest s k g h = either redact (some (other e), s) rest h g
    redacted_or-Inv (some (ok ads)) rest s k g h =
        let sent =
          scan-Inv q is_private render accepts limit redact before
            (send_one q is_private render accepts limit redact true) ads
            (All-map (λ (ra : RawAd). AllPublic is_private ra.exprs)
              (Keeps q is_private render accepts limit redact before
                (send_one q is_private render accepts limit redact true))
              (λ ra p.
                send_one-Keeps q is_private render accepts limit redact before m u true ra
                  (λ x r. p))
              ads k)
            s h in
        either redact
          (send_list q is_private render accepts limit redact
            (send_one q is_private render accepts limit redact true) (ok ads) s)
          rest sent g

    text_paths-Inv :
        (b : Backend q.Ad Row) (t : AdType) (constraint : Text) (projection : List Text)
        (s : Sending q.Ad)
        → Redacts q is_private render accepts limit redact b
        → Holds s
        → Holds (text_paths q is_private render accepts limit redact b t constraint projection s).1
    unfolding text_paths
    text_paths-Inv b t constraint [] s r h =
        redacted_or-Inv (given (λ f. f t constraint limit) b.query_raw_redacted)
          (plain_paths q is_private render accepts limit redact
            (given (λ f. f t constraint limit) b.query_raw_stream)
            (given (λ f. f t constraint limit) b.query_raw) [] (b.query t constraint limit) s)
          s
          (given-AllOk (λ f. f t constraint limit) b.query_raw_redacted
            (λ f ads. r.raw f t constraint ads))
          (plain_paths-Inv (given (λ f. f t constraint limit) b.query_raw_stream)
            (given (λ f. f t constraint limit) b.query_raw) [] (b.query t constraint limit) s h)
          h
    text_paths-Inv b t constraint (a ∷ p) s r h =
        redacted_or-Inv (given (λ f. f t constraint (a ∷ p) limit) b.query_raw_project_redacted)
          (plain_paths q is_private render accepts limit redact
            (given (λ f. f t constraint (a ∷ p) limit) b.query_raw_project_stream)
            (given (λ f. f t constraint (a ∷ p) limit) b.query_raw_project) (a ∷ p)
            (b.query t constraint limit) s)
          s
          (given-AllOk (λ f. f t constraint (a ∷ p) limit) b.query_raw_project_redacted
            (λ f ads. r.projected f t constraint (a ∷ p) ads))
          (plain_paths-Inv (given (λ f. f t constraint (a ∷ p) limit) b.query_raw_project_stream)
            (given (λ f. f t constraint (a ∷ p) limit) b.query_raw_project) (a ∷ p)
            (b.query t constraint limit) s h)
          h

    after_wire-Inv :
        (b : Backend q.Ad Row) (t : AdType) (constraint : Text) (projection : List Text)
        (werr : Option Error) (s : Sending q.Ad)
        → Redacts q is_private render accepts limit redact b
        → Holds s
        → Holds
            (after_wire q is_private render accepts limit redact b t constraint projection werr s).1
    unfolding after_wire
    after_wire-Inv b t constraint projection werr s r h = elim (Option-cases s.send_err) [
      | inr (x, e) ↦ rw (e, after_wire) h
      | inl e ↦ elim (Option-cases werr) [
        | inl k ↦ rw (e, k, after_wire) h
        | inr (x, k) ↦
            rw (e, k, after_wire)
              (either (ltb 0 s.n) (some x, s)
                (text_paths q is_private render accepts limit redact b t constraint projection s) h
                (text_paths-Inv b t constraint projection s r h))
      ]
    ]

    -- A row that the wire form yields is public where it has to be.
    wire_rows :
        (b : Backend q.Ad Row) (t : AdType) (constraint : Text) (projection : List Text)
        (f : AdType → Text → List Text → ℕ → Bool → Stream Row)
        → Redacts q is_private render accepts limit redact b
        → b.query_raw_wire_stream ≡ some f
        → All
            (Keeps q is_private render accepts limit redact before
              (send_row q is_private render accepts limit redact))
            (f t constraint projection limit redact).rows
    wire_rows b t constraint projection f r e = elim (Bool-cases redact) [
      | inl on ↦
          All-map
            (λ (row : Row). (ra : RawAd) → render row ≡ some ra → AllPublic is_private ra.exprs)
            (Keeps q is_private render accepts limit redact before
              (send_row q is_private render accepts limit redact))
            (λ row p.
              send_row-Keeps q is_private render accepts limit redact before m u row
                (λ ra k x. p ra k))
            (f t constraint projection limit redact).rows (r.wire f t constraint projection e on)
      | inr off ↦
          every
            (Keeps q is_private render accepts limit redact before
              (send_row q is_private render accepts limit redact))
            (λ row.
              send_row-Keeps q is_private render accepts limit redact before m u row
                (λ ra k x. absurd (cc)))
            (f t constraint projection limit redact).rows
    ]

    pub relay_from-Inv :
        (b : Backend q.Ad Row) (t : AdType) (constraint : Text) (projection : List Text)
        (s : Sending q.Ad)
        → Redacts q is_private render accepts limit redact b
        → Holds s
        → Holds (relay_from q is_private render accepts limit redact b t constraint projection s).1
    unfolding relay_from
    relay_from-Inv b t constraint projection s r h = elim (Option-cases b.query_raw_wire_stream) [
      | inl e ↦ rw (e, relay_from) (text_paths-Inv b t constraint projection s r h)
      | inr (f, e) ↦
          let st = f t constraint projection limit redact in
          let (k, s') =
            scan q is_private render accepts limit redact
              (send_row q is_private render accepts limit redact) st.rows s in
          rw (e, relay_from)
            (after_wire-Inv b t constraint projection (st.outcome k) s' r (
              scan-Inv q is_private render accepts limit redact before
                (send_row q is_private render accepts limit redact) st.rows
                (wire_rows b t constraint projection f r e) s h))
    ]

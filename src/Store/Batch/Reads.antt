-- ===== src/Store/Batch/Reads.antt =====
-- The paths of `BufferedBackend` that flush first and hand on to the wrapped backend. A sequence of
-- ads is the list that it would yield; the constraint of a query is its text.
pub mod Fresh
use golang_collector.Base.{
  ℕ, ◌≡◌, ◌==◌, Bool, true, false, Option, none, some, List, [], ◌∷◌, if◌then◌else◌,
}
use golang_collector.Base.Text.{Text}
use golang_collector.Store.AdType.{AdType}
use golang_collector.Store.RawProject.{RawAd, project_raw_seq}
use golang_collector.Store.Batch.Buffer.{Buf}
use golang_collector.Store.Batch.Flush.{BatchWriter}
use golang_collector.Store.Batch.Enqueue.{
  Buffered, Error, no_raw_query, redaction_not_supported, flush_buffer,
}

pub data Result (A : Type 0) : Type 0 where
  ok : A → Result A
  err : Error → Result A

abbrev pub RawQuery : Type 0 → Type 0
RawQuery S = AdType → Text → ℕ → S → Result (List RawAd)

abbrev pub ProjectedQuery : Type 0 → Type 0
ProjectedQuery S = AdType → Text → List Text → ℕ → S → Result (List RawAd)

-- The wrapped backend: what a `Backend` has, and the capabilities that it may have, over its state.
pub record Under (S Ad : Type 0) : Type 0 where
  pub update_batch : BatchWriter S
  pub update : AdType → Ad → S → Option Error × S
  pub update_old_text : AdType → Text → S → Option Error × S
  pub query : AdType → Text → ℕ → S → Result (List Ad)
  pub get : AdType → Ad → S → Option Ad
  pub invalidate : AdType → Text → Option Ad → S → Result ℕ × S
  pub expire : S → Result ℕ × S
  pub len : AdType → S → Result ℕ
  pub close : S → Option Error × S
  pub query_raw : Option (RawQuery S)
  pub query_raw_redacted : Option (RawQuery S)
  pub query_raw_project : Option (ProjectedQuery S)
  pub query_raw_project_redacted : Option (ProjectedQuery S)

module _ {S Ad : Type 0} (under : Under S Ad) (meanwhile : Buf → Buf) where
  -- A flush, and then a read of the wrapped backend unless the flush failed.
  pub read : {A : Type 0} → (S → Result A) → Buffered S → Result A × Buffered S
  read op b =
      let (failure, b') = flush_buffer under.update_batch meanwhile b in
      elim failure [ some e ↦ (err e, b') | none ↦ (op b'.store, b') ]

  -- The same for an operation that changes the wrapped backend.
  pub write_counted : (S → Result ℕ × S) → Buffered S → Result ℕ × Buffered S
  write_counted op b =
      let (failure, b') = flush_buffer under.update_batch meanwhile b in
      elim failure [
        | some e ↦ (err e, b')
        | none ↦ let (n, s) = op b'.store in (n, record b' { store = s })
      ]

  pub write : (S → Option Error × S) → Buffered S → Option Error × Buffered S
  write op b =
      let (failure, b') = flush_buffer under.update_batch meanwhile b in
      elim failure [
        | some e ↦ (some e, b')
        | none ↦ let (e, s) = op b'.store in (e, record b' { store = s })
      ]

  unfoldable pub update_old_text_durable : AdType → Text → Buffered S → Option Error × Buffered S
  unfolding write
  update_old_text_durable t text = write (under.update_old_text t text)

  unfoldable pub update : AdType → Ad → Buffered S → Option Error × Buffered S
  unfolding write
  update t ad = write (under.update t ad)

  unfoldable pub query : AdType → Text → ℕ → Buffered S → Result (List Ad) × Buffered S
  unfolding read
  query t constraint limit = read (under.query t constraint limit)

  unfoldable pub query_raw : AdType → Text → ℕ → Buffered S → Result (List RawAd) × Buffered S
  unfolding read
  query_raw t constraint limit =
      read λ s. elim under.query_raw [ none ↦ err no_raw_query | some rq ↦ rq t constraint limit s ]

  unfoldable pub query_raw_redacted :
      AdType → Text → ℕ → Buffered S → Result (List RawAd) × Buffered S
  unfolding read
  query_raw_redacted t constraint limit = read λ s. elim under.query_raw_redacted [
    | none ↦ err redaction_not_supported
    | some rq ↦ rq t constraint limit s
  ]

  unfoldable pub query_raw_project_redacted :
      AdType → Text → List Text → ℕ → Buffered S → Result (List RawAd) × Buffered S
  unfolding read
  query_raw_project_redacted t constraint projection limit = read λ s.
      elim under.query_raw_project_redacted [
        | none ↦ err redaction_not_supported
        | some rq ↦ rq t constraint projection limit s
      ]

  abbrev pub map_ok : (List RawAd → List RawAd) → Result (List RawAd) → Result (List RawAd)
  map_ok g (ok ads) = ok (g ads)
  map_ok g (err e) = err e

  -- The projection is pushed down where the wrapped backend can, and done here where it cannot.
  unfoldable pub query_raw_project :
      AdType → Text → List Text → ℕ → Buffered S → Result (List RawAd) × Buffered S
  unfolding read
  query_raw_project t constraint projection limit = read λ s. elim under.query_raw_project [
    | some prq ↦ prq t constraint projection limit s
    | none ↦ elim under.query_raw [
      | none ↦ err no_raw_query
      | some rq ↦ map_ok (project_raw_seq projection) (rq t constraint limit s)
    ]
  ]

  -- A failed flush reads as an ad that is not there.
  unfoldable pub get : AdType → Ad → Buffered S → Option Ad × Buffered S
  get t key_ad b =
      let (failure, b') = flush_buffer under.update_batch meanwhile b in
      elim failure [ some e ↦ (none, b') | none ↦ (under.get t key_ad b'.store, b') ]

  unfoldable pub invalidate : AdType → Text → Option Ad → Buffered S → Result ℕ × Buffered S
  unfolding write_counted
  invalidate t constraint key_ad = write_counted (under.invalidate t constraint key_ad)

  unfoldable pub expire : Buffered S → Result ℕ × Buffered S
  unfolding write_counted
  expire = write_counted under.expire

  unfoldable pub len : AdType → Buffered S → Result ℕ × Buffered S
  unfolding read
  len t = read (under.len t)

  -- The wrapped backend is closed whether or not the last flush failed, whose error comes first.
  -- `stopped` is the buffer's state once the background writer, if there is one, has ended.
  unfoldable pub close : Buffered S → Option Error × Buffered S
  close stopped =
      let (failure, b) = flush_buffer under.update_batch meanwhile stopped in
      let (e, s) = under.close b.store in
      (elim failure [ some x ↦ some x | none ↦ e ], record b { store = s })

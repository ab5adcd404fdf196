-- ===== src/Store/Batch/Reads/Fresh.antt =====
-- What is read or written through the buffer follows all that was buffered.
use golang_collector.Base.{
  ℕ, ◌≡◌, ◌⊎◌, refl, false, none, some, List, [], Option-cases, inl, inr, arith,
}
use golang_collector.Base.Text.{Text}
use golang_collector.Store.AdType.{AdType}
use golang_collector.Store.RawProject.{project_raw_seq}
use golang_collector.Store.Batch.Buffer.{Buf, DedupKey, PendingUpdate, lookup}
use golang_collector.Store.Batch.Flush.{Flushed, flush}
use golang_collector.Store.Batch.Flush.Accounts.{
  In, Accounted, was_applied, was_dropped, is_waiting, flush-Accounted,
}
use golang_collector.Store.Batch.Enqueue.{Buffered, flush_buffer}
use golang_collector.Store.Batch.Enqueue.Bound.{flush_buffer-empty}
use golang_collector.Store.Batch.Reads.{
  Under, Result, ok, RawQuery, ProjectedQuery, read, update_old_text_durable, query, query_raw,
  query_raw_project, map_ok,
}

module _ {S Ad : Type 0} (under : Under S Ad) (meanwhile : Buf → Buf) where
  -- Nothing is buffered any more; each update that was buffered before was committed by a call of the
  -- wrapped backend, or refused on its own and dropped; and the answer is the wrapped backend's, in the
  -- state that those calls have led to.
  pub record IsFresh {A : Type 0} (op : S → Result A) (b : Buffered S) (r : Result A × Buffered S)
      : Type 0 where
    pub emptied : r.1.buf ≡ []
    pub accounted :
        (k : DedupKey) (p : PendingUpdate)
        → lookup b.buf k ≡ some p
        → In p (flush under.update_batch meanwhile b.store b.buf).applied
          ⊎ In p (flush under.update_batch meanwhile b.store b.buf).dropped
    pub after_calls : r.1.store ≡ (flush under.update_batch meanwhile b.store b.buf).store
    pub answered : op r.1.store ≡ r.0

  Accounted-done :
      (k : DedupKey) (p : PendingUpdate) (r : Flushed S)
      → r.failed ≡ false
      → Accounted under.update_batch meanwhile k p r
      → In p r.applied ⊎ In p r.dropped
  Accounted-done k p r e (was_applied h) = inl h
  Accounted-done k p r e (was_dropped h) = inr h
  Accounted-done k p r e (is_waiting h g) = absurd (ground (arith, e, h))

  flush_buffer-done :
      (b : Buffered S)
      → (flush_buffer under.update_batch meanwhile b).0 ≡ none
      → ((flush under.update_batch meanwhile b.store b.buf).failed ≡ false)
        × ((flush_buffer under.update_batch meanwhile b).1.store
            ≡ (flush under.update_batch meanwhile b.store b.buf).store)
  unfolding flush_buffer
  flush_buffer-done b h = (ground (arith, h), refl)

  read-IsFresh :
      {A : Type 0} (op : S → Result A) (b : Buffered S) (a : A)
      → meanwhile [] ≡ []
      → (read under meanwhile op b).0 ≡ ok a
      → IsFresh op b (read under meanwhile op b)
  unfolding read
  read-IsFresh op b a quiet e =
      elim (Option-cases (flush_buffer under.update_batch meanwhile b).0) [
        | inr (x, h) ↦ absurd (ground (arith, e, h))
        | inl h ↦
            let (done, left) = flush_buffer-done b h in
            record {
              emptied = ground (arith, flush_buffer-empty under.update_batch meanwhile b quiet, h);
              accounted = λ k p g.
                  Accounted-done k p (flush under.update_batch meanwhile b.store b.buf) done
                    (flush-Accounted under.update_batch meanwhile b.store b.buf k p g);
              after_calls = ground (arith, left, h);
              answered = ground (arith, h);
            }
      ]

  -- A query that succeeds leaves nothing buffered: each update that was buffered before it was committed
  -- by a call of the wrapped backend or refused on its own and dropped; and it answers as the wrapped
  -- backend does in the state that those calls have led to. Nothing is buffered meanwhile.
  pub query-IsFresh :
      (t : AdType) (constraint : Text) (limit : ℕ) (b : Buffered S) (ads : List Ad)
      → meanwhile [] ≡ []
      → (query under meanwhile t constraint limit b).0 ≡ ok ads
      → IsFresh (under.query t constraint limit) b (query under meanwhile t constraint limit b)
  unfolding query
  query-IsFresh t constraint limit b ads quiet e =
      read-IsFresh (under.query t constraint limit) b ads quiet e

  -- What is documented of a backend that projects by itself: it returns its plain query's ads,
  -- projected.
  abbrev pub Projects : RawQuery S → ProjectedQuery S → Type 0
  Projects rq prq =
      (t : AdType) (constraint : Text) (projection : List Text) (limit : ℕ) (s : S)
      → prq t constraint projection limit s
        ≡ map_ok under meanwhile (project_raw_seq projection) (rq t constraint limit s)

  -- Over a backend with a raw query, a projected query is the plain one, each ad projected, whether
  -- the wrapped backend projects, as it is documented to, or the buffer does, and where the flush
  -- fails, too.
  pub query_raw_project-query_raw :
      (rq : RawQuery S) (t : AdType) (constraint : Text) (projection : List Text) (limit : ℕ)
      (b : Buffered S)
      → under.query_raw ≡ some rq
      → ((prq : ProjectedQuery S) → under.query_raw_project ≡ some prq → Projects rq prq)
      → (query_raw_project under meanwhile t constraint projection limit b).0
        ≡ map_ok under meanwhile
            (project_raw_seq projection)
            (query_raw under meanwhile t constraint limit b).0
  unfolding query_raw_project query_raw
  query_raw_project-query_raw rq t constraint projection limit b plain pushed =
      elim (Option-cases (flush_buffer under.update_batch meanwhile b).0) [
        | inr (x, h) ↦ ground arith
        | inl h ↦ elim (Option-cases under.query_raw_project) [
          | inl k ↦ ground arith
          | inr (prq, k) ↦ ground (
            arith,
            pushed prq k t constraint projection limit
                (flush_buffer under.update_batch meanwhile b).1.store,
          )
        ]
      ]

  -- An update that is acknowledged has been applied by the wrapped backend after all that was
  -- buffered, and nothing is left in the buffer that could replace it later, where nothing is buffered
  -- meanwhile.
  pub update_old_text_durable-last :
      (t : AdType) (text : Text) (b : Buffered S)
      → meanwhile [] ≡ []
      → (update_old_text_durable under meanwhile t text b).0 ≡ none
      → let before = (flush_buffer under.update_batch meanwhile b).1.store in
        let b' = (update_old_text_durable under meanwhile t text b).1 in
        (b'.buf ≡ [])
        × (b'.store ≡ (under.update_old_text t text before).1)
        × ((under.update_old_text t text before).0 ≡ none)
  unfolding update_old_text_durable
  update_old_text_durable-last t text b quiet e =
      elim (Option-cases (flush_buffer under.update_batch meanwhile b).0) [
        | inl h ↦
            let empty = flush_buffer-empty under.update_batch meanwhile b quiet h in
            (ground arith, ground arith, ground arith)
        | inr (x, h) ↦ (ground arith, ground arith, ground arith)
      ]

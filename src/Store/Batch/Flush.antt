-- ===== src/Store/Batch/Flush.antt =====
-- `flush`: the buffer is emptied under the lock, applied without it, and what a cancelled context
-- left unapplied goes back under the lock.
pub mod Accounts
use golang_collector.Base.{Bool, true, false, Option, none, some, List, [], ◌∷◌, ◌++◌, map}
use golang_collector.Store.Batch.Buffer.{DedupKey, PendingUpdate, Buf, requeue}

-- What one call of UpdateBatch comes back with: no error, or an error together with whether the
-- context has ended by then.
pub data Applied : Type 0 where
  committed : Applied
  refused : Bool → Applied

-- The wrapped backend's BatchWriter, over its own state.
abbrev pub BatchWriter : Type 0 → Type 0
BatchWriter S = S → List PendingUpdate → Applied × S

-- What a flush leaves: the error flag, the state of the backend, the buffer, and two records that
-- the source does not keep, of the updates that a call committed and of those that were dropped
-- with a log line.
pub record Flushed (S : Type 0) : Type 0 where
  pub failed : Bool
  pub store : S
  pub buf : Buf
  pub applied : List PendingUpdate
  pub dropped : List PendingUpdate

-- The pass over single updates, and the part of the batch that it did not reach.
pub record Isolated (S : Type 0) : Type 0 where
  pub failed : Bool
  pub store : S
  pub rest : Buf
  pub applied : List PendingUpdate
  pub dropped : List PendingUpdate

abbrev updates : Buf → List PendingUpdate
updates = map λ e. e.1

-- One round of the pass; `more` is what the next rounds come to.
isolate_step : {S : Type 0} → Applied → S → DedupKey → PendingUpdate → Buf → Isolated S → Isolated S
isolate_step committed s k p batch more = record more { applied = p ∷ more.applied }
isolate_step (refused true) s k p batch more = record {
  failed = true;
  store = s;
  rest = (k, p) ∷ batch;
  applied = [];
  dropped = [];
}
isolate_step (refused false) s k p batch more = record more { dropped = p ∷ more.dropped }

module _ {S : Type 0} (update_batch : BatchWriter S) where
  unfoldable pub isolate : S → Buf → Isolated S
  unfolding isolate_step
  isolate s [] = record { failed = false; store = s; rest = []; applied = []; dropped = [] }
  isolate s ((k, p) ∷ batch) =
      let (outcome, s') = update_batch s (p ∷ []) in
      let more = isolate s' batch in isolate_step outcome s' k p batch more

  -- `meanwhile` is what other goroutines do to the buffer while the batch is applied.
  finish : (Buf → Buf) → Isolated S → Flushed S
  finish meanwhile r = record {
    failed = r.failed;
    store = r.store;
    buf = requeue (meanwhile []) r.rest;
    applied = r.applied;
    dropped = r.dropped;
  }

  after_apply : (Buf → Buf) → Applied → S → Buf → Flushed S
  unfolding finish isolate
  after_apply meanwhile committed s batch = record {
    failed = false;
    store = s;
    buf = meanwhile [];
    applied = updates batch;
    dropped = [];
  }
  after_apply meanwhile (refused true) s batch = record {
    failed = true;
    store = s;
    buf = requeue (meanwhile []) batch;
    applied = [];
    dropped = [];
  }
  after_apply meanwhile (refused false) s batch = finish meanwhile (isolate s batch)

  unfoldable pub flush : (Buf → Buf) → S → Buf → Flushed S
  unfolding after_apply
  flush meanwhile s [] = record { failed = false; store = s; buf = []; applied = []; dropped = [] }
  flush meanwhile s (e ∷ batch) =
      let (outcome, s') = update_batch s (updates (e ∷ batch)) in
      after_apply meanwhile outcome s' (e ∷ batch)

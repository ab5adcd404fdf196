-- ===== src/Store/Batch/Enqueue.antt =====
-- `NewBufferedBackend`, `enqueue` and the buffered write paths.
pub mod Bound
use golang_collector.Base.{
  ℕ, ◌*◌, ◌≡◌, Bool, true, false, Option, none, some, List, [], ◌∷◌, length, ◌==◌, leb,
  if◌then◌else◌,
}
use golang_collector.Base.Text.{Text}
use golang_collector.Store.AdType.{AdType, startd_ad}
use golang_collector.Store.Batch.Buffer.{PendingUpdate, Buf, DedupKey, dedup_key, insert}
use golang_collector.Store.Batch.Flush.{BatchWriter, Flushed, flush}

-- `BufferedBackend`; a window that is not positive is 0, and `flush_sig` is whether the channel of
-- that name holds a signal.
pub record Buffered (S : Type 0) : Type 0 where
  pub window : ℕ
  pub max_buf : ℕ
  pub hard_cap : ℕ
  pub buf : Buf
  pub flush_sig : Bool
  pub store : S

-- A `maxBuf` that is not positive is 0 here. The wrapped backend is a BatchWriter.
unfoldable pub new_buffered_backend : {S : Type 0} → S → ℕ → ℕ → Buffered S
new_buffered_backend under window max_buf =
    let max = if max_buf == 0 then 2048 else max_buf in
    record {
      window = window;
      max_buf = max;
      hard_cap = max * 4;
      buf = [];
      flush_sig = false;
      store = under;
    }

pub data Error : Type 0 where
  no_key flush_failed backend_error no_raw_query redaction_not_supported : Error

module _ {S : Type 0} (update_batch : BatchWriter S) (meanwhile : Buf → Buf) where
  flushed : Buffered S → Flushed S → Option Error × Buffered S
  flushed b r =
      (if r.failed then some flush_failed else none, record b { buf = r.buf; store = r.store })

  -- `flush` as a method, with its error.
  unfoldable pub flush_buffer : Buffered S → Option Error × Buffered S
  unfolding flushed
  flush_buffer b = flushed b (flush update_batch meanwhile b.store b.buf)

  -- What follows once the update is in the map.
  settle : Buffered S → Option Error × Buffered S
  unfolding flush_buffer
  settle b =
      let n = length b.buf in
      if b.window == 0
      then if leb b.max_buf n then flush_buffer b else (none, b)
      else if leb b.hard_cap n
      then flush_buffer b
      else if leb b.max_buf n
      then (none, record b { flush_sig = true })
      else (none, b)

  unfoldable pub enqueue : Buffered S → PendingUpdate → Option Error × Buffered S
  unfolding settle
  enqueue b p = elim (dedup_key p) [
    | none ↦ (some no_key, b)
    | some k ↦ settle (record b { buf = insert k p b.buf })
  ]

  unfoldable pub update_old_text : Buffered S → AdType → Text → Option Error × Buffered S
  unfolding enqueue
  update_old_text b t text =
      enqueue b (record { type = t; text = text; pvt_text = []; pvt = false })

  unfoldable pub update_pvt : Buffered S → Text → Text → Option Error × Buffered S
  unfolding enqueue
  update_pvt b public_text pvt_text =
      enqueue b (record { type = startd_ad; text = public_text; pvt_text = pvt_text; pvt = true })

-- Where the writer that enqueues has to flush by itself.
abbrev pub cap : {S : Type 0} → Buffered S → ℕ
cap b = if b.window == 0 then b.max_buf else b.hard_cap

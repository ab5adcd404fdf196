-- ===== src/Store/Batch/Enqueue/Bound.antt =====
-- The buffer keeps the latest update of each ad, and stays below its cap.
use golang_collector.Base.{
  suc, ◌<◌, ◌≡◌, none, some, [], ◌&&◌, true, false, length, Option-cases, inl, inr, if◌then◌else◌,
  arith,
}
use golang_collector.Base.Text.{Text, text_eq}
use golang_collector.Store.AdType.{AdType, startd_ad, startd_pvt_ad, same_table}
use golang_collector.Store.HashKey.{hash_key_from_text}
use golang_collector.Store.Batch.Buffer.{
  PendingUpdate, Buf, DedupKey, dedup_key, insert, lookup, lookup-insert, key_eq, length-insert-le,
}
use golang_collector.Store.Batch.Flush.{BatchWriter}
use golang_collector.Store.Batch.Flush.Accounts.{flush-buf}
use golang_collector.Store.Batch.Enqueue.{
  Buffered, flush_buffer, settle, enqueue, cap, update_old_text, update_pvt,
}

module _ {S : Type 0} (update_batch : BatchWriter S) (meanwhile : Buf → Buf) where
  pub flush_buffer-empty :
      (b : Buffered S)
      → meanwhile [] ≡ []
      → (flush_buffer update_batch meanwhile b).0 ≡ none
      → (flush_buffer update_batch meanwhile b).1.buf ≡ []
  unfolding flush_buffer
  flush_buffer-empty b quiet e =
      ground (arith, flush-buf update_batch meanwhile b.store b.buf (inl quiet))

  settle-lt-cap :
      (b : Buffered S)
      → meanwhile [] ≡ []
      → 0 < cap b
      → (settle update_batch meanwhile b).0 ≡ none
      → length (settle update_batch meanwhile b).1.buf < cap b
  unfolding settle
  settle-lt-cap b quiet positive e = ground (arith, flush_buffer-empty b quiet)

  -- An update that is accepted leaves fewer buffered than the cap, which is not 0: the high-water mark
  -- where no writer runs in the background, and the hard cap where one does. Nothing is buffered
  -- meanwhile.
  pub enqueue-lt-cap :
      (b : Buffered S) (p : PendingUpdate)
      → meanwhile [] ≡ []
      → 0 < cap b
      → (enqueue update_batch meanwhile b p).0 ≡ none
      → length (enqueue update_batch meanwhile b p).1.buf < cap b
  unfolding enqueue
  enqueue-lt-cap b p quiet positive e = elim (Option-cases (dedup_key p)) [
    | inl h ↦ ground arith
    | inr (k, h) ↦
        ground (arith, settle-lt-cap (record b { buf = insert k p b.buf }) quiet positive)
  ]

  enqueue-insert :
      (b : Buffered S) (p : PendingUpdate) (k : DedupKey)
      → dedup_key p ≡ some k
      → suc (length b.buf) < cap b
      → (enqueue update_batch meanwhile b p).1.buf ≡ insert k p b.buf
  unfolding enqueue settle
  enqueue-insert b p k h room = ground (arith, length-insert-le k p b.buf)

  -- Below the cap, an update by its text replaces the pending update of the same table under the same
  -- key, and one of a private ad the pending private update under its public ad's key; no other
  -- pending update is touched.
  pub update_latest :
      (b : Buffered S) (t : AdType) (text public_text pvt_text k l : Text) (j : DedupKey)
      → hash_key_from_text t text ≡ some k
      → hash_key_from_text startd_ad public_text ≡ some l
      → suc (length b.buf) < cap b
      → (lookup (update_old_text update_batch meanwhile b t text).1.buf j ≡ (
          if same_table t j.0 && text_eq k j.1
          then some (record { type = t; text = text; pvt_text = []; pvt = false })
          else lookup b.buf j))
        × (lookup (update_pvt update_batch meanwhile b public_text pvt_text).1.buf j ≡ (
            if same_table startd_pvt_ad j.0 && text_eq l j.1
            then some
                (record { type = startd_ad; text = public_text; pvt_text = pvt_text; pvt = true })
            else lookup b.buf j))
  unfolding update_old_text update_pvt dedup_key key_eq
  update_latest b t text public_text pvt_text k l j h g room =
      let p : PendingUpdate = record { type = t; text = text; pvt_text = []; pvt = false } in
      let q : PendingUpdate = record {
        type = startd_ad;
        text = public_text;
        pvt_text = pvt_text;
        pvt = true;
      } in
      (
        rw (enqueue-insert b p (t, k) (ground (arith, h)) room) (lookup-insert (t, k) j p b.buf),
        rw (enqueue-insert b q (startd_pvt_ad, l) (ground (arith, g)) room)
            (lookup-insert (startd_pvt_ad, l) j q b.buf),
      )

-- ===== src/Store/Batch/Tests.antt =====
-- Runs of store/batch.go at single inputs, over a backend that keeps a log of what it was given and
-- refuses any batch with a private ad.
use golang_collector.Base.{
  ℕ, ◌<◌, ◌≡◌, refl, true, false, none, some, List, [], ◌∷◌, ◌++◌, any, ◌&&◌, length, arith,
  if◌then◌else◌,
}
use golang_collector.Base.Text.{Text, codes, text_eq}
use golang_collector.Store.AdType.{master_ad, startd_pvt_ad, startd_ad, same_table}
use golang_collector.Store.HashKey.{hash_key_from_text}
use golang_collector.Store.RawProject.{RawAd}
use golang_collector.Store.Batch.Buffer.{
  PendingUpdate, Buf, dedup_key, lookup, insert, requeue, key_eq,
}
use golang_collector.Store.Batch.Flush.{BatchWriter, committed, refused, flush}
use golang_collector.Store.Batch.Flush.Accounts.{Accounted, flush-Accounted}
use golang_collector.Store.Batch.Enqueue.{
  Buffered, new_buffered_backend, enqueue, flush_buffer, cap, update_old_text, update_pvt,
}
use golang_collector.Store.Batch.Enqueue.Bound.{enqueue-lt-cap, update_latest}
use golang_collector.Store.Batch.Reads.{Under, ok, query, update_old_text_durable}
use golang_collector.Store.Batch.Reads.Fresh.{IsFresh, query-IsFresh, update_old_text_durable-last}

abbrev Log : Type 0
Log = List PendingUpdate

abbrev picky : BatchWriter Log
picky log batch = if any (λ p. p.pvt) batch then (refused false, log) else (committed, batch ++ log)

abbrev good : PendingUpdate
good = record { type = master_ad; text = codes "Name=\"m\""; pvt_text = []; pvt = false }

abbrev bad : PendingUpdate
bad = record { type = startd_ad; text = codes "Name=\"s\""; pvt_text = codes "x"; pvt = true }

abbrev waiting : Buf
waiting = ((startd_pvt_ad, codes "s"), bad) ∷ ((master_ad, codes "m"), good) ∷ []

-- The bad update is dropped, the good one is applied on its own.
flush_run : flush picky (λ buf. buf) [] waiting ≡ record {
  failed = false;
  store = good ∷ [];
  buf = [];
  applied = good ∷ [];
  dropped = bad ∷ [];
}
unfolding flush requeue
flush_run = refl

flush-Accounted_example :
    Accounted picky (λ buf. buf) (master_ad, codes "m") good (flush picky (λ buf. buf) [] waiting)
unfolding lookup key_eq
flush-Accounted_example =
    flush-Accounted picky (λ buf. buf) [] waiting (master_ad, codes "m") good refl

abbrev buffered : Buffered Log
buffered = new_buffered_backend [] 100 2

abbrev quiet : Buf → Buf
quiet buf = buf

enqueue-lt-cap_example : length (enqueue picky quiet buffered good).1.buf < cap buffered
unfolding enqueue new_buffered_backend dedup_key hash_key_from_text insert
enqueue-lt-cap_example = enqueue-lt-cap picky quiet buffered good refl (omega arith) refl

abbrev slot_text : Text
slot_text = codes "Name=\"s\""

update_latest_example :
    (lookup (update_old_text picky quiet buffered master_ad good.text).1.buf (master_ad, codes "m")
      ≡ (if same_table master_ad master_ad && text_eq (codes "m" ++ 0 ∷ []) (codes "m")
          then some good
          else lookup buffered.buf (master_ad, codes "m")))
    × (lookup (update_pvt picky quiet buffered slot_text (codes "x")).1.buf (master_ad, codes "m")
        ≡ (if same_table startd_pvt_ad master_ad && text_eq (codes "s" ++ 0 ∷ []) (codes "m")
            then some bad
            else lookup buffered.buf (master_ad, codes "m")))
unfolding new_buffered_backend hash_key_from_text
update_latest_example =
    update_latest picky quiet buffered master_ad good.text slot_text (codes "x")
      (codes "m" ++ 0 ∷ []) (codes "s" ++ 0 ∷ []) (master_ad, codes "m") refl refl (omega arith)

abbrev no_types : RawAd
no_types = record { exprs = codes "A = 1" ∷ codes "b = 2" ∷ []; my_type = []; target_type = [] }

abbrev under : Under Log ℕ
under = record {
  update_batch = picky;
  update = λ t ad s. (none, s);
  update_old_text =
      λ t text s. (none, record { type = t; text = text; pvt_text = []; pvt = false } ∷ s);
  query = λ t constraint limit s. ok (length s ∷ []);
  get = λ t ad s. none;
  invalidate = λ t constraint ad s. (ok 0, s);
  expire = λ s. (ok 0, s);
  len = λ t s. ok (length s);
  close = λ s. (none, s);
  query_raw = some (λ t constraint limit s. ok (no_types ∷ []));
  query_raw_redacted = none;
  query_raw_project = none;
  query_raw_project_redacted = none;
}

abbrev full : Buffered Log
full = record buffered { buf = waiting }

query-IsFresh_example :
    IsFresh under quiet (under.query master_ad [] 0) full (query under quiet master_ad [] 0 full)
unfolding query flush_buffer flush new_buffered_backend
query-IsFresh_example = query-IsFresh under quiet master_ad [] 0 full (1 ∷ []) refl refl

update_old_text_durable-last_example :
    let before = (flush_buffer picky quiet full).1.store in
    let b = (update_old_text_durable under quiet master_ad (codes "Name=\"m\"") full).1 in
    (b.buf ≡ [])
    × (b.store ≡ (under.update_old_text master_ad (codes "Name=\"m\"") before).1)
    × ((under.update_old_text master_ad (codes "Name=\"m\"") before).0 ≡ none)
unfolding update_old_text_durable flush_buffer flush new_buffered_backend
update_old_text_durable-last_example =
    update_old_text_durable-last under quiet master_ad (codes "Name=\"m\"") full refl refl

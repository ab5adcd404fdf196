-- ===== src/Store/Batch/Flush/Accounts.antt =====
-- What becomes of each update that a flush takes out of the buffer.
use golang_collector.Base.{
  ◌≡◌, ◌≢◌, refl, ap, sym, ◌∙◌, ◌⊎◌, inl, inr, true, false, some, List, [], ◌∷◌, Somewhere,
  Bool-cases, arith,
}
use golang_collector.Store.Batch.Buffer.{
  DedupKey, PendingUpdate, Buf, key_eq, lookup, or_else, requeue, lookup-requeue,
}
use golang_collector.Store.Batch.Flush.{
  Applied, committed, refused, BatchWriter, Flushed, Isolated, isolate, isolate_step, updates,
  finish, after_apply, flush,
}

-- The update is in the list.
abbrev pub In : PendingUpdate → List PendingUpdate → Type 0
In p = Somewhere (λ q. q ≡ p)

In-updates :
    (batch : Buf) (k : DedupKey) (p : PendingUpdate)
    → lookup batch k ≡ some p
    → In p (updates batch)
unfolding lookup
In-updates [] k p e = cc
In-updates ((j, q) ∷ batch) k p e = elim (Bool-cases (key_eq j k)) [
  | inl h ↦ inl (ground arith)
  | inr h ↦ inr (In-updates batch k p (ground arith))
]

-- Where an update of the pass over single ones ends up.
data Ends {S : Type 0} (k : DedupKey) (p : PendingUpdate) (r : Isolated S) : Type 0 where
  applied : In p r.applied → Ends k p r
  dropped : In p r.dropped → Ends k p r
  left : lookup r.rest k ≡ some p → r.failed ≡ true → Ends k p r

isolate_step-Ends :
    {S : Type 0} (outcome : Applied) (s : S) (j : DedupKey) (q : PendingUpdate) (batch : Buf)
    (more : Isolated S) (k : DedupKey) (p : PendingUpdate)
    → lookup ((j, q) ∷ batch) k ≡ some p
    → (q ≡ p) ⊎ Ends k p more
    → Ends k p (isolate_step outcome s j q batch more)
unfolding isolate_step
isolate_step-Ends committed s j q batch more k p e (inl h) = applied (inl h)
isolate_step-Ends committed s j q batch more k p e (inr (applied h)) = applied (inr h)
isolate_step-Ends committed s j q batch more k p e (inr (dropped h)) = dropped h
isolate_step-Ends committed s j q batch more k p e (inr (left h b)) = left h b
isolate_step-Ends (refused true) s j q batch more k p e h = left e refl
isolate_step-Ends (refused false) s j q batch more k p e (inl h) = dropped (inl h)
isolate_step-Ends (refused false) s j q batch more k p e (inr (applied h)) = applied h
isolate_step-Ends (refused false) s j q batch more k p e (inr (dropped h)) = dropped (inr h)
isolate_step-Ends (refused false) s j q batch more k p e (inr (left h b)) = left h b

module _ {S : Type 0} (update_batch : BatchWriter S) where
  isolate-Ends :
      (s : S) (batch : Buf) (k : DedupKey) (p : PendingUpdate)
      → lookup batch k ≡ some p
      → Ends k p (isolate update_batch s batch)
  unfolding isolate lookup
  isolate-Ends s [] k p e = cc
  isolate-Ends s ((j, q) ∷ batch) k p e =
      let (outcome, s') = update_batch s (q ∷ []) in
      let here : (key_eq j k ≡ true) → q ≡ p = λ h. ground arith in
      let there : (key_eq j k ≡ false) → lookup batch k ≡ some p = λ h. ground arith in
      isolate_step-Ends outcome s' j q batch (isolate update_batch s' batch) k p e
        (elim (Bool-cases (key_eq j k)) [
          | inl h ↦ inl (here h)
          | inr h ↦ inr (isolate-Ends s' batch k p (there h))
        ])

  -- Where an update of a flushed buffer ends up: a call committed it, it was refused on its own and
  -- dropped, or the flush failed and its key has it again, or what came for the key meanwhile.
  pub data Accounted (meanwhile : Buf → Buf) (k : DedupKey) (p : PendingUpdate) (r : Flushed S)
      : Type 0 where
    was_applied : In p r.applied → Accounted meanwhile k p r
    was_dropped : In p r.dropped → Accounted meanwhile k p r
    is_waiting :
        r.failed ≡ true
        → lookup r.buf k ≡ or_else (lookup (meanwhile []) k) (some p)
        → Accounted meanwhile k p r

  finish-Accounted :
      (meanwhile : Buf → Buf) (r : Isolated S) (k : DedupKey) (p : PendingUpdate)
      → Ends k p r
      → Accounted meanwhile k p (finish update_batch meanwhile r)
  unfolding finish
  finish-Accounted meanwhile r k p (applied h) = was_applied h
  finish-Accounted meanwhile r k p (dropped h) = was_dropped h
  finish-Accounted meanwhile r k p (left e h) =
      is_waiting h
        (lookup-requeue k r.rest (meanwhile []) ∙ ap (or_else (lookup (meanwhile []) k)) e)

  after_apply-Accounted :
      (meanwhile : Buf → Buf) (outcome : Applied) (s : S) (batch : Buf) (k : DedupKey)
      (p : PendingUpdate)
      → lookup batch k ≡ some p
      → Accounted meanwhile k p (after_apply update_batch meanwhile outcome s batch)
  unfolding after_apply
  after_apply-Accounted meanwhile committed s batch k p e = was_applied (In-updates batch k p e)
  after_apply-Accounted meanwhile (refused true) s batch k p e =
      is_waiting refl
        (lookup-requeue k batch (meanwhile []) ∙ ap (or_else (lookup (meanwhile []) k)) e)
  after_apply-Accounted meanwhile (refused false) s batch k p e =
      finish-Accounted meanwhile (isolate update_batch s batch) k p (isolate-Ends s batch k p e)

  -- No buffered update is lost without a trace, whatever the backend answers and whatever other
  -- goroutines buffer while the batch is applied.
  pub flush-Accounted :
      (meanwhile : Buf → Buf) (s : S) (buf : Buf) (k : DedupKey) (p : PendingUpdate)
      → lookup buf k ≡ some p
      → Accounted meanwhile k p (flush update_batch meanwhile s buf)
  unfolding flush lookup
  flush-Accounted meanwhile s [] k p e = cc
  flush-Accounted meanwhile s (entry ∷ batch) k p e =
      let (outcome, s') = update_batch s (updates (entry ∷ batch)) in
      after_apply-Accounted meanwhile outcome s' (entry ∷ batch) k p e

  isolate_step-rest :
      (outcome : Applied) (s : S) (k : DedupKey) (p : PendingUpdate) (batch : Buf)
      (more : Isolated S)
      → (more.failed ≡ false → more.rest ≡ [])
      → (isolate_step outcome s k p batch more).failed ≡ false
      → (isolate_step outcome s k p batch more).rest ≡ []
  unfolding isolate_step
  isolate_step-rest committed s k p batch more h e = h e
  isolate_step-rest (refused true) s k p batch more h e = cc
  isolate_step-rest (refused false) s k p batch more h e = h e

  isolate-rest :
      (s : S) (batch : Buf)
      → (isolate update_batch s batch).failed ≡ false
      → (isolate update_batch s batch).rest ≡ []
  unfolding isolate
  isolate-rest s [] e = refl
  isolate-rest s ((k, p) ∷ batch) e =
      let (outcome, s') = update_batch s (p ∷ []) in
      isolate_step-rest outcome s' k p batch (isolate update_batch s' batch) (isolate-rest s' batch)
        e

  after_apply-buf :
      (meanwhile : Buf → Buf) (outcome : Applied) (s : S) (batch : Buf)
      → (after_apply update_batch meanwhile outcome s batch).failed ≡ false
      → (after_apply update_batch meanwhile outcome s batch).buf ≡ meanwhile []
  unfolding after_apply finish requeue
  after_apply-buf meanwhile committed s batch e = refl
  after_apply-buf meanwhile (refused true) s batch e = cc
  after_apply-buf meanwhile (refused false) s batch e =
      ap (requeue (meanwhile [])) (isolate-rest s batch e)

  -- A flush that reports no error leaves only what came in meanwhile; over an empty buffer, which is
  -- not flushed, nothing comes in.
  pub flush-buf :
      (meanwhile : Buf → Buf) (s : S) (buf : Buf)
      → meanwhile [] ≡ [] ⊎ (buf ≢ [])
      → (flush update_batch meanwhile s buf).failed ≡ false
      → (flush update_batch meanwhile s buf).buf ≡ meanwhile []
  unfolding flush
  flush-buf meanwhile s [] (inl h) e = sym h
  flush-buf meanwhile s [] (inr h) e = absurd (h refl)
  flush-buf meanwhile s (entry ∷ batch) h e =
      let (outcome, s') = update_batch s (updates (entry ∷ batch)) in
      after_apply-buf meanwhile outcome s' (entry ∷ batch) e

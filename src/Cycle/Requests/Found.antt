-- ===== src/Cycle/Requests/Found.antt =====
-- negotiator/cycle/spin.go: which request `nextRequest` finds, and that it returns.
use golang_collector.Base.{
  ℕ, zero, suc, ◌+◌, ◌<◌, ◌≤◌, ◌≡◌, Bool, true, false, Option, none, some, List, [], ◌∷◌, inl, inr,
  Bool-cases, Option-cases, arith,
}
use golang_collector.Base.Int.{ℤ, pos_part}
use golang_collector.Cycle.Requests.{
  Request, Sub, Next, broken, out_of_requests, request, is_rejected, take_next, next_request,
}

module _ {Ad : Type 0} where
  -- The offers that a request can take: more than its count.
  abbrev pub offers_of : Request Ad → ℕ
  offers_of r = suc (suc (pos_part r.count))

  abbrev pub load : List (Request Ad) → ℕ
  load [] = 0
  load (r ∷ rs) = offers_of r + load rs

  take_next-admitted :
      (admits : Ad → Bool) (rejected : List ℤ) (rs : List (Request Ad)) (r : Request Ad)
      (rest : List (Request Ad))
      → take_next admits rejected rs ≡ some (r, rest)
      → (is_rejected rejected r ≡ false) × (admits r.ad ≡ true)
  unfolding take_next
  take_next-admitted admits rejected [] r rest e = ground arith
  take_next-admitted admits rejected (q ∷ rs) r rest e =
      ground (arith, take_next-admitted admits rejected rs r rest)

  take_next-load :
      (admits : Ad → Bool) (rejected : List ℤ) (rs : List (Request Ad)) (r : Request Ad)
      (rest : List (Request Ad))
      → take_next admits rejected rs ≡ some (r, rest)
      → offers_of r + load rest ≤ load rs
  unfolding take_next
  take_next-load admits rejected [] r rest e = ground arith
  take_next-load admits rejected (q ∷ rs) r rest e =
      ground (arith, take_next-load admits rejected rs r rest)

  module _ {W : Type 0} (fetch : W → Option (List (Request Ad)) × W) (admits : Ad → Bool) where
    -- A request that is found is of no autocluster rejected in this round, and satisfies the job
    -- constraint.
    pub next_request-admitted :
        (rejected : List ℤ) (fuel : ℕ) (sub after : Sub Ad) (w v : W) (r : Request Ad)
        → next_request fetch admits rejected fuel sub w ≡ some (request r, (after, v))
        → (is_rejected rejected r ≡ false) × (admits r.ad ≡ true)
    unfolding next_request
    next_request-admitted rejected zero sub after w v r e = ground arith
    next_request-admitted rejected (suc fuel) sub after w v r e =
        elim (Option-cases (take_next admits rejected sub.queue)) [
          | inl h ↦ elim (Bool-cases sub.exhausted) [
            | inl x ↦ ground arith
            | inr x ↦ elim (Option-cases (fetch w).0) [
              | inl f ↦ ground arith
              | inr ([], f) ↦ ground arith
              | inr (q ∷ qs, f) ↦ ground (
                arith,
                next_request-admitted rejected fuel (record sub { queue = q ∷ qs }) after
                    (fetch w).1 v r,
              )
            ]
          ]
          | inr ((q, rest), h) ↦
              ground (arith, take_next-admitted admits rejected sub.queue q rest h)
        ]

    -- `pending` bounds what the schedd still sends, the offers of all its requests: a fetch takes
    -- from it what it brings.
    unfoldable pub Bounds : (W → ℕ) → Type 0
    Bounds pending =
        (w : W)
        → ((fetch w).0 ≡ none → pending (fetch w).1 ≤ pending w)
          × ((rs : List (Request Ad))
              → (fetch w).0 ≡ some rs
              → load rs + pending (fetch w).1 ≤ pending w)

    abbrev pub budget : Next Ad → ℕ
    budget (request r) = offers_of r
    budget _ = 0

    -- With more fuel than requests are pending, a request or the reason for none is found, and the
    -- offers of what is found, of the queue and of what is pending do not grow.
    pub next_request-returns :
        (pending : W → ℕ)
        → Bounds pending
        → (rejected : List ℤ) (fuel : ℕ) (sub : Sub Ad) (w : W) → pending w < fuel
        → (n : Next Ad) × (after : Sub Ad) × (v : W) × (next_request fetch admits rejected fuel sub
              w
            ≡ some (n, (after, v)))
          × (budget n + load after.queue + pending v ≤ load sub.queue + pending w)
    unfolding next_request Bounds
    next_request-returns pending bound rejected zero sub w h = ground arith
    next_request-returns pending bound rejected (suc fuel) sub w h =
        elim (Option-cases (take_next admits rejected sub.queue)) [
          | inl t ↦ elim (Bool-cases sub.exhausted) [
            | inl x ↦ (out_of_requests, record sub { queue = [] }, w, ground arith, ground arith)
            | inr x ↦ elim (Option-cases (fetch w).0) [
              | inl f ↦ (
                broken,
                record sub { queue = [] },
                (fetch w).1,
                ground arith,
                ground (arith, (bound w).0 f),
              )
              | inr ([], f) ↦ (
                out_of_requests,
                record sub { queue = []; exhausted = true },
                (fetch w).1,
                ground arith,
                ground (arith, (bound w).1 [] f),
              )
              | inr (q ∷ qs, f) ↦
                  let less = (bound w).1 (q ∷ qs) f in
                  let (n, after, v, e, l) =
                    next_request-returns pending bound rejected fuel (record sub { queue = q ∷ qs })
                      (fetch w).1 (ground arith) in
                  (n, after, v, ground arith, ground arith)
            ]
          ]
          | inr ((r, rest), t) ↦ (
            request r,
            record sub { queue = rest },
            w,
            ground arith,
            ground (arith, take_next-load admits rejected sub.queue r rest t),
          )
        ]

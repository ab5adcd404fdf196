-- ===== src/Cycle/Requests.antt =====
-- negotiator/cycle/spin.go: the queue of resource requests of a submitter, filled from its schedd.
pub mod Found
use golang_collector.Base.{
  ℕ, zero, suc, Bool, true, false, not, ◌&&◌, ◌||◌, Option, none, some, List, [], ◌∷◌, ◌++◌, any,
  if◌then◌else◌,
}
use golang_collector.Base.Int.{ℤ, pos, ltb_int, eq_int}

-- negotiator.Request, as far as the cycle reads it.
pub record Request (Ad : Type 0) : Type 0 where
  pub ad : Ad
  pub auto_cluster : ℤ
  pub count : ℤ

-- The part of a `subState` that belongs to its current round.
pub record Sub (Ad : Type 0) : Type 0 where
  pub queue : List (Request Ad)
  pub exhausted : Bool
  pub is_open : Bool

-- The session is broken, the schedd has no more requests, or this is the next one.
pub data Next (Ad : Type 0) : Type 0 where
  broken : Next Ad
  out_of_requests : Next Ad
  request : Request Ad → Next Ad

module _ {Ad : Type 0} where
  -- The request is of an autocluster that was rejected in this round.
  unfoldable pub is_rejected : List ℤ → Request Ad → Bool
  is_rejected rejected r =
      not (ltb_int r.auto_cluster (pos 0)) && any (eq_int r.auto_cluster) rejected

  -- The first request that is to be offered, and what is queued after it.
  unfoldable pub take_next :
      (Ad → Bool) → List ℤ → List (Request Ad) → Option (Request Ad × List (Request Ad))
  unfolding is_rejected
  take_next admits rejected [] = none
  take_next admits rejected (r ∷ rest) =
      let later = take_next admits rejected rest in
      if is_rejected rejected r || not (admits r.ad) then later else some (r, rest)

  module _ {W : Type 0} (fetch : W → Option (List (Request Ad)) × W) (admits : Ad → Bool)
      (rejected : List ℤ) where
    -- `nextRequest`, with fuel above the number of its fetches; `none` is out of fuel.
    unfoldable pub next_request : ℕ → Sub Ad → W → Option (Next Ad × (Sub Ad × W))
    unfolding take_next
    next_request zero sub w = none
    next_request (suc fuel) sub w = elim (take_next admits rejected sub.queue) [
      | some (r, rest) ↦ some (request r, (record sub { queue = rest }, w))
      | none ↦ elim sub.exhausted [
        | true ↦ some (out_of_requests, (record sub { queue = [] }, w))
        | false ↦ elim (fetch w).0 [
          | none ↦ some (broken, (record sub { queue = [] }, (fetch w).1))
          | some batch ↦ elim batch [
            | [] ↦
                some (out_of_requests, (record sub { queue = []; exhausted = true }, (fetch w).1))
            | r ∷ rs ↦ next_request fuel (record sub { queue = r ∷ rs }) (fetch w).1
          ]
        ]
      ]
    ]

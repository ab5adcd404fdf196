-- ===== src/Matchmaker/Match/Gates.antt =====
-- What a match has passed, and how it depends on the number of workers.
use golang_collector.Base.{
  ℕ, ◌≡◌, refl, ap, Bool, true, false, inl, inr, Option, none, some, List, [], ◌∷◌, Somewhere,
  arith,
}
use golang_collector.Matchmaker.Floats.{Floats, Classads, IsOrdered}
use golang_collector.Matchmaker.Candidate.{Candidate}
use golang_collector.Matchmaker.Eval.{RejCounters, Config, MatchLimits, CandRef}
use golang_collector.Matchmaker.Eval.Gates.{Passes, eval_candidate-Passes}
use golang_collector.Matchmaker.Shard.{parallel_scan}
use golang_collector.Matchmaker.Shard.Serial.{parallel_scan-workers}
use golang_collector.Matchmaker.Shard.Winner.{yields, parallel_scan-IsBest}
use golang_collector.Matchmaker.Match.{
  matched, Gate, reject, scan, match, report, after_gate, concurrency_gate,
}

module _ (f : Floats) (ord : IsOrdered f) (ca : Classads f) where
  Somewhere-Passes :
      (m : Config f ca) (job : ca.Ad) (limits : MatchLimits f ca) (match_conc : Bool)
      (b : Candidate f ca.Ad) (cands : List (CandRef f ca))
      → Somewhere (λ c. yields f ord ca m limits match_conc job c ≡ some b) cands
      → Somewhere (Passes f ca m job limits b) cands
  Somewhere-Passes m job limits match_conc b [] h = elim h [ ]
  Somewhere-Passes m job limits match_conc b (c ∷ cs) (inl e) =
      inl (eval_candidate-Passes f ca m job limits match_conc c b e)
  Somewhere-Passes m job limits match_conc b (c ∷ cs) (inr h) =
      inr (Somewhere-Passes m job limits match_conc b cs h)

  report-matched :
      (found : Option (Candidate f ca.Ad) × RejCounters) (b : Candidate f ca.Ad)
      → report f ca found ≡ matched b
      → found.0 ≡ some b
  unfolding report
  report-matched (none, rej) b e = cc
  report-matched (some x, rej) b e = ground arith

  winner-Passes :
      (m : Config f ca) (job : ca.Ad) (limits : MatchLimits f ca) (match_conc : Bool)
      (cands : List (CandRef f ca)) (b : Candidate f ca.Ad)
      → (parallel_scan f ca m limits match_conc job cands).0 ≡ some b
      → Somewhere (Passes f ca m job limits b) cands
  winner-Passes m job limits match_conc cands b e =
      Somewhere-Passes m job limits match_conc b cands
        (rw e at (parallel_scan-IsBest f ord ca m limits match_conc job cands)).0

  after_gate-Passes :
      (m : Config f ca) (job : ca.Ad) (limits : MatchLimits f ca) (cands : List (CandRef f ca))
      (g : Gate f ca) (b : Candidate f ca.Ad)
      → after_gate f ca m job cands limits g ≡ matched b
      → Somewhere (Passes f ca m job limits b) cands
  unfolding after_gate
  after_gate-Passes m job limits cands (reject names) b e = cc
  after_gate-Passes m job limits cands (scan match_conc) b e =
      winner-Passes m job limits match_conc cands b (report-matched _ b e)

  -- A match is one of the slots of the view: its Requirements and the job's hold of each other. Its
  -- weight fits into what is left of the submitter's limit, or nothing of the limit is used and it is
  -- positive; where preemption is considered, the limit is the one on unclaimed slots unless the slot is
  -- preempted by priority, and a slot preempted by rank, which needs the condition on the rank, takes no
  -- room. No rank is NaN.
  pub match-Passes :
      (m : Config f ca) (job : ca.Ad) (limits : MatchLimits f ca) (cands : List (CandRef f ca))
      (b : Candidate f ca.Ad)
      → match f ca m false (some job) cands (some limits) ≡ matched b
      → Somewhere (Passes f ca m job limits b) cands
  unfolding match
  match-Passes m job limits cands b e =
      after_gate-Passes m job limits cands (concurrency_gate f ca job limits) b e

  after_gate-workers :
      (m : Config f ca) (k : ℕ) (job : ca.Ad) (limits : MatchLimits f ca)
      (cands : List (CandRef f ca)) (g : Gate f ca)
      → after_gate f ca (record m { workers = k }) job cands limits g
        ≡ after_gate f ca m job cands limits g
  unfolding after_gate
  after_gate-workers m k job limits cands (reject names) = refl
  after_gate-workers m k job limits cands (scan match_conc) =
      ap (report f ca) (parallel_scan-workers f ca m k limits match_conc job ord cands)

  -- The outcome, winner or reason, does not depend on the number of workers, on every branch, where
  -- no rank is NaN.
  pub match-workers :
      (m : Config f ca) (k : ℕ) (done : Bool) (job : Option ca.Ad) (cands : List (CandRef f ca))
      (limits : Option (MatchLimits f ca))
      → match f ca (record m { workers = k }) done job cands limits
        ≡ match f ca m done job cands limits
  unfolding match
  match-workers m k true job cands limits = refl
  match-workers m k false none cands limits = refl
  match-workers m k false (some job) cands none = refl
  match-workers m k false (some job) cands (some limits) =
      after_gate-workers m k job limits cands (concurrency_gate f ca job limits)

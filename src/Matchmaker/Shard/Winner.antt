-- ===== src/Matchmaker/Shard/Winner.antt =====
-- The scan's winner is a best candidate.
use golang_collector.Base.{
  ◌≡◌, refl, inl, inr, Bool, true, false, Option, none, some, List, [], ◌∷◌, All, All-map,
  Somewhere, Bool-cases, arith,
}
use golang_collector.Matchmaker.Floats.{Floats, Classads, IsOrdered}
use golang_collector.Matchmaker.Candidate.{
  Candidate, better, better_trans, better_weak, better_irrefl,
}
use golang_collector.Matchmaker.Eval.{no_rejections, Config, MatchLimits, CandRef, eval_candidate}
use golang_collector.Matchmaker.Shard.{choose, scan_range, parallel_scan}
use golang_collector.Matchmaker.Shard.Serial.{scan_range-cons, parallel_scan-scan_range}

module _ (f : Floats) (ord : IsOrdered f) {Ad : Type 0} where
  -- No better candidate stands here.
  abbrev pub NotBetter : Candidate f Ad → Option (Candidate f Ad) → Type 0
  NotBetter b none = Unit
  NotBetter b (some d) = better f d b ≡ false

  better_asym : (a b : Candidate f Ad) → better f a b ≡ true → better f b a ≡ false
  better_asym a b h = ground (arith, better_trans f ord a b a h, better_irrefl f ord a)

  NotBetter-weak :
      (d b : Candidate f Ad) (o : Option (Candidate f Ad))
      → better f b d ≡ false
      → NotBetter b o
      → NotBetter d o
  NotBetter-weak d b none h k = tt
  NotBetter-weak d b (some x) h k = better_weak f ord x b d k h

  -- What a candidate yields, for a list of them and a claimed best.
  abbrev pub IsBest :
      {C : Type 0} → (C → Option (Candidate f Ad)) → List C → Option (Candidate f Ad) → Type 0
  IsBest yields cs none = All (λ c. yields c ≡ none) cs
  IsBest yields cs (some b) =
      Somewhere (λ c. yields c ≡ some b) cs × All (λ c. NotBetter b (yields c)) cs

  IsBest-cons :
      {C : Type 0} (yields : C → Option (Candidate f Ad)) (c : C) (cs : List C)
      (o best : Option (Candidate f Ad))
      → yields c ≡ o
      → IsBest yields cs best
      → IsBest yields (c ∷ cs) (choose f o best)
  unfolding choose
  IsBest-cons yields c cs none none e h = (e, h)
  IsBest-cons yields c cs none (some b) e h = (inr h.0, (rw e tt, h.1))
  IsBest-cons yields c cs (some d) none e h =
      (inl e, (rw e (better_irrefl f ord d), All-map _ _ (λ x n. rw n tt) cs h))
  IsBest-cons yields c cs (some d) (some b) e h = elim (Bool-cases (better f b d)) [
    | inl w ↦ rw w (inr h.0, (rw e (better_asym b d w), h.1))
    | inr w ↦ rw w (
      inl e,
      (rw e (better_irrefl f ord d), All-map _ _ (λ x n. NotBetter-weak d b (yields x) w n) cs h.1),
    )
  ]

module _ (f : Floats) (ord : IsOrdered f) (ca : Classads f) (m : Config f ca)
    (limits : MatchLimits f ca) (match_conc : Bool) (job : ca.Ad) where
  -- What one candidate yields on its own.
  abbrev pub yields : CandRef f ca → Option (Candidate f ca.Ad)
  yields c = (eval_candidate f ca m job limits match_conc c no_rejections).0

  scan_range-IsBest :
      (cands : List (CandRef f ca))
      → IsBest f ord yields cands (scan_range f ca m limits match_conc job cands).0
  unfolding scan_range
  scan_range-IsBest [] = tt
  scan_range-IsBest (c ∷ cs) = rw (scan_range-cons f ord ca m limits match_conc job c cs) (
      IsBest-cons f ord yields c cs (yields c) (scan_range f ca m limits match_conc job cs).0 refl
        (scan_range-IsBest cs))

  -- The winner of the sharded scan passed every gate at one of the candidates, and none of the
  -- candidates that pass is better; there is no winner exactly where none passes. No rank is NaN.
  pub parallel_scan-IsBest :
      (cands : List (CandRef f ca))
      → IsBest f ord yields cands (parallel_scan f ca m limits match_conc job cands).0
  parallel_scan-IsBest cands =
      rw (parallel_scan-scan_range f ord ca m limits match_conc job cands) (scan_range-IsBest cands)

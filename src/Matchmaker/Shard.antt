-- ===== src/Matchmaker/Shard.antt =====
-- negotiator/matchmaker/shard.go: the scan of a range of candidates, and the scan by several
-- workers, each over a part of its own.
pub mod Serial
pub mod Winner
use golang_collector.Base.{
  ℕ, zero, suc, ◌+◌, ◌/◌, ◌%◌, Bool, Option, none, some, List, [], ◌∷◌, map, length, take, drop,
  ltb, leb, if◌then◌else◌,
}
use golang_collector.Matchmaker.Floats.{Floats, Classads}
use golang_collector.Matchmaker.Candidate.{Candidate, better}
use golang_collector.Matchmaker.Eval.{
  RejCounters, no_rejections, add, Config, MatchLimits, CandRef, eval_candidate,
}

module _ (f : Floats) {Ad : Type 0} where
  -- The new best of the incumbent and a candidate, either of which may be missing.
  pub choose : Option (Candidate f Ad) → Option (Candidate f Ad) → Option (Candidate f Ad)
  choose best none = best
  choose none (some c) = some c
  choose (some b) (some c) = if better f c b then some c else some b

-- The parts of the workers `w`, `w + 1`, …, `w + k - 1`: contiguous, the first `extra` of them one
-- longer than `base`.
unfoldable pub partition {ℓ} : {A : Type ℓ} → ℕ → ℕ → ℕ → ℕ → List A → List (List A)
partition zero w base extra cs = []
partition (suc k) w base extra cs =
    let size = if ltb w extra then base + 1 else base in
    take size cs ∷ partition k (w + 1) base extra (drop size cs)

module _ (f : Floats) (ca : Classads f) (m : Config f ca) (limits : MatchLimits f ca)
    (match_conc : Bool) (job : ca.Ad) where
  abbrev pub Found : Type 0
  Found = Option (Candidate f ca.Ad) × RejCounters

  pub scan_loop : Option (Candidate f ca.Ad) → RejCounters → List (CandRef f ca) → Found
  scan_loop best rej [] = (best, rej)
  scan_loop best rej (c ∷ cs) =
      let (found, rej') = eval_candidate f ca m job limits match_conc c rej in
      scan_loop (choose f best found) rej' cs

  unfoldable pub scan_range : List (CandRef f ca) → Found
  unfolding scan_loop choose
  scan_range cands = scan_loop none no_rejections cands

  -- The reduce over the workers' results.
  pub reduce : Option (Candidate f ca.Ad) → RejCounters → List Found → Found
  reduce best rej [] = (best, rej)
  reduce best rej ((found, counts) ∷ rest) = reduce (choose f best found) (add rej counts) rest

  unfoldable pub parallel_scan : List (CandRef f ca) → Found
  unfolding scan_range reduce partition
  parallel_scan cands =
      let n = length cands in
      let nw = if ltb n m.workers then n else m.workers in
      if leb nw 1
      then scan_range cands
      else reduce none no_rejections (map scan_range (partition nw 0 (n / nw) (n % nw) cands))

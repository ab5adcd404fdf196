-- ===== src/Matchmaker/Eval/Counters.antt =====
-- The counters of one candidate do not depend on those before it.
use golang_collector.Base.{◌≡◌, refl, Bool, arith}
use golang_collector.Matchmaker.Floats.{Floats, Classads}
use golang_collector.Matchmaker.Eval.{
  RejCounters, no_rejections, add, Config, MatchLimits, CandRef, Tier, tier, skip,
  classify_preemption, candidate_tier, finish, eval_candidate,
}

module _ (f : Floats) (ca : Classads f) (m : Config f ca) where
  shift : RejCounters → Tier f ca → Tier f ca
  shift rej (tier t) = tier t
  shift rej (skip r) = skip (add rej r)

  classify_preemption-shift :
      (job slot : ca.Ad) (limits : MatchLimits f ca) (rej : RejCounters)
      → classify_preemption f ca m job slot limits rej
        ≡ shift rej (classify_preemption f ca m job slot limits no_rejections)
  unfolding classify_preemption shift
  classify_preemption-shift job slot limits rej = ground arith

  candidate_tier-shift :
      (job slot : ca.Ad) (limits : MatchLimits f ca) (rej : RejCounters)
      → candidate_tier f ca m job slot limits rej
        ≡ shift rej (candidate_tier f ca m job slot limits no_rejections)
  unfolding candidate_tier shift
  candidate_tier-shift job slot limits rej =
      ground (arith, classify_preemption-shift job slot limits rej)

  finish-shift :
      (job : ca.Ad) (c : CandRef f ca) (limits : MatchLimits f ca) (rej : RejCounters)
      (t : Tier f ca)
      → finish f ca m job c limits rej (shift rej t) ≡ (
        (finish f ca m job c limits no_rejections t).0,
        add rej (finish f ca m job c limits no_rejections t).1,
      )
  unfolding finish shift
  finish-shift job c limits rej (tier t) = ground arith
  finish-shift job c limits rej (skip r) = refl

  pub eval_candidate-add :
      (job : ca.Ad) (limits : MatchLimits f ca) (match_conc : Bool) (c : CandRef f ca)
      (rej : RejCounters)
      → eval_candidate f ca m job limits match_conc c rej ≡ (
        (eval_candidate f ca m job limits match_conc c no_rejections).0,
        add rej (eval_candidate f ca m job limits match_conc c no_rejections).1,
      )
  unfolding eval_candidate
  eval_candidate-add job limits match_conc c rej = ground (
    arith,
    candidate_tier-shift job c.slot limits rej,
    finish-shift job c limits rej (candidate_tier f ca m job c.slot limits no_rejections),
  )

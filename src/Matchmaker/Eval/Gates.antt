-- ===== src/Matchmaker/Eval/Gates.antt =====
-- What a candidate that `evalCandidate` lets through has passed, and that the number of workers is
-- nothing to it.
use golang_collector.Base.{
  ℕ, zero, suc, ◌≡◌, ◌⊎◌, inl, inr, refl, ap, Bool, true, false, some, some-subst, Bool-cases,
  arith,
}
use golang_collector.Matchmaker.Floats.{Floats, Classads}
use golang_collector.Matchmaker.Candidate.{Candidate}
use golang_collector.Matchmaker.Eval.{
  RejCounters, no_rejections, Config, MatchLimits, CandRef, Tier, tier, skip, eval_candidate,
  finish, candidate_tier, submitter_limit_gate, slot_weight, candidate, classify_preemption,
  submitter_limit_permits, by_tier, over_limit, rank_preemption, eval_bool_right,
}

module _ (f : Floats) (ca : Classads f) where
  -- The cost fits into what is left of a limit; or nothing of the limit is used yet, and it is positive.
  abbrev pub HasRoom : f.R → f.R → f.R → Type 0
  HasRoom used allowed cost =
      (f.le (f.add used cost) allowed ≡ true)
      ⊎ ((f.le used f.zero ≡ true) × (f.lt f.zero allowed ≡ true))

  -- The room that a tier needs, where preemption is considered: the whole limit for a preemption by
  -- priority, none for one by rank, and the limit on unclaimed slots otherwise.
  abbrev pub RoomOfTier : MatchLimits f ca → f.R → ℕ → Type 0
  RoomOfTier limits cost zero = HasRoom limits.limit_used limits.submitter_limit cost
  RoomOfTier limits cost (suc zero) = Unit
  RoomOfTier limits cost _ =
      HasRoom limits.limit_used_unclaimed limits.submitter_limit_unclaimed cost

  -- Without preemption every match needs room in the whole limit.
  abbrev pub Fits : Bool → MatchLimits f ca → f.R → ℕ → Type 0
  Fits false limits cost t = HasRoom limits.limit_used limits.submitter_limit cost
  Fits true limits cost t = RoomOfTier limits cost t

  -- What the candidate `b` of the slot `c` has passed. A slot is only preempted by rank where the
  -- condition on the rank holds, and then preemption is considered.
  pub record Passes (m : Config f ca) (job : ca.Ad) (limits : MatchLimits f ca)
      (b : Candidate f ca.Ad) (c : CandRef f ca) : Type 0 where
    pub same_slot : b.slot ≡ c.slot
    pub same_index : b.scan_index ≡ c.idx
    pub requirements : ca.symmetry job c.slot ≡ true
    pub within_limit : Fits m.consider_preemption limits (slot_weight f ca m c.slot) b.preempt_tier
    pub by_rank :
        b.preempt_tier ≡ rank_preemption
        → (m.consider_preemption ≡ true) × (eval_bool_right f ca job c.slot m.rank_cond_std ≡ true)

  permits-HasRoom :
      (used allowed cost : f.R)
      → submitter_limit_permits f ca used allowed cost ≡ true
      → HasRoom used allowed cost
  unfolding submitter_limit_permits
  permits-HasRoom used allowed cost h = elim (Bool-cases (f.le (f.add used cost) allowed)) [
    | inl e ↦ inl e
    | inr e ↦ inr (ground (arith, h, e), ground (arith, h, e))
  ]

  by_tier-RoomOfTier :
      (t : ℕ) (limits : MatchLimits f ca) (cost : f.R)
      → by_tier f ca t
          (submitter_limit_permits f ca limits.limit_used limits.submitter_limit cost)
          true
          (submitter_limit_permits f ca limits.limit_used_unclaimed limits.submitter_limit_unclaimed
            cost)
        ≡ true
      → RoomOfTier limits cost t
  by_tier-RoomOfTier zero limits cost h =
      permits-HasRoom limits.limit_used limits.submitter_limit cost h
  by_tier-RoomOfTier (suc zero) limits cost h = tt
  by_tier-RoomOfTier (suc (suc n)) limits cost h =
      permits-HasRoom limits.limit_used_unclaimed limits.submitter_limit_unclaimed cost h

  gate-Fits :
      (m : Config f ca) (t : ℕ) (limits : MatchLimits f ca) (cost : f.R)
      → submitter_limit_gate f ca m t limits cost ≡ true
      → Fits m.consider_preemption limits cost t
  unfolding submitter_limit_gate
  gate-Fits m t limits cost h = elim (Bool-cases m.consider_preemption) [
    | inl p ↦ rw p (by_tier-RoomOfTier t limits cost (rw p at h))
    | inr p ↦ rw p (permits-HasRoom limits.limit_used limits.submitter_limit cost (rw p at h))
  ]

  -- The tier of preemption by rank is only given where preemption is considered and the condition holds.
  abbrev Ranked : Config f ca → ca.Ad → ca.Ad → Tier f ca → Type 0
  Ranked m job slot t =
      t ≡ tier rank_preemption
      → (m.consider_preemption ≡ true) × (eval_bool_right f ca job slot m.rank_cond_std ≡ true)

  candidate_tier-Ranked :
      (m : Config f ca) (job slot : ca.Ad) (limits : MatchLimits f ca) (rej : RejCounters)
      → Ranked m job slot (candidate_tier f ca m job slot limits rej)
  unfolding candidate_tier classify_preemption
  candidate_tier-Ranked m job slot limits rej e = ground (arith, e)

  finish-Passes :
      (m : Config f ca) (job : ca.Ad) (limits : MatchLimits f ca) (c : CandRef f ca)
      (rej : RejCounters) (t : Tier f ca) (b : Candidate f ca.Ad)
      → ca.symmetry job c.slot ≡ true
      → Ranked m job c.slot t
      → (finish f ca m job c limits rej t).0 ≡ some b
      → Passes m job limits b c
  unfolding finish candidate
  finish-Passes m job limits c rej (skip r) b h g e = absurd (ground (arith, e))
  finish-Passes m job limits c rej (tier t) b h g e =
      elim (Bool-cases (submitter_limit_gate f ca m t limits (slot_weight f ca m c.slot))) [
        | inr k ↦ absurd (ground (arith, e, k))
        | inl k ↦
            some-subst (λ b. Passes m job limits b c) (rw k at e)
              (record {
                same_slot = refl;
                same_index = refl;
                requirements = h;
                within_limit = gate-Fits m t limits (slot_weight f ca m c.slot) k;
                by_rank = λ r. g (ap tier r);
              })
      ]

  pub eval_candidate-Passes :
      (m : Config f ca) (job : ca.Ad) (limits : MatchLimits f ca) (match_conc : Bool)
      (c : CandRef f ca) (b : Candidate f ca.Ad)
      → (eval_candidate f ca m job limits match_conc c no_rejections).0 ≡ some b
      → Passes m job limits b c
  unfolding eval_candidate
  eval_candidate-Passes m job limits match_conc c b e = elim (Bool-cases (ca.symmetry job c.slot)) [
    | inr s ↦ absurd (ground (arith, e, s))
    | inl s ↦ elim (Bool-cases (over_limit f ca match_conc job c.slot limits)) [
      | inl o ↦ absurd (ground (arith, e, s, o))
      | inr o ↦
          finish-Passes m job limits c no_rejections
            (candidate_tier f ca m job c.slot limits no_rejections) b s
            (candidate_tier-Ranked m job c.slot limits no_rejections) (rw (s, o) at e)
    ]
  ]

  pub eval_candidate-workers :
      (m : Config f ca) (k : ℕ) (job : ca.Ad) (limits : MatchLimits f ca) (match_conc : Bool)
      (c : CandRef f ca) (rej : RejCounters)
      → eval_candidate f ca (record m { workers = k }) job limits match_conc c rej
        ≡ eval_candidate f ca m job limits match_conc c rej
  unfolding eval_candidate classify_preemption submitter_limit_gate slot_weight candidate
  eval_candidate-workers m k job limits match_conc c rej = refl

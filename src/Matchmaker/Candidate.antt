-- ===== src/Matchmaker/Candidate.antt =====
-- `Candidate.Better` of negotiator/types.go, and that it is a strict weak order.
use golang_collector.Base.{ℕ, ◌≡◌, Bool, true, false, not, arith, ltb, ◌==◌, if◌then◌else◌}
use golang_collector.Matchmaker.Floats.{Floats, IsOrdered}

module _ (f : Floats) where
  pub record Candidate (Ad : Type 0) : Type 0 where
    pub slot : Ad
    pub pre_job_rank : f.R
    pub rank : f.R
    pub post_job_rank : f.R
    pub preempt_tier : ℕ
    pub preempt_rank : f.R
    pub scan_index : ℕ

  -- One key of the order: more is better, and the rest decides between equal keys.
  by_rank : f.R → f.R → Bool → Bool
  by_rank a b rest = if not (f.eq a b) then f.lt b a else rest

  by_tier : ℕ → ℕ → Bool → Bool
  by_tier a b rest = if not (a == b) then ltb b a else rest

  unfoldable pub better : {Ad : Type 0} → Candidate Ad → Candidate Ad → Bool
  unfolding by_rank by_tier
  better c o = by_rank c.pre_job_rank o.pre_job_rank (
      by_rank c.rank o.rank (
        by_rank c.post_job_rank o.post_job_rank (
          by_tier c.preempt_tier o.preempt_tier
            (by_rank c.preempt_rank o.preempt_rank (ltb c.scan_index o.scan_index)))))

module _ (f : Floats) (ord : IsOrdered f) where
  by_rank_trans :
      (a b c : f.R) (p q r : Bool)
      → (p ≡ true → q ≡ true → r ≡ true)
      → by_rank f a b p ≡ true
      → by_rank f b c q ≡ true
      → by_rank f a c r ≡ true
  unfolding by_rank
  by_rank_trans a b c p q r t h k = ground (
    arith,
    ord.eq_refl a,
    ord.eq_refl b,
    ord.eq_sound a b,
    ord.eq_sound b c,
    ord.eq_sound a c,
    ord.lt_trans c b a,
    ord.lt_irrefl b,
    ord.lt_trans b c b,
  )

  by_rank_weak :
      (a b c : f.R) (p q r : Bool)
      → (p ≡ false → q ≡ false → r ≡ false)
      → by_rank f a b p ≡ false
      → by_rank f b c q ≡ false
      → by_rank f a c r ≡ false
  unfolding by_rank
  by_rank_weak a b c p q r t h k = ground (
    arith,
    ord.eq_refl a,
    ord.eq_refl b,
    ord.eq_sound a b,
    ord.eq_sound b c,
    ord.eq_sound a c,
    ord.lt_total a b,
    ord.lt_total b c,
    ord.lt_trans a b c,
    ord.lt_trans c a c,
    ord.lt_trans a c a,
    ord.lt_irrefl c,
    ord.lt_irrefl a,
  )

  by_tier_trans :
      (a b c : ℕ) (p q r : Bool)
      → (p ≡ true → q ≡ true → r ≡ true)
      → by_tier f a b p ≡ true
      → by_tier f b c q ≡ true
      → by_tier f a c r ≡ true
  unfolding by_tier
  by_tier_trans a b c p q r t h k = ground arith

  by_tier_weak :
      (a b c : ℕ) (p q r : Bool)
      → (p ≡ false → q ≡ false → r ≡ false)
      → by_tier f a b p ≡ false
      → by_tier f b c q ≡ false
      → by_tier f a c r ≡ false
  unfolding by_tier
  by_tier_weak a b c p q r t h k = ground arith

  -- A candidate that is better than a better one is better.
  pub better_trans :
      {Ad : Type 0} (a b c : Candidate f Ad)
      → better f a b ≡ true
      → better f b c ≡ true
      → better f a c ≡ true
  better_trans a b c =
      unfold better in
      by_rank_trans a.pre_job_rank b.pre_job_rank c.pre_job_rank _ _ _ (
        by_rank_trans a.rank b.rank c.rank _ _ _ (
          by_rank_trans a.post_job_rank b.post_job_rank c.post_job_rank _ _ _ (
            by_tier_trans a.preempt_tier b.preempt_tier c.preempt_tier _ _ _ (
              by_rank_trans a.preempt_rank b.preempt_rank c.preempt_rank _ _ _
                (λ h k. ground arith)))))

  -- Nor does it get better by a step to one that is not better.
  pub better_weak :
      {Ad : Type 0} (a b c : Candidate f Ad)
      → better f a b ≡ false
      → better f b c ≡ false
      → better f a c ≡ false
  better_weak a b c =
      unfold better in
      by_rank_weak a.pre_job_rank b.pre_job_rank c.pre_job_rank _ _ _ (
        by_rank_weak a.rank b.rank c.rank _ _ _ (
          by_rank_weak a.post_job_rank b.post_job_rank c.post_job_rank _ _ _ (
            by_tier_weak a.preempt_tier b.preempt_tier c.preempt_tier _ _ _ (
              by_rank_weak a.preempt_rank b.preempt_rank c.preempt_rank _ _ _
                (λ h k. ground arith)))))

  pub better_irrefl : {Ad : Type 0} (a : Candidate f Ad) → better f a a ≡ false
  unfolding better
  better_irrefl a = ground (
    arith,
    ord.eq_refl a.pre_job_rank,
    ord.eq_refl a.rank,
    ord.eq_refl a.post_job_rank,
    ord.eq_refl a.preempt_rank,
  )

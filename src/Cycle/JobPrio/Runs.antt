-- ===== src/Cycle/JobPrio/Runs.antt =====
-- negotiator/cycle/globaljobprio.go: what the consolidation of the rounds leaves.
use mathlib.Core.Path.{subst}
use golang_collector.Base.{
  ◌≡◌, inl, inr, Bool, true, false, not, ◌&&◌, List, [], ◌∷◌, any, All, All-map, Bool-cases, arith,
}
use golang_collector.Base.Int.{ltb_int}
use golang_collector.Base.Text.{text_eq_iff, text_eq_refl}
use golang_collector.Matchmaker.Floats.{Floats}
use golang_collector.Cycle.Share.{SubState}
use golang_collector.Cycle.JobPrio.{same_submitter, extend, consolidate_from, consolidate_job_prios}

module _ (f : Floats) {X : Type 0} where
  -- The two rounds could be one: both have a range, and the submitter is the same.
  unfoldable pub joins : SubState f X → SubState f X → Bool
  joins p s = p.has_job_prio_array && s.has_job_prio_array && same_submitter f p s

  -- No two neighbours could be one.
  unfoldable pub Separate : List (SubState f X) → Type 0
  Separate [] = Unit
  Separate (p ∷ []) = Unit
  Separate (p ∷ s ∷ rest) = (joins p s ≡ false) × Separate (s ∷ rest)

  -- `q` is of the submitter of `x`, and its range has that of `x`.
  unfoldable pub covers : SubState f X → SubState f X → Bool
  covers x q =
      same_submitter f x q
      && not (ltb_int x.job_prio_min q.job_prio_min)
      && not (ltb_int q.job_prio_max x.job_prio_max)

  consolidate_from-Separate :
      (o p : SubState f X) (rest : List (SubState f X))
      → joins o p ≡ false
      → Separate (o ∷ consolidate_from f p rest)
  unfolding Separate consolidate_from joins extend
  consolidate_from-Separate o p [] h = (h, tt)
  consolidate_from-Separate o p (s ∷ rest) h = elim (Bool-cases (joins p s)) [
    | inl g ↦ rw g (consolidate_from-Separate o (extend f p s) rest h)
    | inr g ↦ rw g (h, consolidate_from-Separate p s rest g)
  ]

  Separate-consolidate_from :
      (p : SubState f X) (rest : List (SubState f X)) → Separate (consolidate_from f p rest)
  unfolding Separate consolidate_from joins
  Separate-consolidate_from p [] = tt
  Separate-consolidate_from p (s ∷ rest) = elim (Bool-cases (joins p s)) [
    | inl g ↦ rw g (Separate-consolidate_from (extend f p s) rest)
    | inr g ↦ rw g (consolidate_from-Separate p s rest g)
  ]

  same_submitter_trans :
      (a b c : SubState f X)
      → same_submitter f a b ≡ true
      → same_submitter f b c ≡ true
      → same_submitter f a c ≡ true
  unfolding same_submitter
  same_submitter_trans a b c h k = ground (
    arith,
    text_eq_iff a.name b.name,
    text_eq_iff b.name c.name,
    text_eq_iff a.name c.name,
    text_eq_iff a.schedd_addr b.schedd_addr,
    text_eq_iff b.schedd_addr c.schedd_addr,
    text_eq_iff a.schedd_addr c.schedd_addr,
  )

  covers_refl : (p : SubState f X) → covers p p ≡ true
  unfolding covers same_submitter
  covers_refl p = ground (arith, text_eq_refl p.name, text_eq_refl p.schedd_addr)

  covers-extend : (x p s : SubState f X) → covers x p ≡ true → covers x (extend f p s) ≡ true
  unfolding covers same_submitter extend
  covers-extend x p s h = ground arith

  covers-merged :
      (p s : SubState f X) → same_submitter f p s ≡ true → covers s (extend f p s) ≡ true
  unfolding covers same_submitter extend
  covers-merged p s h = ground (
    arith,
    text_eq_iff p.name s.name,
    text_eq_iff s.name p.name,
    text_eq_iff p.schedd_addr s.schedd_addr,
    text_eq_iff s.schedd_addr p.schedd_addr,
  )

  covered-first :
      (x p : SubState f X) (rest : List (SubState f X))
      → covers x p ≡ true
      → any (covers x) (consolidate_from f p rest) ≡ true
  unfolding consolidate_from
  covered-first x p [] h = ground arith
  covered-first x p (s ∷ rest) h =
      ground (arith, covered-first x (extend f p s) rest (covers-extend x p s h))

  abbrev Covered : List (SubState f X) → SubState f X → Type 0
  Covered out x = any (covers x) out ≡ true

  consolidate_from-joined :
      (p s : SubState f X) (rest : List (SubState f X))
      → joins p s ≡ true
      → consolidate_from f (extend f p s) rest ≡ consolidate_from f p (s ∷ rest)
  unfolding consolidate_from joins
  consolidate_from-joined p s rest g = ground arith

  consolidate_from-apart :
      (p s : SubState f X) (rest : List (SubState f X))
      → joins p s ≡ false
      → p ∷ consolidate_from f s rest ≡ consolidate_from f p (s ∷ rest)
  unfolding consolidate_from joins
  consolidate_from-apart p s rest g = ground arith

  joins-same : (p s : SubState f X) → joins p s ≡ true → same_submitter f p s ≡ true
  unfolding joins
  joins-same p s g = ground arith

  Covered-all :
      (p : SubState f X) (rest : List (SubState f X))
      → All (Covered (consolidate_from f p rest)) (p ∷ rest)
  Covered-all p [] = (covered-first p p [] (covers_refl p), tt)
  Covered-all p (s ∷ rest) = elim (Bool-cases (joins p s)) [
    | inl g ↦
        subst (λ out. All (Covered out) (p ∷ s ∷ rest)) (consolidate_from-joined p s rest g)
          (
            covered-first p (extend f p s) rest (covers-extend p p s (covers_refl p)),
            (
              covered-first s (extend f p s) rest (covers-merged p s (joins-same p s g)),
              (Covered-all (extend f p s) rest).1,
            ),
          )
    | inr g ↦
        subst (λ out. All (Covered out) (p ∷ s ∷ rest)) (consolidate_from-apart p s rest g)
          (
            ground (arith, covers_refl p),
            All-map (Covered (consolidate_from f s rest)) (Covered (p ∷ consolidate_from f s rest))
                (λ x h. ground arith) (s ∷ rest) (Covered-all s rest),
          )
  ]

  -- The consolidation leaves no two neighbours of one submitter and schedd that both have a range of
  -- job priorities, and each round is covered by one that is left, of the same submitter and schedd,
  -- whose range has the round's.
  pub consolidate_job_prios-Separate :
      (subs : List (SubState f X))
      → Separate (consolidate_job_prios f subs)
        × All (λ x. any (covers x) (consolidate_job_prios f subs) ≡ true) subs
  unfolding consolidate_job_prios Separate
  consolidate_job_prios-Separate [] = (tt, tt)
  consolidate_job_prios-Separate (s ∷ rest) = (Separate-consolidate_from s rest, Covered-all s rest)

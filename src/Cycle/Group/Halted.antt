-- ===== src/Cycle/Group/Halted.antt =====
-- negotiator/cycle/spin.go: a spin whose group has met its quota.
use golang_collector.Base.{ℕ, ◌≡◌, refl, Bool, true, false, List, [], ◌∷◌}
use golang_collector.Base.Text.{is_empty}
use golang_collector.Matchmaker.Floats.{Floats}
use golang_collector.Cycle.Share.{Arithmetic, SubState, RoundInfo, SpinEnv}
use golang_collector.Cycle.Group.{Knobs, Outside, Spin, quota_met, run_subs}

module _ (f : Floats) (ar : Arithmetic f) {X W : Type 0} (knobs : Knobs f ar)
    (out : Outside f ar X W) (ri : RoundInfo f) where
  -- The round of each submitter is closed, and nothing else is done.
  abbrev pub end_rounds : List (SubState f X) → W → List (SubState f X) × W
  end_rounds [] w = ([], w)
  end_rounds (sub ∷ subs) w =
      let ended = out.end_round false sub w in
      let rest = end_rounds subs ended.1 in (ended.0 ∷ rest.0, rest.1)

  -- All of them are left, with their rounds closed, and the pie is as it was.
  abbrev pub only_ended : f.R → ℕ → List (SubState f X) → W → Spin f ar knobs out ri
  only_ended pie n subs w = record {
    next = (end_rounds subs w).0;
    pie = pie;
    world = (end_rounds subs w).1;
    failed = n;
  }

  run_subs-halted :
      (env : SpinEnv f) (pie : f.R) (n : ℕ) (subs : List (SubState f X)) (w : W)
      → run_subs f ar knobs out ri env true pie n subs w ≡ only_ended pie n subs w
  unfolding run_subs
  run_subs-halted env pie n [] w = refl
  run_subs-halted env pie n (sub ∷ subs) w =
      rw (run_subs-halted env pie n subs (out.end_round false sub w).1) refl

  -- Once the usage of a named group is at its quota, and neither the submitters' limits are ignored nor
  -- the cycle is cancelled, none of the submitters that are still to come in a spin is negotiated with, also if the usage changes while
  -- their rounds are closed: each is left, with its round closed, none has failed, and the pie is as it
  -- was.
  pub run_subs-quota_met :
      (env : SpinEnv f) (halted : Bool) (pie : f.R) (n : ℕ) (subs : List (SubState f X)) (w : W)
      → out.cancelled w ≡ false
      → env.ignore_submitter_limit ≡ false
      → is_empty ri.name ≡ false
      → f.le ri.quota ((out.accounts w).weighted_used ri.name) ≡ true
      → run_subs f ar knobs out ri env halted pie n subs w ≡ only_ended pie n subs w
  unfolding run_subs quota_met
  run_subs-quota_met env halted pie n [] w c i e q = refl
  run_subs-quota_met env true pie n (sub ∷ subs) w c i e q =
      run_subs-halted env pie n (sub ∷ subs) w
  run_subs-quota_met env false pie n (sub ∷ subs) w c i e q =
      rw (run_subs, c, i, e, q, run_subs-halted env pie n subs (out.end_round false sub w).1) refl

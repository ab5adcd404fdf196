-- ===== src/Cycle/Tracker/Tests.antt =====
-- Runs of the tracker of the concurrency limits, over natural numbers.
use golang_collector.Base.{ℕ, ◌≡◌, refl, none, some, List, [], ◌∷◌}
use golang_collector.Base.Text.{codes, cut, fields, to_lower, trim_space}
use golang_collector.Accountant.Limits.{parse_concurrency_limit}
use golang_collector.Matchmaker.Match.Tests.{naturals}
use golang_collector.Matchmaker.Limits.{ConcurrencyLimits, reject_for_concurrency_limits}
use golang_collector.Cycle.Tracker.{Sources, Tracker, usage, max_of, add}
use golang_collector.Cycle.Tracker.Charged.{Call, read, commit, moves, run, charged, usage-charged}

abbrev sources : Sources naturals ℕ
sources = record { seed = none; max = some (λ name. 1); default_max = 2308032 }

abbrev live : Tracker naturals → ConcurrencyLimits naturals
live t = record {
  usage = λ name. (usage naturals sources 0 name t).0;
  max = max_of naturals sources;
}

-- A list that names a limit twice passes the gate, and takes the limit over its maximum.
named_twice_passes : reject_for_concurrency_limits naturals (codes "lic lic") (live []) ≡ none
unfolding reject_for_concurrency_limits usage fields to_lower cut trim_space max_of
named_twice_passes = refl

named_twice_charges :
    (usage naturals sources 0 (codes "Lic") (add naturals sources 0 (codes "lic lic") [])).0 ≡ 2
unfolding usage add fields to_lower parse_concurrency_limit cut trim_space
named_twice_charges = refl

-- The accountant counts each match, too, before the tracker does.
abbrev calls : List (Call ℕ)
calls =
    read (codes "lic") ∷ moves 5 ∷ commit (codes "Lic, gpu") ∷ moves 6 ∷ commit (codes "lic") ∷ []

usage-charged_example :
    (usage naturals sources
      (run naturals sources calls 4 []).0
      (codes "LIC")
      (run naturals sources calls 4 []).1).0
    ≡ charged naturals sources (to_lower (codes "LIC")) 4 none calls
usage-charged_example = usage-charged naturals sources calls 4 (codes "LIC")

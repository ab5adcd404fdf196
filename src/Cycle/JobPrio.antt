-- ===== src/Cycle/JobPrio.antt =====
-- negotiator/cycle/globaljobprio.go: the rounds of a submitter at its job priorities.
pub mod Runs
use golang_collector.Base.{
  ℕ, ◌*◌, ◌+◌, ◌-◌, ◌==◌, Bool, true, false, not, ◌&&◌, ◌||◌, Option, none, some, List, [], ◌∷◌,
  ◌++◌, leb, if◌then◌else◌,
}
use golang_collector.Base.Int.{ℤ, pos, negsuc, ltb_int, sub_nat}
use golang_collector.Base.Text.{Text, codes, text_eq, trim_space, is_empty, cut}
use golang_collector.Matchmaker.Floats.{Floats}
use golang_collector.Cycle.Share.{SubState}

abbrev is_digit : ℕ → Bool
is_digit c = leb b'0' c && leb c b'9'

leading_value : ℕ → Text → ℕ
leading_value v [] = v
leading_value v (c ∷ s) =
    let rest = leading_value (v * 10 + (c - b'0')) s in if is_digit c then rest else v

-- `int` has 64 bits; the digits of a job priority stay far below its bound.
unfoldable pub atoi_c : Text → ℤ
unfolding leading_value
atoi_c [] = pos 0
atoi_c (c ∷ s) =
    if c == b'-'
    then sub_nat 0 (leading_value 0 s)
    else if c == b'+'
    then pos (leading_value 0 s)
    else pos (leading_value 0 (c ∷ s))

-- `strings.Split(s, ",")`
split_commas : Text → List Text
split_commas [] = [] ∷ []
split_commas (c ∷ s) =
    let rest = split_commas s in
    elim rest [
      | [] ↦ if c == b',' then [] ∷ [] else (c ∷ []) ∷ []
      | t ∷ ts ↦ if c == b',' then [] ∷ t ∷ ts else (c ∷ t) ∷ ts
    ]

module _ {Ad : Type 0} (eval_string : Ad → Text → Option Text)
    (with_attr : Text → ℤ → Ad → Ad) where
  abbrev job_prio : Text
  job_prio = codes "JobPrio"

  rounds : Ad → List Text → List Ad
  unfolding atoi_c
  rounds ad [] = []
  rounds ad (token ∷ tokens) =
      let rest = rounds ad tokens in
      if is_empty (trim_space token)
      then rest
      else with_attr job_prio (atoi_c (trim_space token)) ad ∷ rest

  -- `with_attr` sets an attribute of a copy of the ad. -2147483648 is math.MinInt32.
  unfoldable pub fan_out_job_prios : List Ad → List Ad
  unfolding rounds split_commas
  fan_out_job_prios [] = []
  fan_out_job_prios (ad ∷ ads) =
      let rest = fan_out_job_prios ads in
      elim (eval_string ad (codes "JobPrioArray")) [
        | none ↦ with_attr job_prio (negsuc 2147483647) ad ∷ rest
        | some array ↦ rounds ad (split_commas array) ++ rest
      ]

module _ (f : Floats) {X : Type 0} where
  -- The two rounds are of one submitter at one schedd.
  unfoldable pub same_submitter : SubState f X → SubState f X → Bool
  same_submitter p s = text_eq p.name s.name && text_eq p.schedd_addr s.schedd_addr

  -- The survivor of a run takes in the range of a round that is dropped.
  unfoldable pub extend : SubState f X → SubState f X → SubState f X
  extend p s = record p {
    job_prio_min = if ltb_int s.job_prio_min p.job_prio_min then s.job_prio_min else p.job_prio_min;
    job_prio_max = if ltb_int p.job_prio_max s.job_prio_max then s.job_prio_max else p.job_prio_max;
  }

  -- `consolidateJobPrios`: the first round is the survivor that the next ones may extend.
  unfoldable pub consolidate_from : SubState f X → List (SubState f X) → List (SubState f X)
  unfolding same_submitter extend
  consolidate_from p [] = p ∷ []
  consolidate_from p (s ∷ rest) =
      let merged = consolidate_from (extend p s) rest in
      let next = consolidate_from s rest in
      if p.has_job_prio_array && s.has_job_prio_array && same_submitter p s
      then merged
      else p ∷ next

  unfoldable pub consolidate_job_prios : List (SubState f X) → List (SubState f X)
  unfolding consolidate_from
  consolidate_job_prios [] = []
  consolidate_job_prios (s ∷ rest) = consolidate_from s rest

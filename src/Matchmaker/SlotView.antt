-- ===== src/Matchmaker/SlotView.antt =====
-- negotiator/matchmaker/slotview.go: the slots of one cycle, and which of them are still there.
pub mod Live
use golang_collector.Base.{
  ℕ, zero, suc, ◌+◌, ◌-◌, ◌==◌, ◌&&◌, not, Bool, true, false, Option, none, some, List, [], ◌∷◌,
  ◌++◌, map, length, if◌then◌else◌,
}
use golang_collector.Base.Text.{Text, codes, text_eq}

-- The maps of claim ids: `PoolSnapshot.ClaimIDs`.
unfoldable pub lookup : List (Text × Text) → Text → Option Text
lookup [] key = none
lookup ((k, v) ∷ rest) key = if text_eq k key then some v else lookup rest key

-- `flags[i]`, which the source reads within the bounds only.
unfoldable pub flag : List Bool → ℕ → Bool
flag [] i = false
flag (b ∷ bs) zero = b
flag (b ∷ bs) (suc i) = flag bs i

unfoldable pub clear : List Bool → ℕ → List Bool
clear [] i = []
clear (b ∷ bs) zero = false ∷ bs
clear (b ∷ bs) (suc i) = b ∷ clear bs i

pub record SlotView (Ad : Type 0) : Type 0 where
  pub slots : List Ad
  pub live : List Bool
  pub pslot : List Bool
  pub nlive : ℕ
  pub claim_ids : Option (List (Text × Text))

module _ {Ad : Type 0} where
  -- `is_pslot` is `EvaluateAttrBool("PartitionableSlot")` with both results true.
  unfoldable pub new_slot_view : (Ad → Bool) → List Ad → Option (List (Text × Text)) → SlotView Ad
  new_slot_view is_pslot slots claim_ids = record {
    slots = slots;
    live = map (λ s. true) slots;
    pslot = map is_pslot slots;
    nlive = length slots;
    claim_ids = claim_ids;
  }

  -- The slots whose flag is set, from the index `i` on.
  unfoldable pub scan_from : ℕ → List Ad → List Bool → List (ℕ × Ad)
  scan_from i [] live = []
  scan_from i (s ∷ slots) [] = []
  scan_from i (s ∷ slots) (l ∷ live) =
      let rest = scan_from (i + 1) slots live in if l then (i, s) ∷ rest else rest

  -- `Scan` with a callback that never stops it, as `gather` has.
  unfoldable pub gather : SlotView Ad → List (ℕ × Ad)
  unfolding scan_from
  gather sv = scan_from 0 sv.slots sv.live

  unfoldable pub consume : SlotView Ad → ℕ → SlotView Ad
  unfolding flag clear
  consume sv i =
      if not (flag sv.live i)
      then sv
      else if flag sv.pslot i
      then sv
      else record sv { live = clear sv.live i; nlive = sv.nlive - 1 }

  -- `eval_string` is the classad library's; `none` is the second result `false`.
  unfoldable pub claim_id : (Ad → Text → Option Text) → SlotView Ad → Option Ad → Option Text
  unfolding lookup
  claim_id eval_string sv none = none
  claim_id eval_string sv (some slot) = elim sv.claim_ids [
    | none ↦ none
    | some ids ↦ elim (eval_string slot (codes "Name")) [
      | none ↦ none
      | some name ↦ elim (eval_string slot (codes "StartdIpAddr")) [
        | none ↦ none
        | some addr ↦ lookup ids (name ++ addr)
      ]
    ]
  ]

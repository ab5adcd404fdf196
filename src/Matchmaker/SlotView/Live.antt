-- ===== src/Matchmaker/SlotView/Live.antt =====
-- What a view still has, and what consuming a slot takes from it.
use golang_collector.Base.{
  ℕ, zero, suc, ◌+◌, ◌<◌, ◌==◌, ◌&&◌, not, ◌≡◌, refl, ap, sym, Bool, true, Option, List, [], ◌∷◌,
  map, length, keep, if◌then◌else◌, arith,
}
use golang_collector.Base.Text.{Text}
use golang_collector.Matchmaker.SlotView.{
  SlotView, new_slot_view, scan_from, gather, flag, clear, consume,
}

length-clear : (flags : List Bool) (i : ℕ) → length (clear flags i) ≡ length flags
unfolding clear
length-clear [] i = refl
length-clear (b ∷ bs) zero = refl
length-clear (b ∷ bs) (suc i) = ap suc (length-clear bs i)

module _ {Ad : Type 0} where
  -- Every slot has its flags, and the counter counts the live ones.
  pub record IsValid (sv : SlotView Ad) : Type 0 where
    pub live_length : length sv.live ≡ length sv.slots
    pub pslot_length : length sv.pslot ≡ length sv.slots
    pub counted : sv.nlive ≡ length (gather sv)

  length-map : {B : Type 0} (g : Ad → B) (xs : List Ad) → length (map g xs) ≡ length xs
  length-map g [] = refl
  length-map g (x ∷ xs) = ap suc (length-map g xs)

  -- The indices of a scan from `i` are at least `i`.
  scan_from_above :
      (j i : ℕ) (slots : List Ad) (live : List Bool)
      → j < i
      → keep (λ c. not (c.0 == j)) (scan_from i slots live) ≡ scan_from i slots live
  unfolding scan_from
  scan_from_above j i [] live h = refl
  scan_from_above j i (s ∷ slots) [] h = refl
  scan_from_above j i (s ∷ slots) (l ∷ live) h =
      ground (arith, scan_from_above j (i + 1) slots live)

  scan_from-clear :
      (i j : ℕ) (slots : List Ad) (live : List Bool)
      → scan_from i slots (clear live j) ≡ keep (λ c. not (c.0 == i + j)) (scan_from i slots live)
  unfolding scan_from clear
  scan_from-clear i j [] live = refl
  scan_from-clear i j (s ∷ slots) [] = refl
  scan_from-clear i zero (s ∷ slots) (l ∷ live) =
      ground (arith, scan_from_above (i + zero) (i + 1) slots live)
  scan_from-clear i (suc j) (s ∷ slots) (l ∷ live) =
      let e : i + 1 + j ≡ i + suc j = omega arith in
      ground (arith, rw e at (scan_from-clear (i + 1) j slots live))

  length-scan_from-clear :
      (i j : ℕ) (slots : List Ad) (live : List Bool)
      → length live ≡ length slots
      → flag live j ≡ true
      → suc (length (scan_from i slots (clear live j))) ≡ length (scan_from i slots live)
  unfolding scan_from clear flag
  length-scan_from-clear i j slots [] h e = cc
  length-scan_from-clear i j [] (l ∷ live) h e = absurd (omega arith)
  length-scan_from-clear i zero (s ∷ slots) (l ∷ live) h e = ground arith
  length-scan_from-clear i (suc j) (s ∷ slots) (l ∷ live) h e =
      ground (arith, length-scan_from-clear (i + 1) j slots live)

  all_live :
      (i : ℕ) (slots : List Ad) → length (scan_from i slots (map (λ s. true) slots)) ≡ length slots
  unfolding scan_from
  all_live i [] = refl
  all_live i (s ∷ slots) = ap suc (all_live (i + 1) slots)

  pub new_slot_view-IsValid :
      (is_pslot : Ad → Bool) (slots : List Ad) (claim_ids : Option (List (Text × Text)))
      → IsValid (new_slot_view is_pslot slots claim_ids)
  unfolding new_slot_view gather
  new_slot_view-IsValid is_pslot slots claim_ids = record {
    live_length = length-map (λ s. true) slots;
    pslot_length = length-map is_pslot slots;
    counted = sym (all_live 0 slots);
  }

  -- Consuming keeps the flags and the count of a view right, whatever the index.
  pub consume-IsValid : (sv : SlotView Ad) (i : ℕ) → IsValid sv → IsValid (consume sv i)
  unfolding consume gather
  consume-IsValid sv i v =
      ground
        (arith, length-clear sv.live i, length-scan_from-clear 0 i sv.slots sv.live v.live_length)

  -- After a slot is consumed, the view offers all that it offered but that slot, at the same scan
  -- indices; a partitionable slot stays.
  pub gather-consume :
      (sv : SlotView Ad) (i : ℕ)
      → gather (consume sv i) ≡ (
          if flag sv.live i && not (flag sv.pslot i)
          then keep (λ c. not (c.0 == i)) (gather sv)
          else gather sv)
  unfolding consume gather
  gather-consume sv i = ground (arith, scan_from-clear 0 i sv.slots sv.live)

-- ===== src/Matchmaker/Shard/Serial.antt =====
-- The sharded scan finds what the serial scan finds.
use native.Mathlib.Nat.{mod-lt, div-add-mod}
use mathlib.Core.List.{flatten}
use golang_collector.Base.{
  ℕ, zero, suc, ◌+◌, ◌-◌, ◌*◌, ◌/◌, ◌%◌, ◌≤◌, ◌<◌, ◌≡◌, refl, sym, ap, ◌∙◌, Bool, false, Option,
  none, some, List, [], ◌∷◌, ◌++◌, map, length, take, drop, take-append-drop, ltb, leb,
  if◌then◌else◌, arith, inl, inr, Bool-cases,
}
use golang_collector.Matchmaker.Floats.{Floats, Classads, IsOrdered}
use golang_collector.Matchmaker.Candidate.{Candidate, better_trans, better_weak}
use golang_collector.Matchmaker.Eval.{
  RejCounters, no_rejections, add, Config, MatchLimits, CandRef, eval_candidate,
}
use golang_collector.Matchmaker.Eval.Counters.{eval_candidate-add}
use golang_collector.Matchmaker.Eval.Gates.{eval_candidate-workers}
use golang_collector.Matchmaker.Shard.{
  choose, partition, scan_loop, scan_range, reduce, parallel_scan, Found,
}

length-drop : {A : Type 0} (n : ℕ) (xs : List A) → length (drop n xs) ≡ length xs - n
length-drop zero xs = omega arith
length-drop (suc n) [] = omega arith
length-drop (suc n) (x ∷ xs) = omega (arith, length-drop n xs)

length-zero : {A : Type 0} (xs : List A) → length xs ≡ 0 → xs ≡ []
length-zero [] h = refl
length-zero (x ∷ xs) h = absurd (omega arith)

-- The parts make up the whole, in order.
flatten-partition :
    {A : Type 0} (k w base extra : ℕ) (cs : List A)
    → extra ≤ w + k
    → length cs ≡ k * base + (extra - w)
    → flatten (partition k w base extra cs) ≡ cs
unfolding partition flatten
flatten-partition zero w base extra cs h e = sym (length-zero cs (omega arith))
flatten-partition (suc k) w base extra cs h e =
    let size = if ltb w extra then base + 1 else base in
    let rest =
      flatten-partition k (w + 1) base extra (drop size cs) (omega arith)
        (ground (arith, length-drop size cs)) in
    ap (◌++◌ (take size cs)) rest ∙ take-append-drop size cs

shares : (nw n : ℕ) → leb nw 1 ≡ false → (n % nw ≤ 0 + nw) × (n ≡ nw * (n / nw) + (n % nw - 0))
shares nw n h =
    let positive : 0 < nw = ground arith in
    (omega (arith, mod-lt n positive), omega (arith, div-add-mod n nw))

add_assoc : (a b c : RejCounters) → add (add a b) c ≡ add a (add b c)
add_assoc a b c = ground arith

add_zero : (a : RejCounters) → add a no_rejections ≡ a
add_zero a = ground arith

zero_add : (a : RejCounters) → add no_rejections a ≡ a
zero_add a = ground arith

module _ (f : Floats) (ord : IsOrdered f) {Ad : Type 0} where
  choose_assoc :
      (a b c : Option (Candidate f Ad)) → choose f (choose f a b) c ≡ choose f a (choose f b c)
  unfolding choose
  choose_assoc a b none = ground arith
  choose_assoc a none (some c) = ground arith
  choose_assoc none (some b) (some c) = ground arith
  choose_assoc (some a) (some b) (some c) =
      ground (arith, better_trans f ord c b a, better_weak f ord c b a)

  none-choose : (a : Option (Candidate f Ad)) → choose f none a ≡ a
  unfolding choose
  none-choose none = refl
  none-choose (some c) = refl

module _ (f : Floats) (ord : IsOrdered f) (ca : Classads f) (m : Config f ca)
    (limits : MatchLimits f ca) (match_conc : Bool) (job : ca.Ad) where
  -- The candidates so far, before those of a scan of their own.
  after :
      Option (Candidate f ca.Ad)
      → RejCounters
      → Found f ca m limits match_conc job
      → Found f ca m limits match_conc job
  after best rej (found, counts) = (choose f best found, add rej counts)

  after-after :
      (best found : Option (Candidate f ca.Ad)) (rej counts : RejCounters)
      (rest : Found f ca m limits match_conc job)
      → after (choose f best found) (add rej counts) rest ≡ after best rej (after found counts rest)
  unfolding after
  after-after best found rej counts (last, more) =
      ground (arith, choose_assoc f ord best found last, add_assoc rej counts more)

  after-none : (rest : Found f ca m limits match_conc job) → after none no_rejections rest ≡ rest
  unfolding after
  after-none (last, more) = ground (arith, none-choose f ord last, zero_add more)

  scan_range_cons :
      (c : CandRef f ca) (cs : List (CandRef f ca))
      → scan_range f ca m limits match_conc job (c ∷ cs)
        ≡ scan_loop f ca m limits match_conc job
            (eval_candidate f ca m job limits match_conc c no_rejections).0
            (eval_candidate f ca m job limits match_conc c no_rejections).1
            cs
  unfolding scan_range scan_loop
  scan_range_cons c cs =
      rw (none-choose f ord (eval_candidate f ca m job limits match_conc c no_rejections).0)

  scan_loop-after :
      (best : Option (Candidate f ca.Ad)) (rej : RejCounters) (cs : List (CandRef f ca))
      → scan_loop f ca m limits match_conc job best rej cs
        ≡ after best rej (scan_range f ca m limits match_conc job cs)
  unfolding scan_loop
  scan_loop-after best rej [] = unfold scan_range after choose in ground (arith, add_zero rej)
  scan_loop-after best rej (c ∷ cs) =
      let (found, counts) = eval_candidate f ca m job limits match_conc c no_rejections in
      let rest = scan_range f ca m limits match_conc job cs in
      ap
        (λ (r : Found f ca m limits match_conc job).
          scan_loop f ca m limits match_conc job (choose f best r.0) r.1 cs)
        (eval_candidate-add f ca m job limits match_conc c rej)
      ∙ scan_loop-after (choose f best found) (add rej counts) cs
      ∙ after-after best found rej counts rest
      ∙ ap (after best rej) (sym (scan_loop-after found counts cs) ∙ sym (scan_range_cons c cs))

  -- One more candidate in front of a range.
  pub scan_range-cons :
      (c : CandRef f ca) (cs : List (CandRef f ca))
      → (scan_range f ca m limits match_conc job (c ∷ cs)).0
        ≡ choose f
            (eval_candidate f ca m job limits match_conc c no_rejections).0
            (scan_range f ca m limits match_conc job cs).0
  unfolding after
  scan_range-cons c cs =
      let (found, counts) = eval_candidate f ca m job limits match_conc c no_rejections in
      ap (λ (r : Found f ca m limits match_conc job). r.0)
        (scan_range_cons c cs ∙ scan_loop-after found counts cs)

  scan_loop-append :
      (cs ds : List (CandRef f ca)) (best : Option (Candidate f ca.Ad)) (rej : RejCounters)
      → scan_loop f ca m limits match_conc job best rej (cs ++ ds)
        ≡ scan_loop f ca m limits match_conc job
            (scan_loop f ca m limits match_conc job best rej cs).0
            (scan_loop f ca m limits match_conc job best rej cs).1
            ds
  unfolding scan_loop
  scan_loop-append [] ds best rej = refl
  scan_loop-append (c ∷ cs) ds best rej =
      let (found, counts) = eval_candidate f ca m job limits match_conc c rej in
      scan_loop-append cs ds (choose f best found) counts

  reduce-scan_loop :
      (best : Option (Candidate f ca.Ad)) (rej : RejCounters) (parts : List (List (CandRef f ca)))
      → reduce f ca m limits match_conc job best rej
          (map (scan_range f ca m limits match_conc job) parts)
        ≡ scan_loop f ca m limits match_conc job best rej (flatten parts)
  unfolding reduce flatten scan_loop after
  reduce-scan_loop best rej [] = refl
  reduce-scan_loop best rej (p ∷ parts) =
      let (found, counts) = scan_range f ca m limits match_conc job p in
      reduce-scan_loop (choose f best found) (add rej counts) parts
      ∙ ap
          (λ (r : Found f ca m limits match_conc job).
            scan_loop f ca m limits match_conc job r.0 r.1 (flatten parts))
          (sym (scan_loop-after best rej p))
      ∙ sym (scan_loop-append p (flatten parts) best rej)

  -- However many workers share the scan, the winner and the counters of rejections are those of one
  -- worker that scans every candidate in order, as long as no rank is NaN.
  pub parallel_scan-scan_range :
      (cands : List (CandRef f ca))
      → parallel_scan f ca m limits match_conc job cands
        ≡ scan_range f ca m limits match_conc job cands
  unfolding parallel_scan
  parallel_scan-scan_range cands =
      let n = length cands in
      let nw = if ltb n m.workers then n else m.workers in
      elim (Bool-cases (leb nw 1)) [
        | inl e ↦ rw e
        | inr e ↦ rw e (
            reduce-scan_loop none no_rejections (partition nw 0 (n / nw) (n % nw) cands)
            ∙ ap (scan_loop f ca m limits match_conc job none no_rejections) (
                flatten-partition nw 0 (n / nw) (n % nw) cands (shares nw n e).0 (shares nw n e).1))
      ]

module _ (f : Floats) (ca : Classads f) (m : Config f ca) (k : ℕ) (limits : MatchLimits f ca)
    (match_conc : Bool) (job : ca.Ad) where
  scan_loop-workers :
      (cands : List (CandRef f ca)) (best : Option (Candidate f ca.Ad)) (rej : RejCounters)
      → scan_loop f ca (record m { workers = k }) limits match_conc job best rej cands
        ≡ scan_loop f ca m limits match_conc job best rej cands
  unfolding scan_loop
  scan_loop-workers [] best rej = refl
  scan_loop-workers (c ∷ cs) best rej =
      let (found, counts) = eval_candidate f ca m job limits match_conc c rej in
      ap
        (λ (r : Found f ca m limits match_conc job).
          scan_loop f ca (record m { workers = k }) limits match_conc job (choose f best r.0) r.1
            cs)
        (eval_candidate-workers f ca m k job limits match_conc c rej)
      ∙ scan_loop-workers cs (choose f best found) counts

  -- Another number of workers finds the same.
  pub parallel_scan-workers :
      IsOrdered f
      → (cands : List (CandRef f ca))
      → parallel_scan f ca (record m { workers = k }) limits match_conc job cands
        ≡ parallel_scan f ca m limits match_conc job cands
  unfolding scan_range
  parallel_scan-workers ord cands =
      parallel_scan-scan_range f ord ca (record m { workers = k }) limits match_conc job cands
      ∙ scan_loop-workers cands none no_rejections
      ∙ sym (parallel_scan-scan_range f ord ca m limits match_conc job cands)

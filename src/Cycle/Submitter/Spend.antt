-- ===== src/Cycle/Submitter/Spend.antt =====
-- negotiator/cycle/spin.go: what the negotiation with one submitter charges.
use golang_collector.Base.Text.{Text}
use golang_collector.Matchmaker.Eval.{MatchLimits}
use golang_collector.Base.{
  ℕ, suc, ◌≡◌, ◌⊎◌, ◌++◌, Bool, true, not, ◌&&◌, ◌||◌, List, [], ◌∷◌, if◌then◌else◌,
}
use golang_collector.Matchmaker.Floats.{Floats, Classads}
use golang_collector.Matchmaker.Candidate.{Candidate}
use golang_collector.Cycle.Requests.{Request}
use golang_collector.Cycle.Submitter.{MmResult, Outside, Terms, Round, Turn, stop, go}

module _ (f : Floats) (ca : Classads f) where
  -- The four running totals, and the slots whose matches were delivered, in order.
  pub record Totals : Type 0 where
    pub used : f.R
    pub used_unclaimed : f.R
    pub pie : f.R
    pub matched_so_far : ℕ
    pub delivered : List ca.Ad

  module _ {W : Type 0} (out : Outside f ca W) (t : Terms f ca) where
    -- A log, kept in the state, of the slots whose matches were delivered: the slot of each match that
    -- is sent without an error is put at its end, and nothing else changes it.
    pub record IsLog (log : W → List ca.Ad) : Type 0 where
      pub timing : (w : W) → log (out.before_deadline w).1 ≡ log w
      pub fetching : (w : W) → log (out.fetch w).1 ≡ log w
      pub matching :
          (q : Request ca.Ad) (l : MatchLimits f ca) (w : W) → log (out.match q l w).1 ≡ log w
      pub rejecting :
          (q : Request ca.Ad) (why : Text) (w : W) → log (out.send_reject q why w).1 ≡ log w
      pub sending :
          (q : Request ca.Ad) (slot : ca.Ad) (w : W)
          → log (out.send_match q slot w).1
            ≡ (if (out.send_match q slot w).0 then log w ++ slot ∷ [] else log w)
      pub settling : (q : Request ca.Ad) (slot : ca.Ad) (w : W) → log (out.settle q slot w) ≡ log w
      pub consuming : (i : ℕ) (w : W) → log (out.consume i w) ≡ log w
      pub ending : (w : W) → log (out.end_session w) ≡ log w

    module _ (log : W → List ca.Ad) (logged : IsLog log) where
      unfoldable pub totals : Round f ca W → Totals
      totals r = record {
        used = r.limit_used;
        used_unclaimed = r.limit_used_unclaimed;
        pie = r.pie_left;
        matched_so_far = r.matches;
        delivered = log r.world;
      }

      -- A match on a slot: its weight is added to what is used, also as unclaimed if the slot is, and
      -- taken from the pie.
      unfoldable pub charge : ca.Ad → Totals → Totals
      charge slot a = record {
        used = f.add a.used (out.slot_weight slot);
        used_unclaimed =
            if out.is_unclaimed slot
            then f.add a.used_unclaimed (out.slot_weight slot)
            else a.used_unclaimed;
        pie = out.minus a.pie (out.slot_weight slot);
        matched_so_far = suc a.matched_so_far;
        delivered = a.delivered ++ slot ∷ [];
      }

      -- Another match may be made: the ceiling is not reached, nor is the limit, unless it is ignored.
      unfoldable pub permits : Totals → Bool
      permits a =
          not (f.le t.ceiling_headroom a.used)
          && (t.ignore_submitter_limit || not (f.le t.submitter_limit a.used))

      -- The totals go from `a` to `b` by matches on the slots, in order, each of them permitted.
      unfoldable pub Spent : List ca.Ad → Totals → Totals → Type 0
      Spent [] a b = a ≡ b
      Spent (slot ∷ slots) a b = (permits a ≡ true) × Spent slots (charge slot a) b

      abbrev last : Turn f ca W → Round f ca W
      last (stop result r) = r
      last (go r) = r

      -- Nothing is charged, or one match is.
      abbrev AtMostOne : Totals → Turn f ca W → Type 0
      AtMostOne a m = (totals (last m) ≡ a) ⊎ ((slot : ca.Ad) × (totals (last m) ≡ charge slot a))

      abbrev Charged : Totals → Turn f ca W → Type 0
      Charged a m =
          (totals (last m) ≡ a)
          ⊎ ((slot : ca.Ad) × (totals (last m) ≡ charge slot a) × (permits a ≡ true))

      abbrev Outlay : Totals → MmResult × Round f ca W → Type 0
      Outlay a x = (slots : List ca.Ad) × Spent slots a (totals x.1)

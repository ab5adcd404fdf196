-- ===== src/Cycle/Submitter/Returns.antt =====
-- negotiator/cycle/spin.go: the negotiation with one submitter comes to an end.
use golang_collector.Base.{
  ℕ, zero, suc, ◌+◌, ◌-◌, ◌<◌, ◌≤◌, ◌≡◌, inl, inr, refl, Bool, not, Option, none, some,
  both_branches, Bool-cases, Option-cases, arith,
}
use golang_collector.Base.Text.{Text}
use golang_collector.Base.Int.{pos_part}
use golang_collector.Matchmaker.Floats.{Floats, Classads}
use golang_collector.Matchmaker.Candidate.{Candidate}
use golang_collector.Matchmaker.Eval.{MatchLimits}
use golang_collector.Matchmaker.Match.{Outcome, RejectInfo, matched, rejected, failed}
use golang_collector.Cycle.Requests.{Request, Next, broken, out_of_requests, request}
use golang_collector.Cycle.Requests.Found.{load, budget, Bounds, next_request-returns}
use golang_collector.Cycle.Submitter.{
  MmResult, mm_resume, mm_error, Outside, Terms, Round, Turn, stop, go, close, refuse, accept,
  offer, current, on_next, on_outcome, limits_of, turn, proceed, reason_of, halts, negotiate,
}

module _ (f : Floats) (ca : Classads f) where
  module _ {W : Type 0} (out : Outside f ca W) (t : Terms f ca) where
    -- What is documented of the rest: the schedd sends a list of requests that ends, and only a fetch
    -- takes requests from it.
    pub record IsFinite (pending : W → ℕ) : Type 0 where
      pub fetching : Bounds out.fetch out.admits pending
      pub timing : (w : W) → pending (out.before_deadline w).1 ≤ pending w
      pub matching :
          (q : Request ca.Ad) (l : MatchLimits f ca) (w : W)
          → pending (out.match q l w).1 ≤ pending w
      pub rejecting :
          (q : Request ca.Ad) (why : Text) (w : W) → pending (out.send_reject q why w).1 ≤ pending w
      pub sending :
          (q : Request ca.Ad) (slot : ca.Ad) (w : W)
          → pending (out.send_match q slot w).1 ≤ pending w
      pub settling :
          (q : Request ca.Ad) (slot : ca.Ad) (w : W) → pending (out.settle q slot w) ≤ pending w
      pub consuming : (i : ℕ) (w : W) → pending (out.consume i w) ≤ pending w

    -- The offers that the current request still takes.
    abbrev remaining : Option (Request ca.Ad) → ℕ → ℕ
    remaining none offers = 0
    remaining (some q) offers = pos_part q.count - offers

    module _ (pending : W → ℕ) where
      -- The offers still to be made, of the current request, the queue and what the schedd holds.
      unfoldable pub potential : Round f ca W → ℕ
      potential r = remaining r.cur r.offers + load r.sub.queue + pending r.world

      -- A turn that goes on leaves less.
      unfoldable pub Leaves : ℕ → Turn f ca W → Type 0
      Leaves b (stop result r) = Unit
      Leaves b (go r) = potential r < b

      Leaves-stop : (b : ℕ) (result : MmResult) (r : Round f ca W) → Leaves b (stop result r)
      unfolding Leaves
      Leaves-stop b result r = tt

      Leaves-go : (b : ℕ) (r : Round f ca W) → potential r < b → Leaves b (go r)
      unfolding Leaves
      Leaves-go b r h = h

      Leaves-mono : (a b : ℕ) (m : Turn f ca W) → a ≤ b → Leaves a m → Leaves b m
      unfolding Leaves
      Leaves-mono a b (stop result r) h k = tt
      Leaves-mono a b (go r) h k = omega arith

      module _ (fin : IsFinite pending) where
        refuse-Leaves :
            (q : Request ca.Ad) (info : RejectInfo) (r : Round f ca W) (b : ℕ)
            → load r.sub.queue + pending r.world < b
            → Leaves b (refuse f ca out t q info r)
        unfolding refuse potential
        refuse-Leaves q info r b h =
            let sent = out.send_reject q (reason_of f ca out t info) r.world in
            both_branches (Leaves b) (not sent.0) _ _ (Leaves-stop b _ _) (
              both_branches (Leaves b) _ _ _ (Leaves-stop b _ _) (
                Leaves-go b _
                  (omega (arith, h, fin.rejecting q (reason_of f ca out t info) r.world))))

        accept-Leaves :
            (q : Request ca.Ad) (cand : Candidate f ca.Ad) (r : Round f ca W) (b : ℕ)
            → r.cur ≡ some q
            → pos_part q.count - suc r.offers + load r.sub.queue + pending r.world < b
            → Leaves b (accept f ca out t q cand r)
        unfolding accept potential
        accept-Leaves q cand r b e h =
            let sent = out.send_match q cand.slot r.world in
            both_branches (Leaves b) (not sent.0) _ _ (Leaves-stop b _ _) (
              Leaves-go b _ (
                rw e (
                  omega (
                    arith,
                    h,
                    fin.sending q cand.slot r.world,
                    fin.settling q cand.slot sent.1,
                    fin.consuming cand.scan_index (out.settle q cand.slot sent.1),
                  ))))

        on_outcome-Leaves :
            (q : Request ca.Ad) (o : Outcome f ca) (r : Round f ca W) (b : ℕ)
            → r.cur ≡ some q
            → pos_part q.count - suc r.offers + load r.sub.queue + pending r.world < b
            → Leaves b (on_outcome f ca out t q o r)
        on_outcome-Leaves q (failed why) r b e h =
            both_branches (Leaves b) _ _ _ (Leaves-stop b _ _) (Leaves-stop b _ _)
        on_outcome-Leaves q (rejected info) r b e h = refuse-Leaves q info r b (omega arith)
        on_outcome-Leaves q (matched cand) r b e h = accept-Leaves q cand r b e h

        offer-Leaves :
            (only : Bool) (q : Request ca.Ad) (r : Round f ca W) (b : ℕ)
            → pos_part q.count - suc r.offers + load r.sub.queue + pending r.world < b
            → Leaves b (offer f ca out t only q r)
        unfolding offer
        offer-Leaves only q r b h =
            let enriched = record q { ad = out.enrich r.world q.ad } in
            let limits = limits_of f ca out t only r in
            let found = out.match enriched limits r.world in
            on_outcome-Leaves enriched found.0
              (record r {
                world = found.1;
                cur = some enriched;
                jobs_considered = suc r.jobs_considered;
              })
              b refl (omega (arith, fin.matching enriched limits r.world))

        current-potential :
            (q : Request ca.Ad) (r : Round f ca W)
            → current f ca out t r ≡ some q
            → pos_part q.count - suc r.offers + load r.sub.queue + pending r.world < potential r
        unfolding current potential
        current-potential q r h = ground arith

        on_next-Leaves :
            (over : Bool) (n : Next ca.Ad) (r : Round f ca W) (b : ℕ)
            → budget out.fetch out.admits n + load r.sub.queue + pending r.world ≤ b
            → r.offers ≡ 0
            → Leaves b (on_next f ca out t over r n)
        on_next-Leaves over broken r b h z = Leaves-stop b _ _
        on_next-Leaves over out_of_requests r b h z = Leaves-stop b _ _
        on_next-Leaves over (request q) r b h z = offer-Leaves over q r b (omega arith)

        potential-queue : (r : Round f ca W) → load r.sub.queue + pending r.world ≤ potential r
        unfolding potential
        potential-queue r = omega arith

        proceed-Leaves :
            (fuel : ℕ) (over : Bool) (r : Round f ca W)
            → pending r.world < fuel
            → (m : Turn f ca W) × (proceed f ca out t fuel over r ≡ some m) × Leaves (potential r) m
        unfolding proceed
        proceed-Leaves fuel over r h = elim (Option-cases (current f ca out t r)) [
          | inr (q, e) ↦ (
            offer f ca out t over q r,
            rw (e, proceed) refl,
            offer-Leaves over q r (potential r) (current-potential q r e),
          )
          | inl e ↦
              let (n, sub, w, g, l) =
                next_request-returns out.fetch out.admits pending fin.fetching r.rejected_acs fuel
                  r.sub r.world h in
              let s = record r { world = w; sub = sub; cur = none; offers = 0 } in
              (
                on_next f ca out t over s n,
                rw (e, g, proceed) refl,
                on_next-Leaves over n s (potential r) (omega (arith, l, potential-queue r)) refl,
              )
        ]

        timed-potential :
            (r : Round f ca W)
            → potential (record r { world = (out.before_deadline r.world).1 }) ≤ potential r
        unfolding potential
        timed-potential r = omega (arith, fin.timing r.world)

        -- A turn has a result, with more fuel than offers are left, and leaves less if it goes on.
        turn-Leaves :
            (fuel : ℕ) (r : Round f ca W)
            → potential r < fuel
            → (m : Turn f ca W) × (turn f ca out t fuel r ≡ some m) × Leaves (potential r) m
        unfolding turn
        turn-Leaves fuel r h =
            let timed = out.before_deadline r.world in
            let s = record r { world = timed.1 } in
            elim (Bool-cases (out.session_broken r.world)) [
              | inl b ↦ (stop mm_error r, rw b refl, Leaves-stop (potential r) mm_error r)
              | inr b ↦ elim (Bool-cases (halts f ca out t timed.0 s)) [
                | inl g ↦ (
                  stop mm_resume (close f ca out t s),
                  rw (b, g) refl,
                  Leaves-stop (potential r) mm_resume (close f ca out t s),
                )
                | inr g ↦
                    let (m, e, l) =
                      proceed-Leaves fuel (f.le t.submitter_limit s.limit_used) s
                        (omega (arith, h, timed-potential r, potential-queue s)) in
                    (
                      m,
                      rw (b, g) e,
                      Leaves-mono (potential s) (potential r) m (timed-potential r) l,
                    )
              ]
            ]

        abbrev pub Returns : ℕ → Round f ca W → Type 0
        Returns fuel r =
            (result : MmResult) × (l : Round f ca W) × (negotiate f ca out t fuel r
              ≡ some (result, l))

        turn-Returns :
            (fuel : ℕ) (r : Round f ca W) (m : Turn f ca W)
            → turn f ca out t fuel r ≡ some m
            → Leaves (potential r) m
            → ((s : Round f ca W) → potential s < potential r → Returns fuel s)
            → Returns (suc fuel) r
        unfolding Leaves negotiate
        turn-Returns fuel r (stop result l) e h rest = (result, l, rw (e, negotiate) refl)
        turn-Returns fuel r (go s) e h rest =
            let (result, l, p) = rest s h in (result, l, rw (e, negotiate) p)

        -- The negotiation with a submitter ends with a result, where the fuel is above the offers that
        -- are left by at least two.
        pub negotiate-Returns :
            (fuel : ℕ) (r : Round f ca W) → suc (potential r) < fuel → Returns fuel r
        negotiate-Returns zero r h = absurd (omega (arith, h))
        negotiate-Returns (suc fuel) r h =
            let (m, e, l) = turn-Leaves fuel r (omega (arith, h)) in
            turn-Returns fuel r m e l λ s less. negotiate-Returns fuel s (omega (arith, h, less))

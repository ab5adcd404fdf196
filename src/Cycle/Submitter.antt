-- ===== src/Cycle/Submitter.antt =====
-- negotiator/cycle/spin.go: the negotiation with one submitter, request by request. The matchmaker, the
-- session, the clock and the accountant are given by their operations.
pub mod Spend
pub mod Logged
pub mod Returns
pub mod Tests
use golang_collector.Base.{
  ℕ, zero, suc, ◌+◌, Bool, true, false, not, ◌&&◌, ◌||◌, Option, none, some, List, [], ◌∷◌, ltb,
  if◌then◌else◌,
}
use golang_collector.Base.Int.{ℤ, pos, ltb_int}
use golang_collector.Base.Text.{Text, codes, is_empty}
use golang_collector.Matchmaker.Floats.{Floats, Classads}
use golang_collector.Matchmaker.Limits.{ConcurrencyLimits}
use golang_collector.Matchmaker.Candidate.{Candidate}
use golang_collector.Matchmaker.Eval.{MatchLimits}
use golang_collector.Matchmaker.Match.{Outcome, RejectInfo, matched, rejected, failed}
use golang_collector.Cycle.Requests.{
  Request, Sub, Next, broken, out_of_requests, request, next_request,
}

-- mmResult
pub data MmResult : Type 0 where
  mm_resume mm_done mm_error : MmResult

module _ (f : Floats) (ca : Classads f) where
  -- What the loop calls: `W` is the state of the session, the clock, the slots and the accountant.
  pub record Outside (W : Type 0) : Type 0 where
    pub minus : f.R → f.R → f.R
    pub session_broken : W → Bool
    pub before_deadline : W → Bool × W
    pub deadline_over : W → Bool
    pub fetch : W → Option (List (Request ca.Ad)) × W
    pub admits : ca.Ad → Bool
    pub enrich : W → ca.Ad → ca.Ad
    pub concurrency : W → ConcurrencyLimits f
    pub match : Request ca.Ad → MatchLimits f ca → W → Outcome f ca × W
    pub send_reject : Request ca.Ad → Text → W → Bool × W
    -- The match with its claim is sent; the startd is informed, the match is accounted and its
    -- concurrency limits are charged; the slot is consumed.
    pub send_match : Request ca.Ad → ca.Ad → W → Bool × W
    pub settle : Request ca.Ad → ca.Ad → W → W
    pub consume : ℕ → W → W
    pub end_session : W → W
    pub slot_weight : ca.Ad → f.R
    pub is_unclaimed : ca.Ad → Bool

  -- The parameters of `negotiateSubmitter`, and the configuration that it reads.
  pub record Terms : Type 0 where
    pub submitter_name : Text
    pub submitter_limit : f.R
    pub submitter_limit_unclaimed : f.R
    pub ceiling_headroom : f.R
    pub ignore_submitter_limit : Bool
    pub disable_slot_weights : Bool
    pub consider_preemption : Bool

  -- The variables of the loop, with the fields of the submitter, the spin and the statistics that it
  -- writes.
  pub record Round (W : Type 0) : Type 0 where
    pub world : W
    pub sub : Sub ca.Ad
    pub rejected_acs : List ℤ
    pub limit_used : f.R
    pub limit_used_unclaimed : f.R
    pub limited : Bool
    pub cur : Option (Request ca.Ad)
    pub offers : ℕ
    pub pie_left : f.R
    pub jobs_considered : ℕ
    pub rejections : ℕ
    pub matches : ℕ

  -- One turn of the loop ends it, or goes on.
  pub data Turn (W : Type 0) : Type 0 where
    stop : MmResult → Round W → Turn W
    go : Round W → Turn W

  module _ {W : Type 0} (out : Outside W) (t : Terms) where
    -- `endRound`
    unfoldable pub close : Round W → Round W
    close r =
        if r.sub.is_open
        then record r {
          world = out.end_session r.world;
          sub = record { queue = []; exhausted = false; is_open = false };
        }
        else r

    unfoldable pub limits_of : Bool → Round W → MatchLimits f ca
    limits_of only_for_startd_rank r = record {
      submitter_limit = t.submitter_limit;
      limit_used = r.limit_used;
      submitter_limit_unclaimed = t.submitter_limit_unclaimed;
      limit_used_unclaimed = r.limit_used_unclaimed;
      only_for_startd_rank = only_for_startd_rank;
      submitter_name = t.submitter_name;
      concurrency = some (out.concurrency r.world);
    }

    abbrev pub reason_of : RejectInfo → Text
    reason_of info = if is_empty info.reason then codes "no match found" else info.reason

    abbrev pub note_rejected : Request ca.Ad → List ℤ → List ℤ
    note_rejected q acs = if ltb_int q.auto_cluster (pos 0) then acs else q.auto_cluster ∷ acs

    -- A request without a match: it is rejected, and with it its autocluster.
    unfoldable pub refuse : Request ca.Ad → RejectInfo → Round W → Turn W
    unfolding close
    refuse q info r =
        let sent = out.send_reject q (reason_of info) r.world in
        let told = record r { world = sent.1; rejections = suc r.rejections } in
        let limited = r.limited || ltb 0 info.for_submitter_limit in
        if not sent.0
        then stop mm_error told
        else if ltb 0 info.for_submitter_limit
            && t.disable_slot_weights
            && not t.consider_preemption
        then stop mm_resume (close (record told { limited = limited }))
        else go (record told {
          limited = limited;
          rejected_acs = note_rejected q r.rejected_acs;
          cur = none;
        })

    -- A match: it is delivered and accounted, and its cost is charged.
    unfoldable pub accept : Request ca.Ad → Candidate f ca.Ad → Round W → Turn W
    accept q cand r =
        let cost = out.slot_weight cand.slot in
        let sent = out.send_match q cand.slot r.world in
        if not sent.0
        then stop mm_error (record r { world = sent.1 })
        else go (record r {
          world = out.consume cand.scan_index (out.settle q cand.slot sent.1);
          matches = suc r.matches;
          limit_used = f.add r.limit_used cost;
          limit_used_unclaimed =
              if out.is_unclaimed cand.slot
              then f.add r.limit_used_unclaimed cost
              else r.limit_used_unclaimed;
          pie_left = out.minus r.pie_left cost;
          offers = suc r.offers;
        })

    abbrev pub on_outcome : Request ca.Ad → Outcome f ca → Round W → Turn W
    on_outcome q (failed why) r =
        if out.deadline_over r.world then stop mm_resume (close r) else stop mm_error r
    on_outcome q (rejected info) r = refuse q info r
    on_outcome q (matched cand) r = accept q cand r

    -- A request is offered to the matchmaker, in the context of its submitter.
    unfoldable pub offer : Bool → Request ca.Ad → Round W → Turn W
    unfolding refuse accept limits_of
    offer only_for_startd_rank q r =
        let enriched = record q { ad = out.enrich r.world q.ad } in
        let found = out.match enriched (limits_of only_for_startd_rank r) r.world in
        on_outcome enriched found.0 (record r {
          world = found.1;
          cur = some enriched;
          jobs_considered = suc r.jobs_considered;
        })

    -- The request that is still to be offered.
    unfoldable pub current : Round W → Option (Request ca.Ad)
    current r = elim r.cur [
      | none ↦ none
      | some q ↦ if ltb_int (pos r.offers) q.count then some q else none
    ]

    abbrev on_next : Bool → Round W → Next ca.Ad → Turn W
    on_next only r broken = stop mm_error r
    on_next only r out_of_requests =
        stop (if f.le t.submitter_limit r.limit_used || r.limited then mm_resume else mm_done)
          (close r)
    on_next only r (request q) = offer only q r

    -- The rest of a turn, past the limits; `none` is out of fuel.
    unfoldable pub proceed : ℕ → Bool → Round W → Option (Turn W)
    unfolding offer next_request
    proceed fuel over r = elim (current r) [
      | some q ↦ some (offer over q r)
      | none ↦ elim (next_request out.fetch out.admits r.rejected_acs fuel r.sub r.world) [
        | none ↦ none
        | some (n, (sub, w)) ↦
            some (on_next over (record r { world = w; sub = sub; cur = none; offers = 0 }) n)
      ]
    ]

    -- The deadline is over, or a limit is reached.
    unfoldable pub halts : Bool → Round W → Bool
    halts in_time r =
        not in_time
        || f.le t.submitter_limit r.limit_used && not t.ignore_submitter_limit
        || f.le t.ceiling_headroom r.limit_used

    -- One turn of the loop.
    unfoldable pub turn : ℕ → Round W → Option (Turn W)
    unfolding proceed halts
    turn fuel r0 =
        let timed = out.before_deadline r0.world in
        let r = record r0 { world = timed.1 } in
        if out.session_broken r0.world
        then some (stop mm_error r0)
        else if halts timed.0 r
        then some (stop mm_resume (close r))
        else proceed fuel (f.le t.submitter_limit r.limit_used) r

    -- The loop.
    unfoldable pub negotiate : ℕ → Round W → Option (MmResult × Round W)
    unfolding turn
    negotiate zero r = none
    negotiate (suc fuel) r = elim (turn fuel r) [
      | none ↦ none
      | some next ↦ elim next [
        | stop result last ↦ some (result, last)
        | go after ↦ negotiate fuel after
      ]
    ]

    -- `negotiateSubmitter`, from a round at its start.
    unfoldable pub negotiate_submitter : ℕ → Round W → Option (MmResult × Round W)
    unfolding negotiate
    negotiate_submitter fuel r =
        let rest = negotiate fuel r in
        if out.session_broken r.world || not r.sub.is_open then some (mm_error, r) else rest

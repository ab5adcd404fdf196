-- ===== src/Cycle/Submitter/Tests.antt =====
-- Runs of the negotiation with one submitter, over natural numbers as weights: the schedd's batches of
-- requests and the number of free slots are the whole state.
use golang_collector.Base.{
  ℕ, zero, suc, ◌+◌, ◌-◌, ◌≤◌, ◌≡◌, refl, true, false, Option, none, some, List, [], ◌∷◌, arith,
}
use golang_collector.Base.Int.{pos}
use golang_collector.Base.Text.{codes}
use golang_collector.Matchmaker.Match.{Outcome, matched, rejected}
use golang_collector.Matchmaker.Match.Tests.{naturals, ranks}
use golang_collector.Cycle.Requests.{Request, is_rejected, next_request}
use golang_collector.Cycle.Requests.Found.{load, next_request-admitted, Bounds}
use golang_collector.Cycle.Submitter.{Outside, Terms, Round}
use golang_collector.Cycle.Submitter.Logged.{with_log}
use golang_collector.Cycle.Submitter.Returns.{IsFinite, Returns, potential, negotiate-Returns}

abbrev Batches : Type 0
Batches = List (List (Request ℕ))

abbrev next_batch : Batches × ℕ → Option (List (Request ℕ)) × (Batches × ℕ)
next_batch ([], free) = (some [], ([], free))
next_batch (batch ∷ rest, free) = (some batch, (rest, free))

abbrev first_free : Batches × ℕ → Outcome naturals ranks × (Batches × ℕ)
first_free (rest, zero) = (
  rejected (record {
    reason = [];
    for_submitter_limit = 0;
    for_concurrency_lim = 0;
    for_preemption_policy = 0;
    for_preemption_rank = 0;
  }),
  (rest, zero),
)
first_free (rest, suc free) = (
  matched (record {
    slot = 1;
    pre_job_rank = 0;
    rank = 0;
    post_job_rank = 0;
    preempt_tier = 2;
    preempt_rank = 0;
    scan_index = free;
  }),
  (rest, suc free),
)

abbrev outside : Outside naturals ranks (Batches × ℕ)
outside = record {
  minus = ◌-◌;
  session_broken = λ w. false;
  before_deadline = λ w. (true, w);
  deadline_over = λ w. false;
  fetch = next_batch;
  admits = λ ad. true;
  enrich = λ w ad. ad;
  concurrency = λ w. record { usage = λ name. 0; max = λ name. 1 };
  match = λ q l w. first_free w;
  send_reject = λ q why w. (true, w);
  send_match = λ q slot w. (true, w);
  settle = λ q slot w. w;
  consume = λ i w. (w.0, w.1 - 1);
  end_session = λ w. w;
  slot_weight = λ slot. slot;
  is_unclaimed = λ slot. true;
}

abbrev terms : Terms naturals ranks
terms = record {
  submitter_name = codes "user@pool";
  submitter_limit = 10;
  submitter_limit_unclaimed = 10;
  ceiling_headroom = 20;
  ignore_submitter_limit = false;
  disable_slot_weights = false;
  consider_preemption = false;
}

abbrev job : Request ℕ
job = record { ad = 7; auto_cluster = pos 3; count = pos 2 }

-- Two requests of two jobs each, and three slots.
abbrev start : Round naturals ranks (Batches × ℕ)
start = record {
  world = (((job ∷ job ∷ []) ∷ []), 3);
  sub = record { queue = []; exhausted = false; is_open = true };
  rejected_acs = [];
  limit_used = 0;
  limit_used_unclaimed = 0;
  limited = false;
  cur = none;
  offers = 0;
  pie_left = 12;
  jobs_considered = 0;
  rejections = 0;
  matches = 0;
}

abbrev pending_in : Batches × ℕ → ℕ
pending_in ([], free) = 0
pending_in (batch ∷ rest, free) = load batch + pending_in (rest, free)

abbrev logging : Outside naturals ranks ((Batches × ℕ) × List ℕ)
logging = with_log naturals ranks outside

abbrev logged_start : Round naturals ranks ((Batches × ℕ) × List ℕ)
logged_start = record {
  world = ((((job ∷ job ∷ []) ∷ []), 3), []);
  sub = record { queue = []; exhausted = false; is_open = true };
  rejected_acs = [];
  limit_used = 0;
  limit_used_unclaimed = 0;
  limited = false;
  cur = none;
  offers = 0;
  pie_left = 12;
  jobs_considered = 0;
  rejections = 0;
  matches = 0;
}

abbrev finish : Round naturals ranks ((Batches × ℕ) × List ℕ)
finish = record {
  world = (([], 0), 1 ∷ 1 ∷ 1 ∷ []);
  sub = record { queue = []; exhausted = false; is_open = false };
  rejected_acs = pos 3 ∷ [];
  limit_used = 3;
  limit_used_unclaimed = 3;
  limited = false;
  cur = none;
  offers = 0;
  pie_left = 9;
  jobs_considered = 4;
  rejections = 1;
  matches = 3;
}

fetching-Bounds : Bounds next_batch outside.admits pending_in
unfolding Bounds
fetching-Bounds ([], free) = (λ h. omega arith, λ rs h. ground arith)
fetching-Bounds (batch ∷ rest, free) = (λ h. ground arith, λ rs h. ground arith)

consuming-pending : (w : Batches × ℕ) → pending_in (w.0, w.1 - 1) ≤ pending_in w
consuming-pending ([], free) = omega arith
consuming-pending (batch ∷ rest, free) = omega (arith, consuming-pending (rest, free))

matching-pending : (w : Batches × ℕ) → pending_in (first_free w).1 ≤ pending_in w
matching-pending (rest, zero) = omega arith
matching-pending (rest, suc free) = omega arith

outside-IsFinite : IsFinite naturals ranks outside terms pending_in
outside-IsFinite = record {
  fetching = fetching-Bounds;
  timing = λ w. omega arith;
  matching = λ q l w. matching-pending w;
  rejecting = λ q why w. omega arith;
  sending = λ q slot w. omega arith;
  settling = λ q slot w. omega arith;
  consuming = λ i w. consuming-pending w;
}

negotiate-Returns_example :
    Returns naturals ranks outside terms pending_in outside-IsFinite 11 start
unfolding potential
negotiate-Returns_example =
    negotiate-Returns naturals ranks outside terms pending_in outside-IsFinite 11 start
      (omega arith)

next_request-admitted_example :
    (is_rejected (pos 3 ∷ []) (record job { auto_cluster = pos 4 }) ≡ false) × (true ≡ true)
unfolding next_request
next_request-admitted_example =
    next_request-admitted next_batch outside.admits (pos 3 ∷ []) 1
      (record {
        queue = job ∷ record job { auto_cluster = pos 4 } ∷ [];
        exhausted = true;
        is_open = true;
      })
      (record { queue = []; exhausted = true; is_open = true }) ([], 0) ([], 0)
      (record job { auto_cluster = pos 4 }) refl

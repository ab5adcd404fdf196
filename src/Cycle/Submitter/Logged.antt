-- ===== src/Cycle/Submitter/Logged.antt =====
-- negotiator/cycle/spin.go: any outside of the request loop can be given a log of the matches that are
-- delivered.
use golang_collector.Base.{refl, List, [], ◌∷◌, ◌++◌, if◌then◌else◌}
use golang_collector.Matchmaker.Floats.{Floats, Classads}
use golang_collector.Cycle.Submitter.{Outside, Terms}
use golang_collector.Cycle.Submitter.Spend.{IsLog}

module _ (f : Floats) (ca : Classads f) {W : Type 0} where
  abbrev keeping : {A : Type 0} → List ca.Ad → A × W → A × (W × List ca.Ad)
  keeping l (a, w) = (a, (w, l))

  abbrev pub with_log : Outside f ca W → Outside f ca (W × List ca.Ad)
  with_log out = record {
    minus = out.minus;
    session_broken = λ w. out.session_broken w.0;
    before_deadline = λ w. keeping w.1 (out.before_deadline w.0);
    deadline_over = λ w. out.deadline_over w.0;
    fetch = λ w. keeping w.1 (out.fetch w.0);
    admits = out.admits;
    enrich = λ w. out.enrich w.0;
    concurrency = λ w. out.concurrency w.0;
    match = λ q l w. keeping w.1 (out.match q l w.0);
    send_reject = λ q why w. keeping w.1 (out.send_reject q why w.0);
    send_match = λ q slot w.
        keeping (if (out.send_match q slot w.0).0 then w.1 ++ slot ∷ [] else w.1)
          (out.send_match q slot w.0);
    settle = λ q slot w. (out.settle q slot w.0, w.1);
    consume = λ i w. (out.consume i w.0, w.1);
    end_session = λ w. (out.end_session w.0, w.1);
    slot_weight = out.slot_weight;
    is_unclaimed = out.is_unclaimed;
  }

  abbrev pub log_of : W × List ca.Ad → List ca.Ad
  log_of w = w.1

  pub with_log-IsLog : (out : Outside f ca W) (t : Terms f ca) → IsLog f ca (with_log out) t log_of
  with_log-IsLog out t = record {
    timing = λ w. refl;
    fetching = λ w. refl;
    matching = λ q l w. refl;
    rejecting = λ q why w. refl;
    sending = λ q slot w. refl;
    settling = λ q slot w. refl;
    consuming = λ i w. refl;
    ending = λ w. refl;
  }

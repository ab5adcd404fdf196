-- ===== src/Protocol/Tests.antt =====
-- Runs of a conversation over a network whose state is a clock: a dial makes a connection of the
-- time's number, connection 7 is dropped at the first exchange, and the third reply is the last.
use golang_collector.Base.{
  ℕ, suc, ◌≡◌, ◌≤◌, ◌==◌, refl, false, none, some, [], ◌∷◌, leb, if◌then◌else◌, arith,
}
use golang_collector.Base.Text.{codes}
use golang_collector.Protocol.Factory.{CacheKey, key_eq, lookup, take}
use golang_collector.Protocol.Factory.Cache.{count, holds, in_warm}
use golang_collector.Protocol.Session.{
  Network, Session, State, dropped, no_more_jobs, job_info, begin, fetch_requests, fetch_once,
  fetch_list, read_requests, received, redial, dial_fresh, discard, end,
}
use golang_collector.Protocol.Session.Places.{IsAccounted}
use golang_collector.Protocol.Session.Connections.{
  begin-IsAccounted, fetch_requests-IsAccounted, end-IsAccounted,
}

abbrev clock : Network ℕ ℕ
clock = record {
  connect = λ addr w. (some w, suc w);
  put_header = λ c warm w. (none, suc w);
  ask_list = λ c n w. (if c == 7 then some dropped else none, suc w);
  ask_one = λ c w. (none, suc w);
  reply = λ c w. if leb 18 w then (no_more_jobs, suc w) else (job_info w, suc w);
  put_end = λ c w. (none, suc w);
}

abbrev schedd : CacheKey
schedd = record { addr = codes "schedd"; tag = codes "t" }

abbrev idle : Session
idle = record {
  key = record { addr = codes "schedd"; tag = [] };
  conn = none;
  legacy = false;
  reused = false;
  progressed = false;
  exhausted = false;
}

abbrev start : State ℕ
start = record {
  dialed = 7 ∷ [];
  session = idle;
  factory = record { warm = (schedd, 7) ∷ []; closed = [] };
  world = 10;
}

abbrev begun : State ℕ
begun = (begin clock (codes "t") start).1

-- The warm connection is found dead at the fetch, closed, and the fetch done on a new one.
fetch_requests_test : (fetch_requests clock 5 begun).0 ≡ (15 ∷ 16 ∷ 17 ∷ [], none)
unfolding fetch_requests begin take lookup key_eq fetch_once fetch_list redial dial_fresh discard
    read_requests received
fetch_requests_test = refl

start-IsAccounted : IsAccounted start
unfolding holds in_warm count lookup
start-IsAccounted = record { unique = (refl, tt); placed = λ c. ground arith }

fetch_requests-IsAccounted_example : IsAccounted (fetch_requests clock 5 begun).1
fetch_requests-IsAccounted_example =
    fetch_requests-IsAccounted clock 5 begun
      (begin-IsAccounted clock (codes "t") start refl start-IsAccounted)

once : (c : ℕ) → count c (7 ∷ []) ≤ 1
unfolding count
once c = ground arith

end-IsAccounted_example :
    IsAccounted (end clock begun).1 × ((end clock begun).1.session.conn ≡ none)
unfolding begin take lookup key_eq
end-IsAccounted_example =
    end-IsAccounted clock begun once
      (begin-IsAccounted clock (codes "t") start refl start-IsAccounted)

-- ===== src/Protocol/Session.antt =====
-- negotiator/protocol/session.go: one NEGOTIATE conversation. What the network does is a parameter:
-- whether a dial succeeds and with which connection, and how each exchange ends, by the world's
-- state `W`. The header ad and the request ads are opaque.
pub mod Places
pub mod Connections
pub mod Replies
use golang_collector.Base.{
  ℕ, ◌≡◌, refl, Bool, true, false, not, ◌&&◌, ◌||◌, ◌==◌, Option, none, some, List, [], ◌∷◌, ◌++◌,
  if◌then◌else◌, arith, leb, ltb, suc, zero, length,
}
use golang_collector.Base.Text.{Text}
use golang_collector.Protocol.Factory.{CacheKey, Factory, take, put, close, evict}

-- How a step of the conversation fails; `dropped` are the errors that `isDropped` recognizes.
pub data Error : Type 0 where
  dropped : Error
  failed : Error
  closed_session : Error
  -- A fetch of a session without a connection, at which the program panics.
  nil_conn : Error

-- A reply of the schedd, or the error that reading it ends in.
pub data Reply (Req : Type 0) : Type 0 where
  job_info : Req → Reply Req
  no_more_jobs : Reply Req
  unexpected : ℕ → Reply Req
  broken : Error → Reply Req

-- The network, as far as a session uses it.
pub record Network (W Req : Type 0) : Type 0 where
  pub connect : Text → W → Option ℕ × W
  -- Writes the header, on a warm connection after the bare command.
  pub put_header : ℕ → Bool → W → Option Error × W
  -- `SEND_RESOURCE_REQUEST_LIST` with a count, `SEND_JOB_INFO`.
  pub ask_list : ℕ → ℕ → W → Option Error × W
  pub ask_one : ℕ → W → Option Error × W
  pub reply : ℕ → W → Reply Req × W
  pub put_end : ℕ → W → Option Error × W

pub record Session : Type 0 where
  pub key : CacheKey
  pub conn : Option ℕ
  pub legacy : Bool
  pub reused : Bool
  pub progressed : Bool
  pub exhausted : Bool

-- The session, its factory and the network. `dialed` is no variable of the program: it is the trace
-- of the connections that were made.
pub record State (W : Type 0) : Type 0 where
  pub dialed : List ℕ
  pub session : Session
  pub factory : Factory
  pub world : W

abbrev is_dropped : Error → Bool
is_dropped dropped = true
is_dropped failed = false
is_dropped closed_session = false
is_dropped nil_conn = false

module _ {W Req : Type 0} (net : Network W Req) where
  unfoldable pub discard : State W → State W
  discard st = elim st.session.conn [
    | none ↦ st
    | some c ↦ record st {
      session = record st.session { conn = none };
      factory = close st.factory c;
    }
  ]

  unfoldable pub dial_fresh : State W → Option Error × State W
  dial_fresh st =
      let (dialed, w) = net.connect st.session.key.addr st.world in
      elim dialed [
        | none ↦ (some failed, record st { world = w })
        | some c ↦
            let (e, w') = net.put_header c false w in
            (
              e,
              record st {
                session = record st.session { conn = some c; reused = false; progressed = false };
                dialed = c ∷ st.dialed;
                world = w';
              },
            )
      ]

  unfoldable pub begin : Text → State W → Option Error × State W
  begin tag st =
      let session = record st.session {
        key = record st.session.key { tag = tag };
        exhausted = false;
      } in
      let (warm, f) = take st.factory session.key in
      elim warm [
        | none ↦ dial_fresh (record st { session = session; factory = f })
        | some c ↦
            let (e, w) = net.put_header c true st.world in
            let opened = record session { conn = some c; reused = true; progressed = false } in
            elim e [
              | none ↦ (none, record st { session = opened; factory = f; world = w })
              | some x ↦ dial_fresh (record st {
                session = record opened { conn = none };
                factory = close f c;
                world = w;
              })
            ]
      ]

  -- What a fetch returns: the requests, the error, and whether the replies ran out or went on.
  pub record Fetched : Type 0 where
    pub requests : List Req
    pub error : Option Error
    pub exhausted : Bool
    pub progressed : Bool
    pub world : W

  -- A fetch that ends with no request, in an error or without one.
  abbrev ended : Option Error → Bool → W → Fetched
  ended e no_more w = record {
    requests = [];
    error = e;
    exhausted = no_more;
    progressed = no_more;
    world = w;
  }

  -- One reply, with what the replies after it come to.
  unfoldable pub received : Reply Req → Fetched → W → Fetched
  received no_more_jobs rest w = ended none true w
  received (job_info a) rest w = record rest { requests = a ∷ rest.requests; progressed = true }
  received (unexpected op) rest w = ended (some failed) false w
  received (broken e) rest w = ended (some e) false w

  -- Reads replies until it has `max` requests.
  unfoldable pub read_requests : ℕ → ℕ → W → Fetched
  unfolding received
  read_requests c zero w = ended none false w
  read_requests c (suc max) w =
      let (r, w') = net.reply c w in let rest = read_requests c max w' in received r rest w'

  -- One exchange of the old kind, with what the exchanges after it come to.
  unfoldable pub exchanged : Option Error → Fetched → Fetched → W → Fetched
  exchanged (some x) one rest w = ended (some x) false w
  exchanged none one rest w = elim one.error [
    | some x ↦ one
    | none ↦ if one.exhausted then one else record rest {
      requests = one.requests ++ rest.requests;
      progressed = one.progressed || rest.progressed;
    }
  ]

  -- Asks for one request at a time.
  unfoldable pub fetch_legacy : ℕ → ℕ → W → Fetched
  unfolding exchanged
  fetch_legacy c zero w = ended none false w
  fetch_legacy c (suc n) w =
      let (e, w') = net.ask_one c w in
      let one = read_requests c 1 w' in
      let rest = fetch_legacy c n one.world in exchanged e one rest w'

  unfoldable pub fetch_list : ℕ → ℕ → W → Fetched
  fetch_list c n w =
      let (e, w') = net.ask_list c n w in
      elim e [ some x ↦ ended (some x) false w' | none ↦ read_requests c n w' ]

  abbrev pub Result : Type 0
  Result = (List Req × Option Error) × State W

  unfoldable pub fetch_once : ℕ → State W → Result
  fetch_once zero st = (([], none), st)
  fetch_once (suc n) st = elim st.session.conn [
    | none ↦ (([], some nil_conn), st)
    | some c ↦
        let r =
          if st.session.legacy
          then fetch_legacy c (suc n) st.world
          else fetch_list c (suc n) st.world in
        (
          (r.requests, r.error),
          record st {
            session = record st.session {
              exhausted = st.session.exhausted || r.exhausted;
              progressed = st.session.progressed || r.progressed;
            };
            world = r.world;
          },
        )
  ]

  -- The second try, on a connection that is dialed anew.
  unfoldable pub redial : ℕ → State W → Result
  redial n st =
      let evicted = record st { factory = evict st.factory st.session.key } in
      let (e, st') = dial_fresh (discard evicted) in
      elim e [ some x ↦ (([], some x), st') | none ↦ fetch_once n st' ]

  unfoldable pub fetch_requests : ℕ → State W → Result
  fetch_requests n st =
      let r = fetch_once n st in
      if st.session.exhausted then (([], none), st) else elim r.0.1 [
        | none ↦ r
        | some e ↦
            if r.1.session.reused && not r.1.session.progressed && is_dropped e
            then redial n r.1
            else r
      ]

  unfoldable pub end : State W → Option Error × State W
  end st = elim st.session.conn [
    | none ↦ (some closed_session, st)
    | some c ↦
        let (e, w) = net.put_end c st.world in
        elim e [
          | some x ↦ (some x, discard (record st { world = w }))
          | none ↦ (
            none,
            record st {
              session = record st.session { conn = none };
              factory = put st.factory st.session.key (some c);
              world = w;
            },
          )
        ]
  ]

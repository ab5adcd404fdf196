-- ===== src/Protocol/Session/Connections.antt =====
-- Every operation of a session keeps account of the connections.
use golang_collector.Base.{
  ℕ, zero, suc, ◌≤◌, ◌≡◌, refl, Bool, true, false, not, ◌&&◌, Option, none, some, [], Option-cases,
  inl, inr, if◌then◌else◌, arith,
}
use golang_collector.Base.Text.{Text}
use golang_collector.Protocol.Factory.{take, close, evict}
use golang_collector.Protocol.Factory.Cache.{count, holds, take-holds, put-holds, evict-holds}
use golang_collector.Protocol.Session.{
  Network, State, Error, discard, dial_fresh, begin, fetch_once, redial, fetch_requests, end,
  is_dropped, Result,
}
use golang_collector.Protocol.Session.Places.{
  IsAccounted, close-holds, take-IsUnique, evict-IsUnique, put-IsUnique, not_cached, close-IsUnique,
  dialed-placed,
}

module _ {W Req : Type 0} (net : Network W Req) where
  discard-none : (st : State W) → (discard net st).session.conn ≡ none
  unfolding discard
  discard-none st = elim (Option-cases st.session.conn) [
    | inl e ↦ rw (e, discard) e
    | inr (c, e) ↦ rw (e, discard) refl
  ]

  discard-IsAccounted : (st : State W) → IsAccounted st → IsAccounted (discard net st)
  unfolding discard count
  discard-IsAccounted st h = elim (Option-cases st.session.conn) [
    | inl e ↦ rw (e, discard) h
    | inr (c, e) ↦
        rw (e, discard)
          (record {
            unique = close-IsUnique st.factory c h.unique;
            placed = λ d. ground (arith, close-holds d c st.factory, h.placed d, e);
          })
  ]

  dial_fresh-IsAccounted :
      (st : State W) → st.session.conn ≡ none → IsAccounted st → IsAccounted (dial_fresh net st).1
  unfolding dial_fresh
  dial_fresh-IsAccounted st n h = elim (Option-cases (net.connect st.session.key.addr st.world).0) [
    | inl e ↦ rw (e, dial_fresh) (record { unique = h.unique; placed = h.placed })
    | inr (c, e) ↦
        rw (e, dial_fresh)
          (record {
            unique = h.unique;
            placed = λ d.
                dialed-placed (holds d st.factory) c d st.session.conn st.dialed n (h.placed d);
          })
  ]

  -- A session without a connection that begins a conversation keeps account of every connection,
  -- whether it finds a warm one, a dead one, or dials.
  pub begin-IsAccounted :
      (tag : Text) (st : State W)
      → st.session.conn ≡ none
      → IsAccounted st
      → IsAccounted (begin net tag st).1
  unfolding begin count
  begin-IsAccounted tag st n h =
      let key = record st.session.key { tag = tag } in
      let left = take-IsUnique st.factory key h.unique in
      elim (Option-cases (take st.factory key).0) [
        | inl e ↦
            rw (e, begin)
              (dial_fresh-IsAccounted
                (record st {
                  session = record st.session { key = key; exhausted = false };
                  factory = (take st.factory key).1;
                })
                n
                (record {
                  unique = left;
                  placed = λ d. ground (arith, h.placed d, take-holds d st.factory key h.unique, e);
                }))
        | inr (c, e) ↦ elim (Option-cases (net.put_header c true st.world).0) [
          | inl k ↦
              rw (e, k, begin)
                (record {
                  unique = left;
                  placed =
                      λ d. ground (arith, h.placed d, take-holds d st.factory key h.unique, e, n);
                })
          | inr (x, k) ↦
              rw (e, k, begin)
                (dial_fresh-IsAccounted
                  (record st {
                    session = record {
                      key = key;
                      conn = none;
                      legacy = st.session.legacy;
                      reused = true;
                      progressed = false;
                      exhausted = false;
                    };
                    factory = close (take st.factory key).1 c;
                    world = (net.put_header c true st.world).1;
                  })
                  refl
                  (record {
                    unique = close-IsUnique (take st.factory key).1 c left;
                    placed = λ d. ground (
                      arith,
                      h.placed d,
                      take-holds d st.factory key h.unique,
                      close-holds d c (take st.factory key).1,
                      e,
                      n,
                    );
                  }))
        ]
      ]

  fetch_once-IsAccounted :
      (k : ℕ) (st : State W) → IsAccounted st → IsAccounted (fetch_once net k st).1
  unfolding fetch_once
  fetch_once-IsAccounted zero st h = h
  fetch_once-IsAccounted (suc k) st h = elim (Option-cases st.session.conn) [
    | inl e ↦ rw (e, fetch_once) h
    | inr (c, e) ↦
        rw (e, fetch_once)
          (record { unique = h.unique; placed = λ d. ground (arith, h.placed d, e) })
  ]

  redial-IsAccounted : (k : ℕ) (st : State W) → IsAccounted st → IsAccounted (redial net k st).1
  unfolding redial
  redial-IsAccounted k st h =
      let evicted = record st { factory = evict st.factory st.session.key } in
      let dialed = dial_fresh-IsAccounted (discard net evicted) (discard-none evicted) (
        discard-IsAccounted evicted (record {
          unique = evict-IsUnique st.factory st.session.key h.unique;
          placed =
              λ d. ground (arith, h.placed d, evict-holds d st.factory st.session.key h.unique);
        })) in
      elim (Option-cases (dial_fresh net (discard net evicted)).0) [
        | inl e ↦
            rw (e, redial)
              (fetch_once-IsAccounted k (dial_fresh net (discard net evicted)).1 dialed)
        | inr (x, e) ↦ rw (e, redial) dialed
      ]

  either :
      (b : Bool) (x y : Result net)
      → IsAccounted x.1
      → IsAccounted y.1
      → IsAccounted (if b then x else y).1
  either true x y h k = h
  either false x y h k = k

  retried :
      (k : ℕ) (r : Result net)
      → IsAccounted r.1
      → (e : Option Error)
      → IsAccounted
          (elim e as (λ x. Result net) [
            | none ↦ r
            | some x ↦
                if r.1.session.reused && not r.1.session.progressed && is_dropped x
                then redial net k r.1
                else r
          ]).1
  retried k r h none = h
  retried k r h (some x) =
      either (r.1.session.reused && not r.1.session.progressed && is_dropped x) (redial net k r.1) r
        (redial-IsAccounted k r.1 h) h

  -- A fetch keeps account of every connection, also where it dials again.
  pub fetch_requests-IsAccounted :
      (k : ℕ) (st : State W) → IsAccounted st → IsAccounted (fetch_requests net k st).1
  unfolding fetch_requests
  fetch_requests-IsAccounted k st h =
      let first = fetch_once-IsAccounted k st h in
      let r = fetch_once net k st in
      either st.session.exhausted (([], none), st)
        (elim r.0.1 [
          | none ↦ r
          | some e ↦
              if r.1.session.reused && not r.1.session.progressed && is_dropped e
              then redial net k r.1
              else r
        ])
        h (retried k r first r.0.1)

  -- The end of a conversation keeps account of every connection and leaves the session without one,
  -- on every branch, where no connection was made twice.
  pub end-IsAccounted :
      (st : State W)
      → ((c : ℕ) → count c st.dialed ≤ 1)
      → IsAccounted st
      → IsAccounted (end net st).1 × ((end net st).1.session.conn ≡ none)
  unfolding end count
  end-IsAccounted st once h = elim (Option-cases st.session.conn) [
    | inl e ↦ rw (e, end) (h, e)
    | inr (c, e) ↦
        let w = (net.put_end c st.world).1 in
        elim (Option-cases (net.put_end c st.world).0) [
          | inr (x, k) ↦
              rw (e, k, end)
                (
                  discard-IsAccounted (record st { world = w })
                      (record { unique = h.unique; placed = h.placed }),
                  discard-none (record st { world = w }),
                )
          | inl k ↦
              rw (e, k, end)
                (
                  record {
                    unique = put-IsUnique st.factory st.session.key c h.unique;
                    placed = λ d. ground (
                      arith,
                      h.placed d,
                      h.placed c,
                      once c,
                      e,
                      put-holds d c st.factory st.session.key h.unique (not_cached c st once h e),
                    );
                  },
                  refl,
                )
        ]
  ]

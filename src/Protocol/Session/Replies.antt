-- ===== src/Protocol/Session/Replies.antt =====
-- How many requests a fetch yields, and which connection a conversation finds.
use golang_collector.Base.{
  ℕ, zero, suc, ◌≤◌, ◌≡◌, true, Option, none, some, length, length-append, Option-cases, inl, inr,
  arith,
}
use golang_collector.Base.Text.{text_eq_refl}
use golang_collector.Protocol.Factory.{take, put, evict, lookup, key_eq}
use golang_collector.Protocol.Session.{
  Network, Session, State, Error, Reply, no_more_jobs, job_info, unexpected, broken, Fetched,
  received, read_requests, exchanged, fetch_legacy, fetch_list, begin, fetch_once, redial,
  fetch_requests, discard, dial_fresh, end,
}

module _ {W Req : Type 0} (net : Network W Req) where
  received-le :
      (max : ℕ) (r : Reply Req) (rest : Fetched net) (w : W)
      → length rest.requests ≤ max
      → length (received net r rest w).requests ≤ suc max
  unfolding received
  received-le max no_more_jobs rest w h = omega arith
  received-le max (job_info a) rest w h = omega (arith, h)
  received-le max (unexpected op) rest w h = omega arith
  received-le max (broken e) rest w h = omega arith

  read_requests-le : (c max : ℕ) (w : W) → length (read_requests net c max w).requests ≤ max
  unfolding read_requests
  read_requests-le c zero w = omega arith
  read_requests-le c (suc max) w =
      received-le max (net.reply c w).0 (read_requests net c max (net.reply c w).1)
        (net.reply c w).1 (read_requests-le c max (net.reply c w).1)

  exchanged-le :
      (n : ℕ) (e : Option Error) (one rest : Fetched net) (w : W)
      → length one.requests ≤ 1
      → length rest.requests ≤ n
      → length (exchanged net e one rest w).requests ≤ suc n
  unfolding exchanged
  exchanged-le n (some x) one rest w h k = omega arith
  exchanged-le n none one rest w h k = ground (arith, length-append one.requests rest.requests)

  fetch_legacy-le : (c n : ℕ) (w : W) → length (fetch_legacy net c n w).requests ≤ n
  unfolding fetch_legacy
  fetch_legacy-le c zero w = omega arith
  fetch_legacy-le c (suc n) w =
      let w' = (net.ask_one c w).1 in
      let one = read_requests net c 1 w' in
      exchanged-le n (net.ask_one c w).0 one (fetch_legacy net c n one.world) w'
        (read_requests-le c 1 w') (fetch_legacy-le c n one.world)

  fetch_list-le : (c n : ℕ) (w : W) → length (fetch_list net c n w).requests ≤ n
  unfolding fetch_list
  fetch_list-le c n w = ground (arith, read_requests-le c n (net.ask_list c n w).1)

  fetch_once-le : (n : ℕ) (st : State W) → length (fetch_once net n st).0.0 ≤ n
  unfolding fetch_once
  fetch_once-le zero st = omega arith
  fetch_once-le (suc n) st = elim (Option-cases st.session.conn) [
    | inl e ↦ ground (arith, e)
    | inr (c, e) ↦
        ground (arith, e, fetch_legacy-le c (suc n) st.world, fetch_list-le c (suc n) st.world)
  ]

  redial-le : (n : ℕ) (st : State W) → length (redial net n st).0.0 ≤ n
  unfolding redial
  redial-le n st =
      let evicted = record st { factory = evict st.factory st.session.key } in
      ground (arith, fetch_once-le n (dial_fresh net (discard net evicted)).1)

  -- A fetch of `n` yields at most `n` requests, dialed again or not.
  pub fetch_requests-le : (n : ℕ) (st : State W) → length (fetch_requests net n st).0.0 ≤ n
  unfolding fetch_requests
  fetch_requests-le n st = ground (arith, fetch_once-le n st, redial-le n (fetch_once net n st).1)

  -- The connection of a conversation that ended well is the one that the next conversation with the
  -- same schedd and tag uses, without a dial, as long as its header can be written.
  pub begin-end :
      (st : State W) (s : Session) (c : ℕ)
      → st.session.conn ≡ some c
      → (net.put_end c st.world).0 ≡ none
      → s.key.addr ≡ st.session.key.addr
      → (net.put_header c true (net.put_end c st.world).1).0 ≡ none
      → let r = begin net st.session.key.tag (record (end net st).1 { session = s }) in
        (r.0 ≡ none) × ((r.1.session.conn ≡ some c) × (r.1.dialed ≡ st.dialed))
  unfolding begin end take put lookup key_eq
  begin-end st s c e k a h =
      ground (arith, text_eq_refl st.session.key.addr, text_eq_refl st.session.key.tag)

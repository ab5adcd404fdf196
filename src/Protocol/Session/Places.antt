-- ===== src/Protocol/Session/Places.antt =====
-- Where the connections of a conversation are: in the cache, with the session, or closed.
use golang_collector.Base.{
  ℕ, ◌+◌, ◌≤◌, ◌≡◌, Option, none, some, List, [], ◌∷◌, Option-cases, inl, inr, arith,
}
use golang_collector.Protocol.Factory.{
  CacheKey, Factory, take, put, close, evict, lookup, close_option,
}
use golang_collector.Protocol.Factory.Cache.{
  count, in_warm, IsUnique, holds, delete-IsUnique, lookup-delete,
}
use golang_collector.Protocol.Session.{State}

-- Every connection is in the cache, with the session or closed, and in these together as often as it
-- was made: none is lost.
pub record IsAccounted {W : Type 0} (st : State W) : Type 0 where
  pub unique : IsUnique st.factory.warm
  pub placed :
      (c : ℕ) → holds c st.factory + count c (close_option st.session.conn) ≡ count c st.dialed

pub close-holds : (c d : ℕ) (f : Factory) → holds c (close f d) ≡ holds c f + count c (d ∷ [])
unfolding holds close count
close-holds c d f = ground arith

pub take-IsUnique : (f : Factory) (key : CacheKey) → IsUnique f.warm → IsUnique (take f key).1.warm
unfolding take
take-IsUnique f key u = elim (Option-cases (lookup f.warm key)) [
  | inl e ↦ rw (e, take) u
  | inr (c, e) ↦ rw (e, take) (delete-IsUnique f.warm key u)
]

pub close-IsUnique : (f : Factory) (c : ℕ) → IsUnique f.warm → IsUnique (close f c).warm
unfolding close
close-IsUnique f c u = u

pub dialed-placed :
    (h c d : ℕ) (conn : Option ℕ) (dialed : List ℕ)
    → conn ≡ none
    → h + count d (close_option conn) ≡ count d dialed
    → h + count d (c ∷ []) ≡ count d (c ∷ dialed)
unfolding count
dialed-placed h c d conn dialed e k = ground arith

pub evict-IsUnique : (f : Factory) (key : CacheKey) → IsUnique f.warm → IsUnique (evict f key).warm
unfolding evict
evict-IsUnique f key u = delete-IsUnique f.warm key u

pub put-IsUnique :
    (f : Factory) (key : CacheKey) (c : ℕ) → IsUnique f.warm → IsUnique (put f key (some c)).warm
unfolding put
put-IsUnique f key c u = (lookup-delete f.warm key, delete-IsUnique f.warm key u)

-- The session's connection is not in the cache, if no connection was made twice.
pub not_cached :
    {W : Type 0} (c : ℕ) (st : State W)
    → ((d : ℕ) → count d st.dialed ≤ 1)
    → IsAccounted st
    → st.session.conn ≡ some c
    → in_warm c st.factory.warm ≡ 0
unfolding count holds
not_cached c st once h e = ground (arith, h.placed c, once c, e)

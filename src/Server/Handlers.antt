-- ===== src/Server/Handlers.antt =====
-- server/server.go: the handlers of updates and invalidations. Reading from the connection is a
-- parameter of each run: what the message yields. The store is its operations over its state; an
-- error that is a cancellation is told from one that rejects the ad. Logging and metrics are left
-- out.
pub mod Tests
use golang_collector.Base.{
  ℕ, ◌≤◌, ◌≡◌, refl, sym, ◌∙◌, Bool, true, false, Option, none, some, List, [], ◌∷◌, Option-cases,
  Bool-cases, inl, inr, arith, if◌then◌else◌,
}
use golang_collector.Base.Text.{Text, is_empty}
use golang_collector.Store.AdType.{AdType, same_table, startd_ad}
use golang_collector.Server.Commands.{Command, update_startd_ad}
use golang_collector.Server.Forward.{
  Queue, forward, forward_text, IsBounded, forward-IsBounded, forward_text-IsBounded,
}

-- `isCanceled` tells the two apart.
pub data StoreError : Type 0 where
  canceled : StoreError
  rejected : ℕ → StoreError

pub data Error : Type 0 where
  store_failed : StoreError → Error
  no_message : Error
  no_ack : Error

-- The texts of an update: the public ad, if it can be read, and a private ad that may follow it.
pub record Message : Type 0 where
  pub public : Option Text
  pub private : Option Text

pub record Updates (S Ad : Type 0) : Type 0 where
  pub update_old_text : AdType → Text → S → Option StoreError × S
  pub update_pvt : Text → Text → S → Option StoreError × S
  pub durable_update : AdType → Text → S → Option StoreError × S
  pub invalidate : AdType → Text → Option Ad → S → Option StoreError × S

pub record Server (S Ad : Type 0) : Type 0 where
  pub store : S
  pub fwd : Option (List (Queue Ad))

-- Of an error of the store, what ends the connection.
abbrev kept_open : Option StoreError → Option Error
kept_open none = none
kept_open (some canceled) = some (store_failed canceled)
kept_open (some (rejected n)) = none

abbrev non_empty : Option Text → Option Text
non_empty none = none
non_empty (some p) = if is_empty p then none else some p

module _ {S Ad : Type 0} (st : Updates S Ad) (parse_old : Text → Option Ad) where
  -- The private ad, stored under the public one.
  store_private : Text → Option Text → Server S Ad → Option Error × Server S Ad
  store_private text none sv = (none, sv)
  store_private text (some p) sv =
      let (perr, s) = st.update_pvt text p sv.store in (kept_open perr, record sv { store = s })

  store_public : AdType → Command → Text → Option Text → Server S Ad → Option Error × Server S Ad
  unfolding store_private
  store_public t cmd text pvt sv =
      let (uerr, s) = st.update_old_text t text sv.store in
      elim uerr [
        | some e ↦ (kept_open (some e), record sv { store = s })
        | none ↦
            store_private text pvt
              (record { store = s; fwd = forward_text parse_old cmd text sv.fwd })
      ]

  unfoldable pub update_handler :
      AdType → Command → Message → Server S Ad → Option Error × Server S Ad
  unfolding store_public
  update_handler t cmd msg sv = elim msg.public [
    | none ↦ (some no_message, sv)
    | some text ↦
        store_public t cmd text (if same_table t startd_ad then non_empty msg.private else none) sv
  ]

  -- Whether the acknowledgment was written, too; `acked` is whether it can be.
  unfoldable pub ack_update_handler :
      AdType → Message → Bool → Server S Ad → (Option Error × Bool) × Server S Ad
  ack_update_handler t msg acked sv = elim msg.public [
    | none ↦ ((some no_message, false), sv)
    | some text ↦
        let (uerr, s) = st.durable_update t text sv.store in
        elim uerr [
          | some e ↦ ((some (store_failed e), false), record sv { store = s })
          | none ↦ (
            (if acked then none else some no_ack, acked),
            record { store = s; fwd = forward_text parse_old update_startd_ad text sv.fwd },
          )
        ]
  ]

  -- `constraint` is what `parseQuery` finds in the invalidation ad.
  unfoldable pub invalidate_handler :
      AdType → Command → Option (Ad × Text) → Server S Ad → Option Error × Server S Ad
  invalidate_handler t cmd none sv = (some no_message, sv)
  invalidate_handler t cmd (some (ad, constraint)) sv =
      let (e, s) =
        st.invalidate t constraint (if is_empty constraint then some ad else none) sv.store in
      elim e [
        | some x ↦ (some (store_failed x), record sv { store = s })
        | none ↦ (none, record { store = s; fwd = forward cmd ad sv.fwd })
      ]

  store_private-fwd :
      (text : Text) (pvt : Option Text) (sv : Server S Ad)
      → (store_private text pvt sv).1.fwd ≡ sv.fwd
  unfolding store_private
  store_private-fwd text none sv = refl
  store_private-fwd text (some p) sv = refl

  store_public-fwd :
      (t : AdType) (cmd : Command) (text : Text) (pvt other : Option Text) (sv : Server S Ad)
      → (store_public t cmd text pvt sv).1.fwd ≡ (store_public t cmd text other sv).1.fwd
  unfolding store_public
  store_public-fwd t cmd text pvt other sv =
      elim (Option-cases (st.update_old_text t text sv.store).0) [
        | inl e ↦
            rw (e, store_public)
              (let next : Server S Ad = record {
                store = (st.update_old_text t text sv.store).1;
                fwd = forward_text parse_old cmd text sv.fwd;
              } in
                store_private-fwd text pvt next ∙ sym (store_private-fwd text other next))
        | inr (x, e) ↦ rw (e, store_public) refl
      ]

  -- What is forwarded of an update does not depend on its private ad: no view collector learns of it.
  pub update_handler-forwards_public :
      (t : AdType) (cmd : Command) (msg other : Message) (sv : Server S Ad)
      → msg.public ≡ other.public
      → (update_handler t cmd msg sv).1.fwd ≡ (update_handler t cmd other sv).1.fwd
  unfolding update_handler
  update_handler-forwards_public t cmd msg other sv e = elim (Option-cases other.public) [
    | inl k ↦ rw (e, k, update_handler) refl
    | inr (text, k) ↦
        rw (e, k, update_handler)
          (store_public-fwd t cmd text
            (if same_table t startd_ad then non_empty msg.private else none)
            (if same_table t startd_ad then non_empty other.private else none) sv)
  ]

  -- An acknowledged update is in the store for good, as the store's durable update returned it, and
  -- the acknowledgment is written on no other branch.
  pub ack_update_handler-durable :
      (t : AdType) (msg : Message) (acked : Bool) (sv : Server S Ad) (text : Text)
      → msg.public ≡ some text
      → (ack_update_handler t msg acked sv).0.1 ≡ true
      → ((st.durable_update t text sv.store).0 ≡ none)
        × ((ack_update_handler t msg acked sv).1.store ≡ (st.durable_update t text sv.store).1)
  unfolding ack_update_handler
  ack_update_handler-durable t msg acked sv text e h =
      elim (Option-cases (st.durable_update t text sv.store).0) [
        | inl k ↦ ground (arith, e, k, h)
        | inr (x, k) ↦ ground (arith, e, k, h)
      ]

  store_private-IsBounded :
      (text : Text) (pvt : Option Text) (sv : Server S Ad)
      → IsBounded sv.fwd
      → IsBounded (store_private text pvt sv).1.fwd
  store_private-IsBounded text pvt sv h = rw (store_private-fwd text pvt sv) h

  -- An update leaves no queue of a view collector longer than its channel.
  pub update_handler-IsBounded :
      (t : AdType) (cmd : Command) (msg : Message) (sv : Server S Ad)
      → IsBounded sv.fwd
      → IsBounded (update_handler t cmd msg sv).1.fwd
  unfolding update_handler store_public
  update_handler-IsBounded t cmd msg sv h = elim (Option-cases msg.public) [
    | inl k ↦ rw (k, update_handler) h
    | inr (text, k) ↦ elim (Option-cases (st.update_old_text t text sv.store).0) [
      | inr (x, e) ↦ rw (k, e, update_handler, store_public) h
      | inl e ↦
          rw (k, e, update_handler, store_public)
            (store_private-IsBounded text
              (if same_table t startd_ad then non_empty msg.private else none)
              (record {
                store = (st.update_old_text t text sv.store).1;
                fwd = forward_text parse_old cmd text sv.fwd;
              })
              (forward_text-IsBounded parse_old cmd text sv.fwd h))
    ]
  ]

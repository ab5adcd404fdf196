-- ===== src/Server/Handlers/Tests.antt =====
-- Runs of the handlers of updates at single inputs, over a store that is the list of its texts and
-- refuses the empty one, and one view collector.
use golang_collector.Base.{◌≡◌, refl, true, Option, none, some, List, [], ◌∷◌, if◌then◌else◌}
use golang_collector.Base.Text.{Text, codes, is_empty}
use golang_collector.Store.AdType.{startd_ad}
use golang_collector.Server.Commands.{update_startd_ad}
use golang_collector.Server.Forward.{forward, forward_text, offer}
use golang_collector.Server.Handlers.{
  StoreError, rejected, Message, Updates, Server, update_handler, ack_update_handler,
  update_handler-forwards_public, ack_update_handler-durable,
}

abbrev refusing : Text → List Text → Option StoreError × List Text
refusing text s = if is_empty text then (some (rejected 1), s) else (none, text ∷ s)

abbrev log : Updates (List Text) Text
log = record {
  update_old_text = λ t text s. refusing text s;
  update_pvt = λ text p s. refusing p s;
  durable_update = λ t text s. refusing text s;
  invalidate = λ t c ad s. (none, []);
}

abbrev parse : Text → Option Text
parse text = some text

abbrev message : Message
message = record { public = some (codes "Name"); private = some (codes "ClaimId") }

abbrev no_private : Message
no_private = record { public = some (codes "Name"); private = none }

abbrev server : Server (List Text) Text
server = record { store = []; fwd = some ([] ∷ []) }

-- Both ads are stored, and the public one is forwarded.
update_handler_test : update_handler log parse startd_ad update_startd_ad message server ≡ (
  none,
  record {
    store = codes "ClaimId" ∷ codes "Name" ∷ [];
    fwd = some (((update_startd_ad, codes "Name") ∷ []) ∷ []);
  },
)
unfolding update_handler forward_text forward offer
update_handler_test = refl

update_handler-forwards_public_example :
    (update_handler log parse startd_ad update_startd_ad message server).1.fwd
    ≡ (update_handler log parse startd_ad update_startd_ad no_private server).1.fwd
update_handler-forwards_public_example =
    update_handler-forwards_public log parse startd_ad update_startd_ad message no_private server
      refl

ack_update_handler-durable_example :
    ((log.durable_update startd_ad (codes "Name") []).0 ≡ none)
    × ((ack_update_handler log parse startd_ad message true server).1.store
        ≡ (log.durable_update startd_ad (codes "Name") []).1)
unfolding ack_update_handler
ack_update_handler-durable_example =
    ack_update_handler-durable log parse startd_ad message true server (codes "Name") refl refl

-- ===== src/Server/Forward.antt =====
-- server/forward.go: the queues of the view collectors. `none` is the nil forwarder. A queue holds
-- what `run` has not yet taken from the channel.
use golang_collector.Base.{
  ℕ, ◌≤◌, Option, none, some, List, [], ◌∷◌, ◌++◌, map, ltb, length, length-append, All, arith,
  if◌then◌else◌,
}
use golang_collector.Base.Text.{Text}
use golang_collector.Server.Commands.{Command}

abbrev pub view_queue_depth : ℕ
view_queue_depth = 4096

abbrev pub Queue : Type 0 → Type 0
Queue Ad = List (Command × Ad)

-- One select: the item is sent if the channel has room, and dropped otherwise.
unfoldable pub offer : {Ad : Type 0} → Command → Ad → Queue Ad → Queue Ad
offer cmd ad q = if ltb (length q) view_queue_depth then q ++ (cmd, ad) ∷ [] else q

unfoldable pub forward :
    {Ad : Type 0} → Command → Ad → Option (List (Queue Ad)) → Option (List (Queue Ad))
forward cmd ad none = none
forward cmd ad (some hosts) = some (map (offer cmd ad) hosts)

-- An ad that does not parse is logged and not forwarded.
unfoldable pub forward_text :
    {Ad : Type 0}
    → (Text → Option Ad)
    → Command
    → Text
    → Option (List (Queue Ad))
    → Option (List (Queue Ad))
forward_text parse_old cmd text none = none
forward_text parse_old cmd text (some hosts) = elim (parse_old text) [
  | none ↦ some hosts
  | some ad ↦ forward cmd ad (some hosts)
]

-- No queue is longer than the channel's capacity.
abbrev pub IsBounded : {Ad : Type 0} → Option (List (Queue Ad)) → Type 0
IsBounded none = Unit
IsBounded (some hosts) = All (λ q. length q ≤ view_queue_depth) hosts

offer-le :
    {Ad : Type 0} (cmd : Command) (ad : Ad) (q : Queue Ad)
    → length q ≤ view_queue_depth
    → length (offer cmd ad q) ≤ view_queue_depth
unfolding offer
offer-le cmd ad q h = ground (arith, length-append q ((cmd, ad) ∷ []))

pub forward-IsBounded :
    {Ad : Type 0} (cmd : Command) (ad : Ad) (fwd : Option (List (Queue Ad)))
    → IsBounded fwd
    → IsBounded (forward cmd ad fwd)
unfolding forward
forward-IsBounded cmd ad none h = tt
forward-IsBounded cmd ad (some []) h = tt
forward-IsBounded cmd ad (some (q ∷ hosts)) h =
    (offer-le cmd ad q h.0, forward-IsBounded cmd ad (some hosts) h.1)

pub forward_text-IsBounded :
    {Ad : Type 0} (parse_old : Text → Option Ad) (cmd : Command) (text : Text)
    (fwd : Option (List (Queue Ad)))
    → IsBounded fwd
    → IsBounded (forward_text parse_old cmd text fwd)
unfolding forward_text
forward_text-IsBounded parse_old cmd text none h = tt
forward_text-IsBounded {Ad = Ad} parse_old cmd text (some hosts) h = parsed (parse_old text)
  where
    parsed :
        (o : Option Ad)
        → IsBounded (elim o as (λ x. Option (List (Queue Ad))) [
          | none ↦ some hosts
          | some ad ↦ forward cmd ad (some hosts)
        ])
    parsed none = h
    parsed (some ad) = forward-IsBounded cmd ad (some hosts) h

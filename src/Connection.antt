-- ===== src/Connection.antt =====
-- src/shared/connection.cpp, and the two workers that move messages between a connection and its
-- queues: src/server/workers/client-worker.cpp and src/client/workers/serverconnection-worker.cpp.
pub mod Waiting
pub mod Routing
pub mod Heartbeat
pub mod Handshake
pub mod Loops
pub mod Session
pub mod Patience
mod Examples
mod SessionExamples
use tavernmx.Common.{
  ℕ, ◌+◌, ◌-◌, ◌<◌, ◌≡◌, Bool, true, false, ◌&&◌, ◌||◌, not, Option, none, some, List, [], ◌∷◌,
  ◌++◌, map, ltb, if◌then◌else◌,
}
use tavernmx.Common.Result.{Result, ok, err, Error, undefined, ◌>>=◌}
use tavernmx.Json.{Json}
use tavernmx.Messaging.{
  Message, Msg, MessageType, invalid, ack, nak, heartbeat, hello, room_list, same_type, create_ack,
  create_heartbeat,
}
use tavernmx.Messaging.Block.{MessageBlock}
use tavernmx.Messaging.Pack.{unpack_messages, pack_messages}
use tavernmx.Queue
use tavernmx.Queue.{ThreadSafeQueue}

-- One round of a wait: what `receive_message` returns or throws, and the milliseconds since the
-- start of the wait when the round ends.
pub record Poll : Type 0 where
  pub block : Result (Option MessageBlock)
  pub elapsed : ℕ

-- The outcome of a wait; `polling` says that the given rounds are used up.
pub data Waited (V : Type 0) : Type 0 where
  found : Message V → Waited V
  timed_out polling : Waited V
  threw : Error → Waited V

module _ (json : Json) where
  open json use {Value}

  unfoldable pub first_accepted : (MessageType → Bool) → List (Msg json) → Option (Msg json)
  first_accepted accepts [] = none
  first_accepted accepts (m ∷ ms) =
      let later = first_accepted accepts ms in if accepts m.message_type then some m else later

  -- The messages of a block, if there is one.
  abbrev pub messages_of : Option MessageBlock → Result (List (Msg json))
  messages_of none = ok []
  messages_of (some b) = unpack_messages json b

  abbrev pub found_or : Option (Msg json) → Waited Value → Waited Value
  found_or none w = w
  found_or (some m) w = found m

  abbrev pub in_round : Result (Option (Msg json)) → Waited Value → Waited Value
  in_round (ok o) w = found_or o w
  in_round (err e) w = threw e

  -- The messages of a round, read and unpacked.
  abbrev pub received : Poll → Result (List (Msg json))
  received p = p.block >>= messages_of

  -- The `do` loop of `wait_for` and `wait_for_ack_or_nak`.
  unfoldable pub wait_loop : (MessageType → Bool) → ℕ → List Poll → Waited Value
  unfolding first_accepted
  wait_loop accepts milliseconds [] = polling
  wait_loop accepts milliseconds (p ∷ ps) =
      let more = wait_loop accepts milliseconds ps in
      in_round (received p >>= λ ms. ok (first_accepted accepts ms))
        (if ltb p.elapsed milliseconds then more else timed_out)

  unfoldable pub wait_for : MessageType → ℕ → List Poll → Waited Value
  unfolding wait_loop
  wait_for message_type = wait_loop (λ t. same_type t message_type)

  unfoldable pub wait_for_ack_or_nak : ℕ → List Poll → Waited Value
  unfolding wait_loop
  wait_for_ack_or_nak = wait_loop (λ t. same_type t ack || same_type t nak)

-- What a worker holds in one round: the messages to send, and the queue of messages to process.
pub record Routed (V : Type 0) : Type 0 where
  pub send_messages : List (Message V)
  pub messages_in : ThreadSafeQueue (Message V)

module _ (json : Json) where
  open json use {Value}

  -- The `switch` of both workers over a message that was read. The `assert` on an invalid type fails.
  unfoldable pub route_as : Bool → Msg json → Routed Value → MessageType → Result (Routed Value)
  route_as ndebug m r heartbeat =
      ok (record r { send_messages = r.send_messages ++ create_ack json ∷ [] })
  route_as ndebug m r ack = ok r
  route_as ndebug m r nak = ok r
  route_as ndebug m r invalid = if ndebug then ok r else err undefined
  route_as ndebug m r _ = ok (record r { messages_in = Queue.push r.messages_in m })

  abbrev pub route : Bool → Msg json → Routed Value → Result (Routed Value)
  route ndebug m r = route_as ndebug m r m.message_type

  unfoldable pub route_all : Bool → List (Msg json) → Routed Value → Result (Routed Value)
  unfolding route_as
  route_all ndebug [] r = ok r
  route_all ndebug (m ∷ ms) r = do r' ← route ndebug m r; route_all ndebug ms r'

  -- One round of `client_worker`, on the messages of the block that was read, if any: the messages
  -- that are sent, and the two queues after it.
  unfoldable pub worker_round :
      Bool
      → List (Msg json)
      → ThreadSafeQueue (Msg json)
      → ThreadSafeQueue (Msg json)
      → Result (List (Msg json) × ThreadSafeQueue (Msg json) × ThreadSafeQueue (Msg json))
  unfolding route_all
  worker_round ndebug ms messages_in messages_out = do
    r ← route_all ndebug ms (record { send_messages = []; messages_in = messages_in })
    ok (r.send_messages ++ messages_out.items, r.messages_in, Queue.new)

  -- `send_messages`: nothing is written for no message, and one block otherwise.
  unfoldable pub block_to_send : List (Msg json) → Result (Option MessageBlock)
  block_to_send [] = ok none
  block_to_send (m ∷ ms) = do b ← pack_messages json (m ∷ ms); ok (some b)

-- The times, in seconds, that `server_message_worker` keeps, and its flag for the user interface.
pub record Link : Type 0 where
  pub last_message_received : ℕ
  pub heartbeat_sent : Option ℕ
  pub waiting_on_server : Bool

abbrev pub heard : ℕ → Link → Link
heard now l = record {
  last_message_received = now;
  heartbeat_sent = none;
  waiting_on_server = false;
}

-- The outcome of the check for silence: nothing, a heartbeat to send, or the end of the loop.
pub data Check : Type 0 where
  goes_on : Link → Check
  sends_heartbeat : Link → Check
  gives_up : Check

-- `a - b > QUIET_TIMEOUT` on times
abbrev pub quiet : ℕ → ℕ → ℕ → Bool
quiet timeout a b = ltb (b + timeout) a

unfoldable pub check_silence : ℕ → ℕ → Link → Check
check_silence timeout now l =
    if quiet timeout now l.last_message_received
    then elim l.heartbeat_sent [
      | none ↦ sends_heartbeat (record l { heartbeat_sent = some now; waiting_on_server = true })
      | some sent ↦ if quiet timeout now sent then gives_up else goes_on l
    ]
    else goes_on l

-- One round, at time `now`, in which a block was read or not.
unfoldable pub link_round : ℕ → ℕ → Bool → Link → Check
unfolding check_silence
link_round timeout now got_block l =
    check_silence timeout now (if got_block then heard now l else l)

-- ===== src/Connection/Loops.antt =====
-- The two threads that serve a connection, from beginning to end: `client_worker` (src/server/
-- workers/client-worker.cpp) and `server_message_worker` (src/client/workers/
-- serverconnection-worker.cpp). The rounds are a list, with what each meets.
use tavernmx.Common.{
  ℕ, Bool, true, false, not, ◌||◌, Option, none, List, [], ◌∷◌, ◌++◌, if◌then◌else◌,
}
use tavernmx.Common.Text.{Text}
use tavernmx.Common.Result.{Result, ok, err, Error, transport_error, ◌>>=◌}
use tavernmx.Json.{Json, is_some}
use tavernmx.Messaging.{Message, Msg, hello, request_room_list, create_heartbeat}
use tavernmx.Messaging.Block.{MessageBlock}
use tavernmx.Queue
use tavernmx.Queue.{ThreadSafeQueue}
use tavernmx.Connection.{
  Poll, wait_for, messages_of, route_all, worker_round, Link, heard, Check, goes_on,
  sends_heartbeat, gives_up, link_round,
}
use tavernmx.Connection.Handshake.{Greeting, greeted, no_hello, still_waiting, failed, greet}

-- What a round meets: whether the connection is up, what is read or thrown, the messages that others
-- put into the queue to be sent, and whether sending returns.
pub record Round (V : Type 0) : Type 0 where
  pub connected : Bool
  pub block : Result (Option MessageBlock)
  pub arrived : List (Message V)
  pub sends : Bool

-- The queues of the connection, and all that was sent, in its order.
pub record Thread (V : Type 0) : Type 0 where
  pub messages_in : ThreadSafeQueue (Message V)
  pub messages_out : ThreadSafeQueue (Message V)
  pub written : List (Message V)

-- How a thread ends. `silent now` says that it gave up at that time; `still_running` that the given
-- rounds are used up.
pub data Ending : Type 0 where
  never_greeted disconnected shut_down still_running : Ending
  silent : ℕ → Ending
  threw : Error → Ending

abbrev pub is_nil {ℓ} : {A : Type ℓ} → List A → Bool
is_nil [] = true
is_nil (x ∷ xs) = false

abbrev pub arrive {ℓ} : {T : Type ℓ} → List T → ThreadSafeQueue T → ThreadSafeQueue T
arrive items q = record { items = q.items ++ items }

module _ (json : Json) where
  open json use {Value}

  -- `send_messages`, which writes nothing, and so cannot fail, for no message.
  abbrev pub send_all : Bool → List (Msg json) → Thread Value → Result (Thread Value)
  send_all sends ms t =
      if sends || is_nil ms
      then ok (record t { written = t.written ++ ms })
      else err transport_error

  -- One round of `client_worker`.
  unfoldable pub client_round : Bool → Round Value → Thread Value → Result (Thread Value)
  client_round ndebug r t = do
    block ← r.block
    ms ← messages_of json block
    (send_messages, messages_in, messages_out) ←
        worker_round json ndebug ms t.messages_in (arrive r.arrived t.messages_out)
    send_all r.sends send_messages
        (record t { messages_in = messages_in; messages_out = messages_out })

  -- Its loop. Where a round throws, the thread is given as it was before that round.
  unfoldable pub client_loop : Bool → List (Round Value) → Thread Value → Ending × Thread Value
  unfolding client_round
  client_loop ndebug [] t = (still_running, t)
  client_loop ndebug (r ∷ rs) t =
      if not r.connected then (disconnected, t) else elim (client_round ndebug r t) [
        | ok t' ↦ client_loop ndebug rs t'
        | err e ↦ (threw e, t)
      ]

  abbrev pub fresh : Thread Value
  fresh = record { messages_in = Queue.new; messages_out = Queue.new; written = [] }

  abbrev pub named : Text → Ending × Thread Value → Text × Ending × Thread Value
  named user_name (ending, t) = (user_name, ending, t)

  abbrev pub serve_greeted :
      Bool → Bool → List (Round Value) → Greeting Value → Text × Ending × Thread Value
  serve_greeted ndebug reply_sends rounds (greeted user_name reply) =
      if reply_sends
      then named user_name (client_loop ndebug rounds (record fresh { written = reply ∷ [] }))
      else (user_name, threw transport_error, fresh)
  serve_greeted ndebug reply_sends rounds no_hello = ([], never_greeted, fresh)
  serve_greeted ndebug reply_sends rounds still_waiting = ([], still_running, fresh)
  serve_greeted ndebug reply_sends rounds (failed e) = ([], threw e, fresh)

  -- The name of the user, how the thread ends, and what it leaves.
  unfoldable pub client_worker :
      Bool → ℕ → List Poll → Bool → List (Round Value) → Text × Ending × Thread Value
  unfolding client_loop
  client_worker ndebug limit polls reply_sends rounds =
      serve_greeted ndebug reply_sends rounds (greet json (wait_for json hello limit polls))

abbrev pub new_link : ℕ → Link
new_link start = record {
  last_message_received = start;
  heartbeat_sent = none;
  waiting_on_server = false;
}

-- A round of `server_message_worker`: whether `shutdown_connection_signal` was released, and the time.
pub record LinkRound (V : Type 0) : Type 0 where
  pub round : Round V
  pub shutdown_requested : Bool
  pub now : ℕ

-- How a round ends that does not throw.
pub data RoundEnd (V : Type 0) : Type 0 where
  goes_round : Thread V → Link → RoundEnd V
  is_silent : Thread V → Link → RoundEnd V

module _ (json : Json) where
  open json use {Value}

  abbrev pub go_on : Link → Result (Thread Value) → Result (RoundEnd Value)
  go_on l (ok t) = ok (goes_round t l)
  go_on l (err e) = err e

  -- The queue to send is emptied into what is sent.
  abbrev pub send_queued : Bool → List (Msg json) → Thread Value → Result (Thread Value)
  send_queued sends ms t =
      send_all json sends (ms ++ t.messages_out.items) (record t { messages_out = Queue.new })

  -- What follows the check for silence, given the messages to send so far.
  abbrev pub after_check :
      Bool → List (Msg json) → Link → Thread Value → Check → Result (RoundEnd Value)
  after_check sends ms l t (goes_on l') = go_on l' (send_queued sends ms t)
  after_check sends ms l t (sends_heartbeat l') =
      go_on l' (send_queued sends (ms ++ create_heartbeat json ∷ []) t)
  after_check sends ms l t gives_up = ok (is_silent t l)

  unfoldable pub message_round :
      Bool → ℕ → LinkRound Value → Thread Value → Link → Result (RoundEnd Value)
  message_round ndebug timeout x t l = do
    block ← x.round.block
    ms ← messages_of json block
    r ← route_all json ndebug ms (record { send_messages = []; messages_in = t.messages_in })
    after_check x.round.sends r.send_messages (if is_some block then heard x.now l else l)
        (record t {
          messages_in = r.messages_in;
          messages_out = arrive x.round.arrived t.messages_out;
        })
        (link_round timeout x.now (is_some block) l)

  unfoldable pub message_loop :
      Bool → ℕ → List (LinkRound Value) → Thread Value → Link → Ending × Thread Value × Link
  unfolding message_round
  message_loop ndebug timeout [] t l = (still_running, t, l)
  message_loop ndebug timeout (x ∷ xs) t l =
      if not x.round.connected
      then (disconnected, t, l)
      else if x.shutdown_requested
      then (shut_down, t, l)
      else elim (message_round ndebug timeout x t l) [
        | ok (goes_round t' l') ↦ message_loop ndebug timeout xs t' l'
        | ok (is_silent t' l') ↦ (silent x.now, t', l')
        | err e ↦ (threw e, t, l)
      ]

  -- The thread begins by asking for the list of rooms.
  unfoldable pub server_message_worker :
      Bool → ℕ → ℕ → Bool → List (LinkRound Value) → Ending × Thread Value × Link
  unfolding message_loop
  server_message_worker ndebug timeout start request_sends rounds =
      if request_sends
      then message_loop ndebug timeout rounds
          (record (fresh json) { written = request_room_list json ∷ [] }) (new_link start)
      else (threw transport_error, fresh json, new_link start)

-- Whether the thread of the client has released `connection_ended_signal`.
abbrev pub signals_end : Ending → Bool
signals_end still_running = false
signals_end shut_down = false
signals_end _ = true

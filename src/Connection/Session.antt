-- ===== src/Connection/Session.antt =====
-- What the threads of a connection do over a whole session.
use tavernmx.Common.{
  ℕ, ◌+◌, ◌≡◌, ◌∙◌, ap, arith, true, false, Option, List, [], ◌∷◌, ◌++◌, append_assoc, append-nil,
  ltb-false,
}
use tavernmx.Common.Text.{Text, lit}
use tavernmx.Common.Result.{ok}
use tavernmx.Json.{Json, is_some}
use tavernmx.Messaging.{Msg, hello, text_value, request_room_list, create_ack}
use tavernmx.Messaging.Block.{MessageBlock}
use tavernmx.Queue
use tavernmx.Queue.{ThreadSafeQueue}
use tavernmx.Connection.{Poll, found, wait_for, messages_of, Link, heard, link_round, check_silence}
use tavernmx.Connection.Routing.{acks, queued, worker_round_lem, route_all_fresh}
use tavernmx.Connection.Handshake.{greet}
use tavernmx.Connection.Loops.{
  Round, Thread, disconnected, shut_down, client_round, client_loop, client_worker, named,
  LinkRound, goes_round, message_round, message_loop, new_link, server_message_worker,
}

module _ (json : Json) where
  open json use {Value}

  -- A round in which all goes well, and the messages that are read in it.
  pub record IsGood (r : Round Value) (ms : List (Msg json)) : Type 0 where
    pub up : r.connected ≡ true
    pub block : Option MessageBlock
    pub received : r.block ≡ ok block
    pub read : messages_of json block ≡ ok ms
    pub sent : r.sends ≡ true

  abbrev pub AreGood : List (Round Value) → List (List (Msg json)) → Type 0
  AreGood [] [] = Unit
  AreGood (r ∷ rs) (ms ∷ mss) = IsGood r ms × AreGood rs mss
  AreGood _ _ = ⊥

  -- What is sent in these rounds: in each, the answers to heartbeats, then what was put in the queue.
  abbrev pub sent_in : List (Round Value) → List (List (Msg json)) → List (Msg json)
  sent_in [] mss = []
  sent_in (r ∷ rs) [] = []
  sent_in (r ∷ rs) (ms ∷ mss) = (acks json ms ++ r.arrived) ++ sent_in rs mss

  abbrev pub queued_in : List (List (Msg json)) → List (Msg json)
  queued_in [] = []
  queued_in (ms ∷ mss) = queued json ms ++ queued_in mss

  abbrev thread : List (Msg json) → List (Msg json) → Thread Value
  thread q w = record { messages_in = record { items = q }; messages_out = Queue.new; written = w }

  client_round_lem :
      (r : Round Value) (ms q w : List (Msg json))
      → IsGood r ms
      → client_round json true r (thread q w)
        ≡ ok (thread (q ++ queued json ms) (w ++ (acks json ms ++ r.arrived)))
  unfolding client_round
  client_round_lem r ms q w g =
      rw (g.received, g.read, worker_round_lem json ms r.arrived q, g.sent)

  client_loop_lem :
      (rs : List (Round Value)) (mss : List (List (Msg json))) (last : Round Value)
      (later : List (Round Value)) (q w : List (Msg json))
      → AreGood rs mss
      → last.connected ≡ false
      → client_loop json true (rs ++ last ∷ later) (thread q w)
        ≡ (disconnected, thread (q ++ queued_in mss) (w ++ sent_in rs mss))
  unfolding client_loop
  client_loop_lem [] [] last later q w g d = rw (d, append-nil q, append-nil w)
  client_loop_lem [] (ms ∷ mss) last later q w g d = absurd g
  client_loop_lem (r ∷ rs) [] last later q w g d = absurd g
  client_loop_lem (r ∷ rs) (ms ∷ mss) last later q w g d =
      rw (g.0.up, client_round_lem r ms q w g.0)
        (client_loop_lem rs mss last later (q ++ queued json ms) (w ++ (acks json ms ++ r.arrived))
            g.1 d
          ∙ (λ i. (
            disconnected,
            thread (append_assoc q (queued json ms) (queued_in mss) i)
                (append_assoc w (acks json ms ++ r.arrived) (sent_in rs mss) i),
          )))

  -- A session on the server, with asserts compiled out. If a HELLO is heard and its user name can be
  -- read, the reply goes out, and the connection then is up for some rounds in which nothing is thrown:
  -- the worker of the client ends when the connection is found to be down. It has sent the ACK for the
  -- HELLO, and then, round by round, one ACK for each HEARTBEAT followed by all that was put into the
  -- queue to be sent; nothing is left there; and it has queued for processing, in their order, all
  -- that was read except HEARTBEAT, ACK, NAK and invalid messages.
  pub client_worker_lem :
      (limit : ℕ) (polls : List Poll) (m : Msg json) (user_name : Text) (rs : List (Round Value))
      (mss : List (List (Msg json))) (last : Round Value) (later : List (Round Value))
      → wait_for json hello limit polls ≡ found m
      → text_value json m (lit "user_name") ≡ ok user_name
      → AreGood rs mss
      → last.connected ≡ false
      → client_worker json true limit polls true (rs ++ last ∷ later) ≡ (
        user_name,
        disconnected,
        record {
          messages_in = record { items = queued_in mss };
          messages_out = Queue.new;
          written = create_ack json ∷ sent_in rs mss;
        },
      )
  unfolding client_worker greet
  client_worker_lem limit polls m user_name rs mss last later heard_hello named_user g d =
      rw (heard_hello, named_user)
        (ap (named json user_name)
          (client_loop_lem rs mss last later [] (create_ack json ∷ []) g d))

  -- A round of the thread of the client in which a block is read and all goes well.
  pub record IsLively (x : LinkRound Value) (ms : List (Msg json)) : Type 0 where
    pub good : IsGood x.round ms
    pub block_read : is_some good.block ≡ true
    pub unasked : x.shutdown_requested ≡ false

  abbrev pub AreLively : List (LinkRound Value) → List (List (Msg json)) → Type 0
  AreLively [] [] = Unit
  AreLively (x ∷ xs) (ms ∷ mss) = IsLively x ms × AreLively xs mss
  AreLively _ _ = ⊥

  abbrev pub rounds_of : List (LinkRound Value) → List (Round Value)
  rounds_of [] = []
  rounds_of (x ∷ xs) = x.round ∷ rounds_of xs

  abbrev pub last_heard : List (LinkRound Value) → Link → Link
  last_heard [] l = l
  last_heard (x ∷ xs) l = last_heard xs (heard x.now l)

  message_round_lem :
      (timeout : ℕ) (x : LinkRound Value) (ms q w : List (Msg json)) (l : Link)
      → IsLively x ms
      → message_round json true timeout x (thread q w) l
        ≡ ok (
            goes_round
              (thread (q ++ queued json ms) (w ++ (acks json ms ++ x.round.arrived)))
              (heard x.now l))
  unfolding message_round link_round check_silence
  message_round_lem timeout x ms q w l v = rw (
    v.good.received,
    v.good.read,
    v.block_read,
    route_all_fresh json ms q,
    ltb-false (x.now + timeout) x.now (omega arith),
    v.good.sent,
  )

  message_loop_lem :
      (timeout : ℕ) (xs : List (LinkRound Value)) (mss : List (List (Msg json)))
      (last : LinkRound Value) (later : List (LinkRound Value)) (q w : List (Msg json)) (l : Link)
      → AreLively xs mss
      → last.round.connected ≡ true
      → last.shutdown_requested ≡ true
      → message_loop json true timeout (xs ++ last ∷ later) (thread q w) l ≡ (
        shut_down,
        thread (q ++ queued_in mss) (w ++ sent_in (rounds_of xs) mss),
        last_heard xs l,
      )
  unfolding message_loop
  message_loop_lem timeout [] [] last later q w l v c r = rw (c, r, append-nil q, append-nil w)
  message_loop_lem timeout [] (ms ∷ mss) last later q w l v c r = absurd v
  message_loop_lem timeout (x ∷ xs) [] last later q w l v c r = absurd v
  message_loop_lem timeout (x ∷ xs) (ms ∷ mss) last later q w l v c r =
      rw (v.0.good.up, v.0.unasked, message_round_lem timeout x ms q w l v.0)
        (message_loop_lem timeout xs mss last later (q ++ queued json ms)
            (w ++ (acks json ms ++ x.round.arrived)) (heard x.now l) v.1 c r
          ∙ (λ i. (
            shut_down,
            thread (append_assoc q (queued json ms) (queued_in mss) i)
                (append_assoc w (acks json ms ++ x.round.arrived) (sent_in (rounds_of xs) mss) i),
            last_heard xs (heard x.now l),
          )))

  -- A session on the client, with asserts compiled out. If the request for the rooms goes out, and then
  -- a block is read in each of some rounds in which nothing is thrown, until the user interface asks
  -- for the end: the thread shuts the connection down without signalling that it was lost. It has
  -- sent the request, no heartbeat, and, round by round, one ACK for each HEARTBEAT followed by all that
  -- was put into the queue to be sent; and it has queued for the user interface, in their order, all
  -- that was read except HEARTBEAT, ACK, NAK and invalid messages.
  pub server_message_worker_lem :
      (timeout start : ℕ) (xs : List (LinkRound Value)) (mss : List (List (Msg json)))
      (last : LinkRound Value) (later : List (LinkRound Value))
      → AreLively xs mss
      → last.round.connected ≡ true
      → last.shutdown_requested ≡ true
      → server_message_worker json true timeout start true (xs ++ last ∷ later) ≡ (
        shut_down,
        record {
          messages_in = record { items = queued_in mss };
          messages_out = Queue.new;
          written = request_room_list json ∷ sent_in (rounds_of xs) mss;
        },
        last_heard xs (new_link start),
      )
  unfolding server_message_worker
  server_message_worker_lem timeout start xs mss last later v c r =
      message_loop_lem timeout xs mss last later [] (request_room_list json ∷ []) (new_link start) v
        c r

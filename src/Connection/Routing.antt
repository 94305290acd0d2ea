-- ===== src/Connection/Routing.antt =====
-- What one round of a worker answers, queues and sends.
use tavernmx.Common.{
  ◌≡◌, ◌∙◌, sym, ap, Bool, true, false, List, [], ◌∷◌, ◌++◌, append_assoc, append-nil, Bool-cases,
  inl, inr, if◌then◌else◌,
}
use tavernmx.Common.Result.{ok}
use tavernmx.Json.{Json}
use tavernmx.Messaging.{Msg, MessageType, invalid, ack, nak, heartbeat, create_ack}
use tavernmx.Queue
use tavernmx.Queue.{ThreadSafeQueue}
use tavernmx.Connection.{Routed, route_as, route_all, worker_round}

-- The messages that get an answer at once, and those that are queued for processing.
abbrev pub is_heartbeat : MessageType → Bool
is_heartbeat heartbeat = true
is_heartbeat _ = false

abbrev pub is_queued : MessageType → Bool
is_queued heartbeat = false
is_queued ack = false
is_queued nak = false
is_queued invalid = false
is_queued _ = true

module _ (json : Json) where
  open json use {Value}

  unfoldable pub acks : List (Msg json) → List (Msg json)
  acks [] = []
  acks (m ∷ ms) =
      let rest = acks ms in if is_heartbeat m.message_type then create_ack json ∷ rest else rest

  unfoldable pub queued : List (Msg json) → List (Msg json)
  queued [] = []
  queued (m ∷ ms) = let rest = queued ms in if is_queued m.message_type then m ∷ rest else rest

  abbrev answered : MessageType → List (Msg json)
  answered t = if is_heartbeat t then create_ack json ∷ [] else []

  abbrev kept : Msg json → MessageType → List (Msg json)
  kept m t = if is_queued t then m ∷ [] else []

  routed : List (Msg json) → List (Msg json) → Routed Value
  routed s q = record { send_messages = s; messages_in = record { items = q } }

  unchanged : (s q : List (Msg json)) → ok (routed s q) ≡ ok (routed (s ++ []) (q ++ []))
  unchanged s q = ap ok (λ i. routed (sym (append-nil s) i) (sym (append-nil q) i))

  acks_step :
      (m : Msg json) (ms : List (Msg json)) → answered m.message_type ++ acks ms ≡ acks (m ∷ ms)
  unfolding acks
  acks_step m ms = elim (Bool-cases (is_heartbeat m.message_type)) [ inl e ↦ rw e | inr e ↦ rw e ]

  queued_step :
      (m : Msg json) (ms : List (Msg json)) → kept m m.message_type ++ queued ms ≡ queued (m ∷ ms)
  unfolding queued
  queued_step m ms = elim (Bool-cases (is_queued m.message_type)) [ inl e ↦ rw e | inr e ↦ rw e ]

  route_as_lem :
      (m : Msg json) (s q : List (Msg json)) (t : MessageType)
      → route_as json true m (routed s q) t ≡ ok (routed (s ++ answered t) (q ++ kept m t))
  unfolding route_as routed Queue.push
  route_as_lem m s q heartbeat =
      ap (λ l. ok (routed (s ++ create_ack json ∷ []) l)) (sym (append-nil q))
  route_as_lem m s q ack = unchanged s q
  route_as_lem m s q nak = unchanged s q
  route_as_lem m s q invalid = unchanged s q
  route_as_lem m s q _ = ap (λ l. ok (routed l (q ++ m ∷ []))) (sym (append-nil s))

  route_all_lem :
      (ms s q : List (Msg json))
      → route_all json true ms (routed s q) ≡ ok (routed (s ++ acks ms) (q ++ queued ms))
  unfolding route_all acks queued
  route_all_lem [] s q = unchanged s q
  route_all_lem (m ∷ ms) s q = rw (route_as_lem m s q m.message_type) (
      route_all_lem ms (s ++ answered m.message_type) (q ++ kept m m.message_type)
      ∙ ap ok (λ i.
        routed
          ((append_assoc s (answered m.message_type) (acks ms) ∙ ap (λ l. s ++ l) (acks_step m ms))
            i)
          ((append_assoc q (kept m m.message_type) (queued ms)
              ∙ ap (λ l. q ++ l) (queued_step m ms))
            i)))

  -- What a worker routes in one round, from nothing to send.
  pub route_all_fresh :
      (ms pending : List (Msg json))
      → route_all json true ms
          (record { send_messages = []; messages_in = record { items = pending } })
        ≡ ok (record {
          send_messages = acks ms;
          messages_in = record { items = pending ++ queued ms };
        })
  unfolding routed
  route_all_fresh ms pending = route_all_lem ms [] pending

  -- With asserts compiled out, one round of a worker always completes: it sends one ACK for each
  -- HEARTBEAT that it read, followed by all the messages that waited to be sent, in their order, and
  -- leaves none waiting; and it queues for processing, in their order, all that it read except
  -- HEARTBEAT, ACK, NAK and invalid messages.
  pub worker_round_lem :
      (ms waiting pending : List (Msg json))
      → worker_round json true ms (record { items = pending }) (record { items = waiting })
        ≡ ok (acks ms ++ waiting, record { items = pending ++ queued ms }, Queue.new)
  unfolding worker_round
  worker_round_lem ms waiting pending = rw (route_all_fresh ms pending)

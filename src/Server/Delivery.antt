-- ===== src/Server/Delivery.antt =====
-- Which messages a round of the server worker queues for each client.
use tavernmx.Common.{
  ℕ, ◌≡◌, ◌≢◌, ◌∙◌, refl, sym, ap, Bool, true, false, ◌&&◌, Option, none, some, List, [], ◌∷◌, ◌++◌,
  map, arith, append_assoc, append-nil, All, any_of, ◌==◌, ==_of_ne, Bool-cases, inl, inr,
  if◌then◌else◌,
}
use tavernmx.Common.Text.{Text}
use tavernmx.Json.{Json}
use tavernmx.Messaging.{Message, Msg, create_room_create, create_room_destroy}
use tavernmx.Queue
use tavernmx.Rooms.{name_of}
use tavernmx.Server.{ClientConnection, ServerRoom, server_room, clean_expired_clients, keep_alive}
use tavernmx.Server.Worker.{Worker, change_client, push_out}
use tavernmx.Server.Round.{
  push_all, announce, push_messages, push_joined, notify, echo, room_events_to_messages, distribute,
  distribute_events, clean_up,
}
use tavernmx.Server.Sound.{NoRepeat, JoinedOnce, IsSound, keep_alive-NoRepeat}

at_eq : (a b : ℕ) → (a == b) ≡ true → a ≡ b
at_eq a b h = ground arith

not_among :
    (j id : ℕ) (ids : List ℕ) → j ≡ id → All (λ d. j ≢ d) ids → any_of (λ c. c == id) ids ≡ false
not_among j id [] e h = refl
not_among j id (d ∷ ids) e h =
    let other : (d == id) ≡ false = ==_of_ne d id (λ q. h.0 (e ∙ sym q)) in
    rw other (not_among j id ids e h.1)

module _ {V : Type 0} where
  -- The messages queued for a client, if it is in the snapshot.
  unfoldable pub outbox : ℕ → List (ClientConnection V) → Option (List (Message V))
  outbox id [] = none
  outbox id (c ∷ cs) = if c.id == id then some c.messages_out.items else outbox id cs

  -- More messages queued behind those.
  abbrev pub and_then : List (Message V) → Option (List (Message V)) → Option (List (Message V))
  and_then ms none = none
  and_then ms (some sent) = some (sent ++ ms)

  and_then-[] : (o : Option (List (Message V))) → and_then [] o ≡ o
  and_then-[] none = refl
  and_then-[] (some sent) = ap some (append-nil sent)

  and_then-++ :
      (ms ns : List (Message V)) (o : Option (List (Message V)))
      → and_then ns (and_then ms o) ≡ and_then (ms ++ ns) o
  and_then-++ ms ns none = refl
  and_then-++ ms ns (some sent) = ap some (append_assoc sent ms ns)

  push_messages_lem :
      (ms : List (Message V)) (c : ClientConnection V)
      → ((push_messages ms c).id ≡ c.id)
        × ((push_messages ms c).messages_out.items ≡ c.messages_out.items ++ ms)
  unfolding Queue.push
  push_messages_lem [] c = (refl, sym (append-nil c.messages_out.items))
  push_messages_lem (m ∷ ms) c =
      let (same, queued) = push_messages_lem ms (push_out m c) in
      (same, queued ∙ append_assoc c.messages_out.items (m ∷ []) ms)

  outbox-change :
      (id j : ℕ) (ms : List (Message V)) (cs : List (ClientConnection V))
      → outbox id (change_client j (push_messages ms) cs)
        ≡ (if j == id then and_then ms (outbox id cs) else outbox id cs)
  unfolding outbox change_client
  outbox-change id j ms [] = elim (Bool-cases (j == id)) [ inl e ↦ rw e | inr e ↦ rw e ]
  outbox-change id j ms (c ∷ cs) = elim (Bool-cases (c.id == j)) [
    | inl here ↦
        let at_j : c.id ≡ j = ground arith in
        let (same, queued) = push_messages_lem ms c in
        elim (Bool-cases (j == id)) [
          | inl e ↦ rw (here, same, queued, at_j, e)
          | inr e ↦ rw (here, same, queued, at_j, e)
        ]
    | inr there ↦ elim (Bool-cases (c.id == id)) [
      | inl mine ↦ let other : (j == id) ≡ false = ground arith in rw (there, mine, other)
      | inr other ↦ rw (there, other) (outbox-change id j ms cs)
    ]
  ]

  outbox-push_all :
      (id : ℕ) (m : Message V) (cs : List (ClientConnection V))
      → outbox id (push_all m cs) ≡ and_then (m ∷ []) (outbox id cs)
  unfolding outbox Queue.push
  outbox-push_all id m [] = refl
  outbox-push_all id m (c ∷ cs) = elim (Bool-cases (c.id == id)) [
    | inl e ↦ rw e
    | inr e ↦ rw e (outbox-push_all id m cs)
  ]

  outbox-announce :
      (id : ℕ) (create : Text → Message V) (ns : List Text) (cs : List (ClientConnection V))
      → outbox id (announce create ns cs) ≡ and_then (map create ns) (outbox id cs)
  unfolding announce
  outbox-announce id create [] cs = sym (and_then-[] _)
  outbox-announce id create (n ∷ ns) cs =
      outbox-announce id create ns _
      ∙ ap (and_then (map create ns)) (outbox-push_all id (create n) cs)
      ∙ and_then-++ (create n ∷ []) (map create ns) (outbox id cs)

  push_joined-absent :
      (id : ℕ) (alive : ℕ → Bool) (ids : List ℕ) (ms : List (Message V))
      (cs : List (ClientConnection V))
      → any_of (λ c. c == id) ids ≡ false
      → outbox id (push_joined alive ids ms cs) ≡ outbox id cs
  unfolding push_joined
  push_joined-absent id alive [] ms cs h = refl
  push_joined-absent id alive (j ∷ ids) ms cs h =
      let other : (j == id) ≡ false = ground arith in
      let rest : any_of (λ c. c == id) ids ≡ false = ground arith in
      elim (Bool-cases (alive j)) [
        | inl live ↦
            rw live
              (push_joined-absent id alive ids ms _ rest ∙ outbox-change id j ms cs ∙ rw other)
        | inr gone ↦ rw gone (push_joined-absent id alive ids ms _ rest)
      ]

  outbox-push_joined :
      (id : ℕ) (alive : ℕ → Bool) (ids : List ℕ) (ms : List (Message V))
      (cs : List (ClientConnection V))
      → NoRepeat ids
      → outbox id (push_joined alive ids ms cs)
        ≡ and_then (if alive id && any_of (λ c. c == id) ids then ms else []) (outbox id cs)
  unfolding push_joined
  outbox-push_joined id alive [] ms cs once = elim (Bool-cases (alive id)) [
    | inl e ↦ rw e (sym (and_then-[] _))
    | inr e ↦ rw e (sym (and_then-[] _))
  ]
  outbox-push_joined id alive (j ∷ ids) ms cs once = elim (Bool-cases (j == id)) [
    | inl here ↦
        let at_id : j ≡ id = ground arith in
        let later : any_of (λ c. c == id) ids ≡ false = not_among j id ids at_id once.0 in
        elim (Bool-cases (alive id)) [
          | inl live ↦
              let live_j : alive j ≡ true = rw at_id live in
              rw (live_j, live, here)
                (push_joined-absent id alive ids ms _ later ∙ outbox-change id j ms cs ∙ rw here)
          | inr gone ↦
              let gone_j : alive j ≡ false = rw at_id gone in
              rw (gone_j, gone)
                (push_joined-absent id alive ids ms cs later ∙ sym (and_then-[] (outbox id cs)))
        ]
    | inr there ↦ elim (Bool-cases (alive j)) [
      | inl live ↦
          let same : outbox id (change_client j (push_messages ms) cs) ≡ outbox id cs =
            outbox-change id j ms cs ∙ rw there in
          rw (live, there)
            (outbox-push_joined id alive ids ms _ once.1
              ∙ ap (and_then (if alive id && any_of (λ c. c == id) ids then ms else [])) same)
      | inr gone ↦ rw (gone, there) (outbox-push_joined id alive ids ms cs once.1)
    ]
  ]

any_of-keep :
    (id : ℕ) (alive : ℕ → Bool) (ids : List ℕ)
    → (alive id && any_of (λ c. c == id) (keep_alive alive ids))
      ≡ (alive id && any_of (λ c. c == id) ids)
unfolding keep_alive
any_of-keep id alive [] = refl
any_of-keep id alive (j ∷ ids) = elim (Bool-cases (alive j)) [
  | inl live ↦ elim (Bool-cases (j == id)) [
    | inl here ↦ rw (live, here)
    | inr there ↦ rw (live, there) (any_of-keep id alive ids)
  ]
  | inr gone ↦ elim (Bool-cases (j == id)) [
    | inl here ↦ let gone_id : alive id ≡ false = rw⁻¹ (at_eq j id here) gone in rw (gone, gone_id)
    | inr there ↦ rw (gone, there) (any_of-keep id alive ids)
  ]
]

module _ (json : Json) where
  open json use {Value}

  -- What step 2b owes a client: an echo of each event of each room that it is joined to.
  unfoldable pub echoes : ℕ → (ℕ → Bool) → List ServerRoom → List (Msg json)
  echoes id alive [] = []
  echoes id alive (r ∷ rs) =
      (if alive id && any_of (λ c. c == id) r.joined_clients
        then map (echo json (name_of r)) r.events.items
        else [])
      ++ echoes id alive rs

  outbox-distribute :
      (id : ℕ) (alive : ℕ → Bool) (rs : List ServerRoom) (cs : List (ClientConnection Value))
      → JoinedOnce rs
      → outbox id (distribute json alive rs cs).1 ≡ and_then (echoes id alive rs) (outbox id cs)
  unfolding distribute room_events_to_messages clean_expired_clients echoes
  outbox-distribute id alive [] cs once = sym (and_then-[] _)
  outbox-distribute id alive (r ∷ rs) cs once =
      let kept = keep_alive-NoRepeat alive r.joined_clients once.0 in
      let ms = map (echo json (name_of r)) r.events.items in
      outbox-distribute id alive rs _ once.1
      ∙ ap (and_then (echoes id alive rs))
          (outbox-push_joined id alive (keep_alive alive r.joined_clients) ms cs kept)
      ∙ and_then-++ _ (echoes id alive rs) (outbox id cs)
      ∙ ap (λ b. and_then ((if b then ms else []) ++ echoes id alive rs) (outbox id cs))
          (any_of-keep id alive r.joined_clients)

  -- From the state that step 1 of a round leaves, where no client is joined to a room twice, the rest
  -- of the round appends to the messages queued for each client of the snapshot, in this order: one
  -- ROOM_CREATE for each new room, one ROOM_DESTROY for each destroyed room, and, if the client still
  -- exists, one CHAT_ECHO for each event of each room it is joined to, by room and then by time. No
  -- client gets anything else, and none is added or lost.
  pub round-outbox :
      (id : ℕ) (alive : ℕ → Bool) (g : Worker Value)
      → IsSound g
      → outbox id (clean_up json (distribute_events json alive (notify json g))).clients
        ≡ and_then
            (map (create_room_create json) g.new_rooms
              ++ (map (create_room_destroy json) g.destroyed_rooms
                  ++ echoes id alive g.rooms.active_rooms))
            (outbox id g.clients)
  unfolding clean_up distribute_events notify
  round-outbox id alive g s =
      let made = map (create_room_create json) g.new_rooms in
      let gone = map (create_room_destroy json) g.destroyed_rooms in
      let shared = echoes id alive g.rooms.active_rooms in
      outbox-distribute id alive g.rooms.active_rooms _ s.joined_once
      ∙ ap (and_then shared) (
          outbox-announce id (create_room_destroy json) g.destroyed_rooms _
          ∙ ap (and_then gone) (outbox-announce id (create_room_create json) g.new_rooms g.clients)
          ∙ and_then-++ made gone (outbox id g.clients))
      ∙ and_then-++ (made ++ gone) shared (outbox id g.clients)
      ∙ ap (λ ms. and_then ms (outbox id g.clients)) (append_assoc made gone shared)

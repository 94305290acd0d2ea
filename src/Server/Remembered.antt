-- ===== src/Server/Remembered.antt =====
-- The chat history as a map from rooms to what was said in them.
use tavernmx.Common.{
  ◌≡◌, ◌≢◌, ◌∙◌, refl, sym, ap, subst, false, Option, none, some, List, [], ◌∷◌, ◌++◌, arith, All,
  Bool-cases, inl, inr, if◌then◌else◌,
}
use tavernmx.Common.Maps.{lookup-put}
use tavernmx.Common.Text.{Text, text_eq, text_eq-false, text_eq_of, text_ne_of}
use tavernmx.Common.Result.{ok}
use tavernmx.RingBuffer
use tavernmx.RingBuffer.{RingBuffer}
use tavernmx.RingBuffer.Refine.{last_n, insert_all}
use tavernmx.RingBuffer.History.{iterate-insert_all}
use tavernmx.Json.{lookup, or_undefined}
use tavernmx.Server.{RoomEvent}
use tavernmx.Server.History.{
  RoomHistory, chat_room_history_size, no_history, buffer_of, put, erase,
  insert_event_into_room_history, events_of,
}

abbrev Avoids : Text → RoomHistory → Type 0
Avoids n h = All (λ p. n ≢ p.0) h

-- No key occurs twice.
abbrev KeysOnce : RoomHistory → Type 0
KeysOnce [] = Unit
KeysOnce ((n, b) ∷ h) = Avoids n h × KeysOnce h

Avoids-put :
    (m n : Text) (b : RingBuffer RoomEvent) (h : RoomHistory)
    → m ≢ n
    → Avoids m h
    → Avoids m (put n b h)
unfolding put
Avoids-put m n b [] ne a = (ne, tt)
Avoids-put m n b ((k, c) ∷ h) ne a = elim (Bool-cases (text_eq k n)) [
  | inl e ↦ rw e (ne, a.1)
  | inr e ↦ rw e (a.0, Avoids-put m n b h ne a.1)
]

put-KeysOnce :
    (n : Text) (b : RingBuffer RoomEvent) (h : RoomHistory) → KeysOnce h → KeysOnce (put n b h)
unfolding put
put-KeysOnce n b [] o = (tt, tt)
put-KeysOnce n b ((k, c) ∷ h) o = elim (Bool-cases (text_eq k n)) [
  | inl e ↦ rw e (subst (λ q. Avoids q h) (text_eq_of k n e) o.0, o.1)
  | inr e ↦ rw e (Avoids-put k n b h (text_ne_of k n e) o.0, put-KeysOnce n b h o.1)
]

Avoids-erase : (m n : Text) (h : RoomHistory) → Avoids m h → Avoids m (erase n h)
unfolding erase
Avoids-erase m n [] a = tt
Avoids-erase m n ((k, c) ∷ h) a = elim (Bool-cases (text_eq k n)) [
  | inl e ↦ rw e a.1
  | inr e ↦ rw e (a.0, Avoids-erase m n h a.1)
]

erase-KeysOnce : (n : Text) (h : RoomHistory) → KeysOnce h → KeysOnce (erase n h)
unfolding erase
erase-KeysOnce n [] o = tt
erase-KeysOnce n ((k, c) ∷ h) o = elim (Bool-cases (text_eq k n)) [
  | inl e ↦ rw e o.1
  | inr e ↦ rw e (Avoids-erase k n h o.0, erase-KeysOnce n h o.1)
]

lookup-Avoids : (k : Text) (h : RoomHistory) → Avoids k h → lookup k h ≡ none
unfolding lookup
lookup-Avoids k [] a = refl
lookup-Avoids k ((m, c) ∷ h) a = rw (text_eq-false m k (λ q. a.0 (sym q))) (lookup-Avoids k h a.1)

lookup-erase :
    (n k : Text) (h : RoomHistory)
    → KeysOnce h
    → lookup k (erase n h) ≡ (if text_eq n k then none else lookup k h)
unfolding erase lookup
lookup-erase n k [] o = elim (Bool-cases (text_eq n k)) [ inl e ↦ rw e | inr e ↦ rw e ]
lookup-erase n k ((m, c) ∷ h) o = elim (Bool-cases (text_eq m n)) [
  | inl e ↦ elim (Bool-cases (text_eq n k)) [
    | inl e' ↦
        rw (e, e')
          (lookup-Avoids k h (subst (λ q. Avoids q h) (text_eq_of m n e ∙ text_eq_of n k e') o.0))
    | inr e' ↦ let other : text_eq m k ≡ false = rw (text_eq_of m n e) e' in rw (e, e', other)
  ]
  | inr e ↦ elim (Bool-cases (text_eq m k)) [
    | inl e' ↦
        let other : text_eq n k ≡ false =
          text_eq-false n k (λ q. text_ne_of m n e (text_eq_of m k e' ∙ sym q)) in
        rw (e, lookup, e', other)
    | inr e' ↦ rw (e, lookup, e') (lookup-erase n k h o.1)
  ]
]

-- What the worker does with the history: record an event of a room, and forget a destroyed room.
pub data Change : Type 0 where
  says : Text → RoomEvent → Change
  forgets : Text → Change

unfoldable pub change_history : RoomHistory → List Change → RoomHistory
change_history h [] = h
change_history h (says n e ∷ cs) = change_history (insert_event_into_room_history h n e) cs
change_history h (forgets n ∷ cs) = change_history (erase n h) cs

-- The events of one room since it was last forgotten, after those of `before`.
unfoldable pub said_in : Text → List RoomEvent → List Change → List RoomEvent
said_in k before [] = before
said_in k before (says n e ∷ cs) =
    let mine = said_in k (before ++ e ∷ []) cs in
    let others = said_in k before cs in if text_eq n k then mine else others
said_in k before (forgets n ∷ cs) =
    let gone = said_in k [] cs in
    let kept = said_in k before cs in if text_eq n k then gone else kept

insert_none : no_history ≡ insert_all chat_room_history_size no_history []
unfolding insert_all
insert_none = refl

insert_all-snoc :
    (r : RingBuffer RoomEvent) (vs : List RoomEvent) (v : RoomEvent)
    → RingBuffer.insert chat_room_history_size (insert_all chat_room_history_size r vs) v
      ≡ insert_all chat_room_history_size r (vs ++ v ∷ [])
unfolding insert_all
insert_all-snoc r [] v = refl
insert_all-snoc r (u ∷ vs) v = insert_all-snoc (RingBuffer.insert chat_room_history_size r u) vs v

buffer-change_history :
    (k : Text) (h : RoomHistory) (before : List RoomEvent) (cs : List Change)
    → KeysOnce h
    → buffer_of (lookup k h) ≡ insert_all chat_room_history_size no_history before
    → buffer_of (lookup k (change_history h cs))
      ≡ insert_all chat_room_history_size no_history (said_in k before cs)
unfolding change_history said_in insert_event_into_room_history
buffer-change_history k h before [] o e = e
buffer-change_history k h before (says n v ∷ cs) o e =
    let b = RingBuffer.insert chat_room_history_size (buffer_of (lookup n h)) v in
    let found = lookup-put n k b h in
    let once = put-KeysOnce n b h o in
    elim (Bool-cases (text_eq n k)) [
      | inl e' ↦
          let mine : lookup k (put n b h) ≡ some b = found ∙ rw e' in
          let stored : b ≡ insert_all chat_room_history_size no_history (before ++ v ∷ []) =
            ap (λ o. RingBuffer.insert chat_room_history_size (buffer_of (lookup o h)) v)
              (text_eq_of n k e')
            ∙ ap (λ r. RingBuffer.insert chat_room_history_size r v) e
            ∙ insert_all-snoc no_history before v in
          rw e' (
            buffer-change_history k (put n b h) (before ++ v ∷ []) cs once
              (ap buffer_of mine ∙ stored))
      | inr e' ↦
          let others : lookup k (put n b h) ≡ lookup k h = found ∙ rw e' in
          rw e' (buffer-change_history k (put n b h) before cs once (ap buffer_of others ∙ e))
    ]
buffer-change_history k h before (forgets n ∷ cs) o e =
    let found = lookup-erase n k h o in
    let once = erase-KeysOnce n h o in
    elim (Bool-cases (text_eq n k)) [
      | inl e' ↦
          let gone : lookup k (erase n h) ≡ none = found ∙ rw e' in
          rw e' (buffer-change_history k (erase n h) [] cs once (ap buffer_of gone ∙ insert_none))
      | inr e' ↦
          let others : lookup k (erase n h) ≡ lookup k h = found ∙ rw e' in
          rw e' (buffer-change_history k (erase n h) before cs once (ap buffer_of others ∙ e))
    ]

pub events_of_lem :
    (o : Option (RingBuffer RoomEvent))
    → events_of o ≡ or_undefined (RingBuffer.iterate chat_room_history_size (buffer_of o))
unfolding insert_all last_n
events_of_lem none =
    ap or_undefined
      (sym (iterate-insert_all chat_room_history_size (omega arith) (omega arith) []).0)
events_of_lem (some b) = refl

-- From an empty history, whatever events are recorded and whatever rooms are forgotten, in any order:
-- the events that are read back for a room are the last 999 of those recorded for it since it was
-- last forgotten, oldest first, and reading them is always defined.
pub history_remembers :
    (k : Text) (cs : List Change)
    → events_of (lookup k (change_history [] cs)) ≡ ok (last_n 999 (said_in k [] cs))
history_remembers k cs =
    events_of_lem (lookup k (change_history [] cs))
    ∙ ap (λ r. or_undefined (RingBuffer.iterate chat_room_history_size r))
        (buffer-change_history k [] [] cs tt (unfold lookup in unfold insert_all in refl))
    ∙ ap or_undefined
        (iterate-insert_all chat_room_history_size (omega arith) (omega arith) (said_in k [] cs)).0

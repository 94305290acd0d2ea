-- ===== src/Server/Manager.antt =====
-- `ClientConnectionManager` of src/server/clientconnection.cpp. A connection is its id, `accept_bio`
-- tells whether there is one, and what OpenSSL and the network answer is an argument of each call.
use tavernmx.Common.{
  ℕ, ◌≡◌, ◌∙◌, refl, sym, ap, Bool, true, false, not, ◌||◌, Option, none, some, List, [], ◌∷◌, ◌++◌,
  append-nil, arith, if◌then◌else◌,
}

pub record ClientConnectionManager : Type 0 where
  pub active_connections : List ℕ
  pub accept_bio : Bool

-- What `await_next_connection` gives: a client or none, or a ServerError is thrown.
pub data Awaited : Type 0 where
  awaited : Option ℕ → Awaited
  server_error : Awaited

-- `std::erase_if`.
abbrev pub erase_if : (ℕ → Bool) → List ℕ → List ℕ
erase_if p [] = []
erase_if p (c ∷ cs) = if p c then erase_if p cs else c ∷ erase_if p cs

abbrev pub new_manager : ClientConnectionManager
new_manager = record { active_connections = []; accept_bio = false }

-- `bound` tells whether the first `BIO_do_accept` gives 1. The result is false if it throws, which
-- leaves the new BIO in place.
abbrev pub begin_accept : Bool → ClientConnectionManager → ClientConnectionManager × Bool
begin_accept bound m =
    if m.accept_bio
    then (m, true)
    else (record { active_connections = m.active_connections; accept_bio = true }, bound)

abbrev cleanup_connections : (ℕ → Bool) → ClientConnectionManager → ClientConnectionManager
cleanup_connections is_connected m = record {
  active_connections = erase_if (λ c. not (is_connected c)) m.active_connections;
  accept_bio = m.accept_bio;
}

abbrev add_connection : ℕ → ClientConnectionManager → ClientConnectionManager
add_connection c m = record {
  active_connections = m.active_connections ++ c ∷ [];
  accept_bio = m.accept_bio;
}

abbrev accept_next :
    Option ℕ → (ℕ → Bool) → ClientConnectionManager × Bool → ClientConnectionManager × Awaited
accept_next incoming is_connected (m, false) = (m, server_error)
accept_next none is_connected (m, true) = (m, awaited none)
accept_next (some c) is_connected (m, true) =
    (add_connection c (cleanup_connections is_connected m), awaited (some c))

-- `incoming` is the client that the network has, if any, and `is_connected` is what each connection
-- answers when the list is cleaned up.
unfoldable pub await_next_connection :
    Bool → Option ℕ → (ℕ → Bool) → ClientConnectionManager → ClientConnectionManager × Awaited
await_next_connection bound incoming is_connected m =
    accept_next incoming is_connected (begin_accept bound m)

-- The manager after it, and the connections that are shut down, in their order.
unfoldable pub shutdown : ClientConnectionManager → ClientConnectionManager × List ℕ
shutdown m = (new_manager, m.active_connections)

-- The active connections after a call that finds this client, if any.
abbrev pub active_with : Option ℕ → (ℕ → Bool) → List ℕ → List ℕ
active_with none is_connected a = a
active_with (some c) is_connected a = erase_if (λ i. not (is_connected i)) a ++ c ∷ []

pub await-accepting :
    (bound : Bool) (o : Option ℕ) (is_connected : ℕ → Bool) (a : List ℕ)
    → await_next_connection bound o is_connected
        (record { active_connections = a; accept_bio = true })
      ≡ (record { active_connections = active_with o is_connected a; accept_bio = true }, awaited o)
unfolding await_next_connection
await-accepting bound none is_connected a = refl
await-accepting bound (some c) is_connected a = refl

-- A call of `await_next_connection`: the client that it finds, and what the connections answer.
pub data Call : Type 0 where
  call : Option ℕ → (ℕ → Bool) → Call

unfoldable pub accept_all : List Call → ClientConnectionManager → ClientConnectionManager
accept_all [] m = m
accept_all (call incoming is_connected ∷ calls) m =
    accept_all calls ((await_next_connection true incoming is_connected m).0)

-- Whether a connection is found to be gone when a later client arrives.
abbrev gone : List Call → ℕ → Bool
gone [] i = false
gone (call none is_connected ∷ calls) i = gone calls i
gone (call (some c) is_connected ∷ calls) i = not (is_connected i) || gone calls i

-- The clients that arrive and are not found to be gone by the arrival of a later one.
abbrev staying : List Call → List ℕ
staying [] = []
staying (call none is_connected ∷ calls) = staying calls
staying (call (some c) is_connected ∷ calls) =
    if gone calls c then staying calls else c ∷ staying calls

erase_if-none : (xs : List ℕ) → erase_if (λ i. false) xs ≡ xs
erase_if-none [] = refl
erase_if-none (x ∷ xs) = ap (λ r. x ∷ r) (erase_if-none xs)

erase_if-again :
    (p q : ℕ → Bool) (xs : List ℕ) → erase_if q (erase_if p xs) ≡ erase_if (λ i. p i || q i) xs
erase_if-again p q [] = refl
erase_if-again p q (x ∷ xs) = let ih = erase_if-again p q xs in ground (arith, ih)

erase_if-append :
    (p : ℕ → Bool) (c : ℕ) (xs ys : List ℕ)
    → erase_if p (xs ++ c ∷ []) ++ ys ≡ erase_if p xs ++ (if p c then ys else c ∷ ys)
erase_if-append p c [] ys = ground arith
erase_if-append p c (x ∷ xs) ys = let ih = erase_if-append p c xs ys in ground (arith, ih)

accept_all_from :
    (a : List ℕ) (calls : List Call)
    → shutdown (accept_all calls (record { active_connections = a; accept_bio = true }))
      ≡ (new_manager, erase_if (gone calls) a ++ staying calls)
unfolding accept_all await_next_connection shutdown
accept_all_from a [] =
    ap (λ l. (new_manager, l)) (sym (append-nil (erase_if (gone []) a) ∙ erase_if-none a))
accept_all_from a (call none is_connected ∷ calls) = accept_all_from a calls
accept_all_from a (call (some c) is_connected ∷ calls) =
    let connected = erase_if (λ i. not (is_connected i)) a in
    accept_all_from (connected ++ c ∷ []) calls
    ∙ ap (λ l. (new_manager, l))
        (erase_if-append (gone calls) c connected (staying calls)
          ∙ ap (λ l. l ++ staying (call (some c) is_connected ∷ calls))
              (erase_if-again (λ i. not (is_connected i)) (gone calls) a))

-- While the server accepts clients, its active connections are, in their order, those it began with
-- that no arrival of a client found to be gone, followed by the clients that arrived and that no
-- later arrival found to be gone; and a shutdown at the end shuts down exactly these, and leaves no
-- active connection and nothing to accept from.
pub accept_all_lem :
    (m : ClientConnectionManager) (calls : List Call)
    → m.accept_bio ≡ true
    → shutdown (accept_all calls m)
      ≡ (new_manager, erase_if (gone calls) m.active_connections ++ staying calls)
accept_all_lem m calls on =
    ap
      (λ b.
        shutdown
          (accept_all calls (record { active_connections = m.active_connections; accept_bio = b })))
      on
    ∙ accept_all_from m.active_connections calls

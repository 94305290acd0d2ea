-- ===== src/Server/Program.antt =====
-- `main` of the server (src/server/main.cpp) from the moment that the worker thread runs: connections
-- are accepted, and each is handed to a task of the thread pool or refused. What the pool reports and
-- what the network and OpenSSL answer is given for each round of the loop.
use tavernmx.Common.{
  ℕ, Bool, true, false, not, ◌||◌, Option, none, some, List, [], ◌∷◌, ◌++◌, ltb, if◌then◌else◌,
}
use tavernmx.Common.Text.{lit}
use tavernmx.Common.Result.{Error, server_error}
use tavernmx.Json.{Json}
use tavernmx.Messaging.{create_nak}
use tavernmx.Ssl.{Write}
use tavernmx.Transport.{Answers, Outcome, returned, threw, blocked, send_message}
use tavernmx.Server.Manager
use tavernmx.Server.Manager.{
  ClientConnectionManager, Awaited, awaited, begin_accept, await_next_connection,
}

pub record Round : Type 0 where
  -- SIGINT has arrived, and `server_shutdown_signal` is released.
  pub interrupted : Bool
  pub shutdown_signalled : Bool
  -- SIGINT arrives after the test of the loop, and the port can be bound once more.
  pub interrupted_between : Bool
  pub bound : Bool
  pub incoming : Option ℕ
  pub is_connected : ℕ → Bool
  -- `get_tasks_running()` and `get_thread_count()`
  pub tasks_running : ℕ
  pub thread_count : ℕ
  -- What OpenSSL answers where a refusal is sent.
  pub answers : Answers
  pub writes : List Write

-- The connections that were handed to the pool, and those that were refused.
pub record Program : Type 0 where
  pub connections : ClientConnectionManager
  pub served : List ℕ
  pub refused : List ℕ

-- How the loop of `main` ends: `main` goes on to join the worker and returns 0, or something is thrown
-- out of the loop. Then no client is accepted any more, and the stack is unwound: the destructor of
-- `client_thread_pool`, if it was constructed, waits for the tasks of the clients that are still
-- served, and after it that of `server_thread`, which is joinable, calls `std::terminate`, so that the
-- `catch` of `main` is never reached. `accepting` says that the given rounds are used up, or that a
-- refusal is still being written.
pub data ProgramEnd : Type 0 where
  returns_zero accepting : ProgramEnd
  unwinds : Error → ProgramEnd

abbrev pub interrupt_if : Bool → Program → Program
interrupt_if interrupted p =
    if interrupted then record p { connections = (Manager.shutdown p.connections).0 } else p

abbrev pub is_full : Round → Bool
is_full r = not (ltb r.tasks_running r.thread_count)

module _ (json : Json) where
  -- The refusal of a client when the pool is full.
  abbrev pub refusal : Round → Outcome (List ℕ)
  refusal r =
      send_message json (record { has_bio = true }) r.answers r.writes
        (create_nak json (lit "Too many connections."))

  -- How a round goes on: with the next one, or with the end.
  pub data Step : Type 0 where
    goes_on : Program → Step
    ends : ProgramEnd → Program → Step

  abbrev pub after_refusal : ℕ → Program → Outcome (List ℕ) → Step
  after_refusal c p (returned bytes) = goes_on (record p { refused = p.refused ++ c ∷ [] })
  after_refusal c p (threw e) = ends (unwinds e) p
  after_refusal c p blocked = ends accepting p

  abbrev pub after_await : Round → Program → ClientConnectionManager × Awaited → Step
  after_await r p (m, awaited none) = goes_on (record p { connections = m })
  after_await r p (m, awaited (some c)) =
      if is_full r
      then after_refusal c (record p { connections = m }) (refusal r)
      else goes_on (record p { connections = m; served = p.served ++ c ∷ [] })
  after_await r p (m, Awaited.server_error) =
      ends (unwinds (server_error (lit "Error in BIO_do_accept"))) (record p { connections = m })

  -- A round of the loop. `await_next_connection` begins to accept anew if the BIO is gone by then.
  unfoldable pub accept_round : Round → Program → Step
  accept_round r p =
      let p' = interrupt_if r.interrupted p in
      if r.shutdown_signalled || not p'.connections.accept_bio
      then ends returns_zero p'
      else let q = interrupt_if r.interrupted_between p' in
        after_await r q (await_next_connection r.bound r.incoming r.is_connected q.connections)

  unfoldable pub accept_loop : List Round → Program → ProgramEnd × Program
  unfolding accept_round
  accept_loop [] p = (accepting, p)
  accept_loop (r ∷ rs) p = elim (accept_round r p) [
    | goes_on p' ↦ accept_loop rs p'
    | ends e p' ↦ (e, p')
  ]

  abbrev pub after_begin : List Round → ClientConnectionManager × Bool → ProgramEnd × Program
  after_begin rounds (m, true) =
      accept_loop rounds (record { connections = m; served = []; refused = [] })
  after_begin rounds (m, false) = (
    unwinds (server_error (lit "Error in BIO_do_accept")),
    record { connections = m; served = []; refused = [] },
  )

  -- `bound` tells whether the port can be bound.
  unfoldable pub main : Bool → List Round → ProgramEnd × Program
  unfolding accept_loop
  main bound rounds = after_begin rounds (begin_accept bound Manager.new_manager)

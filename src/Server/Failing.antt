-- ===== src/Server/Failing.antt =====
-- What goes wrong in the accept loop of the server: a refusal that throws, and an interrupt that is
-- lost.
use tavernmx.Common.{ℕ, ◌≡◌, ◌∙◌, ap, true, false, none, some, List, [], ◌∷◌, ◌++◌}
use tavernmx.Common.Result.{Error}
use tavernmx.Json.{Json}
use tavernmx.Transport.{threw}
use tavernmx.Server.Manager
use tavernmx.Server.Manager.{
  ClientConnectionManager, begin_accept, await_next_connection, new_manager, awaited, Awaited,
  active_with, await-accepting,
}
use tavernmx.Server.Program.{
  Round, returns_zero, unwinds, is_full, refusal, goes_on, ends, after_await, accept_round,
  accept_loop, main,
}
use tavernmx.Server.Capacity.{
  AreQuiet, served_in, refused_in, program, on, accept_quiet, accept_loop_quiet, interrupted_lem,
}

module _ (json : Json) where
  refusal_throws :
      (r : Round) (rs : List Round) (c : ℕ) (e : Error) (a s t : List ℕ)
      → r.interrupted ≡ false
      → r.interrupted_between ≡ false
      → r.shutdown_signalled ≡ false
      → r.incoming ≡ some c
      → is_full r ≡ true
      → refusal json r ≡ threw e
      → accept_loop json (r ∷ rs) (program json (on json a) s t)
        ≡ (unwinds e, program json (on json (active_with r.incoming r.is_connected a)) s t)
  unfolding accept_loop
  refusal_throws r rs c e a s t calm m o i f g =
      let n = on json (active_with r.incoming r.is_connected a) in
      let thrown : after_await json r (program json (on json a) s t) (n, awaited (some c))
          ≡ ends (unwinds e) (program json n s t) =
        rw (f, g) in
      let path =
        accept_quiet json r a s t calm m o
        ∙ ap (λ x. after_await json r (program json (on json a) s t) (n, awaited x)) i
        ∙ thrown in
      λ k. elim (path k) [ goes_on p' ↦ accept_loop json rs p' | ends x p' ↦ (x, p') ]

  -- A client can end the service: if one arrives while the pool is full, and sending it the refusal
  -- throws, then the exception leaves the loop. The clients that were served and refused are those of
  -- the rounds before, and those that arrive later are neither, whatever happens in their rounds.
  pub refusal_is_fatal :
      (rs later : List Round) (r : Round) (c : ℕ) (e : Error)
      → AreQuiet json rs
      → r.interrupted ≡ false
      → r.interrupted_between ≡ false
      → r.shutdown_signalled ≡ false
      → r.incoming ≡ some c
      → is_full r ≡ true
      → refusal json r ≡ threw e
      → (active : List ℕ) × (main json true (rs ++ r ∷ later) ≡ (
        unwinds e,
        record {
          connections = record { active_connections = active; accept_bio = true };
          served = served_in rs;
          refused = refused_in rs;
        },
      ))
  unfolding main
  refusal_is_fatal rs later r c e q calm m o i f g =
      let (b, p) = accept_loop_quiet json rs (r ∷ later) [] [] [] q in
      (
        active_with r.incoming r.is_connected b,
        p ∙ refusal_throws r later c e b (served_in rs) (refused_in rs) calm m o i f g,
      )

  await-again :
      (r : Round)
      → r.bound ≡ true
      → r.incoming ≡ none
      → await_next_connection r.bound r.incoming r.is_connected new_manager
        ≡ (on json [], awaited none)
  unfolding await_next_connection
  await-again r b i = rw (b, i)

  accept_between :
      (r : Round) (a s t : List ℕ)
      → r.interrupted ≡ false
      → r.shutdown_signalled ≡ false
      → r.interrupted_between ≡ true
      → r.bound ≡ true
      → r.incoming ≡ none
      → accept_round json r (program json (on json a) s t) ≡ goes_on (program json (on json []) s t)
  unfolding accept_round Manager.shutdown
  accept_between r a s t c o m b i = simp (c, o, m, await-again r b i)

  interrupted_between_lem :
      (r : Round) (rs : List Round) (a s t : List ℕ)
      → r.interrupted ≡ false
      → r.shutdown_signalled ≡ false
      → r.interrupted_between ≡ true
      → r.bound ≡ true
      → r.incoming ≡ none
      → accept_loop json (r ∷ rs) (program json (on json a) s t)
        ≡ accept_loop json rs (program json (on json []) s t)
  unfolding accept_loop
  interrupted_between_lem r rs a s t c o m b i = λ k. elim (accept_between r a s t c o m b i k) [
    | goes_on p' ↦ accept_loop json rs p'
    | ends x p' ↦ (x, p')
  ]

  -- An interrupt can be lost: if it arrives between the test of the loop and the wait for a client,
  -- while no client waits and the port can be bound again, then the server goes on accepting clients,
  -- and serves and refuses those that arrive afterwards as before, until it is interrupted once more.
  pub interrupt_is_lost :
      (rs more later : List Round) (r last : Round)
      → AreQuiet json rs
      → r.interrupted ≡ false
      → r.shutdown_signalled ≡ false
      → r.interrupted_between ≡ true
      → r.bound ≡ true
      → r.incoming ≡ none
      → AreQuiet json more
      → last.interrupted ≡ true
      → main json true (rs ++ r ∷ (more ++ last ∷ later)) ≡ (
        returns_zero,
        record {
          connections = new_manager;
          served = served_in rs ++ served_in more;
          refused = refused_in rs ++ refused_in more;
        },
      )
  unfolding main
  interrupt_is_lost rs more later r last q c o m b i n h =
      let (x, before) = accept_loop_quiet json rs (r ∷ (more ++ last ∷ later)) [] [] [] q in
      let (y, after) =
        accept_loop_quiet json more (last ∷ later) [] (served_in rs) (refused_in rs) n in
      before
      ∙ interrupted_between_lem r _ x _ _ c o m b i
      ∙ after
      ∙ interrupted_lem json last later _ h

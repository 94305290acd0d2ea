-- ===== src/Server/ManagerExamples.antt =====
-- Tests of the connection manager: two clients arrive, and the first is gone when the second does.
use tavernmx.Common.{ℕ, ◌≡◌, refl, Bool, true, false, not, none, some, List, [], ◌∷◌, ◌==◌}
use tavernmx.Server.Manager.{
  ClientConnectionManager, new_manager, await_next_connection, awaited, server_error, Call, call,
}

abbrev at_start : ClientConnectionManager
at_start = record { active_connections = 7 ∷ 8 ∷ []; accept_bio = true }

abbrev without : ℕ → ℕ → Bool
without gone_one c = not (c == gone_one)

abbrev arrivals : List Call
arrivals = call (some 1) (without 7) ∷ call none (without 8) ∷ call (some 2) (without 1) ∷ []

-- When the port cannot be bound, the error is thrown once: the next call finds a BIO.
refused_once : (await_next_connection false none (without 0) new_manager).1 ≡ server_error
unfolding await_next_connection
refused_once = refl

then_silent :
    (await_next_connection false none
      (without 0)
      (await_next_connection false none (without 0) new_manager).0).1
    ≡ awaited none
unfolding await_next_connection
then_silent = refl

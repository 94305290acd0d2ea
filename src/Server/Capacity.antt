-- ===== src/Server/Capacity.antt =====
-- Which clients the server serves and which it refuses, and how `main` ends.
use tavernmx.Common.{
  ℕ, ◌≡◌, ◌∙◌, refl, sym, Bool, true, false, Bool-cases, inl, inr, Option, none, some, List, [],
  ◌∷◌, ◌++◌, append_assoc, append-nil, if◌then◌else◌,
}
use tavernmx.Json.{Json}
use tavernmx.Transport.{returned}
use tavernmx.Server.Manager
use tavernmx.Server.Manager.{
  ClientConnectionManager, begin_accept, await_next_connection, new_manager, awaited, Awaited,
  active_with, await-accepting,
}
use tavernmx.Server.Program.{
  Round, Program, returns_zero, is_full, refusal, goes_on, ends, after_await, accept_round,
  accept_loop, main,
}

-- The clients that arrive while the pool has a thread to spare, and those that do not.
abbrev pub served_one : Bool → Option ℕ → List ℕ
served_one full none = []
served_one full (some c) = if full then [] else c ∷ []

abbrev pub refused_one : Bool → Option ℕ → List ℕ
refused_one full none = []
refused_one full (some c) = if full then c ∷ [] else []

abbrev pub served_in : List Round → List ℕ
served_in [] = []
served_in (r ∷ rs) = served_one (is_full r) r.incoming ++ served_in rs

abbrev pub refused_in : List Round → List ℕ
refused_in [] = []
refused_in (r ∷ rs) = refused_one (is_full r) r.incoming ++ refused_in rs

module _ (json : Json) where
  -- Where the pool is full, sending the refusal returns.
  abbrev RefusalGoes : Round → Bool → Type 0
  RefusalGoes r true = (bytes : List ℕ) × (refusal json r ≡ returned bytes)
  RefusalGoes r false = Unit

  -- A round without interrupt and signal, in which nothing is thrown.
  pub record IsQuiet (r : Round) : Type 0 where
    pub calm : r.interrupted ≡ false
    pub calm_between : r.interrupted_between ≡ false
    pub open_still : r.shutdown_signalled ≡ false
    pub refusal_goes : RefusalGoes r (is_full r)

  abbrev pub AreQuiet : List Round → Type 0
  AreQuiet [] = Unit
  AreQuiet (r ∷ rs) = IsQuiet r × AreQuiet rs

  abbrev pub program : ClientConnectionManager → List ℕ → List ℕ → Program
  program m s t = record { connections = m; served = s; refused = t }

  abbrev pub on : List ℕ → ClientConnectionManager
  on a = record { active_connections = a; accept_bio = true }

  after_await_lem :
      (r : Round) (o : Option ℕ) (full : Bool) (m n : ClientConnectionManager) (s t : List ℕ)
      → is_full r ≡ full
      → RefusalGoes r full
      → after_await json r (program m s t) (n, awaited o)
        ≡ goes_on (program n (s ++ served_one full o) (t ++ refused_one full o))
  after_await_lem r none full m n s t e g =
      λ i. goes_on (program n (sym (append-nil s) i) (sym (append-nil t) i))
  after_await_lem r (some c) true m n s t e (bytes, g) =
      rw (e, g) (λ i. goes_on (program n (sym (append-nil s) i) (t ++ c ∷ [])))
  after_await_lem r (some c) false m n s t e g =
      rw e (λ i. goes_on (program n (s ++ c ∷ []) (sym (append-nil t) i)))

  pub accept_quiet :
      (r : Round) (a s t : List ℕ)
      → r.interrupted ≡ false
      → r.interrupted_between ≡ false
      → r.shutdown_signalled ≡ false
      → accept_round json r (program (on a) s t)
        ≡ after_await json r
            (program (on a) s t)
            (on (active_with r.incoming r.is_connected a), awaited r.incoming)
  unfolding accept_round
  accept_quiet r a s t c b o = simp (c, b, o, await-accepting)

  accept_loop_step :
      (r : Round) (rs : List Round) (a s t : List ℕ)
      → IsQuiet r
      → accept_loop json (r ∷ rs) (program (on a) s t)
        ≡ accept_loop json rs (
            program
              (on (active_with r.incoming r.is_connected a))
              (s ++ served_one (is_full r) r.incoming)
              (t ++ refused_one (is_full r) r.incoming))
  unfolding accept_loop
  accept_loop_step r rs a s t q =
      let e =
        accept_quiet r a s t q.calm q.calm_between q.open_still
        ∙ after_await_lem r r.incoming (is_full r) (on a)
            (on (active_with r.incoming r.is_connected a)) s t refl q.refusal_goes in
      λ i. elim (e i) [ goes_on p' ↦ accept_loop json rs p' | ends x p' ↦ (x, p') ]

  -- Quiet rounds, whatever follows them.
  pub accept_loop_quiet :
      (rs later : List Round) (a s t : List ℕ)
      → AreQuiet rs
      → (b : List ℕ) × (accept_loop json (rs ++ later) (program (on a) s t)
          ≡ accept_loop json later (program (on b) (s ++ served_in rs) (t ++ refused_in rs)))
  accept_loop_quiet [] later a s t q = (
    a,
    λ i. accept_loop json later (program (on a) (sym (append-nil s) i) (sym (append-nil t) i)),
  )
  accept_loop_quiet (r ∷ rs) later a s t q =
      let (b, e) =
        accept_loop_quiet rs later (active_with r.incoming r.is_connected a)
          (s ++ served_one (is_full r) r.incoming) (t ++ refused_one (is_full r) r.incoming) q.1 in
      (
        b,
        accept_loop_step r (rs ++ later) a s t q.0 ∙ e ∙ (λ i. accept_loop json later (
            program (on b) (append_assoc s (served_one (is_full r) r.incoming) (served_in rs) i)
              (append_assoc t (refused_one (is_full r) r.incoming) (refused_in rs) i))),
      )

  pub interrupted_lem :
      (r : Round) (rs : List Round) (p : Program)
      → r.interrupted ≡ true
      → accept_loop json (r ∷ rs) p ≡ (returns_zero, record p { connections = new_manager })
  unfolding accept_loop accept_round Manager.shutdown
  interrupted_lem r rs p h = elim (Bool-cases r.shutdown_signalled) [
    | inl e ↦ rw (h, e)
    | inr e ↦ rw (h, e)
  ]

  -- The server from the moment that it accepts connections until it is interrupted, where nothing is
  -- thrown: every client that arrives is either served or refused, never both, and served exactly if
  -- the pool then reports fewer tasks running than it has threads, each in the order of arrival. When
  -- the interrupt is noticed, no connection is left active, no client is accepted any more, and
  -- `main` returns 0.
  pub main_lem :
      (rs later : List Round) (last : Round)
      → AreQuiet rs
      → last.interrupted ≡ true
      → main json true (rs ++ last ∷ later) ≡ (
        returns_zero,
        record { connections = new_manager; served = served_in rs; refused = refused_in rs },
      )
  unfolding main
  main_lem rs later last q h =
      let (b, e) = accept_loop_quiet rs (last ∷ later) [] [] [] q in
      e ∙ interrupted_lem last later _ h

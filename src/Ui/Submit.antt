-- ===== src/Ui/Submit.antt =====
-- What submitting the connect screen does, and what the user is told about attempts.
use tavernmx.Common.{
  ℕ, ◌^◌, ◌<◌, ◌≡◌, ◌↔◌, refl, arith, Bool, true, false, Bool-cases, inl, inr, not, ◌||◌, Option,
  none, some, [], ◌∷◌, lt→ltb, all_of, All,
}
use tavernmx.Common.Text.{Text, lit, is_empty, isalnum, isdigit, to_string}
use tavernmx.Transport.Connect.{Attempted}
use tavernmx.Ui.{sets_error, pops_screen, pushes_screen}
use tavernmx.Ui.Connect.{
  connecting_screen, ConnectUiScreen, World, Environment, decimal, stoi, load_certificates,
  connect_with, begin_attempt, on_connect_button, is_host_char, validate, any_invalid, try_submit,
}
use tavernmx.Ui.Session.{connecting_screen_update, end_attempt}
use tavernmx.Ui.Typed.{
  to_string-ne-nil, to_string-IsDigits, stoi-to_string, IsWord, IsWord-iff, IsDigit, IsAlphanumeric,
  IsHostChar, isdigit_iff, isalnum_iff, is_host_char_iff, Consists, Consists-iff,
  load_certificates_iff,
}

-- All that an attempt needs to begin: what the user typed, and that nothing is thrown.
pub record CanConnect (env : Environment) (s : ConnectUiScreen) : Type 0 where
  pub user : Consists IsAlphanumeric s.user_name
  pub host : Consists IsHostChar s.host_name
  pub port : Consists IsDigit s.host_port
  pub port_fits : decimal 0 s.host_port < 2 ^ 31
  pub trusts : env.trust_store ≡ none
  pub certificates : All (λ path. env.certificate path ≡ none) env.custom_certificates

connect_with_inv :
    (env : Environment) (s : ConnectUiScreen) (w : World) (o : Option ℕ) (e f : Option Text)
    → (connect_with env s w o e f).1 ≡ pushes_screen (connecting_screen false) ∷ []
    → (port : ℕ) × (o ≡ some port) × (e ≡ none) × (f ≡ none)
connect_with_inv env s w none e f h = absurd (cc)
connect_with_inv env s w (some p) (some e) f h = absurd (cc)
connect_with_inv env s w (some p) none (some e) h = absurd (cc)
connect_with_inv env s w (some p) none none h = (p, refl, refl, refl)

or3_false : (a b c : Bool) → (a || (b || c)) ≡ false → (a ≡ false) × (b ≡ false) × (c ≡ false)
or3_false a b c h = (ground arith, ground arith, ground arith)

connects :
    (env : Environment) (s : ConnectUiScreen) → CanConnect env s → any_invalid (validate s) ≡ false
connects env s c = rw (
  (Consists-iff isalnum IsAlphanumeric isalnum_iff s.user_name).1 c.user,
  (Consists-iff is_host_char IsHostChar is_host_char_iff s.host_name).1 c.host,
  (Consists-iff isdigit IsDigit isdigit_iff s.host_port).1 c.port,
)

-- Submitting the connect screen opens the screen that waits for an attempt exactly if the user name
-- is alphanumeric, the host name consists of alphanumeric characters, dots and hyphens, the port is a
-- string of digits for a number below 2^31, none of them is empty, and neither the trust store nor a
-- certificate fails to load.
pub try_submit_iff :
    (env : Environment) (s : ConnectUiScreen) (w : World)
    → ((try_submit env s w).2 ≡ pushes_screen (connecting_screen false) ∷ []) ↔ CanConnect env s
unfolding try_submit on_connect_button
try_submit_iff env s w = (
  λ h. elim (Bool-cases (any_invalid (validate s))) [
    | inl e ↦ absurd (cc (rw e at h))
    | inr e ↦
        let (valid_user, valid_host, valid_port) = or3_false _ _ _ e in
        let (port, o, t, k) =
          connect_with_inv env (validate s) w (stoi s.host_port) _ _ (rw e at h) in
        record {
          user = (Consists-iff isalnum IsAlphanumeric isalnum_iff s.user_name).0 valid_user;
          host = (Consists-iff is_host_char IsHostChar is_host_char_iff s.host_name).0 valid_host;
          port = (Consists-iff isdigit IsDigit isdigit_iff s.host_port).0 valid_port;
          port_fits = ground arith;
          trusts = t;
          certificates = (load_certificates_iff env.certificate env.custom_certificates).0 k;
        }
  ],
  λ c.
      let loaded =
        (load_certificates_iff env.certificate env.custom_certificates).1 c.certificates in
      rw (connects env s c, c.trusts, loaded, lt→ltb _ _ c.port_fits),
)

-- The port of the configuration is the one that is connected to: if the user leaves the field as it
-- is filled from the configuration, with a number below 2^31, and all else is well, a connection to the
-- host under that port is kept, and the thread that connects is started.
pub submit_configured :
    (env : Environment) (s : ConnectUiScreen) (w : World) (n : ℕ)
    → s.host_port ≡ to_string n
    → n < 2 ^ 31
    → IsWord isalnum s.user_name
    → IsWord is_host_char s.host_name
    → env.trust_store ≡ none
    → load_certificates env.certificate env.custom_certificates ≡ none
    → ((try_submit env s w).0.connection
        ≡ some (record {
          host_name = s.host_name;
          host_port = n;
          user_name = s.user_name;
          connected = false;
        }))
      × ((try_submit env s w).0.connecting ≡ true)
      × ((try_submit env s w).2 ≡ pushes_screen (connecting_screen false) ∷ [])
unfolding try_submit on_connect_button
submit_configured env s w n p small user host t k =
    let digits_ok : (is_empty s.host_port || not (all_of isdigit s.host_port)) ≡ false =
      rw (p, to_string-ne-nil n, to_string-IsDigits n) in
    let port : stoi s.host_port ≡ some n = rw p (stoi-to_string n small) in
    rw
      (
        (IsWord-iff isalnum s.user_name).1 user,
        (IsWord-iff is_host_char s.host_name).1 host,
        digits_ok,
        port,
        t,
        k,
      )
      (refl, refl, refl)

-- An error text outlives a cancelled attempt: if the server denied an attempt that the user cancelled,
-- so that an error text is left at its end, the user is told only of the cancellation; and if the next
-- attempt ends without an answer, it is reported with that text.
pub stale_error :
    (s : ConnectUiScreen) (port : ℕ) (w : World) (r : Attempted)
    → w.connect_thread_signal ≡ true
    → is_empty w.connect_thread_error ≡ false
    → r.signalled ≡ true
    → r.connect_thread_error ≡ none
    → r.connection.has_bio ≡ false
    → ((connecting_screen_update true w).1
        ≡ pops_screen ∷ sets_error (lit "Connection cancelled.") ∷ [])
      × ((connecting_screen_update false
            (end_attempt r (begin_attempt s port (connecting_screen_update true w).0).0)).1
          ≡ pops_screen ∷ sets_error w.connect_thread_error ∷ [])
unfolding connecting_screen_update
stale_error s port w r g e n m b = rw (g, n, m, b, e) (refl, refl)

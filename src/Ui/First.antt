-- ===== src/Ui/First.antt =====
-- The first screen of the client can be submitted as it is.
use tavernmx.Common.{ℕ, ◌<◌, ◌%◌, ◌^◌, ◌≡◌, refl, true, false, none, some, [], ◌∷◌, arith, all_of}
use tavernmx.Common.Int.{pos}
use tavernmx.Common.Text.{Text, isdigit, isalnum, to_string}
use tavernmx.Config.Client.{ClientConfiguration}
use tavernmx.Ui.{pushes_screen}
use tavernmx.Ui.Connect.{
  Environment, World, connecting_screen, is_host_char, load_certificates, try_submit,
}
use tavernmx.Ui.Typed.{IsWord, IsWord-iff, to_string-IsDigits}
use tavernmx.Ui.Submit.{submit_configured}
use tavernmx.Ui.Program.{first_screen, generate_random_username}

digits_are_alnum : (s : Text) → all_of isdigit s ≡ true → all_of isalnum s ≡ true
digits_are_alnum [] h = refl
digits_are_alnum (c ∷ s) h =
    let rest : all_of isalnum s ≡ true = digits_are_alnum s (ground arith) in ground arith

generate_random_username-IsWord : (time : ℕ) → IsWord isalnum (generate_random_username time)
generate_random_username-IsWord time =
    let valid : all_of isalnum (to_string (time % 4096)) ≡ true =
      digits_are_alnum (to_string (time % 4096)) (to_string-IsDigits (time % 4096)) in
    (IsWord-iff isalnum (generate_random_username time)).0 (rw valid refl)

-- Whatever the time is when the client starts: if the user presses the button at once, and the
-- configuration names a host of alphanumeric characters, dots and hyphens and a port from 0 to
-- 2^31 - 1, and neither the trust store nor a certificate fails to load, then an attempt to connect to
-- that host and port begins under the generated name, and the screen that waits for it is opened.
pub first_screen_connects :
    (env : Environment) (time : ℕ) (config : ClientConfiguration) (w : World) (n : ℕ)
    → config.host_port ≡ pos n
    → n < 2 ^ 31
    → IsWord is_host_char config.host_name
    → env.trust_store ≡ none
    → load_certificates env.certificate env.custom_certificates ≡ none
    → ((try_submit env (first_screen time config) w).0.connection
        ≡ some (record {
          host_name = config.host_name;
          host_port = n;
          user_name = generate_random_username time;
          connected = false;
        }))
      × ((try_submit env (first_screen time config) w).0.connecting ≡ true)
      × ((try_submit env (first_screen time config) w).2
          ≡ pushes_screen (connecting_screen false) ∷ [])
first_screen_connects env time config w n port small host trusts certificates =
    submit_configured env (first_screen time config) w n (rw port refl) small
      (generate_random_username-IsWord time) host trusts certificates

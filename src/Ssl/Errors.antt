-- ===== src/Ssl/Errors.antt =====
-- The texts of exceptions that stand for an error of OpenSSL (`ssl_errors_to_exception` in
-- src/shared/ssl.cpp, src/client/serverconnection.cpp and src/server/clientconnection.cpp), and the
-- calls that throw them while a connection is set up.
use tavernmx.Common.{
  ℕ, zero, suc, ◌≡◌, ◌≢◌, ◌∙◌, sym, Bool, Option, none, some, List, [], ◌∷◌, ◌++◌, All, length,
  append_assoc, append-nil, ◌==◌, ==_of_ne, if◌then◌else◌,
}
use tavernmx.Common.Text.{Text, lit}

-- A call of OpenSSL: whether it succeeds, and the codes that are in the error queue afterwards.
pub record SslCall : Type 0 where
  pub succeeds : Bool
  pub errors : List ℕ

-- The constructors with an inner exception, of all the exception classes.
abbrev pub caused_by : Text → Text → Text
caused_by what inner = what ++ (lit ", caused by: " ++ inner)

-- What precedes a certificate: `SSL_CTX_set_default_verify_paths`.
pub record TrustStore : Type 0 where
  pub default_paths : SslCall
  pub locations : Text → SslCall

module _ (error_string : ℕ → Text) where
  -- The loop, over the codes that `ERR_get_error()` gives. Its variable is what the comparison gives.
  unfoldable pub append_errors : Text → List ℕ → Text
  append_errors msg [] = msg
  append_errors msg (code ∷ codes) =
      let rest = append_errors (msg ++ (lit ", " ++ error_string 1)) codes in
      if code == 0 then msg else rest

  unfoldable pub ssl_errors_to_exception : Text → List ℕ → Text
  unfolding append_errors
  ssl_errors_to_exception message errors = append_errors message errors

  -- What a call throws unless it succeeds.
  abbrev pub unless_succeeds : Text → SslCall → Option Text
  unless_succeeds message c =
      if c.succeeds then none else some (ssl_errors_to_exception message c.errors)

  -- `ServerConnection::ServerConnection` and `ServerConnection::load_certificate`.
  abbrev pub new_server_connection : TrustStore → Option Text
  new_server_connection t = unless_succeeds (lit "Error loading trust store") t.default_paths

  abbrev pub load_certificate : TrustStore → Text → Option Text
  load_certificate t cert_path =
      unless_succeeds (lit "Error loading server cert") (t.locations cert_path)

  -- `ClientConnectionManager::load_certificate`, the certificate and the private key.
  abbrev pub load_server_certificate : SslCall → SslCall → Option Text
  load_server_certificate certificate private_key =
      elim (unless_succeeds (lit "Error loading server certificate") certificate) [
        | none ↦ unless_succeeds (lit "Error loading server private key") private_key
        | some e ↦ some e
      ]

  -- As many times the text of error 1.
  abbrev pub repeated : ℕ → Text
  repeated zero = []
  repeated (suc n) = (lit ", " ++ error_string 1) ++ repeated n

  -- The text of an exception names none of the errors that it stands for: whatever the codes in the
  -- queue are, each adds the text of error 1.
  pub ssl_errors_to_exception_lem :
      (message : Text) (errors : List ℕ)
      → All (λ code. code ≢ 0) errors
      → ssl_errors_to_exception message errors ≡ message ++ repeated (length errors)
  unfolding ssl_errors_to_exception append_errors
  ssl_errors_to_exception_lem message [] h = sym (append-nil message)
  ssl_errors_to_exception_lem message (code ∷ codes) h = rw (==_of_ne code 0 h.0) (
      ssl_errors_to_exception_lem (message ++ (lit ", " ++ error_string 1)) codes h.1
      ∙ append_assoc message (lit ", " ++ error_string 1) (repeated (length codes)))

-- ===== src/Ssl.antt =====
-- src/shared/ssl.cpp: reading and writing message blocks over a TLS connection. OpenSSL is not part
-- of the repository: what each of its calls answers is an argument, in the order of the calls.
pub mod Errors
pub mod Receive
mod Examples
use tavernmx.Common.{
  ℕ, zero, suc, ◌+◌, Bool, true, false, ◌&&◌, not, Option, none, some, List, [], ◌∷◌, ltb, ◌==◌,
  if◌then◌else◌,
}
use tavernmx.Common.Text.{is_empty}
use tavernmx.Common.Result.{Result, ok, err, transport_error}
use tavernmx.Messaging.Block.{MessageBlock, empty_block, apply_buffer_to_block, pack_block}

-- What OpenSSL answers to one `receive_bytes`: whether the peer has shut down, then the result of
-- `BIO_read` (`none` for a negative one), and how that is classified.
pub record Read : Type 0 where
  pub shut_down : Bool
  pub bytes : Option (List ℕ)
  pub should_retry : Bool
  pub zero_return : Bool

unfoldable pub receive_bytes : Read → Result (List ℕ)
receive_bytes r = if r.shut_down then ok [] else elim r.bytes [
  | some bytes ↦ ok bytes
  | none ↦ if r.should_retry then ok [] else if r.zero_return then ok [] else err transport_error
]

-- The outcome of `receive_message`. `waiting` is no outcome of the code: its loop would go on, and
-- the given reads are used up.
pub data Received : Type 0 where
  nothing waiting failed : Received
  received : MessageBlock → Received

abbrev pub delivered : MessageBlock → Received
delivered b = if b.payload_size == 0 then nothing else received b

abbrev pub unfinished : ℕ → MessageBlock → Bool
unfinished applied b = ltb 0 applied && ltb applied b.payload_size

abbrev pub on_bytes {ℓ} : {A : Type ℓ} → Result (List ℕ) → A → (List ℕ → A) → A
on_bytes (ok bytes) failure f = f bytes
on_bytes (err e) failure f = failure

-- The `while` loop of `receive_message`: `applied` payload bytes of `b` have been counted.
pub receive_rest : List Read → ℕ → MessageBlock → Received
receive_rest [] applied b = if unfinished applied b then waiting else delivered b
receive_rest (read ∷ reads) applied b =
    let next = on_bytes (receive_bytes read) failed λ chunk.
      let (n, b') = apply_buffer_to_block chunk b applied in receive_rest reads (applied + n) b' in
    if unfinished applied b then next else delivered b

unfoldable pub receive_message : Read → List Read → Received
unfolding receive_rest receive_bytes
receive_message read reads = on_bytes (receive_bytes read) failed λ chunk.
    if is_empty chunk
    then nothing
    else let (applied, b) = apply_buffer_to_block chunk empty_block 0 in
      receive_rest reads applied b

-- What OpenSSL answers to one `BIO_write`: whether it is negative, whether it is 0, so that nothing
-- was written, and whether to retry.
pub record Write : Type 0 where
  pub negative : Bool
  pub writes_nothing : Bool
  pub should_retry : Bool

-- The outcome of `send_message`; `blocked` says that the given answers are used up.
pub data Sent : Type 0 where
  sent : List ℕ → Sent
  send_failed blocked : Sent

-- The loop ends at the first write that is not negative, also if it is 0. The result is what was
-- written.
unfoldable pub write_loop : List Write → List ℕ → Sent
write_loop [] block_data = blocked
write_loop (w ∷ ws) block_data =
    let again = write_loop ws block_data in
    if w.negative
    then (if w.should_retry then again else send_failed)
    else sent (if w.writes_nothing then [] else block_data)

unfoldable pub send_message : List Write → MessageBlock → Sent
unfolding write_loop
send_message writes b = write_loop writes (pack_block b)

-- `is_connected`: a null BIO, `BIO_get_ssl` giving no SSL, or a shutdown by the peer.
unfoldable pub is_connected : Bool → Bool → Bool → Bool
is_connected bio_is_null has_ssl shut_down =
    if bio_is_null then false else if has_ssl then not shut_down else false

-- The verify result, as `verify_certificate` tells its values apart.
pub data VerifyResult : Type 0 where
  verify_ok self_signed_in_chain self_signed_leaf verify_failed : VerifyResult

abbrev pub chain_accepted : VerifyResult → Bool → Bool
chain_accepted verify_ok allow = true
chain_accepted self_signed_in_chain allow = allow
chain_accepted self_signed_leaf allow = allow
chain_accepted verify_failed allow = false

-- Why `verify_certificate` throws.
pub data CertificateError : Type 0 where
  not_verified no_certificate hostname_mismatch : CertificateError

-- The result of the chain check; whether a certificate was presented; and whether its host name
-- matches, which is asked last.
unfoldable pub verify_certificate : VerifyResult → Bool → Bool → Bool → Option CertificateError
verify_certificate result allow_self_signed has_certificate host_matches =
    elim (chain_accepted result allow_self_signed) [
      | false ↦ some not_verified
      | true ↦
          if not has_certificate
          then some no_certificate
          else if not host_matches
          then some hostname_mismatch
          else none
    ]

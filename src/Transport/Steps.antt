-- ===== src/Transport/Steps.antt =====
-- The steps of connecting (src/client/serverconnection.cpp, src/shared/ssl.cpp), and when each of them
-- succeeds.
use tavernmx.Common.{
  ℕ, ◌≡◌, ◌≢◌, refl, ap, arith, Bool, true, false, Bool-cases, inl, inr, Option, none, some, List,
  [], ◌∷◌, if◌then◌else◌, ◌==◌,
}
use tavernmx.Common.Int.{ℤ, pos, negsuc, int_eq}
use tavernmx.Common.Result.{transport_error}
use tavernmx.Ssl.{
  Write, sent, write_loop, VerifyResult, verify_ok, self_signed_in_chain, self_signed_leaf,
  verify_failed, CertificateError, verify_certificate,
}
use tavernmx.Connection.Handshake.{
  Attempt, accepted, not_acknowledged, still_trying, denied, broken,
}
use tavernmx.Transport.{
  BaseConnection, Outcome, returned, threw, blocked, and_then, after_sending, shutdown,
}
use tavernmx.Transport.Connect.{
  Handshake, Connecting, Attempted, handshake_loop, after_verifying, secure, answered,
  unless_thrown,
}

abbrev pub IsOpen : Attempted → Type 0
IsOpen r = (r.signalled ≡ true) × (r.connection.has_bio ≡ true)

has_bio-shutdown : (c : BaseConnection) → (shutdown c).has_bio ≡ true → ⊥
unfolding shutdown
has_bio-shutdown c h = ground arith

pub unless_thrown_inv {ℓ} :
    {A : Type ℓ} (c : BaseConnection) (o : Outcome A) (f : A → Attempted)
    → IsOpen (unless_thrown c o f)
    → (a : A) × (o ≡ returned a) × IsOpen (f a)
unless_thrown_inv c (returned a) f h = (a, refl, h)
unless_thrown_inv c (threw e) f h = absurd (has_bio-shutdown c h.1)
unless_thrown_inv c blocked f h = absurd (cc (h.0))

pub answered_inv : (c : BaseConnection) (t : Attempt) → IsOpen (answered c t) → t ≡ accepted
answered_inv c accepted h = refl
answered_inv c not_acknowledged h = absurd (has_bio-shutdown c h.1)
answered_inv c still_trying h = absurd (cc (h.0))
answered_inv c (denied e) h = absurd (has_bio-shutdown c h.1)
answered_inv c (broken e) h = absurd (has_bio-shutdown c h.1)

and_then_inv {ℓ κ} :
    {A : Type ℓ} {B : Type κ} (o : Outcome A) (f : A → Outcome B) {b : B}
    → and_then o f ≡ returned b
    → (a : A) × (o ≡ returned a) × (f a ≡ returned b)
and_then_inv (returned a) f h = (a, refl, h)
and_then_inv (threw e) f h = absurd (cc)
and_then_inv blocked f h = absurd (cc)

after_verifying_inv :
    (o : Option CertificateError) {u : Unit {0}} → after_verifying o ≡ returned u → o ≡ none
after_verifying_inv none h = refl
after_verifying_inv (some e) h = absurd (cc)

-- The answers to `BIO_do_handshake`, up to the one that says that the handshake is done: each of those
-- before it asks for another call.
pub data Shakes : List Handshake → Type 0 where
  done : (h : Handshake) (hs : List Handshake) → h.done ≡ true → Shakes (h ∷ hs)
  again :
      (h : Handshake) (hs : List Handshake)
      → h.done ≡ false
      → h.should_retry ≡ true
      → Shakes hs
      → Shakes (h ∷ hs)

handshake_loop-Shakes : (hs : List Handshake) → handshake_loop hs ≡ returned tt → Shakes hs
unfolding handshake_loop
handshake_loop-Shakes [] e = absurd (cc)
handshake_loop-Shakes (h ∷ hs) e = elim (Bool-cases h.done) [
  | inl d ↦ done h hs d
  | inr d ↦ elim (Bool-cases h.should_retry) [
    | inl r ↦ again h hs d r (handshake_loop-Shakes hs (rw (d, r) at e))
    | inr r ↦ absurd (cc (rw (d, r) at e))
  ]
]

pub Shakes-handshake_loop : (hs : List Handshake) → Shakes hs → handshake_loop hs ≡ returned tt
unfolding handshake_loop
Shakes-handshake_loop _ (done h hs d) = rw d
Shakes-handshake_loop _ (again h hs d r s) = rw (d, r) (Shakes-handshake_loop hs s)

-- The answers to `BIO_write`, up to the first that is not negative: each of those before it asks for a
-- retry.
pub data Writes : List Write → Type 0 where
  goes : (w : Write) (ws : List Write) → w.negative ≡ false → Writes (w ∷ ws)
  retried :
      (w : Write) (ws : List Write)
      → w.negative ≡ true
      → w.should_retry ≡ true
      → Writes ws
      → Writes (w ∷ ws)

pub write_loop-Writes :
    (ws : List Write) (block_data bytes : List ℕ)
    → after_sending (write_loop ws block_data) ≡ returned bytes
    → Writes ws
unfolding write_loop
write_loop-Writes [] block_data bytes e = absurd (cc)
write_loop-Writes (w ∷ ws) block_data bytes e = elim (Bool-cases w.negative) [
  | inl n ↦ elim (Bool-cases w.should_retry) [
    | inl r ↦ retried w ws n r (write_loop-Writes ws block_data bytes (rw (n, r) at e))
    | inr r ↦ absurd (cc (rw (n, r) at e))
  ]
  | inr n ↦ goes w ws n
]

pub Writes-write_loop :
    (ws : List Write) (block_data : List ℕ)
    → Writes ws
    → (bytes : List ℕ) × (write_loop ws block_data ≡ sent bytes)
unfolding write_loop
Writes-write_loop _ block_data (goes w ws n) = ((if w.writes_nothing then [] else block_data), rw n)
Writes-write_loop _ block_data (retried w ws n r g) =
    let (bytes, e) = Writes-write_loop ws block_data g in (bytes, rw (n, r) e)

-- What the checks of a certificate have to find.
abbrev pub IsTrusted : Connecting → Type 0
IsTrusted x = (x.verified ≡ verify_ok) × (x.has_certificate ≡ true) × (x.host_matches ≡ true)

verify_certificate-inv :
    (v : VerifyResult) (c h : Bool)
    → verify_certificate v false c h ≡ none
    → (v ≡ verify_ok) × (c ≡ true) × (h ≡ true)
unfolding verify_certificate
verify_certificate-inv verify_ok true true e = (refl, refl, refl)
verify_certificate-inv verify_ok true false e = absurd (cc)
verify_certificate-inv verify_ok false h e = absurd (cc)
verify_certificate-inv self_signed_in_chain c h e = absurd (cc)
verify_certificate-inv self_signed_leaf c h e = absurd (cc)
verify_certificate-inv verify_failed c h e = absurd (cc)

pub secure_inv :
    (x : Connecting) {u : Unit {0}}
    → (if x.connected then secure x else threw transport_error) ≡ returned u
    → (x.connected ≡ true) × (x.has_ssl ≡ true) × Shakes x.handshakes × IsTrusted x
unfolding secure
secure_inv x h = elim (Bool-cases x.connected) [
  | inl e ↦ elim (Bool-cases x.has_ssl) [
    | inl s ↦
        let (v, p, q) = and_then_inv (handshake_loop x.handshakes) _ (rw (e, s) at h) in
        (
          e,
          s,
          handshake_loop-Shakes x.handshakes p,
          verify_certificate-inv _ _ _ (after_verifying_inv _ q),
        )
    | inr s ↦ absurd (cc (rw (e, s) at h))
  ]
  | inr e ↦ absurd (cc (rw e at h))
]

pub int_eq_of : (n : ℤ) (k : ℕ) → int_eq n (pos k) ≡ true → n ≡ pos k
int_eq_of (pos m) k h = ap pos (ground arith)
int_eq_of (negsuc m) k h = absurd (cc)

pub int_ne_of : (n : ℤ) (k : ℕ) → n ≢ pos k → int_eq n (pos k) ≡ false
int_ne_of (pos m) k h = elim (Bool-cases (m == k)) [
  | inl e ↦ absurd (h (ap pos (ground arith)))
  | inr e ↦ e
]
int_ne_of (negsuc m) k h = refl

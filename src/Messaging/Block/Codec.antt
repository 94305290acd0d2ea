-- ===== src/Messaging/Block/Codec.antt =====
-- `apply_buffer_to_block` against `pack_block`.
use tavernmx.Common.{
  false, ℕ, ◌^◌, ◌<◌, ◌≡◌, ◌≢◌, refl, sym, ap, length-append, append-nil, List, [], ◌∷◌, ◌++◌,
  arith, length, All, ==_of_eq, ==_of_ne,
}
use tavernmx.Common.Text.{is_empty, text_eq}
use tavernmx.Messaging.Block.{
  MessageBlock, empty_block, header, byte_of, cast_u32, htonl, cast_bytes, find_byte,
  apply_buffer_to_block,
}

-- What `pack_block` writes for the size is what `apply_buffer_to_block` reads, and it is the size in
-- network order, most significant byte first.
size_bytes :
    (n : ℕ)
    → n < 2 ^ 32
    → (htonl (
          cast_u32
            (byte_of 0 (htonl n))
            (byte_of 1 (htonl n))
            (byte_of 2 (htonl n))
            (byte_of 3 (htonl n)))
        ≡ n)
      × (cast_bytes (htonl n) ≡ byte_of 3 n ∷ byte_of 2 n ∷ byte_of 1 n ∷ byte_of 0 n ∷ [])
size_bytes n h =
    let e0 : byte_of 0 (htonl n) ≡ byte_of 3 n = omega arith in
    let e1 : byte_of 1 (htonl n) ≡ byte_of 2 n = omega arith in
    let e2 : byte_of 2 (htonl n) ≡ byte_of 1 n = omega arith in
    let e3 : byte_of 3 (htonl n) ≡ byte_of 0 n = omega arith in (omega arith, cc (e0, e1, e2, e3))

find_byte-junk :
    (b : ℕ) (junk rest : List ℕ) → All (λ x. x ≢ b) junk → find_byte b (junk ++ b ∷ rest) ≡ b ∷ rest
unfolding find_byte
find_byte-junk b [] rest h = rw (==_of_eq b b refl)
find_byte-junk b (x ∷ junk) rest h = rw (==_of_ne x b h.0) (find_byte-junk b junk rest h.1)

-- The bytes before the payload: the header and the size.
abbrev pub frame : ℕ → List ℕ
frame size = header ++ cast_bytes (htonl size)

pub is_empty-append : (junk : List ℕ) (x : ℕ) (rest : List ℕ) → is_empty (junk ++ x ∷ rest) ≡ false
is_empty-append [] x rest = refl
is_empty-append (j ∷ junk) x rest = refl

-- On a fresh block: bytes that hold no `t` are skipped in front of a header; the size is read, and
-- all that follows it is taken as payload, whether that is less than the size, the size or more.
pub apply_buffer_first :
    (junk rest : List ℕ) (size : ℕ)
    → size < 2 ^ 32
    → All (λ x. x ≢ b't') junk
    → apply_buffer_to_block (junk ++ (frame size ++ rest)) empty_block 0
      ≡ (length rest, record { payload_size = size; payload = rest })
unfolding apply_buffer_to_block text_eq
apply_buffer_first junk rest size h j =
    rw (is_empty-append junk b't' _, find_byte-junk b't' junk _ j)
      (ap (λ n. (length rest, record { payload_size = n; payload = rest })) (size_bytes size h).0)

-- Later chunks are appended whole while fewer bytes than the size have been counted.
pub apply_buffer_later :
    (b : MessageBlock) (chunk : List ℕ)
    → 0 < length b.payload
    → length b.payload < b.payload_size
    → apply_buffer_to_block chunk b (length b.payload)
      ≡ (length chunk, record b { payload = b.payload ++ chunk })
unfolding apply_buffer_to_block
apply_buffer_later b [] p l = ap (λ q. (0, record b { payload = q })) (sym (append-nil b.payload))
apply_buffer_later b (x ∷ chunk) p l = ground (arith, length-append b.payload (x ∷ chunk))

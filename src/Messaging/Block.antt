-- ===== src/Messaging/Block.antt =====
-- The transport format of src/shared/messaging.cpp: MessageBlock, `apply_buffer_to_block` and
-- `pack_block`. Bytes are numbers below 256. The host is little-endian, as `std::bit_cast` sees it.
pub mod Codec
use tavernmx.Common.{
  ℕ, zero, suc, ◌+◌, ◌-◌, ◌*◌, ◌/◌, ◌%◌, ◌^◌, Bool, List, [], ◌∷◌, ◌++◌, length, ltb, leb, ◌==◌,
  if◌then◌else◌,
}
use tavernmx.Common.Text.{Text, is_empty, text_eq}

abbrev pub header : List ℕ
header = b't' ∷ b'm' ∷ b'x' ∷ 0x02 ∷ []

pub record MessageBlock : Type 0 where
  pub payload_size : ℕ
  pub payload : List ℕ

abbrev pub empty_block : MessageBlock
empty_block = record { payload_size = 0; payload = [] }

-- `static_cast<int32_t>`, stored in a `uint32_t`: the size modulo 2^32.
unfoldable pub set_payload : MessageBlock → List ℕ → MessageBlock
set_payload block value = record { payload_size = length value % 2 ^ 32; payload = value }

-- Byte `i` of a `uint32_t`, least significant first, and `std::bit_cast` of four bytes.
abbrev pub byte_of : ℕ → ℕ → ℕ
byte_of i x = x / 256 ^ i % 256

abbrev pub cast_u32 : ℕ → ℕ → ℕ → ℕ → ℕ
cast_u32 a b c d = a + 256 * b + 256 ^ 2 * c + 256 ^ 3 * d

-- `htonl` and `ntohl` reverse the bytes.
abbrev pub htonl : ℕ → ℕ
htonl x = cast_u32 (byte_of 3 x) (byte_of 2 x) (byte_of 1 x) (byte_of 0 x)

abbrev pub cast_bytes : ℕ → List ℕ
cast_bytes x = byte_of 0 x ∷ byte_of 1 x ∷ byte_of 2 x ∷ byte_of 3 x ∷ []

unfoldable pub pack_block : MessageBlock → List ℕ
pack_block block = header ++ (cast_bytes (htonl block.payload_size) ++ block.payload)

-- `std::find`: what is left of the buffer from the first `byte` on.
pub find_byte : ℕ → List ℕ → List ℕ
find_byte byte [] = []
find_byte byte (x ∷ xs) = if x == byte then x ∷ xs else find_byte byte xs

-- The header check and what follows it, on the buffer from the first header byte on. Fewer than 8
-- bytes are too few for the header and the size.
read_block : List ℕ → MessageBlock → ℕ × MessageBlock
read_block (h0 ∷ h1 ∷ h2 ∷ h3 ∷ a ∷ b ∷ c ∷ d ∷ rest) block =
    if text_eq (h0 ∷ h1 ∷ h2 ∷ h3 ∷ []) header
    then (
      length (block.payload ++ rest),
      record { payload_size = htonl (cast_u32 a b c d); payload = block.payload ++ rest },
    )
    else (0, block)
read_block _ block = (0, block)

-- The number of payload bytes that the call reports, and the block after it.
unfoldable pub apply_buffer_to_block : List ℕ → MessageBlock → ℕ → ℕ × MessageBlock
unfolding find_byte read_block
apply_buffer_to_block buffer block payload_offset =
    if is_empty buffer
    then (0, block)
    else if payload_offset == 0
    then read_block (find_byte b't' buffer) block
    else if ltb payload_offset block.payload_size
    then (
      length (block.payload ++ buffer) - payload_offset,
      record block { payload = block.payload ++ buffer },
    )
    else (0, block)

-- ===== src/Ssl/Examples.antt =====
-- Tests of reading and writing message blocks.
use tavernmx.Common.{ℕ, ◌≡◌, refl, true, false, none, inl, inr, List, [], ◌∷◌, ◌++◌, arith, map}
use tavernmx.Common.Text.{lit}
use tavernmx.Messaging.Block.{MessageBlock, pack_block}
use tavernmx.Messaging.Block.Codec.{frame}
use tavernmx.Ssl.{Read, Write, received, waiting, receive_message, send_message, write_loop}
use tavernmx.Ssl.Receive.{gives, receive-send, receive_split_frame, receive_stalled}

abbrev block : MessageBlock
block = record { payload_size = 3; payload = 7 ∷ 8 ∷ 9 ∷ [] }

abbrev noise : List ℕ
noise = 1 ∷ 2 ∷ []

-- The first write is refused, the second goes through.
abbrev writes : List Write
writes =
    record { negative = true; writes_nothing = false; should_retry = true }
    ∷ record { negative = false; writes_nothing = false; should_retry = false }
    ∷ []

abbrev all_bytes : List ℕ
all_bytes = lit "tmx" ++ (2 ∷ 0 ∷ 0 ∷ 0 ∷ 3 ∷ 7 ∷ 8 ∷ 9 ∷ [])

receive-send_example :
    receive_message
      (gives (lit "tmx" ++ (2 ∷ 0 ∷ 0 ∷ 0 ∷ 3 ∷ 7 ∷ 8 ∷ [])))
      (map gives ((9 ∷ []) ∷ []))
    ≡ received block
unfolding send_message write_loop pack_block
receive-send_example =
    receive-send block writes all_bytes (lit "tmx" ++ (2 ∷ 0 ∷ 0 ∷ 0 ∷ 3 ∷ 7 ∷ 8 ∷ []))
      ((9 ∷ []) ∷ []) refl (omega arith) refl (omega arith) refl

receive_split_frame_example :
    receive_message (gives (frame 3)) (map gives ((7 ∷ 8 ∷ 9 ∷ []) ∷ []))
    ≡ received (record { payload_size = 3; payload = [] })
receive_split_frame_example =
    receive_split_frame 3 (map gives ((7 ∷ 8 ∷ 9 ∷ []) ∷ [])) (omega arith) (omega arith)

-- No byte is ready, then the connection is closed, then the peer has shut down.
abbrev silent_reads : List Read
silent_reads =
    gives []
    ∷ record { shut_down = false; bytes = none; should_retry = true; zero_return = false }
    ∷ record { shut_down = false; bytes = none; should_retry = false; zero_return = true }
    ∷ record { shut_down = true; bytes = none; should_retry = false; zero_return = false }
    ∷ []

receive_stalled_example : receive_message (gives (frame 3 ++ (7 ∷ []))) silent_reads ≡ waiting
receive_stalled_example =
    receive_stalled 3 (7 ∷ []) silent_reads
      (inr (inl refl), (inr (inr (refl, inl refl)), (inr (inr (refl, inr refl)), (inl refl, tt))))
      (omega arith) (omega arith) (omega arith)

-- ===== src/Ssl/Receive.antt =====
-- What `receive_message` makes of the bytes that a peer's `send_message` wrote.
use native.Mathlib.Decide.{dec_lt}
use tavernmx.Common.{
  ℕ, ◌^◌, ◌<◌, ◌≡◌, ◌≤◌, ◌≢◌, ◌∙◌, refl, sym, ap, subst, true, false, none, some, inl, inr, ◌⊎◌,
  List, [], ◌∷◌, ◌++◌, arith, length, map, length-append, append-nil, append_assoc, ==_of_ne,
  lt→ltb, All,
}
use tavernmx.Common.Result.{ok}
use tavernmx.Messaging.Block.{MessageBlock, pack_block}
use tavernmx.Messaging.Block.Codec.{is_empty-append, frame, apply_buffer_first, apply_buffer_later}
use tavernmx.Ssl.{
  Read, waiting, received, receive_bytes, receive_rest, receive_message, unfinished, Write, sent,
  send_message, write_loop,
}

-- A read that gives bytes; of no bytes where none was ready.
abbrev pub gives : List ℕ → Read
gives bytes = record {
  shut_down = false;
  bytes = some bytes;
  should_retry = false;
  zero_return = false;
}

abbrev pub joined : List (List ℕ) → List ℕ
joined [] = []
joined (c ∷ cs) = c ++ joined cs

nil_of_length : (xs : List ℕ) → length xs ≡ 0 → xs ≡ []
nil_of_length [] h = refl
nil_of_length (x ∷ xs) h = absurd (omega arith)

-- The loop ends as soon as its test fails, whatever could still be read.
receive_rest_stop :
    (reads : List Read) (applied : ℕ) (b : MessageBlock)
    → 0 < b.payload_size
    → unfinished applied b ≡ false
    → receive_rest reads applied b ≡ received b
unfolding receive_rest
receive_rest_stop [] applied b p stop = rw (stop, ==_of_ne b.payload_size 0 (omega arith))
receive_rest_stop (r ∷ reads) applied b p stop = rw (stop, ==_of_ne b.payload_size 0 (omega arith))

receive_rest_done :
    (reads : List Read) (size : ℕ) (done : List ℕ)
    → 0 < size
    → length done ≡ size
    → receive_rest reads (length done) (record { payload_size = size; payload = done })
      ≡ received (record { payload_size = size; payload = done })
receive_rest_done reads size done p e = receive_rest_stop reads (length done) _ p (ground arith)

-- One more round of the loop.
receive_rest_more :
    (c : List ℕ) (reads : List Read) (size : ℕ) (done : List ℕ)
    → 0 < length done
    → length done < size
    → receive_rest (gives c ∷ reads) (length done) (record { payload_size = size; payload = done })
      ≡ receive_rest reads
          (length (done ++ c))
          (record { payload_size = size; payload = done ++ c })
unfolding receive_rest receive_bytes
receive_rest_more c reads size done p l =
    rw
      (
        lt→ltb 0 (length done) p,
        lt→ltb (length done) size l,
        apply_buffer_later (record { payload_size = size; payload = done }) c p l,
      )
      (ap (λ n. receive_rest reads n (record { payload_size = size; payload = done ++ c }))
        (sym (length-append done c)))

receive_rest-payload :
    (chunks : List (List ℕ)) (size : ℕ) (done : List ℕ)
    → 0 < length done
    → length (done ++ joined chunks) ≡ size
    → receive_rest (map gives chunks) (length done) (record { payload_size = size; payload = done })
      ≡ received (record { payload_size = size; payload = done ++ joined chunks })
receive_rest-payload [] size done p e = rw (append-nil done) (
    receive_rest_done [] size done (omega (arith, length-append {0} done []))
      (omega (arith, length-append {0} done [])))
receive_rest-payload (c ∷ chunks) size done p e = elim (dec_lt (length done) size) [
  | yes more ↦
      receive_rest_more c (map gives chunks) size done p more
      ∙ receive_rest-payload chunks size (done ++ c) (omega (arith, length-append done c))
          (ap length (append_assoc done c (joined chunks)) ∙ e)
      ∙ ap (λ q. received (record { payload_size = size; payload = q }))
          (append_assoc done c (joined chunks))
  | no over ↦
      let none_left : c ++ joined chunks ≡ [] =
        nil_of_length _ (omega (arith, length-append done (c ++ joined chunks))) in
      rw (none_left, append-nil done)
        (receive_rest_done (map gives (c ∷ chunks)) size done
          (omega (arith, length-append done (c ++ joined chunks)))
          (omega (arith, length-append done (c ++ joined chunks))))
]

-- A read that brings nothing: the peer has shut down; or no byte was ready, whether `BIO_read` gives 0
-- or a negative number that asks for a retry or says that the connection was closed.
abbrev pub IsSilent : Read → Type 0
IsSilent r =
    (r.shut_down ≡ true)
    ⊎ ((r.bytes ≡ some [])
        ⊎ ((r.bytes ≡ none) × ((r.should_retry ≡ true) ⊎ (r.zero_return ≡ true))))

receive_bytes-silent : (r : Read) → IsSilent r → receive_bytes r ≡ ok []
unfolding receive_bytes
receive_bytes-silent r (inl gone) = rw gone
receive_bytes-silent r (inr (inl empty)) = ground (arith, empty)
receive_bytes-silent r (inr (inr (none_read, inl retry))) = ground (arith, none_read, retry)
receive_bytes-silent r (inr (inr (none_read, inr closed))) = ground (arith, none_read, closed)

receive_rest-silent :
    (r : Read) (reads : List Read) (applied : ℕ) (b : MessageBlock)
    → IsSilent r
    → receive_rest (r ∷ reads) applied b ≡ receive_rest (gives [] ∷ reads) applied b
unfolding receive_rest
receive_rest-silent r reads applied b silent =
    let same : receive_bytes r ≡ receive_bytes (gives []) =
      receive_bytes-silent r silent ∙ sym (receive_bytes-silent (gives []) (inr (inl refl))) in
    rw same

silent_rounds :
    (reads : List Read) (size : ℕ) (done : List ℕ)
    → All IsSilent reads
    → 0 < length done
    → length done < size
    → receive_rest reads (length done) (record { payload_size = size; payload = done }) ≡ waiting
silent_rounds [] size done silent p m =
    unfold receive_rest in rw (lt→ltb 0 (length done) p, lt→ltb (length done) size m)
silent_rounds (r ∷ reads) size done silent p m =
    receive_rest-silent r reads (length done) _ silent.0
    ∙ receive_rest_more [] reads size done p m
    ∙ subst
        (λ q. receive_rest reads (length q) (record { payload_size = size; payload = q }) ≡ waiting)
        (sym (append-nil done)) (silent_rounds reads size done silent.1 p m)

-- A block that a peer packed arrives whole, whatever harmless bytes come before its header and
-- however the stream is cut into reads, empty ones included, as long as the first read holds the
-- header, the size and at least one byte of payload, and the last read ends with the payload.
pub receive-pack :
    (b : MessageBlock) (junk first : List ℕ) (chunks : List (List ℕ))
    → b.payload_size ≡ length b.payload
    → b.payload_size < 2 ^ 32
    → All (λ x. x ≢ b't') junk
    → 0 < length first
    → first ++ joined chunks ≡ b.payload
    → receive_message (gives (junk ++ (frame b.payload_size ++ first))) (map gives chunks)
      ≡ received b
unfolding receive_message
receive-pack b junk first chunks e l j p cut =
    rw (is_empty-append junk b't' _, apply_buffer_first junk first b.payload_size l j)
      (receive_rest-payload chunks b.payload_size first p (ap length cut ∙ sym e)
        ∙ ap (λ q. received (record { payload_size = b.payload_size; payload = q })) cut)

-- If the first read ends right behind the size, the block that is returned has lost its payload:
-- none of the bytes that follow is read into it.
pub receive_split_frame :
    (size : ℕ) (reads : List Read)
    → 0 < size
    → size < 2 ^ 32
    → receive_message (gives (frame size)) reads
      ≡ received (record { payload_size = size; payload = [] })
unfolding receive_message
receive_split_frame size reads p l =
    rw (apply_buffer_first [] [] size l tt) (receive_rest_stop reads 0 _ p refl)

-- Where a read goes past the end of the payload, the bytes of whatever follows become payload too.
pub receive_overrun :
    (payload extra : List ℕ) (reads : List Read)
    → 0 < length payload
    → length payload < 2 ^ 32
    → receive_message (gives (frame (length payload) ++ (payload ++ extra))) reads
      ≡ received (record { payload_size = length payload; payload = payload ++ extra })
unfolding receive_message
receive_overrun payload extra reads p l =
    rw (apply_buffer_first [] (payload ++ extra) (length payload) l tt) (
      receive_rest_stop reads (length (payload ++ extra)) _ p
        (ground (arith, length-append payload extra)))

-- A peer that goes silent after the header and a part of the payload, or shuts down there, keeps the
-- loop running: however many reads follow that bring nothing, each because the peer has shut down,
-- because no byte was ready, or because the connection was closed, `receive_message` is still waiting.
pub receive_stalled :
    (size : ℕ) (first : List ℕ) (silent : List Read)
    → All IsSilent silent
    → 0 < length first
    → length first < size
    → size < 2 ^ 32
    → receive_message (gives (frame size ++ first)) silent ≡ waiting
unfolding receive_message
receive_stalled size first silent s p m l =
    rw (apply_buffer_first [] first size l tt) (silent_rounds silent size first s p m)

write_loop-sent :
    (writes : List Write) (block_data bytes : List ℕ)
    → write_loop writes block_data ≡ sent bytes
    → 0 < length bytes
    → bytes ≡ block_data
unfolding write_loop
write_loop-sent [] block_data bytes h p = cc
write_loop-sent (w ∷ ws) block_data bytes h p = ground (arith, write_loop-sent ws block_data bytes)

pub send_message-sent :
    (b : MessageBlock) (writes : List Write) (bytes : List ℕ)
    → send_message writes b ≡ sent bytes
    → 0 < length bytes
    → bytes ≡ pack_block b
unfolding send_message
send_message-sent b writes bytes h p = write_loop-sent writes (pack_block b) bytes h p

pub length-payload-sent :
    (b : MessageBlock) (writes : List Write) (bytes : List ℕ)
    → send_message writes b ≡ sent bytes
    → 0 < length bytes
    → length b.payload ≤ length bytes
unfolding pack_block
length-payload-sent b writes bytes h p = omega (
  arith,
  ap length (send_message-sent b writes bytes h p),
  length-append (frame b.payload_size) b.payload,
)

-- A first read that goes past the frame is the frame and a first part of the payload.
split_head :
    (head rest prefix payload : List ℕ)
    → length prefix < length head
    → head ++ rest ≡ prefix ++ payload
    → (first : List ℕ) × (head ≡ prefix ++ first) × (first ++ rest ≡ payload) × (0 < length first)
split_head head rest [] payload l e = (head, refl, e, l)
split_head [] rest (x ∷ prefix) payload l e = absurd (omega arith)
split_head (y ∷ head) rest (x ∷ prefix) payload l e =
    let same : y ≡ x = cc in
    let tails : head ++ rest ≡ prefix ++ payload = cc in
    let (first, h, r, p) = split_head head rest prefix payload (omega arith) tails in
    (first, cc (same, h), r, p)

-- End to end: whatever retries `send_message` needs, if it returns then the peer's `receive_message`
-- returns the same block, for any cut of the sent bytes into reads of which the first goes past the
-- header and the size, that is, past the first 8 bytes.
pub receive-send :
    (b : MessageBlock) (writes : List Write) (bytes first : List ℕ) (chunks : List (List ℕ))
    → b.payload_size ≡ length b.payload
    → b.payload_size < 2 ^ 32
    → send_message writes b ≡ sent bytes
    → 8 < length first
    → first ++ joined chunks ≡ bytes
    → receive_message (gives first) (map gives chunks) ≡ received b
unfolding pack_block
receive-send b writes bytes first chunks e l s p cut =
    let some_bytes : 0 < length bytes =
      omega (arith, ap length cut, length-append first (joined chunks)) in
    let (part, h, r, q) =
      split_head first (joined chunks) (frame b.payload_size) b.payload p
        (cut ∙ send_message-sent b writes bytes s some_bytes) in
    rw h (receive-pack b [] part chunks e l tt q r)

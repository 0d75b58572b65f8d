-- ===== src/Wire/Frames.antt =====
-- What the receiver reads from a frame (network.c): `read_agent_send_host` takes the length from the
-- first four bytes, the sequence number from the next four, and the payload from the rest.
use sosagent.Base.{
  ℕ, ◌+◌, ◌*◌, ◌^◌, ◌<◌, ◌≡◌, ap, sym, ◌∙◌, List, [], ◌++◌, length, take, drop, arith, append-nil,
  append_assoc, take_front, drop_front, drop-drop,
}
use sosagent.Wire.{
  ByteOrder, little, big, network_bytes, bytes_of, word_of, htonl, ntohl, frame_header, frame,
}
use sosagent.Wire.Words.{
  length-bytes_of, word_of-bytes_of, bytes_of-htonl, length-network_bytes, ntohl-network_bytes,
}

frame-eq :
    (order : ByteOrder) (seq : ℕ) (payload : List ℕ)
    → frame order seq payload
      ≡ network_bytes (length payload + 4) ++ (bytes_of order seq ++ payload)
unfolding frame frame_header
frame-eq order seq payload =
    append_assoc (bytes_of order (htonl order (length payload + 4))) (bytes_of order seq) payload
    ∙ rw (bytes_of-htonl order (length payload + 4))

-- What stands behind the length word.
pub frame_body :
    (order : ByteOrder) (seq : ℕ) (payload : List ℕ)
    → drop 4 (frame order seq payload) ≡ bytes_of order seq ++ payload
frame_body order seq payload =
    ap (drop 4) (frame-eq order seq payload)
    ∙ drop_front 4 (network_bytes (length payload + 4)) _
        (length-network_bytes (length payload + 4))

-- For a payload whose length word does not overflow, and any byte orders of the two machines: the
-- receiver reads the length, counting the sequence number; it reads the sequence number as its own
-- machine reads the bytes that the sender's stores; and the payload is what is left.
pub read-frame :
    (from to : ByteOrder) (seq : ℕ) (payload : List ℕ)
    → length payload + 4 < 2 ^ 32
    → (ntohl to (word_of to (take 4 (frame from seq payload))) ≡ length payload + 4)
      × (word_of to (take 4 (drop 4 (frame from seq payload))) ≡ word_of to (bytes_of from seq))
      × (drop 8 (frame from seq payload) ≡ payload)
read-frame from to seq payload h = (
  ap (λ b. ntohl to (word_of to b))
        (ap (take 4) (frame-eq from seq payload)
          ∙ take_front 4 (network_bytes (length payload + 4)) _
              (length-network_bytes (length payload + 4)))
      ∙ ntohl-network_bytes to (length payload + 4) h,
  ap (word_of to) (
      ap (take 4) (frame_body from seq payload)
      ∙ take_front 4 (bytes_of from seq) payload (length-bytes_of from seq)),
  sym (drop-drop 4 4 (frame from seq payload))
      ∙ ap (drop 4) (frame_body from seq payload)
      ∙ drop_front 4 (bytes_of from seq) payload (length-bytes_of from seq),
)

-- Between machines of the same byte order a sequence number of 32 bits comes through.
pub read-frame_same :
    (order : ByteOrder) (seq : ℕ) (payload : List ℕ)
    → seq < 2 ^ 32
    → length payload + 4 < 2 ^ 32
    → word_of order (take 4 (drop 4 (frame order seq payload))) ≡ seq
read-frame_same order seq payload h b =
    (read-frame order order seq payload b).1
    ∙ ap (word_of order) (sym (append-nil (bytes_of order seq)))
    ∙ word_of-bytes_of order seq [] h

-- Between machines of different byte orders a sequence number from 1 to 255 is read as 2 ^ 24 times
-- itself, in both directions.
pub read-frame_mixed :
    (seq : ℕ) (payload : List ℕ)
    → 0 < seq
    → seq < 256
    → length payload + 4 < 2 ^ 32
    → (word_of big (take 4 (drop 4 (frame little seq payload))) ≡ seq * 2 ^ 24)
      × (word_of little (take 4 (drop 4 (frame big seq payload))) ≡ seq * 2 ^ 24)
unfolding bytes_of word_of
read-frame_mixed seq payload p h b = (
  (read-frame little big seq payload b).1 ∙ omega arith,
  (read-frame big little seq payload b).1 ∙ omega arith,
)

-- ===== src/Send/Layout.antt =====
-- The three copies that build a frame in a buffer (`read_host_send_agent`, network.c).
use sosagent.Base.{
  ℕ, ◌+◌, ◌≤◌, ◌≡◌, ap, sym, ◌∙◌, List, ◌++◌, some, take, drop, length, arith, append_assoc,
  take-append_length, drop-drop, length-append, length-take, length-drop, take_front, drop_front,
}
use sosagent.Wire.{ByteOrder, bytes_of, htonl, frame_header, frame}
use sosagent.Wire.Words.{length-bytes_of}
use sosagent.Client.Access.{overwrite}

-- What `memcpy` leaves in a buffer that is large enough.
abbrev pub splice : List ℕ → ℕ → List ℕ → List ℕ
splice bytes off new = take off bytes ++ (new ++ drop (off + length new) bytes)

pub overwrite-eq :
    (bytes : List ℕ) (off : ℕ) (new : List ℕ)
    → off + length new ≤ length bytes
    → overwrite bytes off new ≡ some (splice bytes off new)
overwrite-eq bytes off new h = ground arith

pub length-splice :
    (bytes : List ℕ) (off : ℕ) (new : List ℕ)
    → off + length new ≤ length bytes
    → length (splice bytes off new) ≡ length bytes
length-splice bytes off new h = omega (
  arith,
  length-append (take off bytes) (new ++ drop (off + length new) bytes),
  length-append new (drop (off + length new) bytes),
  length-take off bytes,
  length-drop (off + length new) bytes,
)

-- The three copies make a buffer that begins with the two words and the payload.
pub splice-splice-splice :
    (data_bytes payload first second : List ℕ)
    → length first ≡ 4
    → length second ≡ 4
    → 8 + length payload ≤ length data_bytes
    → splice (splice (splice data_bytes 8 payload) 0 first) 4 second
      ≡ first ++ (second ++ (payload ++ drop (8 + length payload) data_bytes))
splice-splice-splice bytes payload first second e₁ e₂ h =
    rw (e₁, e₂, take_front 4 first _ e₁) (ap (λ r. first ++ (second ++ r)) rest)
  where
    tail : List ℕ
    tail = payload ++ drop (8 + length payload) bytes

    front : List ℕ
    front = take 8 bytes

    length-front : length front ≡ 8
    length-front = length-take 8 bytes (omega arith)

    rest : drop (4 + 4) (first ++ drop (0 + 4) (front ++ tail)) ≡ tail
    rest =
        sym (drop-drop 4 4 (first ++ drop 4 (front ++ tail)))
        ∙ ap (drop 4) (drop_front 4 first (drop 4 (front ++ tail)) e₁)
        ∙ drop-drop 4 4 (front ++ tail)
        ∙ drop_front 8 front tail length-front

-- The frame is eight bytes longer than its payload.
pub length-frame :
    (order : ByteOrder) (seq : ℕ) (payload : List ℕ)
    → length (frame order seq payload) ≡ length payload + 8
unfolding frame frame_header
length-frame order seq payload = omega (
  arith,
  length-append (bytes_of order (htonl order (length payload + 4)) ++ bytes_of order seq) payload,
  length-append (bytes_of order (htonl order (length payload + 4))) (bytes_of order seq),
  length-bytes_of order (htonl order (length payload + 4)),
  length-bytes_of order seq,
)

-- The buffer that the copies leave begins with the frame.
pub loaded_frame :
    (order : ByteOrder) (seq : ℕ) (bytes payload : List ℕ)
    → 8 + length payload ≤ length bytes
    → let built =
        splice
          (splice (splice bytes 8 payload) 0 (bytes_of order (htonl order (length payload + 4))))
          4
          (bytes_of order seq) in
      (take (length (frame order seq payload)) built ≡ frame order seq payload)
      × (length built ≡ length bytes)
unfolding frame frame_header
loaded_frame order seq bytes payload h = (
  rw shape (take-append_length (frame order seq payload) _),
  length-splice d₂ 4 second (omega (arith, e₂, l₁, l₂)) ∙ l₂ ∙ l₁,
)
  where
    first : List ℕ
    first = bytes_of order (htonl order (length payload + 4))

    second : List ℕ
    second = bytes_of order seq

    e₁ : length first ≡ 4
    e₁ = length-bytes_of order (htonl order (length payload + 4))

    e₂ : length second ≡ 4
    e₂ = length-bytes_of order seq

    d₁ : List ℕ
    d₁ = splice bytes 8 payload

    d₂ : List ℕ
    d₂ = splice d₁ 0 first

    l₁ : length d₁ ≡ length bytes
    l₁ = length-splice bytes 8 payload h

    l₂ : length d₂ ≡ length d₁
    l₂ = length-splice d₁ 0 first (omega (arith, e₁, l₁))

    shape : splice d₂ 4 second ≡ frame order seq payload ++ drop (8 + length payload) bytes
    shape =
        splice-splice-splice bytes payload first second e₁ e₂ h ∙ rw (append_assoc, append_assoc)

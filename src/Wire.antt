-- ===== src/Wire.antt =====
-- What two agents exchange on a parallel connection (OriginalAgentCodeC/network.c): the length
-- word, the sequence number and the payload, as the bytes that stand in memory.
pub mod Words
pub mod Frames
use sosagent.Base.{ℕ, ◌+◌, ◌*◌, ◌/◌, ◌%◌, ◌^◌, List, [], ◌∷◌, ◌++◌, length}

-- The byte order of the machine that an agent runs on.
pub data ByteOrder : Type 0 where
  little big : ByteOrder

-- The four bytes of a 32-bit word, most significant first.
unfoldable pub network_bytes : ℕ → List ℕ
network_bytes n = n / 2 ^ 24 % 256 ∷ n / 2 ^ 16 % 256 ∷ n / 2 ^ 8 % 256 ∷ n % 256 ∷ []

-- The four bytes of a 32-bit word as the machine stores them.
unfoldable pub bytes_of : ByteOrder → ℕ → List ℕ
unfolding network_bytes
bytes_of big n = network_bytes n
bytes_of little n = n % 256 ∷ n / 2 ^ 8 % 256 ∷ n / 2 ^ 16 % 256 ∷ n / 2 ^ 24 % 256 ∷ []

-- The word that the machine reads from four bytes of memory.
unfoldable pub word_of : ByteOrder → List ℕ → ℕ
word_of big (a ∷ b ∷ c ∷ d ∷ rest) = a * 2 ^ 24 + b * 2 ^ 16 + c * 2 ^ 8 + d
word_of little (a ∷ b ∷ c ∷ d ∷ rest) = a + b * 2 ^ 8 + c * 2 ^ 16 + d * 2 ^ 24
word_of order bytes = 0

-- `htonl` and `ntohl`: the word whose bytes in memory are in network order, and back.
unfoldable pub htonl : ByteOrder → ℕ → ℕ
unfolding network_bytes word_of
htonl order n = word_of order (network_bytes n)

unfoldable pub ntohl : ByteOrder → ℕ → ℕ
unfolding bytes_of word_of
ntohl order n = word_of big (bytes_of order n)

-- The eight bytes that `read_host_send_agent` copies in front of a payload of `size` bytes: the
-- length word counts the sequence number, and the sequence number is copied as it is stored.
unfoldable pub frame_header : ByteOrder → ℕ → ℕ → List ℕ
unfolding htonl bytes_of
frame_header order size seq = bytes_of order (htonl order (size + 4)) ++ bytes_of order seq

-- A whole frame.
unfoldable pub frame : ByteOrder → ℕ → List ℕ → List ℕ
unfolding frame_header
frame order seq payload = frame_header order (length payload) seq ++ payload

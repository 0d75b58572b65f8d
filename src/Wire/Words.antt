-- ===== src/Wire/Words.antt =====
-- Words and their four bytes (the casts, `memcpy`, `htonl` and `ntohl` of network.c).
use sosagent.Base.{ℕ, ◌^◌, ◌<◌, ◌≡◌, refl, List, ◌++◌, length, arith}
use sosagent.Wire.{ByteOrder, little, big, network_bytes, bytes_of, word_of, htonl, ntohl}

pub length-bytes_of : (order : ByteOrder) (n : ℕ) → length (bytes_of order n) ≡ 4
unfolding bytes_of
length-bytes_of little n = refl
length-bytes_of big n = refl

-- A word read from the bytes that were stored is the word.
pub word_of-bytes_of :
    (order : ByteOrder) (n : ℕ) (rest : List ℕ)
    → n < 2 ^ 32
    → word_of order (bytes_of order n ++ rest) ≡ n
unfolding bytes_of word_of
word_of-bytes_of little n rest h = omega arith
word_of-bytes_of big n rest h = omega arith

-- `htonl` stores the word in network order, whatever the machine's order.
pub bytes_of-htonl : (order : ByteOrder) (n : ℕ) → bytes_of order (htonl order n) ≡ network_bytes n
unfolding bytes_of htonl network_bytes
bytes_of-htonl little n = ground arith
bytes_of-htonl big n = ground arith

pub length-network_bytes : (n : ℕ) → length (network_bytes n) ≡ 4
unfolding network_bytes
length-network_bytes n = refl

-- `ntohl` of a word that stands in network order is its value, whatever the machine's order.
pub ntohl-network_bytes :
    (order : ByteOrder) (n : ℕ) → n < 2 ^ 32 → ntohl order (word_of order (network_bytes n)) ≡ n
unfolding ntohl word_of network_bytes bytes_of
ntohl-network_bytes little n h = ground arith
ntohl-network_bytes big n h = ground arith

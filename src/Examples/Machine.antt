-- ===== src/Examples/Machine.antt =====
-- A machine for tests: input and room in the sockets are lists, and the table is a list of entries.
use sosagent.Base.{
  ℕ, zero, suc, ◌≤◌, ◌<◌, ◌≡◌, refl, ◌==◌, ==_iff, ◌≢◌, if◌then◌else◌, false, Bool-cases, List, [],
  ◌∷◌, Option, none, some, length, take, replicate, arith, subst, ap, inl, inr, sym, ◌∙◌,
}
use sosagent.Wire.{little}
use sosagent.System.{Received, got, recv_failed, Sent, took, send_failed, eagain, Env}
use sosagent.System.Laws.{IsPosix, IsTable}

-- What comes in, a piece for each `recv`, and how much of its bytes, less one, each `send` takes.
pub record Sockets : Type 0 where
  pub pieces : List (List ℕ)
  pub rooms : List ℕ

unfoldable pub receive : List (List ℕ) → List ℕ → ℕ → Received × Sockets
receive [] rooms len = (recv_failed eagain, record { pieces = []; rooms = rooms })
receive (b ∷ bs) rooms len = (got (take len b), record { pieces = bs; rooms = rooms })

unfoldable pub transmit : List ℕ → List (List ℕ) → List ℕ → Sent × Sockets
transmit [] pieces bytes = (send_failed eagain, record { pieces = pieces; rooms = [] })
transmit (n ∷ ns) pieces bytes =
    (took (length (take (suc n) bytes)), record { pieces = pieces; rooms = ns })

unfoldable pub find : List (ℕ × (ℕ × ℕ)) → ℕ → Option (ℕ × ℕ)
find [] n = none
find (e ∷ es) n = if e.0 == n then some e.1 else find es n

unfoldable pub remove : List (ℕ × (ℕ × ℕ)) → ℕ → List (ℕ × (ℕ × ℕ))
remove [] n = []
remove (e ∷ es) n = if e.0 == n then remove es n else (e ∷ remove es n)

abbrev pub machine : Env
machine = record {
  order = little;
  Kernel = Sockets;
  recv_call = λ k fd len. receive k.pieces k.rooms len;
  send_call = λ k fd bytes. transmit k.rooms k.pieces bytes;
  ctl_call = λ k pool c fd. (false, k);
  malloc_call = λ k n. (some (replicate n 0), k);
  Table = List (ℕ × (ℕ × ℕ));
  no_entries = [];
  hash_find = find;
  hash_add = λ t n v. (n, v) ∷ t;
  hash_del = remove;
}

length-take_le : (n : ℕ) (xs : List ℕ) → length (take n xs) ≤ n
length-take_le zero xs = omega arith
length-take_le (suc n) [] = omega arith
length-take_le (suc n) (x ∷ xs) = omega (arith, length-take_le n xs)

length-take_bound : (n : ℕ) (xs : List ℕ) → length (take n xs) ≤ length xs
length-take_bound zero xs = omega arith
length-take_bound (suc n) [] = omega arith
length-take_bound (suc n) (x ∷ xs) = omega (arith, length-take_bound n xs)

bytes_in : Received → List ℕ
bytes_in (got bs) = bs
bytes_in (recv_failed e) = []

unfoldable pub count_of : Sent → ℕ
count_of (took n) = n
count_of (send_failed e) = 0

receive_bound :
    (pieces : List (List ℕ)) (rooms : List ℕ) (len : ℕ)
    → length (bytes_in (receive pieces rooms len).0) ≤ len
unfolding receive bytes_in
receive_bound [] rooms len = omega arith
receive_bound (b ∷ bs) rooms len = length-take_le len b

transmit_bound :
    (rooms : List ℕ) (pieces : List (List ℕ)) (bs : List ℕ)
    → count_of (transmit rooms pieces bs).0 ≤ length bs
unfolding transmit count_of
transmit_bound [] pieces bs = omega arith
transmit_bound (n ∷ ns) pieces bs = length-take_bound (suc n) bs

transmit_progress :
    (rooms : List ℕ) (pieces : List (List ℕ)) (bs : List ℕ) (n : ℕ)
    → (transmit rooms pieces bs).0 ≡ took n
    → 0 < length bs
    → 0 < n
unfolding transmit count_of
transmit_progress [] pieces bs n e h = cc
transmit_progress (m ∷ ms) pieces [] n e h = absurd (omega arith)
transmit_progress (m ∷ ms) pieces (b ∷ bs) n e h = subst (λ x. 0 < x) (ap count_of e) (omega arith)

pub machine-IsPosix : IsPosix machine
unfolding bytes_in count_of
machine-IsPosix = record {
  recv_bound = λ k fd len bs e.
      subst (λ r. length (bytes_in r) ≤ len) e (receive_bound k.pieces k.rooms len);
  send_bound =
      λ k fd bs n e. subst (λ r. count_of r ≤ length bs) e (transmit_bound k.rooms k.pieces bs);
  send_progress = λ k fd bs n e h. transmit_progress k.rooms k.pieces bs n e h;
}

find-add_self : (t : List (ℕ × (ℕ × ℕ))) (n : ℕ) (v : ℕ × ℕ) → find ((n, v) ∷ t) n ≡ some v
unfolding find
find-add_self t n v = rw ((==_iff n n).1 refl) refl

apart : (n m : ℕ) → n ≢ m → (n == m) ≡ false
apart n m h = ground arith

find-add_ne :
    (t : List (ℕ × (ℕ × ℕ))) (n m : ℕ) (v : ℕ × ℕ) → n ≢ m → find ((n, v) ∷ t) m ≡ find t m
unfolding find
find-add_ne t n m v h = rw (apart n m h) refl

find-remove_self : (t : List (ℕ × (ℕ × ℕ))) (n : ℕ) → find (remove t n) n ≡ none
unfolding find remove
find-remove_self [] n = refl
find-remove_self (e ∷ es) n = elim (Bool-cases (e.0 == n)) [
  | inl q ↦ rw q (find-remove_self es n)
  | inr q ↦ rw (q, q) (find-remove_self es n)
]

find-remove_ne : (t : List (ℕ × (ℕ × ℕ))) (n m : ℕ) → n ≢ m → find (remove t n) m ≡ find t m
unfolding find remove
find-remove_ne [] n m h = refl
find-remove_ne (e ∷ es) n m h = elim (Bool-cases (e.0 == n)) [
  | inl q ↦ rw (q, apart e.0 m (λ r. h (sym ((==_iff e.0 n).0 q) ∙ r))) (find-remove_ne es n m h)
  | inr q ↦ rw q (ap (λ r. if e.0 == m then some e.1 else r) (find-remove_ne es n m h))
]

pub machine-IsTable : IsTable machine
unfolding find
machine-IsTable = record {
  find_none = λ n. refl;
  find-add_self = λ t n v e. find-add_self t n v;
  find-add_ne = λ t n m v h. find-add_ne t n m v h;
  find-del_self = λ t n. find-remove_self t n;
  find-del_ne = λ t n m h. find-remove_ne t n m h;
}

-- ===== src/Examples/Streams.antt =====
-- A machine on which one socket brings a stream, and a run of `read_agent_send_host` (network.c) on it.
use sosagent.Base.{
  ℕ, zero, suc, ◌≤◌, ◌≡◌, refl, ap, sym, subst, ◌∙◌, ◌≢◌, ◌==◌, ==_iff, if◌then◌else◌, Bool, true,
  false, Bool-cases, inl, inr, List, [], ◌∷◌, ◌++◌, append_assoc, none, take, drop, length,
  replicate, take-append-drop, arith,
}
use sosagent.System.{Received, got, recv_failed, eagain, Env}
use sosagent.System.Laws.{IsPosix, IsTable}
use sosagent.System.Calls.{World}
use sosagent.Client.{Client}
use sosagent.Receive.Gather.{bytes_in}
use sosagent.Receive.Resting.{Resting}
use sosagent.Receive.Tcp.{IsTcp}
use sosagent.Receive.Progress.{Progress}
use sosagent.Examples.Machine.{Sockets, transmit, machine, machine-IsPosix, machine-IsTable}
use sosagent.Examples.Reading.{slot, lane, world}

-- What is left of a piece stays in front of the others.
unfoldable pub keep : List ℕ → List (List ℕ) → List (List ℕ)
keep [] bs = bs
keep (x ∷ xs) bs = (x ∷ xs) ∷ bs

unfoldable pub flow : List (List ℕ) → List ℕ
flow [] = []
flow (b ∷ bs) = b ++ flow bs

flow-keep : (b : List ℕ) (bs : List (List ℕ)) → flow (keep b bs) ≡ b ++ flow bs
unfolding keep flow
flow-keep [] bs = refl
flow-keep (x ∷ xs) bs = refl

-- Only one socket has a stream.
unfoldable pub receive_from : Bool → List (List ℕ) → List ℕ → ℕ → Received × Sockets
unfolding keep
receive_from false pieces rooms len =
    (recv_failed eagain, record { pieces = pieces; rooms = rooms })
receive_from true [] rooms len = (recv_failed eagain, record { pieces = []; rooms = rooms })
receive_from true (b ∷ bs) rooms len =
    (got (take len b), record { pieces = keep (drop len b) bs; rooms = rooms })

abbrev pub streaming : ℕ → Env
streaming from = record machine {
  recv_call = λ k fd len. receive_from (fd == from) k.pieces k.rooms len;
}

abbrev pub coming : ℕ → Sockets → ℕ → List ℕ
coming from k fd = if fd == from then flow k.pieces else []

length-take_le : (n : ℕ) (xs : List ℕ) → length (take n xs) ≤ n
length-take_le zero xs = omega arith
length-take_le (suc n) [] = omega arith
length-take_le (suc n) (x ∷ xs) = omega (arith, length-take_le n xs)

receive_from_bound :
    (b : Bool) (pieces : List (List ℕ)) (rooms : List ℕ) (len : ℕ)
    → length (bytes_in (receive_from b pieces rooms len).0) ≤ len
unfolding receive_from
receive_from_bound false pieces rooms len = omega arith
receive_from_bound true [] rooms len = omega arith
receive_from_bound true (b ∷ bs) rooms len = length-take_le len b

pub streaming-IsPosix : (from : ℕ) → IsPosix (streaming from)
streaming-IsPosix from = record {
  recv_bound = λ k fd len bs e.
      subst (λ r. length (bytes_in r) ≤ len) e
        (receive_from_bound (fd == from) k.pieces k.rooms len);
  send_bound = machine-IsPosix.send_bound;
  send_progress = machine-IsPosix.send_progress;
}

pub streaming-IsTable : (from : ℕ) → IsTable (streaming from)
streaming-IsTable from = record {
  find_none = machine-IsTable.find_none;
  find-add_self = machine-IsTable.find-add_self;
  find-add_ne = machine-IsTable.find-add_ne;
  find-del_self = machine-IsTable.find-del_self;
  find-del_ne = machine-IsTable.find-del_ne;
}

receive_from-flow :
    (b : Bool) (pieces : List (List ℕ)) (rooms : List ℕ) (len : ℕ)
    → bytes_in (receive_from b pieces rooms len).0
        ++ flow (receive_from b pieces rooms len).1.pieces
      ≡ flow pieces
unfolding receive_from flow
receive_from-flow false pieces rooms len = refl
receive_from-flow true [] rooms len = refl
receive_from-flow true (b ∷ bs) rooms len =
    ap (λ r. take len b ++ r) (flow-keep (drop len b) bs)
    ∙ sym (append_assoc (take len b) (drop len b) (flow bs))
    ∙ ap (λ r. r ++ flow bs) (take-append-drop len b)

transmit-pieces :
    (rooms : List ℕ) (pieces : List (List ℕ)) (bytes : List ℕ)
    → (transmit rooms pieces bytes).1.pieces ≡ pieces
unfolding transmit
transmit-pieces [] pieces bytes = refl
transmit-pieces (n ∷ ns) pieces bytes = refl

pub streaming-IsTcp : (from : ℕ) → IsTcp (streaming from) (coming from)
unfolding receive_from
streaming-IsTcp from = record {
  recv_in_order = λ k fd len. elim (Bool-cases (fd == from)) [
    | inl q ↦ rw q (receive_from-flow true k.pieces k.rooms len)
    | inr q ↦ rw q refl
  ];
  recv_other = λ k fd len other distinct. elim (Bool-cases (fd == from)) [
    | inl q ↦ rw (q, apart other (λ r. distinct ((==_iff fd from).0 q ∙ sym r))) refl
    | inr q ↦ rw q refl
  ];
  send_pending = λ k to fd bytes.
      ap (λ pieces. if fd == from then flow pieces else [])
        (transmit-pieces k.rooms k.pieces bytes);
  ctl_pending = λ k pool c on fd. refl;
}
  where
    apart : (m : ℕ) → m ≢ from → (m == from) ≡ false
    apart m h = ground arith

-- The stream of packet 0 with the payload 7, 8, in pieces of 2, 3 and 5 bytes.
abbrev pieces : List (List ℕ)
pieces = (0 ∷ 0 ∷ []) ∷ (0 ∷ 6 ∷ 0 ∷ []) ∷ (0 ∷ 0 ∷ 0 ∷ 7 ∷ 8 ∷ []) ∷ []

abbrev payload : ℕ → List ℕ
payload n = 7 ∷ 8 ∷ []

abbrev pub start : World (streaming 21) (Client (streaming 21).Table)
start = record {
  kernel = record { pieces = pieces; rooms = 5 ∷ [] };
  state = record (world.state) {
    lanes =
        record (lane none) {
          buffered_packet = record slot { in_use = false; serialized_data = replicate 16 0 } ∷ [];
        }
        ∷ [];
  };
  trace = [];
}

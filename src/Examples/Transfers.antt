-- ===== src/Examples/Transfers.antt =====
-- Runs of `send_data_host`, of the arrival of a packet and of `read_host_send_agent` (network.c).
use sosagent.Base.{
  ℕ, zero, suc, ◌≡◌, refl, ◌==◌, ==_iff, ◌≢◌, Bool, true, false, Bool-cases, List, [], ◌∷◌, Option,
  none, some, ap, subst, inl, inr, arith, sym, ◌∙◌, if◌then◌else◌,
}
use sosagent.System.{Action, sent}
use sosagent.System.Outcome.{Ensures}
use sosagent.System.Calls.{World, stream}
use sosagent.Client.{Poll, off, in_only, out_only, Slot, LaneStats, Lane, Client}
use sosagent.Client.Access.{slot_at}
use sosagent.Deliver.{send_data_host}
use sosagent.Deliver.Order.{
  first_payloads, Held, Filed, AllFiled, Apart, InOrder, Sending, Waiting, Delivered,
}
use sosagent.Deliver.Drain.{send_data_host-new, send_data_host-resumed}
use sosagent.Client.{success}
use sosagent.Wire.{word_of}
use sosagent.Receive.{first_free, packet_arrived}
use sosagent.Receive.Queue.{Sought, first_free-Sought}
use sosagent.Receive.Resting.{Resting}
use sosagent.Receive.Arrival.{Arrived, Settled, packet_arrived-Settled}
use sosagent.Examples.Machine.{find, machine, machine-IsPosix, machine-IsTable}

-- The payloads of two packets.
abbrev pub payload : ℕ → List ℕ
payload zero = 7 ∷ 8 ∷ []
payload (suc zero) = 9 ∷ []
payload (suc (suc n)) = []

abbrev pub no_stats : LaneStats
no_stats = record {
  sent_bytes = 0;
  recv_bytes = 0;
  sent_packets = 0;
  recv_packets = 0;
  blocked = 0;
  blocked_recv = 0;
  not_full_send = 0;
  average_queue_length = 0;
}

-- Packet 0, of which `count` bytes are out, and packet 1, which waits for its turn.
abbrev pub first_slot : ℕ → Slot
first_slot count = record {
  id = 0;
  agent_id = 0;
  host_sent_size = count;
  size = 6;
  packet_index = 0;
  serialized_data = 0 ∷ 0 ∷ 0 ∷ 0 ∷ 7 ∷ 8 ∷ [];
  seq_num = 0;
  in_use = true;
}

abbrev pub second_slot : Slot
second_slot = record {
  id = 1;
  agent_id = 0;
  host_sent_size = 0;
  size = 5;
  packet_index = 1;
  serialized_data = 1 ∷ 0 ∷ 0 ∷ 0 ∷ 9 ∷ [];
  seq_num = 1;
  in_use = true;
}

abbrev pub lanes : ℕ → List Lane
lanes count =
    record {
      agent_sock = 21;
      agent_fd_poll = off;
      packet = record { serialized_data = []; host_packet_size = 0; host_sent_size = 0 };
      header_size = [];
      agent_needed_header_size = 0;
      agent_packet_index_in = none;
      agent_packet_queue_count = 2;
      buffered_packet = first_slot count ∷ second_slot ∷ [];
      stats = no_stats;
    }
    ∷ []

abbrev pub state : ℕ → Poll → Client machine.Table
state count poll = record {
  buffered_packet_table = (1, (0, 1)) ∷ [];
  send_seq = 0;
  recv_seq = 0;
  host_sock = 11;
  host_fd_poll = poll;
  host_agent_id = 0;
  agent_packet_index_out = 0;
  buffer_size = 16;
  queue_size = 2;
  total_sent_bytes = 0;
  total_recv_bytes = 0;
  lanes = lanes count;
}

abbrev world : ℕ → Poll → List Action → World machine (Client machine.Table)
world count poll trace = record {
  kernel = record { pieces = []; rooms = 0 ∷ 5 ∷ 5 ∷ [] };
  state = state count poll;
  trace = trace;
}

abbrev value_of : Option (ℕ × ℕ) → ℕ × ℕ
value_of none = (0, 0)
value_of (some v) = v

second-Filed : (count : ℕ) → Filed payload (lanes count) 0 1 1
unfolding slot_at
second-Filed count = record {
  held = second_slot;
  at = refl;
  carries = record {
    size_min = omega arith;
    size_max = omega arith;
    fits = omega arith;
    payload = refl;
    used_slot = refl;
  };
  own_id = refl;
  own_lane = refl;
  own_place = refl;
}

abbrev if_found : Bool → Option (ℕ × ℕ)
if_found b = if b then some (0, 1) else none

-- The one entry of the table.
find_one : (n : ℕ) (v : ℕ × ℕ) → find ((1, (0, 1)) ∷ []) n ≡ some v → (1 ≡ n) × ((0, 1) ≡ v)
unfolding find
find_one n v e = elim (Bool-cases (1 == n)) [
  | inl q ↦ ((==_iff 1 n).0 q, ap value_of (sym (ap if_found q) ∙ e))
  | inr q ↦ absurd (none≢some (sym (ap if_found q) ∙ e))
]
  where
    none≢some : {w : ℕ × ℕ} → none ≢ some w
    none≢some h = cc

pub all_filed : (count : ℕ) → AllFiled payload machine ((1, (0, 1)) ∷ []) (lanes count)
all_filed count n a i e =
    subst (λ m. Filed payload (lanes count) a i m) (find_one n (a, i) e).0
      (subst (λ v. Filed payload (lanes count) v.0 v.1 1) (find_one n (a, i) e).1
        (second-Filed count))

unfoldable pub first_held : (count : ℕ) → Held payload (lanes count) 0 0 0
unfolding slot_at
first_held count = record {
  held = first_slot count;
  at = refl;
  carries = record {
    size_min = omega arith;
    size_max = omega arith;
    fits = omega arith;
    payload = refl;
    used_slot = refl;
  };
}

pub first-Apart : Apart machine ((1, (0, 1)) ∷ []) 0 0
first-Apart n e = absurd (clash (ap second_of (find_one n (0, 0) e).1))
  where
    second_of : ℕ × ℕ → ℕ
    second_of v = v.1

    clash : ¬ (suc zero ≡ zero)
    clash h = omega arith

first_sending : (poll : Poll) → Sending payload 0 0 0 0 (world 0 poll [])
unfolding first_payloads find stream first_held
first_sending poll = record {
  next = refl;
  out = refl;
  filed = all_filed 0;
  at_slot = first_held 0;
  partial = omega arith;
  apart = first-Apart;
  absent = refl;
}

-- Packet 0 goes out, and packet 1 behind it.
send_data_host-new_example :
    Ensures (Delivered payload 0) (InOrder payload) (send_data_host false 0 (world 0 in_only []))
send_data_host-new_example =
    send_data_host-new payload machine-IsTable machine-IsPosix 0 0 (world 0 in_only []) refl
      (first_sending in_only)

one_out : Waiting payload 0 (world 1 out_only (sent 11 (7 ∷ []) ∷ []))
unfolding first_payloads find stream first_held
one_out = record {
  count = 1;
  sending = record {
    next = refl;
    out = refl;
    filed = all_filed 1;
    at_slot = first_held 1;
    partial = omega arith;
    apart = first-Apart;
    absent = refl;
  };
  marked = refl;
  wanted = refl;
}

-- One byte of packet 0 is out, and the host's socket can be written again.
send_data_host-resumed_example :
    Ensures
      (Delivered payload 0)
      (InOrder payload)
      (send_data_host true 0 (world 1 out_only (sent 11 (7 ∷ []) ∷ [])))
send_data_host-resumed_example =
    send_data_host-resumed payload machine-IsTable machine-IsPosix 0
      (world 1 out_only (sent 11 (7 ∷ []) ∷ [])) one_out

at_rest : Resting payload 0 0 0 (world 0 in_only [])
unfolding first_payloads find stream
at_rest = record {
  apart = first-Apart;
  rest = inl (record {
    between = record { next = refl; out = refl; filed = all_filed 0 };
    quiet = refl;
    absent = refl;
  });
}

arrived : Arrived payload 0 0 0 0 (first_slot 0) (world 0 in_only [])
unfolding find slot_at first_held
arrived = record { at = refl; carries = (first_held 0).carries; new = refl; due = λ e. refl }

-- Packet 0 comes in while packet 1 waits for it.
packet_arrived-Settled_example :
    Ensures
      (λ r w. (r ≡ success) × Settled payload 0 0 0 0 w)
      (InOrder payload)
      (packet_arrived 0 0 (world 0 in_only []))
unfolding word_of
packet_arrived-Settled_example =
    packet_arrived-Settled payload machine-IsTable machine-IsPosix 0 0 0 0 (first_slot 0)
      (world 0 in_only []) at_rest arrived refl

-- The second of two slots is free.
first_free-Sought_example :
    Sought 2 0
      (first_slot 0 ∷ record (second_slot) { in_use = false } ∷ [])
      (first_free 2 0 (first_slot 0 ∷ record (second_slot) { in_use = false } ∷ []))
first_free-Sought_example =
    first_free-Sought 2 0 (first_slot 0 ∷ record (second_slot) { in_use = false } ∷ [])

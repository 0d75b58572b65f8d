-- ===== src/Examples/Reading.antt =====
-- Runs of the two loops of `read_agent_send_host` (network.c) that read a packet, and of
-- `send_data_host` on one that is too short, and of `configure_poll`.
use sosagent.Base.{ℕ, ◌≡◌, refl, ◌∙◌, true, false, List, [], ◌∷◌, Option, some, arith, replicate}
use sosagent.System.{Action}
use sosagent.System.Outcome.{Ensures, fault}
use sosagent.System.Calls.{World, stream, incoming}
use sosagent.Client.{in_only, off, Slot, Lane, Client}
use sosagent.Client.Access.{slot_at}
use sosagent.Deliver.{send_data_host}
use sosagent.Deliver.Short.{send_data_host-short}
use sosagent.Transfer.Setup.{configure_poll}
use sosagent.Transfer.Prepared.{Configured, Unused, configure_poll-Configured}
use sosagent.Receive.{read_payload}
use sosagent.Receive.Gather.{Upkeep, Filling}
use sosagent.Receive.Dropped.{Unsent}
use sosagent.Receive.Payload.{Read, read_payload-Read}
use sosagent.Examples.Machine.{receive, machine, machine-IsPosix, machine-IsTable}

-- A slot for a packet of 6 bytes.
abbrev pub slot : Slot
slot = record {
  id = 0;
  agent_id = 0;
  host_sent_size = 0;
  size = 6;
  packet_index = 0;
  serialized_data = replicate 8 0;
  seq_num = 0;
  in_use = true;
}

abbrev pub lane : Option ℕ → Lane
lane index = record {
  agent_sock = 21;
  agent_fd_poll = in_only;
  packet = record { serialized_data = []; host_packet_size = 0; host_sent_size = 0 };
  header_size = replicate 4 0;
  agent_needed_header_size = 0;
  agent_packet_index_in = index;
  agent_packet_queue_count = 1;
  buffered_packet = slot ∷ [];
  stats = record {
    sent_bytes = 0;
    recv_bytes = 0;
    sent_packets = 0;
    recv_packets = 0;
    blocked = 0;
    blocked_recv = 0;
    not_full_send = 0;
    average_queue_length = 0;
  };
}

-- What is to come in is in pieces of 2, 3 and 1 bytes.
abbrev pub world : World machine (Client machine.Table)
world = record {
  kernel = record { pieces = (0 ∷ 0 ∷ []) ∷ (0 ∷ 6 ∷ 7 ∷ []) ∷ (8 ∷ []) ∷ []; rooms = 5 ∷ [] };
  state = record {
    buffered_packet_table = [];
    send_seq = 0;
    recv_seq = 0;
    host_sock = 11;
    host_fd_poll = off;
    host_agent_id = 0;
    agent_packet_index_out = 0;
    buffer_size = 16;
    queue_size = 1;
    total_sent_bytes = 0;
    total_recv_bytes = 0;
    lanes = lane (some 0) ∷ [];
  };
  trace = [];
}

-- Reading leaves the room for sending as it is.
abbrev Roomy : machine.Kernel → List Action → Type 0
Roomy k t = k.rooms ≡ 5 ∷ []

kept :
    (pieces : List (List ℕ)) (rooms : List ℕ) (len : ℕ) → (receive pieces rooms len).1.rooms ≡ rooms
unfolding receive
kept [] rooms len = refl
kept (b ∷ bs) rooms len = refl

roomy : Upkeep machine Roomy
roomy = record {
  on_recv = λ k t fd len h. kept k.pieces k.rooms len ∙ h;
  on_ctl = λ k t pool c fd h. h;
  on_close = λ k t fd h. h;
}

filling : Filling {env = machine} Roomy 0 0 21 6 [] world (some 0) 0 world
unfolding slot_at stream incoming
filling = record {
  still = record {
    only_lanes = refl;
    quiet = λ x. refl;
    agree = λ b j q. refl;
    others = λ j q. refl;
    kept = refl;
  };
  conn = lane (some 0);
  at_lane = refl;
  own = refl;
  filled_index = refl;
  no_header = refl;
  held = slot;
  at_slot = refl;
  sized = refl;
  taken = refl;
  room = omega arith;
  input = refl;
}

-- The 6 bytes come in, in three pieces.
read_payload-Read_example :
    Ensures
      (Read {env = machine} Roomy 0 0 21 6 [] world)
      (Unsent world)
      (read_payload 7 0 0 6 0 world)
read_payload-Read_example =
    read_payload-Read Roomy 0 0 21 6 [] world machine-IsPosix roomy (omega arith) 7 0 world filling
      (omega arith) (omega arith)

-- A packet of 3 bytes is next.
abbrev short_world : World machine (Client machine.Table)
short_world = record world {
  state = record (world.state) {
    lanes = record (lane (some 0)) { buffered_packet = record slot { size = 3 } ∷ [] } ∷ [];
  };
}

send_data_host-short_example : send_data_host false 0 short_world ≡ fault
unfolding slot_at
send_data_host-short_example =
    send_data_host-short 0 short_world (record slot { size = 3 }) refl (omega arith) (omega arith)

configure_poll-Configured_example :
    Ensures (λ _ w'. Configured (λ n. []) world w') (Unused world) (configure_poll slot world)
unfolding stream
configure_poll-Configured_example =
    configure_poll-Configured (λ n. []) machine-IsTable slot world refl refl refl

-- ===== src/Examples/Frames.antt =====
-- Runs of `read_host_send_agent` (network.c), and of the exchange of an id.
use sosagent.Base.{ℕ, ◌≡◌, refl, ◌^◌, ◌*◌, List, [], ◌∷◌, none, arith, take, drop, replicate}
use sosagent.Wire.{little, big, word_of, frame}
use sosagent.Wire.Frames.{read-frame, read-frame_same, read-frame_mixed}
use sosagent.Wire.{ntohl, bytes_of}
use sosagent.System.{Action, sent, received}
use sosagent.System.Outcome.{Ensures, ret, fault}
use sosagent.System.Calls.{World, stream}
use sosagent.Client.{in_only, out_only, Lane, Client}
use sosagent.Send.Flight.{Flying}
use sosagent.Watch.{all_agents_socks_full, not_all_agent_socks_full}
use sosagent.Watch.Rounds.{Silent}
use sosagent.Watch.Full.{Paused, all_agents_socks_full-Paused}
use sosagent.Watch.Resumed.{Running, not_all_agent_socks_full-Running}
use sosagent.Agent.Handshake.{get_uuid, get_uuid_whole, get_uuid_split}
use sosagent.Examples.Machine.{receive, machine}

-- A connection whose packet has `size` bytes, of which `count` are out.
abbrev idle_lane : List ℕ → ℕ → ℕ → Lane
idle_lane bytes size count = record {
  agent_sock = 21;
  agent_fd_poll = out_only;
  packet = record { serialized_data = bytes; host_packet_size = size; host_sent_size = count };
  header_size = [];
  agent_needed_header_size = 0;
  agent_packet_index_in = none;
  agent_packet_queue_count = 0;
  buffered_packet = [];
  stats = record {
    sent_bytes = 0;
    recv_bytes = 0;
    sent_packets = 0;
    recv_packets = 0;
    blocked = 0;
    blocked_recv = 0;
    not_full_send = 0;
    average_queue_length = 0;
  };
}

abbrev world : Lane → List Action → World machine (Client machine.Table)
world l trace = record {
  kernel = record { pieces = (7 ∷ 8 ∷ []) ∷ []; rooms = 0 ∷ 5 ∷ 5 ∷ [] };
  state = record {
    buffered_packet_table = [];
    send_seq = 0;
    recv_seq = 0;
    host_sock = 11;
    host_fd_poll = in_only;
    host_agent_id = 0;
    agent_packet_index_out = 0;
    buffer_size = 16;
    queue_size = 2;
    total_sent_bytes = 0;
    total_recv_bytes = 0;
    lanes = l ∷ [];
  };
  trace = trace;
}

abbrev empty_lane : Lane
empty_lane = idle_lane (replicate 16 0) 0 0

-- A frame of three bytes, of which one is out.
abbrev blocked_lane : Lane
blocked_lane = idle_lane (1 ∷ 2 ∷ 3 ∷ 0 ∷ []) 3 1

abbrev blocked_world : World machine (Client machine.Table)
blocked_world = world blocked_lane (sent 21 (1 ∷ []) ∷ [])

is_flying : Flying [] (1 ∷ 2 ∷ 3 ∷ []) 21 0 1 blocked_world
unfolding stream
is_flying = record {
  now = blocked_lane;
  at = refl;
  own = refl;
  loaded = refl;
  fits = omega arith;
  out = refl;
  partial = omega arith;
}

-- The frame of two bytes under the number 5.
read-frame_example :
    (ntohl big (word_of big (take 4 (frame little 5 (7 ∷ 8 ∷ [])))) ≡ 6)
    × (word_of big (take 4 (drop 4 (frame little 5 (7 ∷ 8 ∷ []))))
        ≡ word_of big (bytes_of little 5))
    × (drop 8 (frame little 5 (7 ∷ 8 ∷ [])) ≡ 7 ∷ 8 ∷ [])
read-frame_example = read-frame little big 5 (7 ∷ 8 ∷ []) (omega arith)

read-frame_same_example : word_of big (take 4 (drop 4 (frame big 5 (7 ∷ [])))) ≡ 5
read-frame_same_example = read-frame_same big 5 (7 ∷ []) (omega arith) (omega arith)

read-frame_mixed_example :
    (word_of big (take 4 (drop 4 (frame little 1 (7 ∷ [])))) ≡ 1 * 2 ^ 24)
    × (word_of little (take 4 (drop 4 (frame big 1 (7 ∷ [])))) ≡ 1 * 2 ^ 24)
read-frame_mixed_example = read-frame_mixed 1 (7 ∷ []) (omega arith) (omega arith) (omega arith)

-- Ids on a socket: one that comes in at once, and one by two pieces.
abbrev id_pieces : List (List ℕ) → World machine ℕ
id_pieces pieces = record { kernel = record { pieces = pieces; rooms = [] }; state = 0; trace = [] }

get_uuid_whole_example :
    get_uuid 1 21 (replicate 16 0) 0 (id_pieces (replicate 16 5 ∷ []))
    ≡ ret (replicate 16 5) (record {
      kernel = record { pieces = []; rooms = [] };
      state = 0;
      trace = received 21 (replicate 16 5) ∷ [];
    })
unfolding receive
get_uuid_whole_example =
    get_uuid_whole 0 21 (replicate 16 0) (replicate 16 5) (record { pieces = []; rooms = [] })
      (id_pieces (replicate 16 5 ∷ [])) refl refl refl

get_uuid_split_example :
    get_uuid 2 21 (replicate 16 0) 0 (id_pieces ((5 ∷ []) ∷ replicate 15 5 ∷ [])) ≡ fault
unfolding receive
get_uuid_split_example =
    get_uuid_split 0 21 (replicate 16 0) (5 ∷ []) (replicate 15 5)
      (record { pieces = replicate 15 5 ∷ []; rooms = [] }) (record { pieces = []; rooms = [] })
      (id_pieces ((5 ∷ []) ∷ replicate 15 5 ∷ [])) refl (omega arith) (omega arith) (omega arith)
      refl refl

-- The one connection is full.
all_agents_socks_full-Paused_example :
    Ensures
      (λ r w. Paused (world empty_lane []) w)
      (Silent (world empty_lane []))
      (all_agents_socks_full (world empty_lane []))
all_agents_socks_full-Paused_example = all_agents_socks_full-Paused (world empty_lane [])

not_all_agent_socks_full-Running_example :
    Ensures
      (λ r w. Running (world empty_lane []) w)
      (Silent (world empty_lane []))
      (not_all_agent_socks_full (world empty_lane []))
not_all_agent_socks_full-Running_example = not_all_agent_socks_full-Running (world empty_lane [])

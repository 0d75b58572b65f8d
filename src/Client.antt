-- ===== src/Client.antt =====
-- The state of one transfer: `client_t` and the structs that hang on it
-- (OriginalAgentCodeC/datatypes.h). The arrays that are indexed by the number of a parallel
-- connection (`agent_sock`, `packet`, `buffered_packet`, …) are one list of records, a `Lane` each.
pub mod Access
pub mod Slots
use sosagent.Base.{ℕ, Bool, true, false, List, Option}

-- `agent_fd_poll` and `host_fd_poll`: OFF, IN, OUT, INAndOut and CLOSED.
pub data Poll : Type 0 where
  off in_only out_only in_and_out closed : Poll

-- `fd_poll & IN` and `fd_poll & OUT`, over the values 0 to 4.
abbrev pub has_in : Poll → Bool
has_in in_only = true
has_in in_and_out = true
has_in _ = false

abbrev pub has_out : Poll → Bool
has_out out_only = true
has_out in_and_out = true
has_out _ = false

-- `packet_hash_t`: a buffer for one packet on its way to the host.
pub record Slot : Type 0 where
  pub id : ℕ
  pub agent_id : ℕ
  pub host_sent_size : ℕ
  pub size : ℕ
  pub packet_index : ℕ
  pub serialized_data : List ℕ
  pub seq_num : ℕ
  pub in_use : Bool

-- `serialized_data_t`: the packet on its way to a parallel connection.
pub record Packet : Type 0 where
  pub serialized_data : List ℕ
  pub host_packet_size : ℕ
  pub host_sent_size : ℕ

-- The counters of `stats_t` that are kept for each connection.
pub record LaneStats : Type 0 where
  pub sent_bytes : ℕ
  pub recv_bytes : ℕ
  pub sent_packets : ℕ
  pub recv_packets : ℕ
  pub blocked : ℕ
  pub blocked_recv : ℕ
  pub not_full_send : ℕ
  pub average_queue_length : ℕ

-- What `client_t` holds for one parallel connection. `agent_packet_index_in` is `none` at EMPTY.
pub record Lane : Type 0 where
  pub agent_sock : ℕ
  pub agent_fd_poll : Poll
  pub packet : Packet
  pub header_size : List ℕ
  pub agent_needed_header_size : ℕ
  pub agent_packet_index_in : Option ℕ
  pub agent_packet_queue_count : ℕ
  pub buffered_packet : List Slot
  pub stats : LaneStats

-- `client_t`, with the two sizes of its `transfer_request`; `host_agent_id` is
-- `host_side_event_info.agent_id`.
pub record Client (Table : Type 0) : Type 0 where
  pub buffered_packet_table : Table
  pub send_seq : ℕ
  pub recv_seq : ℕ
  pub host_sock : ℕ
  pub host_fd_poll : Poll
  pub host_agent_id : ℕ
  pub agent_packet_index_out : ℕ
  pub buffer_size : ℕ
  pub queue_size : ℕ
  pub total_sent_bytes : ℕ
  pub total_recv_bytes : ℕ
  pub lanes : List Lane

-- What the functions return: EXIT_SUCCESS or CLOSE.
pub data Status : Type 0 where
  success close_status : Status

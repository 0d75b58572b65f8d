-- ===== src/Agent.antt =====
-- The agent before a transfer (OriginalAgentCodeC/network.c, controller.c and the loop of poll.c):
-- the controller's requests, the clients that wait for their sockets, and the exchange of an id.
pub mod Net
pub mod Accept
pub mod Rules
pub mod Opened
pub mod Welcomed
pub mod Confirm
pub mod Messages
pub mod Taken
pub mod Start
pub mod Options
pub mod Child
pub mod Loop
pub mod Handshake
pub mod Requests
pub mod Found
pub mod Connected
pub mod Pooled
use sosagent.Base.{ℕ, List, Option}
use sosagent.Client.{Poll}

-- The `type` of a request: "CLIENT", "AGENT", or any other text. Texts are lists of bytes.
pub data Kind : Type 0 where
  client_kind agent_kind : Kind
  other_kind : List ℕ → Kind

-- `transfer_request_t`.
pub record Request : Type 0 where
  pub kind : Kind
  pub id : List ℕ
  pub source_ip : List ℕ
  pub source_port : ℕ
  pub agent_ip : List ℕ
  pub agent_port : ℕ
  pub allowed_connections : ℕ
  pub buffer_size : ℕ
  pub queue_size : ℕ

-- `client_t` while it is being connected, with its `client_hash`. `accept_start.tv_sec` is kept as
-- the second of the start and the seconds that were taken off it since.
pub record Session : Type 0 where
  pub id : List ℕ
  pub uuid : List ℕ
  pub accept_start : ℕ
  pub taken_off : ℕ
  pub source_ip : List ℕ
  pub source_port : ℕ
  pub agent_ip : List ℕ
  pub agent_port : ℕ
  pub allowed_connections : ℕ
  pub num_parallel_connections : ℕ
  pub host_sock : ℕ
  pub host_fd_poll : Poll
  pub agent_sock : List ℕ
  pub agent_fd_poll : List Poll
  pub side_events : ℕ
  pub transfer_request : Option Request

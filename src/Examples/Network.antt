-- ===== src/Examples/Network.antt =====
-- A network for tests, and runs of `accept_agent_side` and `connect_agent_side` (network.c) and of
-- `get_controller_message` (controller.c).
use sosagent.Base.{
  get_elem?, ℕ, ◌≡◌, refl, ◌≢◌, false, List, [], ◌∷◌, Option, none, some, length, replicate, sym,
  if◌then◌else◌, ◌==◌, Bool-cases, inl, inr, ==_iff, ap, ◌∙◌,
}
use sosagent.System.Outcome.{Outcome, ret, fault}
use sosagent.System.Ends.{Ends}
use sosagent.System.Calls.{World, epoll_ctl}
use sosagent.Client.{off}
use sosagent.Agent.{client_kind, Request, Session}
use sosagent.Agent.Net.{in_parent, tcp, Net, Agent}
use sosagent.Agent.Accept.{accept_agent_side, connect_agent_side}
use sosagent.Agent.Opened.{Fits, Others, Ready, connect_agent_side-Ready}
use sosagent.Agent.Welcomed.{Kept, Welcomed, accept_agent_side-Welcomed}
use sosagent.Agent.Messages.{get_controller_message}
use sosagent.Agent.Taken.{
  Taken, Overrun, UnsetId, IsUuidParser, get_controller_message-Taken,
  get_controller_message-UnsetId,
}
use sosagent.Examples.Machine.{machine}

abbrev request : Request
request = record {
  kind = client_kind;
  id = 0 ∷ [];
  source_ip = [];
  source_port = 0;
  agent_ip = [];
  agent_port = 0;
  allowed_connections = 0;
  buffer_size = 0;
  queue_size = 0;
}

-- A text of 36 characters is the id of ones.
unfoldable parse_uuid : List ℕ → Option (List ℕ)
parse_uuid text = if length text == 36 then some (1 ∷ 1 ∷ []) else none

-- All calls succeed; the one message has a type of 6 characters and an id of `id_length`.
abbrev network : ℕ → Net
network id_length = record {
  env = machine;
  client_size = 64;
  event_info_size = 16;
  request_size = 64;
  accept_call = λ k fd. (some (30, (49 ∷ [], 80)), k);
  socket_call = λ k. (some 40, k);
  bind_call = λ k fd ip port. (false, k);
  reuse_call = λ k fd. (false, k);
  listen_call = λ k fd. (false, k);
  nonblocking_call = λ k fd. (false, k);
  connect_call = λ k fd ip port. (none, k);
  so_error = λ k fd. (false, k);
  epoll_create_call = λ k. (false, k);
  now_call = λ k. (100, k);
  uuid_generate_call = λ k. (replicate 16 7, k);
  fork_call = λ k. (in_parent, k);
  recvfrom_call = λ k fd. (some (replicate 60 65), k);
  sendto_call = λ k fd. (false, k);
  getaddrinfo_call = λ k ip. (none, k);
  request_in_memory = λ bytes. request;
  scan_words = λ text. (replicate 6 67, replicate id_length 49);
  uuid_parse = parse_uuid;
  kind_of = λ text. client_kind;
  scan_client = λ text. record {
    source_ip = 49 ∷ [];
    source_port = 80;
    agent_ip = 50 ∷ [];
    allowed_connections = 2;
    buffer_size = 16;
    queue_size = 2;
  };
  scan_agent = λ text. record {
    agent_ip = 50 ∷ [];
    agent_port = 81;
    allowed_connections = 2;
    buffer_size = 16;
    queue_size = 2;
  };
  Index = List (List ℕ × ℕ);
  no_items = [];
  index_find = λ t id. none;
  index_add = λ t id n. (id, n) ∷ t;
  index_del = λ t n. t;
  index_items = λ t. [];
}

-- A client with room for three connections, to which a request allows some.
abbrev session : ℕ → Session
session allowed = record {
  id = 1 ∷ 2 ∷ [];
  uuid = [];
  accept_start = 100;
  taken_off = 0;
  source_ip = 49 ∷ [];
  source_port = 80;
  agent_ip = 50 ∷ [];
  agent_port = 0;
  allowed_connections = allowed;
  num_parallel_connections = 0;
  host_sock = 11;
  host_fd_poll = off;
  agent_sock = 0 ∷ 0 ∷ 0 ∷ [];
  agent_fd_poll = off ∷ off ∷ off ∷ [];
  side_events = 3;
  transfer_request = none;
}

abbrev agent : ℕ → Agent (List (List ℕ × ℕ))
agent allowed = record {
  clients_hashes = [];
  clients = session allowed ∷ [];
  requests = [];
  request_store = [];
  options = record {
    verbose_level = 0;
    num_parallel_connections = 3;
    non_of = false;
    logging = false;
    protocol = tcp;
    bind_ip = [];
  };
  host_listen_sock = 3;
  agent_listen_sock = 4 ∷ 5 ∷ 6 ∷ [];
  controller_sock = 7;
  discovery_sock = 8;
  agent_fd_pool = none ∷ [];
}

abbrev world : ℕ → World machine (Agent (List (List ℕ × ℕ)))
world allowed = record {
  kernel = record { pieces = []; rooms = [] };
  state = agent allowed;
  trace = [];
}

-- Three connections are allowed, as many as the arrays have entries.
connect_agent_side-Ready_example :
    Ends
      (λ _ w'. Ready (network 35) 0 (session 3) (agent 3) (world 3).kernel w')
      (λ w'. Others (network 35) 0 (session 3) (agent 3) (world 3).kernel w'.state)
      (¬ Fits (session 3) 3)
      (connect_agent_side (network 35) 0 (world 3))
connect_agent_side-Ready_example =
    connect_agent_side-Ready (network 35) 0 (session 3) (agent 3) (world 3).kernel refl refl
      (world 3) refl refl

-- A fourth does not fit.
four_faults : connect_agent_side (network 35) 0 (world 4) ≡ fault
unfolding connect_agent_side epoll_ctl
four_faults = refl

accept_agent_side-Welcomed_example :
    Ends
      (λ _ w'. Welcomed (network 35) (world 3) 1 w')
      (λ w'. Kept (none ∷ []) w'.state.agent_fd_pool)
      (get_elem? (agent 3).agent_listen_sock 1 ≡ none)
      (accept_agent_side (network 35) 1 (world 3))
accept_agent_side-Welcomed_example = accept_agent_side-Welcomed (network 35) (world 3) 1

get_controller_message-Taken_example :
    Ends
      (λ _ w'. Taken (network 36) (world 2) w')
      (λ w'. w'.state ≡ agent 2)
      (Overrun (network 36) (world 2))
      (get_controller_message (network 36) (world 2))
get_controller_message-Taken_example = get_controller_message-Taken (network 36) (world 2)

-- An id as every UUID is written does not fit, and one that is shorter is not read.
uuid_faults : get_controller_message (network 36) (world 2) ≡ fault
unfolding get_controller_message
uuid_faults = refl

parser : (n : ℕ) → IsUuidParser (network n)
unfolding parse_uuid
parser n text id e = elim (Bool-cases (length text == 36)) [
  | inl q ↦ (==_iff (length text) 36).0 q
  | inr q ↦ absurd (clash (sym (ap (λ b. if b then some (1 ∷ 1 ∷ []) else none) q) ∙ e))
]
  where
    clash : {v : List ℕ} → none ≢ some v
    clash h = cc

abbrev world_of :
    Outcome (World machine (Agent (List (List ℕ × ℕ)))) (Unit {0})
    → World machine (Agent (List (List ℕ × ℕ)))
world_of (ret a w) = w
world_of o = world 0

get_controller_message-UnsetId_example :
    UnsetId (network 35) (world 2) (world_of (get_controller_message (network 35) (world 2)))
unfolding get_controller_message
get_controller_message-UnsetId_example =
    get_controller_message-UnsetId (network 35) (parser 35) (world 2)
      (world_of (get_controller_message (network 35) (world 2))) refl

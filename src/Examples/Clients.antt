-- ===== src/Examples/Clients.antt =====
-- Runs of `check_for_transfer_request` (controller.c), `find_empty_agent_sock` and
-- `handle_host_connected` (network.c).
use sosagent.Base.{ℕ, refl, Bool, false, [], ◌∷◌, none, some, arith}
use sosagent.System.Outcome.{Ensures}
use sosagent.System.Calls.{World}
use sosagent.Client.{off}
use sosagent.Agent.{client_kind, Request, Session}
use sosagent.Agent.Requests.{check_for_transfer_request}
use sosagent.Agent.Found.{Found, check_for_transfer_request-Found}
use sosagent.Agent.Connected.{handle_host_connected, Due, Untouched, handle_host_connected-Due}
use sosagent.Agent.Pooled.{find_empty_agent_sock, Placed, find_empty_agent_sock-Placed}
use sosagent.Examples.Machine.{Sockets, machine}

abbrev session : Session
session = record {
  id = 1 ∷ 2 ∷ [];
  uuid = [];
  accept_start = 100;
  taken_off = 0;
  source_ip = 49 ∷ [];
  source_port = 80;
  agent_ip = [];
  agent_port = 0;
  allowed_connections = 2;
  num_parallel_connections = 2;
  host_sock = 11;
  host_fd_poll = off;
  agent_sock = 21 ∷ 22 ∷ [];
  agent_fd_poll = off ∷ off ∷ [];
  side_events = 2;
  transfer_request = none;
}

-- A request for a client on a port.
abbrev request_for : ℕ → Request
request_for port = record {
  kind = client_kind;
  id = 3 ∷ 4 ∷ [];
  source_ip = 49 ∷ [];
  source_port = port;
  agent_ip = 50 ∷ [];
  agent_port = 9;
  allowed_connections = 2;
  buffer_size = 16;
  queue_size = 2;
}

check_for_transfer_request-Found_example :
    Found client_kind session
      (request_for 81 ∷ request_for 80 ∷ [])
      (check_for_transfer_request (request_for 81 ∷ request_for 80 ∷ []) session client_kind)
check_for_transfer_request-Found_example =
    check_for_transfer_request-Found (request_for 81 ∷ request_for 80 ∷ []) session client_kind

find_empty_agent_sock-Placed_example :
    Placed (some 4 ∷ none ∷ []) (find_empty_agent_sock (some 4 ∷ none ∷ []))
find_empty_agent_sock-Placed_example = find_empty_agent_sock-Placed (some 4 ∷ none ∷ [])

-- Every connection works out.
abbrev no_error : Sockets → ℕ → Bool × Sockets
no_error k fd = (false, k)

abbrev waiting : World machine Session
waiting = record { kernel = record { pieces = []; rooms = [] }; state = session; trace = [] }

handle_host_connected-Due_example :
    Ensures
      (λ r w. Due no_error 100 false session w)
      (Untouched no_error session)
      (handle_host_connected no_error waiting)
handle_host_connected-Due_example =
    handle_host_connected-Due no_error 100 waiting refl (omega arith)

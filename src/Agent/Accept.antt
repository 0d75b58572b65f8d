-- ===== src/Agent/Accept.antt =====
-- New clients and their sockets (OriginalAgentCodeC/network.c): `setnonblocking`,
-- `init_new_client`, `accept_host_side`, `accept_agent_side`, `connect_host_side`,
-- `connect_agent_side` and `handle_host_side_connect`.
use sosagent.Base.{
  ℕ, zero, suc, ◌+◌, ◌*◌, ◌-◌, ◌^◌, ltb, if◌then◌else◌, Bool, true, false, List, [], ◌∷◌, ◌++◌,
  Option, none, some, replicate, get_elem?, set, length,
}
use sosagent.System.{Errno, einprogress, event_pool, add}
use sosagent.System.Outcome.{pure, skip, exit, check, ◌>>=◌, ◌>>◌}
use sosagent.System.Calls.{get, put, epoll_ctl}
use sosagent.Client.{off}
use sosagent.Deliver.{writable}
use sosagent.Agent.{Kind, client_kind, Request, Session}
use sosagent.Agent.Net.{Protocol, tcp, Net, Run, ask, must, allocates, client, set_client}
use sosagent.Agent.Requests.{Search, found, not_found, overflow, check_for_transfer_request}
use sosagent.Agent.Pooled.{find_empty_agent_sock}

-- PARALLEL_PORT_START.
abbrev pub parallel_port_start : ℕ
parallel_port_start = 9878

-- The -1 of a call that failed, as it stands in an `int`.
abbrev pub failed_sock : ℕ
failed_sock = 2 ^ 32 - 1

-- A write to an array.
abbrev pub write {ℓ} : {A : Type ℓ} → List A → ℕ → A → Option (List A)
write xs i v = if ltb i (length xs) then some (set xs i v) else none

-- An array of zeros, or NULL, which has no entry.
abbrev pub zeros {ℓ} : {A : Type ℓ} → Bool → ℕ → A → List A
zeros true n a = replicate n a
zeros false n a = []

-- The 16 bytes of an id that `calloc` has zeroed.
abbrev pub no_uuid : List ℕ
no_uuid = replicate 16 0

-- The requests in the order of the table.
unfoldable pub cons_request : Option Request → Option (List Request) → Option (List Request)
cons_request (some r) (some rs) = some (r ∷ rs)
cons_request r rs = none

unfoldable pub pick_requests : List ℕ → List Request → Option (List Request)
unfolding cons_request
pick_requests [] store = some []
pick_requests (i ∷ is) store = cons_request (get_elem? store i) (pick_requests is store)

abbrev pub is_tcp : Protocol → Bool
is_tcp tcp = true
is_tcp p = false

module _ (net : Net) where
  -- The two calls of `fcntl`.
  unfoldable pub setnonblocking : ℕ → Run net (Unit {0})
  setnonblocking fd = must net (λ k. net.nonblocking_call k fd)

  unfoldable pub id_for : Option (List ℕ) → Run net (List ℕ)
  id_for none = ask net net.uuid_generate_call
  id_for (some id) = pure id

  -- `init_new_client(agent, uuid)`: its result is the new client's position.
  unfoldable pub init_new_client : Option (List ℕ) → Run net ℕ
  unfolding id_for
  init_new_client uuid = do
    a ← get
    let n = a.options.num_parallel_connections
    there ← ask net (allocates net net.client_size)
    if there then skip else exit
    socks ← ask net (allocates net (4 * n))
    events ← ask net (allocates net (net.event_info_size * n))
    polls ← ask net (allocates net n)
    now ← ask net net.now_call
    id ← id_for uuid
    let s : Session = record {
      id = id;
      uuid = no_uuid;
      accept_start = now;
      taken_off = 0;
      source_ip = [];
      source_port = 0;
      agent_ip = [];
      agent_port = 0;
      allowed_connections = 0;
      num_parallel_connections = 0;
      host_sock = 0;
      host_fd_poll = off;
      agent_sock = zeros socks n 0;
      agent_fd_poll = zeros polls n off;
      side_events = if events then n else 0;
      transfer_request = none;
    }
    put (record a {
      clients = a.clients ++ (s ∷ []);
      clients_hashes = net.index_add a.clients_hashes id (length a.clients);
    })
    pure (length a.clients)

  -- A new connection of a host, by what `accept` comes back with.
  unfoldable pub host_accepted : Option (ℕ × (List ℕ × ℕ)) → ℕ → Run net (Unit {0})
  unfolding setnonblocking
  host_accepted none n = exit
  host_accepted (some (fd, peer)) n = do
    s ← client net n
    set_client net n
        (record s { host_sock = fd; source_ip = peer.0; source_port = peer.1; host_fd_poll = off })
    setnonblocking fd
    epoll_ctl event_pool (add writable) fd

  unfoldable pub accept_host_side : ℕ → Run net (Unit {0})
  unfolding host_accepted
  accept_host_side n = do
    a ← get
    r ← ask net (λ k. net.accept_call k a.host_listen_sock)
    host_accepted r n

  -- A new connection of an agent goes into the pool.
  unfoldable pub agent_accepted : Option (ℕ × (List ℕ × ℕ)) → ℕ → Run net (Unit {0})
  unfolding setnonblocking
  agent_accepted none index = exit
  agent_accepted (some (fd, peer)) index = do
    a ← get
    put (record a { agent_fd_pool = set a.agent_fd_pool index (some fd) })
    setnonblocking fd
    epoll_ctl event_pool (add writable) fd

  unfoldable pub accept_at : Option ℕ → ℕ → Run net (Unit {0})
  unfolding agent_accepted
  accept_at none i = exit
  accept_at (some index) i = do
    a ← get
    listening ← check (get_elem? a.agent_listen_sock i)
    r ← ask net (λ k. net.accept_call k listening)
    agent_accepted r index

  -- `accept_agent_side(agent, event_info)` with `event_info->fd`.
  unfoldable pub accept_agent_side : ℕ → Run net (Unit {0})
  unfolding accept_at
  accept_agent_side i = do a ← get; accept_at (find_empty_agent_sock a.agent_fd_pool) i

  -- `connect` to the host: only EINPROGRESS is no failure.
  unfoldable pub connect_answered : Option Errno → Run net (Unit {0})
  connect_answered none = skip
  connect_answered (some einprogress) = skip
  connect_answered (some e) = exit

  unfoldable pub connect_host_from : Option ℕ → ℕ → Run net (Unit {0})
  unfolding setnonblocking connect_answered
  connect_host_from none n = exit
  connect_host_from (some fd) n = do
    s ← client net n
    set_client net n (record s { host_sock = fd })
    setnonblocking fd
    epoll_ctl event_pool (add writable) fd
    t ← client net n
    set_client net n (record t { host_fd_poll = off })
    r ← ask net (λ k. net.connect_call k fd t.agent_ip t.agent_port)
    connect_answered r

  unfoldable pub connect_host_side : ℕ → Run net (Unit {0})
  unfolding connect_host_from
  connect_host_side n = do fd ← ask net net.socket_call; connect_host_from fd n

  -- One more connection to the other agent; what `connect` says is not looked at.
  unfoldable pub connect_agent_with : Option ℕ → ℕ → ℕ → Run net (Unit {0})
  unfolding setnonblocking
  connect_agent_with none n i = do
    s ← client net n
    socks ← check (write s.agent_sock i failed_sock)
    set_client net n (record s { agent_sock = socks })
    exit
  connect_agent_with (some fd) n i = do
    s ← client net n
    socks ← check (write s.agent_sock i fd)
    set_client net n (record s { agent_sock = socks })
    setnonblocking fd
    _ ← check (if ltb i s.side_events then some tt else none)
    epoll_ctl event_pool (add writable) fd
    _ ← ask net (λ k. net.connect_call k fd s.agent_ip (parallel_port_start + i))
    t ← client net n
    polls ← check (write t.agent_fd_poll i off)
    set_client net n (record t { agent_fd_poll = polls })

  unfoldable pub connect_agent_round : Bool → ℕ → ℕ → Run net (Unit {0})
  unfolding connect_agent_with
  connect_agent_round false n i = skip
  connect_agent_round true n i = do fd ← ask net net.socket_call; connect_agent_with fd n i

  -- The loop from connection `i` on.
  unfoldable pub connect_agent_from : ℕ → ℕ → ℕ → Run net (Unit {0})
  unfolding connect_agent_round
  connect_agent_from zero n i = skip
  connect_agent_from (suc rounds) n i = do
    a ← get
    connect_agent_round (is_tcp a.options.protocol) n i
    connect_agent_from rounds n (suc i)

  unfoldable pub connect_agent_side : ℕ → Run net (Unit {0})
  unfolding connect_agent_from
  connect_agent_side n = do
    s ← client net n
    connect_agent_from s.allowed_connections n 0
    t ← client net n
    set_client net n (record t { num_parallel_connections = 0 })

  -- `check_for_transfer_request` for a client of the agent: whether a request was found.
  unfoldable pub search_ended : Search → ℕ → Run net Bool
  search_ended (found s) n = do set_client net n s; pure true
  search_ended not_found n = pure false
  search_ended overflow n = check none

  unfoldable pub look_for_request : ℕ → Kind → Run net Bool
  unfolding search_ended pick_requests
  look_for_request n k = do
    a ← get
    s ← client net n
    requests ← check (pick_requests (net.index_items a.requests) a.request_store)
    search_ended (check_for_transfer_request requests s k) n

  -- A host has connected.
  unfoldable pub handle_host_side_connect : Run net (Unit {0})
  unfolding init_new_client accept_host_side look_for_request connect_agent_side
  handle_host_side_connect = do
    n ← init_new_client none
    accept_host_side n
    known ← look_for_request n client_kind
    if known then connect_agent_side n else skip

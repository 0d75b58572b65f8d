-- ===== src/Agent/Start.antt =====
-- The sockets that an agent starts with: `init_agent`, `init_poll` and `create_listen_sockets` of
-- OriginalAgentCodeC/network.c, `init_controller_listener` of controller.c, `init_discovery` and
-- `send_discovery_message` of discovery.c.
use sosagent.Base.{
  ℕ, zero, suc, ◌+◌, ◌*◌, if◌then◌else◌, Bool, true, false, List, [], ◌∷◌, Option, none, some,
  replicate,
}
use sosagent.System.{event_pool, add}
use sosagent.System.Outcome.{pure, skip, exit, check, ◌>>=◌, ◌>>◌}
use sosagent.System.Calls.{get, put, epoll_ctl, close}
use sosagent.Deliver.{readable}
use sosagent.Agent.Net.{Net, Run, ask, must, allocates}
use sosagent.Agent.Accept.{write, parallel_port_start, is_tcp}

-- MAX_AGENT_CONNECTIONS, TCP_PORT and CONTROLLER_MSG_PORT of common.h.
abbrev pub max_agent_connections : ℕ
max_agent_connections = 1000

abbrev pub tcp_port : ℕ
tcp_port = 9877

abbrev pub controller_msg_port : ℕ
controller_msg_port = 9998

module _ (net : Net) where
  unfoldable pub init_poll : Run net (Unit {0})
  init_poll = do
    failed ← ask net net.epoll_create_call
    a ← get
    put (record a {
      clients_hashes = net.no_items;
      agent_fd_pool = replicate max_agent_connections none;
    })
    if failed then exit else skip

  -- A socket is bound to a port of the address in the options, and listens; what `listen` says is not
  -- looked at.
  unfoldable pub bind_listener : ℕ → ℕ → Run net (Unit {0})
  bind_listener fd port = do
    a ← get
    must net (λ k. net.bind_call k fd a.options.bind_ip port)
    must net (λ k. net.reuse_call k fd)
    _ ← ask net (λ k. net.listen_call k fd)
    skip

  unfoldable pub listen_for_agents : Option ℕ → Bool → ℕ → Run net (Unit {0})
  unfolding bind_listener
  listen_for_agents none events i = exit
  listen_for_agents (some fd) events i = do
    a ← get
    socks ← check (write a.agent_listen_sock i fd)
    put (record a { agent_listen_sock = socks })
    bind_listener fd (parallel_port_start + i)
    _ ← check (if events then some tt else none)
    epoll_ctl event_pool (add readable) fd

  -- The loop over the parallel ports from number `i` on; `events` says whether there is an array for
  -- the events' data.
  unfoldable pub listen_from : ℕ → Bool → ℕ → Run net (Unit {0})
  unfolding listen_for_agents
  listen_from zero events i = skip
  listen_from (suc n) events i = do
    fd ← ask net net.socket_call
    listen_for_agents fd events i
    listen_from n events (suc i)

  unfoldable pub listen_for_hosts : Option ℕ → Run net (Unit {0})
  unfolding bind_listener
  listen_for_hosts none = exit
  listen_for_hosts (some fd) = do
    a ← get
    put (record a { host_listen_sock = fd })
    bind_listener fd tcp_port
    epoll_ctl event_pool (add readable) fd

  unfoldable pub listen_by : Bool → Bool → Run net (Unit {0})
  unfolding listen_for_hosts listen_from
  listen_by false events = skip
  listen_by true events = do
    fd ← ask net net.socket_call
    listen_for_hosts fd
    a ← get
    listen_from a.options.num_parallel_connections events 0

  unfoldable pub create_listen_sockets : Run net (Unit {0})
  unfolding listen_by
  create_listen_sockets = do
    a ← get
    let n = a.options.num_parallel_connections
    socks ← ask net (allocates net (4 * n))
    events ← ask net (allocates net (net.event_info_size * n))
    if socks then skip else exit
    b ← get
    put (record b { agent_listen_sock = replicate n 0 })
    listen_by (is_tcp a.options.protocol) events

  -- The first address whose socket can be had and bound; `none` if there is none.
  unfoldable pub bound : Bool → ℕ → Run net (Option ℕ) → Run net (Option ℕ)
  bound true fd again = do close fd; again
  bound false fd again = pure (some fd)

  unfoldable pub controller_socket : Option ℕ → List ℕ → Run net (Option ℕ) → Run net (Option ℕ)
  unfolding bound
  controller_socket none address again = again
  controller_socket (some fd) address again = do
    failed ← ask net (λ k. net.bind_call k fd address controller_msg_port)
    bound failed fd again

  unfoldable pub first_bound : List (List ℕ) → Run net (Option ℕ)
  unfolding controller_socket
  first_bound [] = pure none
  first_bound (address ∷ rest) = do
    fd ← ask net net.socket_call
    controller_socket fd address (first_bound rest)

  unfoldable pub listen_to_controller : Option ℕ → Run net (Unit {0})
  listen_to_controller none = exit
  listen_to_controller (some fd) = do a ← get; put (record a { controller_sock = fd })

  -- The addresses that `getaddrinfo` found.
  unfoldable pub addresses_of : Option (List (List ℕ)) → Run net (List (List ℕ))
  addresses_of none = exit
  addresses_of (some l) = pure l

  -- `getaddrinfo(NULL, …)`.
  unfoldable pub init_controller_listener : Run net (Unit {0})
  unfolding addresses_of first_bound listen_to_controller
  init_controller_listener = do
    r ← ask net (λ k. net.getaddrinfo_call k [])
    addresses ← addresses_of r
    fd ← first_bound addresses
    listen_to_controller fd

  -- The first address for which there is a socket.
  unfoldable pub discovery_socket : Option ℕ → Run net (Option ℕ) → Run net (Option ℕ)
  discovery_socket none again = again
  discovery_socket (some fd) again = pure (some fd)

  unfoldable pub first_socket : List (List ℕ) → Run net (Option ℕ)
  unfolding discovery_socket
  first_socket [] = pure none
  first_socket (address ∷ rest) = do
    fd ← ask net net.socket_call
    discovery_socket fd (first_socket rest)

  unfoldable pub use_for_discovery : Option ℕ → Run net (Unit {0})
  use_for_discovery none = exit
  use_for_discovery (some fd) = do a ← get; put (record a { discovery_sock = fd })

  -- DISCOVERY_DEST_ADDR is the text of an argument.
  unfoldable pub init_discovery : List ℕ → Run net (Unit {0})
  unfolding addresses_of first_socket use_for_discovery
  init_discovery dest_addr = do
    r ← ask net (λ k. net.getaddrinfo_call k dest_addr)
    addresses ← addresses_of r
    fd ← first_socket addresses
    use_for_discovery fd

  -- What `sendto` says is only printed.
  unfoldable pub send_discovery_message : Run net (Unit {0})
  send_discovery_message = do a ← get; _ ← ask net (λ k. net.sendto_call k a.discovery_sock); skip

  unfoldable pub init_agent : List ℕ → Run net (Unit {0})
  unfolding init_poll create_listen_sockets init_controller_listener init_discovery
  init_agent dest_addr = do
    init_poll
    create_listen_sockets
    init_controller_listener
    a ← get
    epoll_ctl event_pool (add readable) a.controller_sock
    init_discovery dest_addr

-- ===== src/Agent/Confirm.antt =====
-- `get_uuid_and_confirm_client` of OriginalAgentCodeC/network.c: a connection of the pool sends the
-- id of its client and is handed over to it.
use sosagent.Base.{ℕ, ◌+◌, if◌then◌else◌, List, Option, none, some, get_elem?, set}
use sosagent.System.{event_pool, delete}
use sosagent.System.Outcome.{skip, exit, check, ◌>>=◌, ◌>>◌}
use sosagent.System.Calls.{get, put, epoll_ctl}
use sosagent.Client.{off, in_only}
use sosagent.Agent.{agent_kind}
use sosagent.Agent.Net.{Net, Run, client, set_client}
use sosagent.Agent.Handshake.{get_uuid}
use sosagent.Agent.Connected.{all_connected, set_back}
use sosagent.Agent.Accept.{write, no_uuid, init_new_client, connect_host_side, look_for_request}

module _ (net : Net) where
  -- The connection becomes the client's next one.
  unfoldable pub join_client : ℕ → ℕ → Run net (Unit {0})
  join_client n fd = do
    s ← client net n
    socks ← check (write s.agent_sock s.num_parallel_connections fd)
    polls ← check (write s.agent_fd_poll s.num_parallel_connections in_only)
    set_client net n (record s {
      agent_sock = socks;
      agent_fd_poll = polls;
      num_parallel_connections = s.num_parallel_connections + 1;
    })

  -- By what `HASH_FIND_INT` finds: a new client, or one that is there.
  unfoldable pub confirm : Option ℕ → List ℕ → ℕ → Run net (Unit {0})
  unfolding join_client all_connected set_back
  confirm none uuid fd = do
    n ← init_new_client net (some uuid)
    join_client n fd
    known ← look_for_request net n agent_kind
    if known then connect_host_side net n else skip
    s ← client net n
    set_client net n (record s { host_fd_poll = off })
  confirm (some n) uuid fd = do
    join_client n fd
    s ← client net n
    if all_connected s then set_client net n (set_back s) else skip

  -- A read from -1 fails, and the code exits.
  unfoldable pub confirm_at : ℕ → Option ℕ → ℕ → Run net (Unit {0})
  unfolding confirm
  confirm_at fuel none i = exit
  confirm_at fuel (some fd) i = do
    uuid ← get_uuid fuel fd no_uuid 0
    a ← get
    confirm (net.index_find a.clients_hashes uuid) uuid fd
    epoll_ctl event_pool delete fd
    b ← get
    put (record b { agent_fd_pool = set b.agent_fd_pool i none })

  -- `get_uuid_and_confirm_client(agent, fd)`. The buffer for the id is not initialised; it is written
  -- before it is read.
  unfoldable pub get_uuid_and_confirm_client : ℕ → ℕ → Run net (Unit {0})
  unfolding confirm_at
  get_uuid_and_confirm_client fuel i = do
    a ← get
    place ← check (get_elem? a.agent_fd_pool i)
    confirm_at fuel place i

-- ===== src/Agent/Loop.antt =====
-- `poll_loop` of OriginalAgentCodeC/poll.c and `main` of agent.c: clients whose time is up are started
-- or given up, and events are handed to their handlers.
use sosagent.Base.{
  ℕ, ◌==◌, if◌then◌else◌, Bool, true, false, ◌||◌, not, List, [], ◌∷◌, Option, none, some,
  get_elem?,
}
use sosagent.System.Outcome.{skip, exit, check, ◌>>=◌, ◌>>◌}
use sosagent.System.Calls.{get, put}
use sosagent.Client.{Poll, off, Slot, Lane}
use sosagent.Transfer.{Wait, Pick}
use sosagent.Agent.{client_kind, agent_kind}
use sosagent.Agent.Net.{
  Fork, fork_failed, in_child, in_parent, Net, Run, ask, client, set_client, on_client,
}
use sosagent.Agent.Connected.{
  is_expired, handle_host_connected, agent_connected_event, close_all_data_sockets,
}
use sosagent.Agent.Accept.{
  handle_host_side_connect, accept_agent_side, connect_host_side, connect_agent_side,
  look_for_request,
}
use sosagent.Agent.Confirm.{get_uuid_and_confirm_client}
use sosagent.Agent.Messages.{get_controller_message}
use sosagent.Agent.Start.{init_agent, send_discovery_message}
use sosagent.Agent.Child.{child}

-- The types of the events of the agent's pool, with `fd` and `client` of `event_info_t`.
pub data Notice : Type 0 where
  controller_message host_side_connect : Notice
  agent_connected : ℕ → ℕ → Notice
  agent_side_connect agent_connected_uuid host_connected : ℕ → Notice
  unknown_type : Notice

-- What `epoll_wait` comes back with: -1, 0, or an event.
pub data Awaited : Type 0 where
  wait_failed timed_out : Awaited
  event : Notice → Awaited

abbrev pub is_off : Poll → Bool
is_off off = true
is_off p = false

module _ (net : Net) where
  -- `free_client`: the arrays are gone.
  unfoldable pub free_client : ℕ → Run net (Unit {0})
  free_client n = do
    s ← client net n
    set_client net n (record s { agent_sock = []; agent_fd_poll = []; side_events = 0 })

  unfoldable pub delete_request : ℕ → Run net (Unit {0})
  delete_request r = do a ← get; put (record a { requests = net.index_del a.requests r })

  unfoldable pub forked : Fork → Run net (Unit {0}) → Run net (Unit {0})
  forked fork_failed in_the_child = exit
  forked in_child in_the_child = in_the_child
  forked in_parent in_the_child = skip

  -- A client whose time is up, by the request that its id finds: nothing is started if there is none,
  -- or if sockets are missing.
  unfoldable pub start_transfer : Option ℕ → ℕ → Run net (Unit {0}) → Run net (Unit {0})
  unfolding delete_request forked
  start_transfer none n in_the_child = skip
  start_transfer (some p) n in_the_child = do
    a ← get
    r ← check (get_elem? a.request_store p)
    s ← client net n
    delete_request p
    if not (s.num_parallel_connections == r.allowed_connections) || is_off s.host_fd_poll
        then skip
        else (do f ← ask net net.fork_call; forked f in_the_child)

  -- The child does not come back; the parent drops the client.
  unfoldable pub expire : (ℕ → Run net (Unit {0})) → ℕ → Run net (Unit {0})
  unfolding start_transfer free_client
  expire in_the_child n = do
    s ← client net n
    a ← get
    start_transfer (net.index_find a.requests s.uuid) n (in_the_child n)
    on_client net n close_all_data_sockets
    free_client n
    b ← get
    put (record b { clients_hashes = net.index_del b.clients_hashes n })

  -- The loop over the clients.
  unfoldable pub sweep_from : (ℕ → Run net (Unit {0})) → ℕ → List ℕ → Run net (Unit {0})
  unfolding expire
  sweep_from in_the_child now [] = skip
  sweep_from in_the_child now (n ∷ ns) = do
    s ← client net n
    if is_expired now s then expire in_the_child n else skip
    sweep_from in_the_child now ns

  unfoldable pub sweep : (ℕ → Run net (Unit {0})) → Run net (Unit {0})
  unfolding sweep_from
  sweep in_the_child = do
    now ← ask net net.now_call
    a ← get
    sweep_from in_the_child now (net.index_items a.clients_hashes)

  -- A new request may be for a client that waits.
  unfoldable pub revisit : ℕ → Bool → Run net (Unit {0})
  revisit n true = connect_agent_side net n
  revisit n false = do
    known ← look_for_request net n agent_kind
    if known then connect_host_side net n else skip

  unfoldable pub revisit_all : List ℕ → Run net (Unit {0})
  unfolding revisit
  revisit_all [] = skip
  revisit_all (n ∷ ns) = do
    known ← look_for_request net n client_kind
    revisit n known
    revisit_all ns

  -- The handlers; `fuel` bounds the rounds in which an id is read or written.
  unfoldable pub notice : ℕ → Notice → Run net (Unit {0})
  unfolding revisit_all
  notice fuel controller_message = do
    get_controller_message net
    a ← get
    revisit_all (net.index_items a.clients_hashes)
  notice fuel host_side_connect = handle_host_side_connect net
  notice fuel (agent_connected n i) = on_client net n (agent_connected_event net.so_error fuel i)
  notice fuel (agent_side_connect i) = accept_agent_side net i
  notice fuel (agent_connected_uuid i) = get_uuid_and_confirm_client net fuel i
  notice fuel (host_connected n) = on_client net n (handle_host_connected net.so_error)
  notice fuel unknown_type = exit

  unfoldable pub awaited : ℕ → Awaited → Run net (Unit {0})
  unfolding notice
  awaited fuel wait_failed = exit
  awaited fuel (event e) = notice fuel e
  awaited fuel timed_out = do a ← get; if a.options.non_of then skip else send_discovery_message net

  -- The loop, over a history of what `epoll_wait` answers; `pipe_failed` is what `pipe` says first.
  unfoldable pub poll_turns : (ℕ → Run net (Unit {0})) → ℕ → List Awaited → Run net (Unit {0})
  unfolding sweep awaited
  poll_turns in_the_child fuel [] = skip
  poll_turns in_the_child fuel (e ∷ es) = do
    sweep in_the_child
    awaited fuel e
    poll_turns in_the_child fuel es

  unfoldable pub poll_loop :
      Bool → Lane → Slot → List (Wait × Pick) → ℕ → List Awaited → Run net (Unit {0})
  unfolding poll_turns
  poll_loop true junk junk_slot history fuel events = exit
  poll_loop false junk junk_slot history fuel events =
      poll_turns (child net junk junk_slot history) fuel events

  -- `main`, once the options are read.
  unfoldable pub main :
      List ℕ → Bool → Lane → Slot → List (Wait × Pick) → ℕ → List Awaited → Run net (Unit {0})
  main dest_addr pipe_failed junk junk_slot history fuel events = do
    init_agent net dest_addr
    poll_loop pipe_failed junk junk_slot history fuel events

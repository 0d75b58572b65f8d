-- ===== src/Agent/Child.antt =====
-- The child of `poll_loop` (OriginalAgentCodeC/poll.c): it leaves the agent's sockets and carries out
-- the transfer of one client.
use sosagent.Base.{ℕ, zero, suc, List, [], ◌∷◌, Option, none, some}
use sosagent.System.{Env}
use sosagent.System.Outcome.{Outcome, ret, exited, fault, hung, M, skip, check, ◌>>=◌, ◌>>◌}
use sosagent.System.Calls.{World, get, close}
use sosagent.Client.{Poll, Slot, Lane, Client}
use sosagent.Transfer.{Wait, Pick, poll_data_transfer}
use sosagent.Transfer.Setup.{configure_stats, configure_poll}
use sosagent.Agent.{Request, Session}
use sosagent.Agent.Net.{Net, Agent, Run, client}

-- The connections of a client, with what the arrays that `configure_poll` allocates hold before it
-- fills them; `none` where there are fewer sockets than connections.
unfoldable pub cons_lane : Lane → Option (List Lane) → Option (List Lane)
cons_lane l none = none
cons_lane l (some ls) = some (l ∷ ls)

unfoldable pub lanes_of : ℕ → List ℕ → List Poll → Lane → Option (List Lane)
unfolding cons_lane
lanes_of zero socks polls junk = some []
lanes_of (suc n) (fd ∷ socks) (q ∷ polls) junk =
    cons_lane (record junk { agent_sock = fd; agent_fd_poll = q }) (lanes_of n socks polls junk)
lanes_of (suc n) socks polls junk = none

-- `client_t` as the transfer finds it: `calloc` has made the other fields 0. A client without a
-- request has a null pointer there.
unfoldable pub transfer_state :
    {Table : Type 0} → Table → Session → Request → List Lane → Client Table
transfer_state table s r lanes = record {
  buffered_packet_table = table;
  send_seq = 0;
  recv_seq = 0;
  host_sock = s.host_sock;
  host_fd_poll = s.host_fd_poll;
  host_agent_id = 0;
  agent_packet_index_out = 0;
  buffer_size = r.buffer_size;
  queue_size = r.queue_size;
  total_sent_bytes = 0;
  total_recv_bytes = 0;
  lanes = lanes;
}

module _ {env : Env} where
  -- The transfer over a history of what `epoll_wait` answers; `junk` and `junk_slot` stand for memory
  -- that `malloc` hands over.
  unfoldable pub transfer : Slot → List (Wait × Pick) → M (World env (Client env.Table)) (Unit {0})
  transfer junk_slot history = do
    configure_stats
    configure_poll junk_slot
    poll_data_transfer history

module _ (net : Net) where
  unfoldable pub close_listeners : ℕ → List ℕ → Run net (Unit {0})
  close_listeners zero socks = skip
  close_listeners (suc n) [] = check none
  close_listeners (suc n) (fd ∷ socks) = do close fd; close_listeners n socks

  unfoldable pub close_listener_sockets : Run net (Unit {0})
  unfolding close_listeners
  close_listener_sockets = do
    a ← get
    close a.host_listen_sock
    close_listeners a.options.num_parallel_connections a.agent_listen_sock

  -- The process becomes the transfer, which does not return: at the end of the history it still waits.
  unfoldable pub ended :
      Agent net.Index
      → Outcome (World net.env (Client net.env.Table)) (Unit {0})
      → Outcome (World net.env (Agent net.Index)) (Unit {0})
  ended a (ret r w) = hung
  ended a (exited w) = exited (record { kernel = w.kernel; state = a; trace = w.trace })
  ended a fault = fault
  ended a hung = hung

  unfoldable pub run_transfer :
      Slot → List (Wait × Pick) → Session → Request → List Lane → Run net (Unit {0})
  unfolding transfer transfer_state ended
  run_transfer junk_slot history s r lanes w = ended w.state (
      transfer junk_slot history (record {
        kernel = w.kernel;
        state = transfer_state net.env.no_entries s r lanes;
        trace = w.trace;
      }))

  unfoldable pub child : Lane → Slot → List (Wait × Pick) → ℕ → Run net (Unit {0})
  unfolding close_listener_sockets lanes_of run_transfer
  child junk junk_slot history n = do
    close_listener_sockets
    s ← client net n
    r ← check s.transfer_request
    lanes ← check (lanes_of s.num_parallel_connections s.agent_sock s.agent_fd_poll junk)
    run_transfer junk_slot history s r lanes

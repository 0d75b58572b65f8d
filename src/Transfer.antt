-- ===== src/Transfer.antt =====
-- `poll_data_transfer` of OriginalAgentCodeC/poll.c: the loop of a transfer, an event at a time.
pub mod Setup
pub mod Queues
pub mod Prepared
pub mod Freed
pub mod Finished
use sosagent.Base.{
  ℕ, zero, suc, ◌+◌, ◌==◌, if◌then◌else◌, Bool, true, false, ◌&&◌, ◌||◌, not, List, [], ◌∷◌, Option,
  none, some, length,
}
use sosagent.System.{Env}
use sosagent.System.Outcome.{M, pure, skip, exit, check, ◌>>=◌, ◌>>◌}
use sosagent.System.Calls.{World, get, put, close}
use sosagent.Client.{
  Poll, off, in_only, out_only, in_and_out, closed, Packet, Slot, Lane, Client, Status, success,
  close_status,
}
use sosagent.Client.Access.{lane, set_lane, set_agent_fd_poll}
use sosagent.Deliver.{send_data_host}
use sosagent.Receive.{read_agent_send_host}
use sosagent.Send.{read_host_send_agent}
use sosagent.Watch.{all_agents_socks_full, not_all_agent_socks_full}

-- Where an event comes from (`event_info_t` of a transfer): HOST_SIDE_DATA, with the `agent_id` that
-- stands in `host_side_event_info`, or AGENT_SIDE_DATA of a connection.
pub data Source : Type 0 where
  host_side : Source
  agent_side : ℕ → Source

-- What `epoll_wait` hands over: the source and the bits EPOLLIN, EPOLLOUT and EPOLLERR.
pub record Event : Type 0 where
  pub source : Source
  pub input : Bool
  pub output : Bool
  pub error : Bool

-- -1, no event, or an event.
pub data Wait : Type 0 where
  wait_failed no_event : Wait
  ready : Event → Wait

-- What the second `epoll_wait`, on `event_poll_out_agent`, hands over: the number of a connection
-- that can be written, and whether EPOLLERR is set.
pub data Pick : Type 0 where
  pick_failed pick_none : Pick
  pick : ℕ → Bool → Pick

abbrev pub is_closed : Poll → Bool
is_closed closed = true
is_closed p = false

-- Every connection is marked CLOSED.
unfoldable pub all_marked : List Lane → Bool
all_marked [] = true
all_marked (l ∷ ls) = is_closed l.agent_fd_poll && all_marked ls

-- Some slot among the first `queue_size` of a connection is in use (it has that many).
unfoldable pub slot_in_use : ℕ → List Slot → Bool
slot_in_use zero ss = false
slot_in_use (suc n) [] = false
slot_in_use (suc n) (s ∷ ss) = s.in_use || slot_in_use n ss

unfoldable pub any_in_use : ℕ → List Lane → Bool
unfolding slot_in_use
any_in_use n [] = false
any_in_use n (l ∷ ls) = slot_in_use n l.buffered_packet || any_in_use n ls

module _ {env : Env} where
  -- The host is closed: a connection with nothing left to send is closed, at each turn of the loop.
  -- The result is `all_closed`.
  unfoldable pub close_idle_from : ℕ → ℕ → M (World env (Client env.Table)) Bool
  close_idle_from zero i = pure true
  close_idle_from (suc n) i = do
    l ← lane i
    if l.packet.host_packet_size == 0
        then (do close l.agent_sock; set_agent_fd_poll i closed; close_idle_from n (suc i))
        else (do rest ← close_idle_from n (suc i); pure (is_closed l.agent_fd_poll && rest))

  -- The head of the loop: whether everything is closed. The host's socket is closed when every
  -- connection is and no slot is in use.
  unfoldable pub finished_at : Poll → M (World env (Client env.Table)) Bool
  finished_at closed = do c ← get; close_idle_from (length c.lanes) 0
  finished_at p = do
    c ← get
    if all_marked c.lanes && not (any_in_use c.queue_size c.lanes)
        then close c.host_sock >> pure true
        else pure false

  -- Input from the host: the second `epoll_wait` looks for a connection that can be written. Where
  -- it finds none, the code still looks at EPOLLERR, of the first event.
  unfoldable pub host_input : Event → Pick → M (World env (Client env.Table)) (Unit {0})
  host_input e pick_failed = exit
  host_input e pick_none = if e.error then exit else all_agents_socks_full
  host_input e (pick a error) = if error then exit else (do _ ← read_host_send_agent a; skip)

  -- A connection can be written.
  unfoldable pub agent_output : ℕ → M (World env (Client env.Table)) (Unit {0})
  agent_output a = do
    l ← lane a
    if l.packet.host_packet_size == 0 then not_all_agent_socks_full else skip
    _ ← read_host_send_agent a
    skip

  -- The arrays of the connections are given back to the heap.
  unfoldable pub free_client : M (World env (Client env.Table)) (Unit {0})
  free_client = do c ← get; put (record c { lanes = [] })

  unfoldable pub close_agents_from : ℕ → ℕ → M (World env (Client env.Table)) (Unit {0})
  close_agents_from zero i = skip
  close_agents_from (suc n) i = do l ← lane i; close l.agent_sock; close_agents_from n (suc i)

  -- With `num_parallel_connections`, which stays when the arrays have gone.
  unfoldable pub clean_up_connections : ℕ → M (World env (Client env.Table)) (Unit {0})
  clean_up_connections n = do c ← get; close c.host_sock; close_agents_from n 0

  -- An event of no known kind.
  unfoldable pub unknown_event : Event → M (World env (Client env.Table)) (Unit {0})
  unknown_event e = do
    c ← get
    if e.error then free_client >> clean_up_connections (length c.lanes) >> exit else exit

  -- The four kinds of event, in the order in which the code asks for them; any other ends the
  -- process.
  unfoldable pub dispatch : Event → Source → Pick → M (World env (Client env.Table)) (Unit {0})
  dispatch e host_side second =
      if e.input
      then host_input e second
      else if e.output
      then (do c ← get; _ ← send_data_host true c.host_agent_id; skip)
      else unknown_event e
  dispatch e (agent_side a) second =
      if e.output
      then agent_output a
      else if e.input
      then (do _ ← read_agent_send_host a; skip)
      else unknown_event e

  -- What comes of the first `epoll_wait`.
  unfoldable pub handle : Wait → Pick → M (World env (Client env.Table)) (Unit {0})
  handle wait_failed second = exit
  handle no_event second = skip
  handle (ready e) second = dispatch e e.source second

  -- One turn of the loop, with what its calls of `epoll_wait` come back with. The process exits
  -- when everything is closed.
  unfoldable pub transfer_turn : Wait → Pick → M (World env (Client env.Table)) (Unit {0})
  transfer_turn first second = do
    c ← get
    all_closed ← finished_at c.host_fd_poll
    if all_closed then exit else handle first second

  -- The loop over a history of events.
  unfoldable pub poll_data_transfer :
      List (Wait × Pick) → M (World env (Client env.Table)) (Unit {0})
  poll_data_transfer [] = skip
  poll_data_transfer ((first, second) ∷ rest) = do
    transfer_turn first second
    poll_data_transfer rest

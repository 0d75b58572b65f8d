-- ===== src/Transfer/Setup.antt =====
-- `configure_stats` and `configure_poll` of OriginalAgentCodeC/network.c: the buffers, the slots and
-- the poll sets of a transfer. What `malloc` leaves in a new struct is an argument, `junk`.
use sosagent.Base.{ℕ, zero, suc, ◌*◌, ◌-◌, ◌^◌, false, List, [], ◌∷◌, none, some, length}
use sosagent.System.{Env, client_event_pool, event_poll_out_agent, event_poll_out_host, add}
use sosagent.System.Outcome.{M, ret, exited, pure, skip, ◌>>=◌, ◌>>◌}
use sosagent.System.Calls.{World, get, put, epoll_ctl}
use sosagent.Client.{in_only, Slot, LaneStats, Lane, Client}
use sosagent.Client.Access.{lane, set_lane, set_host_fd_poll, set_agent_fd_poll}
use sosagent.Deliver.{readable, writable}

-- `size = EMPTY`, which is -1.
abbrev pub empty_size : ℕ
empty_size = 2 ^ 32 - 1

-- `configure_stats`: every counter is 0.
unfoldable pub zero_stats : LaneStats
zero_stats = record {
  sent_bytes = 0;
  recv_bytes = 0;
  sent_packets = 0;
  recv_packets = 0;
  blocked = 0;
  blocked_recv = 0;
  not_full_send = 0;
  average_queue_length = 0;
}

unfoldable pub reset_stats : List Lane → List Lane
unfolding zero_stats
reset_stats [] = []
reset_stats (l ∷ ls) = record l { stats = zero_stats } ∷ reset_stats ls

module _ {env : Env} where
  -- `malloc`, and `exit` where it returns NULL.
  unfoldable pub malloc : ℕ → M (World env (Client env.Table)) (List ℕ)
  malloc n w =
      let (r, k) = env.malloc_call w.kernel n in
      elim r [
        | none ↦ exited (record w { kernel = k })
        | some bytes ↦ ret bytes (record w { kernel = k })
      ]

  -- Eight arrays of counters, of 8 or 4 bytes each.
  unfoldable pub malloc_all : List ℕ → M (World env (Client env.Table)) (Unit {0})
  unfolding malloc
  malloc_all [] = skip
  malloc_all (n ∷ ns) = do _ ← malloc n; malloc_all ns

  unfoldable pub configure_stats : M (World env (Client env.Table)) (Unit {0})
  unfolding reset_stats malloc_all
  configure_stats = do
    c ← get
    let n = length c.lanes
    malloc_all (8 * n ∷ 8 * n ∷ 8 * n ∷ 8 * n ∷ 4 * n ∷ 4 * n ∷ 8 * n ∷ 4 * n ∷ [])
    d ← get
    put (record d { total_sent_bytes = 0; total_recv_bytes = 0; lanes = reset_stats d.lanes })

  -- A queue of `n` free slots, each with a buffer.
  unfoldable pub new_slots : Slot → ℕ → ℕ → M (World env (Client env.Table)) (List Slot)
  unfolding malloc
  new_slots junk zero size = pure []
  new_slots junk (suc n) size = do
    bytes ← malloc size
    rest ← new_slots junk n size
    pure (record junk { size = empty_size; in_use = false; serialized_data = bytes } ∷ rest)

  -- The arrays of the connections from number `i` on.
  unfoldable pub new_lanes : Slot → ℕ → ℕ → M (World env (Client env.Table)) (Unit {0})
  unfolding new_slots malloc
  new_lanes junk zero i = skip
  new_lanes junk (suc n) i = do
    c ← get
    bytes ← malloc c.buffer_size
    slots ← new_slots junk c.queue_size c.buffer_size
    l ← lane i
    let packet = l.packet
    set_lane i (record l {
      packet = record packet { serialized_data = bytes; host_packet_size = 0 };
      buffered_packet = slots;
      agent_packet_queue_count = 0;
      agent_packet_index_in = none;
      agent_needed_header_size = 0;
    })
    new_lanes junk n (suc i)

  -- The sockets of the connections from number `i` on.
  unfoldable pub poll_lanes : ℕ → ℕ → M (World env (Client env.Table)) (Unit {0})
  poll_lanes zero i = skip
  poll_lanes (suc n) i = do
    set_agent_fd_poll i in_only
    l ← lane i
    epoll_ctl client_event_pool (add readable) l.agent_sock
    epoll_ctl event_poll_out_agent (add writable) l.agent_sock
    poll_lanes n (suc i)

  -- `configure_poll`, where the three calls of `epoll_create` succeed.
  unfoldable pub configure_poll : Slot → M (World env (Client env.Table)) (Unit {0})
  configure_poll junk = do
    c ← get
    new_lanes junk (length c.lanes) 0
    set_host_fd_poll in_only
    epoll_ctl client_event_pool (add readable) c.host_sock
    epoll_ctl event_poll_out_host (add writable) c.host_sock
    poll_lanes (length c.lanes) 0

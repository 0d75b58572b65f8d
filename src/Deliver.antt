-- ===== src/Deliver.antt =====
-- `send_data_host` of OriginalAgentCodeC/network.c: a packet, and all that follow it without a gap,
-- go out to the host.
pub mod Order
pub mod Steps
pub mod Short
pub mod Prompt
pub mod Packet
pub mod Drain
use sosagent.Base.{
  ℕ, zero, suc, ◌+◌, ◌-◌, ◌*◌, ◌%◌, ◌^◌, ◌==◌, if◌then◌else◌, Bool, true, false, Option, none, some,
}
use sosagent.System.{
  Errno, eagain, eshutdown, econnreset, epipe, einprogress, other_errno, Sent, took, send_failed,
  client_event_pool, add, modify, delete, Events, Env,
}
use sosagent.System.Outcome.{M, stuck, pure, skip, exit, check, ◌>>=◌, ◌>>◌}
use sosagent.System.Calls.{World, get, put, send, epoll_ctl, close}
use sosagent.Client.{
  Poll, off, in_only, out_only, in_and_out, closed, has_in, Slot, Lane, Client, Status, success,
  close_status,
}
use sosagent.Client.Access.{
  as_size_t, slice, lane, set_lane, slot, set_slot, set_host_fd_poll, set_agent_fd_poll,
}
use sosagent.Client.Slots.{slot_count}

-- EPOLLIN, EPOLLOUT and both.
abbrev pub readable : Events
readable = record { epollin = true; epollout = false }

abbrev pub writable : Events
writable = record { epollin = false; epollout = true }

abbrev pub both_ways : Events
both_ways = record { epollin = true; epollout = true }

-- How the inner loop is left: the packet is gone, the host's socket is full, or it is lost.
pub data SendEnd : Type 0 where
  gone full lost : SendEnd

-- What is left of a packet's payload after `count` bytes, as the third argument of `send`.
abbrev pub left_over : ℕ → ℕ → ℕ
left_over size count = (as_size_t size + 2 * 2 ^ 64 - 4 - count) % 2 ^ 64

module _ {env : Env} where
  -- The poll set follows the host's socket.
  unfoldable pub watch_host : Poll → M (World env (Client env.Table)) (Unit {0})
  watch_host in_only = do
    c ← get
    epoll_ctl client_event_pool (modify both_ways) c.host_sock
    set_host_fd_poll in_and_out
  watch_host off = do
    c ← get
    epoll_ctl client_event_pool (add writable) c.host_sock
    set_host_fd_poll out_only
  watch_host p = exit

  -- EAGAIN: remember where to go on, and wait for the host's socket.
  unfoldable pub host_full : ℕ → ℕ → ℕ → M (World env (Client env.Table)) SendEnd
  unfolding watch_host
  host_full a i count = do
    s ← slot a i
    set_slot a i (record s { host_sent_size = count })
    c ← get
    put (record c { agent_packet_index_out = i; host_agent_id = a })
    watch_host c.host_fd_poll
    pure full

  -- ESHUTDOWN, ECONNRESET, EPIPE.
  unfoldable pub host_lost : M (World env (Client env.Table)) SendEnd
  host_lost = do
    c ← get
    epoll_ctl client_event_pool delete c.host_sock
    set_host_fd_poll closed
    close c.host_sock
    pure lost

  unfoldable pub send_refused : Errno → ℕ → ℕ → ℕ → M (World env (Client env.Table)) SendEnd
  unfolding host_full host_lost
  send_refused eagain a i count = host_full a i count
  send_refused eshutdown a i count = host_lost
  send_refused econnreset a i count = host_lost
  send_refused epipe a i count = host_lost
  send_refused e a i count = exit

  -- A slot is free again, so its connection may be read.
  unfoldable pub watch_agent : ℕ → Poll → M (World env (Client env.Table)) (Unit {0})
  watch_agent a out_only = do
    l ← lane a
    epoll_ctl client_event_pool (modify both_ways) l.agent_sock
    set_agent_fd_poll a in_and_out
  watch_agent a off = do
    l ← lane a
    epoll_ctl client_event_pool (add readable) l.agent_sock
    set_agent_fd_poll a in_only
  watch_agent a p = skip

  -- The whole packet has gone out.
  unfoldable pub packet_gone : ℕ → ℕ → ℕ → M (World env (Client env.Table)) SendEnd
  unfolding watch_agent
  packet_gone a i count = do
    c ← get
    put (record c { total_sent_bytes = (c.total_sent_bytes + count) % 2 ^ 64 })
    l ← lane a
    set_lane a
        (record l { agent_packet_queue_count = (l.agent_packet_queue_count + 2 ^ 32 - 1) % 2 ^ 32 })
    s ← slot a i
    set_slot a i (record s { size = 0; in_use = false })
    c' ← get
    put (record c' { recv_seq = (c'.recv_seq + 1) % 2 ^ 32 })
    l' ← lane a
    watch_agent a l'.agent_fd_poll
    pure gone

  -- What the inner loop does with the answer of `send`; `again` is its next round.
  unfoldable pub send_answered :
      Sent
      → ℕ
      → ℕ
      → ℕ
      → ℕ
      → (ℕ → M (World env (Client env.Table)) SendEnd)
      → M (World env (Client env.Table)) SendEnd
  unfolding send_refused packet_gone
  send_answered (send_failed e) size a i count again = send_refused e a i count
  send_answered (took n) size a i count again =
      if count + n == (as_size_t size + 2 ^ 64 - 4) % 2 ^ 64
      then packet_gone a i (count + n)
      else again (count + n)

  -- The inner loop: `send` until the packet is gone.
  unfoldable pub send_packet : ℕ → ℕ → ℕ → ℕ → M (World env (Client env.Table)) SendEnd
  unfolding send_answered
  send_packet zero a i count = stuck
  send_packet (suc fuel) a i count = do
    s ← slot a i
    c ← get
    bytes ← check (slice s.serialized_data (4 + count) (left_over s.size count))
    r ← send c.host_sock bytes
    send_answered r s.size a i count (send_packet fuel a i)

  -- `HASH_FIND_INT` for the next number: the packet leaves the table and is sent by `again`.
  unfoldable pub send_found :
      Option (ℕ × ℕ)
      → (ℕ → ℕ → ℕ → M (World env (Client env.Table)) Status)
      → M (World env (Client env.Table)) Status
  send_found none again = pure success
  send_found (some (b, j)) again = do
    t ← slot b j
    c ← get
    put (record c { buffered_packet_table = env.hash_del c.buffered_packet_table t.id })
    again t.agent_id t.packet_index 0

  -- What the outer loop does after the inner one; `again` is its next round.
  unfoldable pub packet_ended :
      SendEnd
      → (ℕ → ℕ → ℕ → M (World env (Client env.Table)) Status)
      → M (World env (Client env.Table)) Status
  unfolding send_found
  packet_ended full again = pure success
  packet_ended lost again = pure close_status
  packet_ended gone again = do
    c ← get
    send_found (env.hash_find c.buffered_packet_table c.recv_seq) again

  -- The outer loop: packet after packet, as long as the next one is in the table.
  unfoldable pub deliver : ℕ → ℕ → ℕ → ℕ → M (World env (Client env.Table)) Status
  unfolding send_packet packet_ended
  deliver zero a i count = stuck
  deliver (suc fuel) a i count = do
    s ← slot a i
    e ← send_packet (suc s.size) a i count
    packet_ended e (deliver fuel)

  -- The poll set no longer asks for the host's socket to be writable.
  unfoldable pub unwatch_host : Poll → M (World env (Client env.Table)) (Unit {0})
  unwatch_host in_and_out = do
    c ← get
    epoll_ctl client_event_pool (modify readable) c.host_sock
    set_host_fd_poll in_only
  unwatch_host out_only = do
    c ← get
    epoll_ctl client_event_pool delete c.host_sock
    set_host_fd_poll off
  unwatch_host p = skip

  -- `send_data_host(agent, event, remove_fd)` with `event->agent_id`. Each round of the outer loop
  -- frees a slot, so the number of slots bounds the rounds.
  unfoldable pub send_data_host : Bool → ℕ → M (World env (Client env.Table)) Status
  send_data_host true a = do
    c ← get
    unwatch_host c.host_fd_poll
    s ← slot a c.agent_packet_index_out
    deliver (suc (slot_count c.lanes)) a c.agent_packet_index_out s.host_sent_size
  send_data_host false a = do
    c ← get
    deliver (suc (slot_count c.lanes)) a c.agent_packet_index_out 0

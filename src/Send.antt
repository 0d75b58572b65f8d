-- ===== src/Send.antt =====
-- `read_host_send_agent` of OriginalAgentCodeC/network.c: what comes in from the host goes out on a
-- parallel connection, one frame for each `recv`.
pub mod Layout
pub mod Flight
pub mod Frames
use sosagent.Base.{ℕ, zero, suc, ◌+◌, ◌-◌, ◌%◌, ◌^◌, ◌==◌, if◌then◌else◌, List, [], ◌∷◌, length}
use sosagent.Wire.{bytes_of, htonl}
use sosagent.System.{
  Errno, eagain, eshutdown, econnreset, epipe, einprogress, other_errno, Received, got, recv_failed,
  Sent, took, send_failed, client_event_pool, add, modify, delete, Env,
}
use sosagent.System.Outcome.{M, pure, skip, stuck, exit, check, ◌>>=◌, ◌>>◌}
use sosagent.System.Calls.{World, get, put, recv, send, epoll_ctl, close}
use sosagent.Client.{
  Poll, off, in_only, out_only, in_and_out, closed, Packet, LaneStats, Lane, Client, Status,
  success, close_status,
}
use sosagent.Client.Access.{rest_of, overwrite, lane, set_lane, set_host_fd_poll, set_agent_fd_poll}
use sosagent.Deliver.{readable, writable, both_ways}

module _ {env : Env} where
  -- The connection's socket is to be waited for, if it is not.
  unfoldable pub watch_agent_output : ℕ → Poll → M (World env (Client env.Table)) (Unit {0})
  watch_agent_output a in_only = do
    l ← lane a
    epoll_ctl client_event_pool (modify both_ways) l.agent_sock
    set_agent_fd_poll a in_and_out
  watch_agent_output a off = do
    l ← lane a
    epoll_ctl client_event_pool (add writable) l.agent_sock
    set_agent_fd_poll a out_only
  watch_agent_output a p = skip

  -- EAGAIN: the packet stays, with the place to go on.
  unfoldable pub agent_full : ℕ → ℕ → ℕ → M (World env (Client env.Table)) Status
  agent_full a size count = do
    l ← lane a
    let packet = l.packet
    let stats = l.stats
    set_lane a (record l {
      packet = record packet { host_sent_size = count; host_packet_size = size };
      stats = record stats { blocked = (stats.blocked + 1) % 2 ^ 32 };
    })
    watch_agent_output a l.agent_fd_poll
    pure success

  -- ESHUTDOWN or ECONNRESET: the code marks the connection OFF, not CLOSED.
  unfoldable pub agent_lost : ℕ → M (World env (Client env.Table)) Status
  agent_lost a = do
    l ← lane a
    epoll_ctl client_event_pool delete l.agent_sock
    set_agent_fd_poll a off
    close l.agent_sock
    pure close_status

  unfoldable pub agent_refused : Errno → ℕ → ℕ → ℕ → M (World env (Client env.Table)) Status
  agent_refused eagain a size count = agent_full a size count
  agent_refused eshutdown a size count = agent_lost a
  agent_refused econnreset a size count = agent_lost a
  agent_refused e a size count = exit

  -- What the loop does with the answer of `send`; `again` is its next round.
  unfoldable pub agent_answered :
      Sent
      → ℕ
      → ℕ
      → ℕ
      → (ℕ → M (World env (Client env.Table)) Status)
      → M (World env (Client env.Table)) Status
  agent_answered (send_failed e) a size count again = agent_refused e a size count
  agent_answered (took n) a size count again = do
    l ← lane a
    let packet = l.packet
    let stats = l.stats
    if count + n == size
        then set_lane a (record l { packet = record packet { host_packet_size = 0 } })
          >> pure success
        else set_lane a (record l {
          stats = record stats { not_full_send = (stats.not_full_send + 1) % 2 ^ 32 };
        })
          >> again (count + n)

  -- The loop that sends a packet of `size` bytes, of which `count` are out.
  unfoldable pub send_frame : ℕ → ℕ → ℕ → ℕ → M (World env (Client env.Table)) Status
  send_frame zero a size count = stuck
  send_frame (suc fuel) a size count = do
    l ← lane a
    bytes ← check (rest_of l.packet.serialized_data count size)
    r ← send l.agent_sock bytes
    agent_answered r a size count (send_frame fuel a size)

  -- The host is gone: it leaves the poll set.
  unfoldable pub drop_host : M (World env (Client env.Table)) (Unit {0})
  drop_host = do c ← get; epoll_ctl client_event_pool delete c.host_sock; set_host_fd_poll closed

  -- A `recv` of the host that failed.
  unfoldable pub host_refused : Errno → M (World env (Client env.Table)) Status
  host_refused eagain = pure success
  host_refused eshutdown = do drop_host; pure close_status
  host_refused econnreset = do drop_host; pure close_status
  host_refused e = exit

  -- The length word and the sequence number are copied in front of the payload.
  unfoldable pub load_frame : ℕ → List ℕ → M (World env (Client env.Table)) (Unit {0})
  load_frame a bytes = do
    l ← lane a
    c ← get
    with_payload ← check (overwrite l.packet.serialized_data 8 bytes)
    with_size ←
        check (overwrite with_payload 0 (bytes_of env.order (htonl env.order (length bytes + 4))))
    with_seq ← check (overwrite with_size 4 (bytes_of env.order c.send_seq))
    let packet = l.packet
    let stats = l.stats
    put (record c {
      total_recv_bytes = (c.total_recv_bytes + length bytes) % 2 ^ 64;
      send_seq = (c.send_seq + 1) % 2 ^ 32;
    })
    set_lane a (record l {
      packet = record packet { serialized_data = with_seq; host_packet_size = length bytes + 8 };
      stats = record stats {
        sent_bytes = (stats.sent_bytes + length bytes + 8) % 2 ^ 64;
        sent_packets = (stats.sent_packets + 1) % 2 ^ 64;
      };
    })

  -- End of file: the host leaves the poll set, if it is in it.
  unfoldable pub drop_host_at : Poll → M (World env (Client env.Table)) (Unit {0})
  drop_host_at off = skip
  drop_host_at p = drop_host

  -- What comes of the `recv` of the host.
  unfoldable pub host_answered : Received → ℕ → M (World env (Client env.Table)) Status
  host_answered (recv_failed e) a = host_refused e
  host_answered (got []) a = do c ← get; drop_host_at c.host_fd_poll; pure close_status
  host_answered (got (b ∷ bs)) a = do
    load_frame a (b ∷ bs)
    send_frame (suc (length (b ∷ bs) + 8)) a (length (b ∷ bs) + 8) 0

  -- A packet that was blocked: its socket need not be waited for any more. In any other state of
  -- the poll set the code exits.
  unfoldable pub unwatch_agent_output : ℕ → Poll → M (World env (Client env.Table)) (Unit {0})
  unwatch_agent_output a in_and_out = do
    l ← lane a
    epoll_ctl client_event_pool (modify readable) l.agent_sock
    set_agent_fd_poll a in_only
  unwatch_agent_output a out_only = do
    l ← lane a
    epoll_ctl client_event_pool delete l.agent_sock
    set_agent_fd_poll a off
  unwatch_agent_output a p = exit

  -- By `host_packet_size`: a new packet, or the rest of one.
  unfoldable pub send_from : ℕ → ℕ → M (World env (Client env.Table)) Status
  send_from zero a = do
    c ← get
    r ← recv c.host_sock ((c.buffer_size + 2 ^ 64 - 8) % 2 ^ 64)
    host_answered r a
  send_from (suc n) a = do
    l ← lane a
    unwatch_agent_output a l.agent_fd_poll
    send_frame (suc (suc n)) a (suc n) l.packet.host_sent_size

  -- `read_host_send_agent(agent, event_host, event_agent)` with `event_agent->agent_id`.
  unfoldable pub read_host_send_agent : ℕ → M (World env (Client env.Table)) Status
  read_host_send_agent a = do l ← lane a; send_from l.packet.host_packet_size a

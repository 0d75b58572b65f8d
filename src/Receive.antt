-- ===== src/Receive.antt =====
-- `get_free_packet_index` and `read_agent_send_host` of OriginalAgentCodeC/network.c: what comes in
-- on a parallel connection is put together to packets, and these go to the host or into the table.
pub mod Queue
pub mod Gather
pub mod Tcp
pub mod Whole
pub mod Begun
pub mod Entry
pub mod Progress
pub mod Dropped
pub mod Payload
pub mod Header
pub mod Resting
pub mod Arrival
use sosagent.Base.{
  ℕ, zero, suc, ◌+◌, ◌-◌, ◌%◌, ◌^◌, ltb, ◌==◌, if◌then◌else◌, Bool, true, false, List, [], ◌∷◌,
  Option, none, some, length,
}
use sosagent.Wire.{word_of, ntohl}
use sosagent.System.{
  Errno, eagain, eshutdown, econnreset, epipe, einprogress, other_errno, Received, got, recv_failed,
  client_event_pool, modify, delete, Env,
}
use sosagent.System.Outcome.{M, pure, skip, stuck, exit, check, ◌>>=◌, ◌>>◌}
use sosagent.System.Calls.{World, get, put, recv, epoll_ctl, close}
use sosagent.Client.{
  Poll, off, in_only, out_only, in_and_out, closed, Slot, LaneStats, Lane, Client, Status, success,
  close_status,
}
use sosagent.Client.Access.{slice, overwrite, lane, set_lane, slot, set_slot, set_agent_fd_poll}
use sosagent.Deliver.{writable, send_data_host}

-- The search of `get_free_packet_index` over `queue_size` slots: the inner option is -1 or an index,
-- the outer one `none` at a read beyond the array.
unfoldable pub first_free : ℕ → ℕ → List Slot → Option (Option ℕ)
first_free zero i ss = some none
first_free (suc n) i [] = none
first_free (suc n) i (s ∷ ss) = if s.in_use then first_free n (suc i) ss else some (some i)

-- How the two loops are left: the bytes are there, the connection has no more of them now, or it is
-- shut.
pub data ReadEnd : Type 0 where
  whole dry shut : ReadEnd

module _ {env : Env} where
  -- `buffered_packet[a][i].in_use = 1`, if an index was found.
  unfoldable pub take_slot : ℕ → Option ℕ → M (World env (Client env.Table)) (Option ℕ)
  take_slot a none = pure none
  take_slot a (some i) = do s ← slot a i; set_slot a i (record s { in_use = true }); pure (some i)

  unfoldable pub get_free_packet_index : ℕ → M (World env (Client env.Table)) (Option ℕ)
  unfolding first_free take_slot
  get_free_packet_index a = do
    c ← get
    l ← lane a
    found ← check (first_free c.queue_size 0 l.buffered_packet)
    take_slot a found

  -- The connection leaves the poll set and counts as closed.
  unfoldable pub drop_agent : ℕ → M (World env (Client env.Table)) (Unit {0})
  drop_agent a = do
    l ← lane a
    epoll_ctl client_event_pool delete l.agent_sock
    set_agent_fd_poll a closed

  -- A failed `recv` of the header.
  unfoldable pub header_refused : Errno → ℕ → ℕ → ℕ → M (World env (Client env.Table)) ReadEnd
  unfolding drop_agent
  header_refused eshutdown a i count = do drop_agent a; l ← lane a; close l.agent_sock; pure shut
  header_refused econnreset a i count = do drop_agent a; l ← lane a; close l.agent_sock; pure shut
  header_refused eagain a i count = if count == 0 then exit else do
    l ← lane a
    set_lane a (record l { agent_packet_index_in = some i; agent_needed_header_size = count })
    pure dry
  header_refused e a i count = exit

  -- What the header's loop does with the answer of `recv`; `again` is its next round.
  unfoldable pub header_answered :
      Received
      → ℕ
      → ℕ
      → ℕ
      → (ℕ → M (World env (Client env.Table)) ReadEnd)
      → M (World env (Client env.Table)) ReadEnd
  unfolding header_refused drop_agent
  header_answered (recv_failed e) a i count again = header_refused e a i count
  header_answered (got []) a i count again = do
    drop_agent a
    s ← slot a i
    set_slot a i (record s { in_use = false })
    pure shut
  header_answered (got (b ∷ bs)) a i count again = do
    l ← lane a
    word ← check (overwrite l.header_size count (b ∷ bs))
    set_lane a (record l { header_size = word })
    if count + length (b ∷ bs) == 4
        then (do m ← lane a; set_lane a (record m { agent_needed_header_size = 0 }); pure whole)
        else again (count + length (b ∷ bs))

  -- The loop that reads the length word.
  unfoldable pub read_header : ℕ → ℕ → ℕ → ℕ → M (World env (Client env.Table)) ReadEnd
  unfolding header_answered
  read_header zero a i count = stuck
  read_header (suc fuel) a i count = do
    l ← lane a
    r ← recv l.agent_sock ((4 + 2 ^ 64 - count) % 2 ^ 64)
    header_answered r a i count (read_header fuel a i)

  -- The length is known: the counters, and the code's checks of it.
  unfoldable pub header_done : ℕ → ℕ → M (World env (Client env.Table)) ℕ
  header_done a i = do
    c ← get
    l ← lane a
    let size = ntohl env.order (word_of env.order l.header_size)
    let count = (l.agent_packet_queue_count + 1) % 2 ^ 32
    let stats = l.stats
    if size == 0 then exit else (do
      set_lane a (record l {
        agent_packet_queue_count = count;
        stats = record stats {
          average_queue_length = (stats.average_queue_length + count) % 2 ^ 32;
          recv_packets = (stats.recv_packets + 1) % 2 ^ 64;
          recv_bytes = (stats.recv_bytes + 4 + size) % 2 ^ 64;
        };
      })
      s ← slot a i
      set_slot a i (record s { size = size })
      if ltb c.buffer_size size then exit else pure size)

  -- End of file within a packet.
  unfoldable pub drop_agent_at : ℕ → Poll → M (World env (Client env.Table)) (Unit {0})
  unfolding drop_agent
  drop_agent_at a off = set_agent_fd_poll a closed
  drop_agent_at a p = drop_agent a

  -- What the payload's loop does with the answer of `recv`.
  unfoldable pub payload_answered :
      Received
      → ℕ
      → ℕ
      → ℕ
      → ℕ
      → (ℕ → M (World env (Client env.Table)) ReadEnd)
      → M (World env (Client env.Table)) ReadEnd
  unfolding drop_agent_at
  payload_answered (recv_failed eagain) a i size count again = do
    l ← lane a
    let stats = l.stats
    set_lane a
        (record l { stats = record stats { blocked_recv = (stats.blocked_recv + 1) % 2 ^ 64 } })
    s ← slot a i
    set_slot a i (record s { host_sent_size = count })
    pure dry
  payload_answered (recv_failed e) a i size count again = exit
  payload_answered (got []) a i size count again = do
    l ← lane a
    drop_agent_at a l.agent_fd_poll
    pure shut
  payload_answered (got (b ∷ bs)) a i size count again = do
    s ← slot a i
    bytes ← check (overwrite s.serialized_data count (b ∷ bs))
    set_slot a i (record s { serialized_data = bytes })
    if count + length (b ∷ bs) == size
        then (do l ← lane a; set_lane a (record l { agent_packet_index_in = none }); pure whole)
        else again (count + length (b ∷ bs))

  -- The loop that reads what the length word announced.
  unfoldable pub read_payload : ℕ → ℕ → ℕ → ℕ → ℕ → M (World env (Client env.Table)) ReadEnd
  unfolding payload_answered
  read_payload zero a i size count = stuck
  read_payload (suc fuel) a i size count = do
    l ← lane a
    r ← recv l.agent_sock ((size + 2 ^ 32 - count) % 2 ^ 32)
    payload_answered r a i size count (read_payload fuel a i size)

  -- All slots of the connection are taken: it is not read until one is free.
  unfoldable pub unwatch_agent : ℕ → Poll → M (World env (Client env.Table)) (Unit {0})
  unwatch_agent a in_and_out = do
    l ← lane a
    epoll_ctl client_event_pool (modify writable) l.agent_sock
    set_agent_fd_poll a out_only
  unwatch_agent a in_only = do
    l ← lane a
    epoll_ctl client_event_pool delete l.agent_sock
    set_agent_fd_poll a off
  unwatch_agent a p = skip

  -- `HASH_ADD_INT`: the packet waits for its turn.
  unfoldable pub file_packet : ℕ → ℕ → M (World env (Client env.Table)) (Unit {0})
  file_packet a i = do
    s ← slot a i
    set_slot a i (record s { agent_id = a; packet_index = i; id = s.seq_num })
    c ← get
    put (record c { buffered_packet_table = env.hash_add c.buffered_packet_table s.seq_num (a, i) })

  -- The packet is sent if it is next, and filed if not. The code ignores what `send_data_host`
  -- returns.
  unfoldable pub sort_packet : ℕ → ℕ → M (World env (Client env.Table)) Status
  unfolding file_packet
  sort_packet a i = do
    c ← get
    s ← slot a i
    if c.recv_seq == s.seq_num
        then (do
          put (record c { agent_packet_index_out = i })
          _ ← send_data_host false a
          pure success)
        else (do file_packet a i; pure success)

  -- A whole packet stands in slot `i`.
  unfoldable pub packet_arrived : ℕ → ℕ → M (World env (Client env.Table)) Status
  packet_arrived a i = do
    s ← slot a i
    bytes ← check (slice s.serialized_data 0 4)
    set_slot a i (record s { seq_num = word_of env.order bytes })
    l ← lane a
    c ← get
    if l.agent_packet_queue_count == c.queue_size then unwatch_agent a l.agent_fd_poll else skip
    sort_packet a i

  -- After the two loops.
  unfoldable pub payload_ended : ReadEnd → ℕ → ℕ → M (World env (Client env.Table)) Status
  payload_ended whole a i = packet_arrived a i
  payload_ended dry a i = pure success
  payload_ended shut a i = pure close_status

  unfoldable pub header_ended : ReadEnd → ℕ → ℕ → M (World env (Client env.Table)) Status
  unfolding payload_ended read_payload header_done
  header_ended whole a i = do
    size ← header_done a i
    e ← read_payload (suc size) a i size 0
    payload_ended e a i
  header_ended dry a i = pure success
  header_ended shut a i = pure close_status

  -- A new packet, if a slot was found for it.
  unfoldable pub begin_packet : ℕ → Option ℕ → M (World env (Client env.Table)) Status
  begin_packet a none = exit
  begin_packet a (some i) = do
    l ← lane a
    set_lane a (record l { agent_packet_index_in = some i })
    e ← read_header 5 a i 0
    header_ended e a i

  -- Where the function goes on: in the header, at a new packet, or in the payload. At EMPTY with
  -- a part of a header it would use -1 as an index.
  unfoldable pub read_from : Option ℕ → ℕ → ℕ → M (World env (Client env.Table)) Status
  unfolding read_header header_ended
  read_from (some i) (suc n) a = do e ← read_header 5 a i (suc n); header_ended e a i
  read_from none zero a = get_free_packet_index a >>= begin_packet a
  read_from (some i) zero a = do
    s ← slot a i
    e ← read_payload (suc s.size) a i s.size s.host_sent_size
    payload_ended e a i
  read_from none (suc n) a = check none

  -- `read_agent_send_host(agent, event)` with `event->agent_id`.
  unfoldable pub read_agent_send_host : ℕ → M (World env (Client env.Table)) Status
  read_agent_send_host a = do
    l ← lane a
    read_from l.agent_packet_index_in l.agent_needed_header_size a

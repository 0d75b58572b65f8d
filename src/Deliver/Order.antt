-- ===== src/Deliver/Order.antt =====
-- What the host is to receive (`send_data_host` of network.c): the payloads in the order of their
-- sequence numbers.
use sosagent.Base.{
  ℕ, zero, suc, ◌+◌, ◌-◌, ◌%◌, ◌^◌, ◌≤◌, ◌<◌, ◌≡◌, ◌⊎◌, ◌≢◌, true, false, List, [], ◌++◌, none,
  some, take, drop, length, drop-take, drop-drop, length-take, length-drop, arith,
}
use sosagent.System.{Env, Errno, eagain, send_failed}
use sosagent.System.Calls.{World, stream}
use sosagent.Client.{Slot, Lane, Client, closed, has_out, Status, success, close_status}
use sosagent.Client.Access.{slot_at}

module _ (p : ℕ → List ℕ) where
  -- The first `k` payloads of the stream in which the packet with the (32-bit) sequence number `n`
  -- carries `p n`.
  unfoldable pub first_payloads : ℕ → List ℕ
  first_payloads zero = []
  first_payloads (suc k) = first_payloads k ++ p (k % 2 ^ 32)

  -- A slot that holds the whole packet `n`: four bytes of sequence number, then the payload.
  pub record Carries (n : ℕ) (s : Slot) : Type 0 where
    pub size_min : 4 ≤ s.size
    pub size_max : s.size < 2 ^ 31
    pub fits : s.size ≤ length s.serialized_data
    pub payload : take (s.size - 4) (drop 4 s.serialized_data) ≡ p n
    pub used_slot : s.in_use ≡ true

  -- What stands in such a slot from byte `4 + count` on is what is left of the payload.
  pub payload_rest :
      (n count : ℕ) (s : Slot)
      → Carries n s
      → count + 4 ≤ s.size
      → take (s.size - 4 - count) (drop (4 + count) s.serialized_data) ≡ drop count (p n)
  payload_rest n count s c h = rw (
    ← c.payload,
    drop-take count (s.size - 4) (drop 4 s.serialized_data),
    drop-drop 4 count s.serialized_data,
  )

  pub length-payload : (n : ℕ) (s : Slot) → Carries n s → length (p n) ≡ s.size - 4
  length-payload n s c = rw (← c.payload) (
      length-take (s.size - 4) (drop 4 s.serialized_data)
        (omega (arith, c.fits, length-drop 4 s.serialized_data)))

  -- Slot `i` of connection `a` holds packet `n`.
  pub record Held (lanes : List Lane) (a i n : ℕ) : Type 0 where
    pub held : Slot
    pub at : slot_at lanes a i ≡ some held
    pub carries : Carries n held

  -- The same of a slot in the table: it also says where it is.
  pub record Filed (lanes : List Lane) (a i n : ℕ) : Type 0 where
    pub held : Slot
    pub at : slot_at lanes a i ≡ some held
    pub carries : Carries n held
    pub own_id : held.id ≡ n
    pub own_lane : held.agent_id ≡ a
    pub own_place : held.packet_index ≡ i

-- No entry of the table is the given slot.
abbrev pub Apart : (env : Env) → env.Table → ℕ → ℕ → Type 0
Apart env t a i = (n : ℕ) → env.hash_find t n ≢ some (a, i)

-- Every entry of the table is a slot with the packet of that number.
abbrev pub AllFiled : (ℕ → List ℕ) → (env : Env) → env.Table → List Lane → Type 0
AllFiled p env t lanes = (n a i : ℕ) → env.hash_find t n ≡ some (a, i) → Filed p lanes a i n

module _ {env : Env} (p : ℕ → List ℕ) where
  -- The host has received a prefix of the stream, on whatever way the run ended.
  abbrev pub InOrder : World env (Client env.Table) → Type 0
  InOrder w =
      (k : ℕ) × (m : ℕ) × (stream w.state.host_sock w.trace
        ≡ first_payloads p k ++ take m (p (k % 2 ^ 32)))

  -- `k` whole packets have gone out, and the next number is `k`.
  pub record Between (k : ℕ) (w : World env (Client env.Table)) : Type 0 where
    pub next : w.state.recv_seq ≡ k % 2 ^ 32
    pub out : stream w.state.host_sock w.trace ≡ first_payloads p k
    pub filed : AllFiled p env w.state.buffered_packet_table w.state.lanes

  -- Packet `k` is on its way from slot `i` of connection `a`, and `count` bytes of it are out.
  pub record Sending (k a i count : ℕ) (w : World env (Client env.Table)) : Type 0 where
    pub next : w.state.recv_seq ≡ k % 2 ^ 32
    pub out : stream w.state.host_sock w.trace ≡ first_payloads p k ++ take count (p (k % 2 ^ 32))
    pub filed : AllFiled p env w.state.buffered_packet_table w.state.lanes
    pub at_slot : Held p w.state.lanes a i (k % 2 ^ 32)
    pub partial : count + 4 ≤ at_slot.held.size
    pub apart : Apart env w.state.buffered_packet_table a i
    pub absent : env.hash_find w.state.buffered_packet_table (k % 2 ^ 32) ≡ none

  -- Between two packets the table has not got the next one: it would have been sent.
  pub record Idle (k : ℕ) (w : World env (Client env.Table)) : Type 0 where
    pub between : Between k w
    pub quiet : has_out w.state.host_fd_poll ≡ false
    pub absent : env.hash_find w.state.buffered_packet_table (k % 2 ^ 32) ≡ none

  -- The host's socket is full: the packet stands where `send_data_host` will look for it.
  pub record Waiting (k : ℕ) (w : World env (Client env.Table)) : Type 0 where
    pub count : ℕ
    pub sending : Sending k w.state.host_agent_id w.state.agent_packet_index_out count w
    pub marked : sending.at_slot.held.host_sent_size ≡ count
    pub wanted : has_out w.state.host_fd_poll ≡ true

  -- It is full indeed: the last `send` was handed the rest of packet `k`, and came back with EAGAIN.
  pub record Blocked (k : ℕ) (w : World env (Client env.Table)) : Type 0 where
    pub waiting : Waiting k w
    pub kernel : env.Kernel
    pub refused :
        (env.send_call kernel w.state.host_sock (drop waiting.count (p (k % 2 ^ 32)))).0
        ≡ send_failed eagain

  -- The host's socket is lost: the last `send` was handed the rest of a packet from number `k₀` on, and
  -- failed; it is marked CLOSED, and the packets before and a part of that one are out.
  pub record Cut (k₀ : ℕ) (w : World env (Client env.Table)) : Type 0 where
    pub k : ℕ
    pub later : k₀ ≤ k
    pub count : ℕ
    pub out : stream w.state.host_sock w.trace ≡ first_payloads p k ++ take count (p (k % 2 ^ 32))
    pub shut : w.state.host_fd_poll ≡ closed
    pub kernel : env.Kernel
    pub error : Errno
    pub refused :
        (env.send_call kernel w.state.host_sock (drop count (p (k % 2 ^ 32)))).0 ≡ send_failed error

  -- The state after `send_data_host` with packet `k₀`: that packet is out and with it all that follow in
  -- the table, or it or one that follows is refused.
  abbrev pub Delivered : ℕ → Status → World env (Client env.Table) → Type 0
  Delivered k₀ success w = (k : ℕ) × (((k₀ < k) × Idle k w) ⊎ ((k₀ ≤ k) × Blocked k w))
  Delivered k₀ close_status w = Cut k₀ w

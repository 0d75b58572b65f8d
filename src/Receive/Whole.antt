-- ===== src/Receive/Whole.antt =====
-- `read_agent_send_host` (network.c) as a whole: from what comes in on a connection to the packet's
-- place in the stream to the host.
use sosagent.Base.{
  ℕ, ◌+◌, ◌-◌, ◌%◌, ◌^◌, ◌≤◌, ◌<◌, ◌≡◌, ap, sym, subst, ◌∙◌, true, false, append-nil, List, [],
  ◌++◌, none, some, take, drop, length, get_elem?, arith, length-append, length-take, take-take_le,
  drop-take, take_front, drop_front,
}
use sosagent.System.{Action, Env}
use sosagent.System.Laws.{IsPosix, IsTable}
use sosagent.System.Outcome.{and_then, Ensures, returns, Ensures-and_then, Ensures-mono}
use sosagent.System.Calls.{World, incoming}
use sosagent.Client.{Slot, Lane, Client, Status, success, close_status, has_out}
use sosagent.Client.Access.{slot_at}
use sosagent.Wire.{network_bytes, bytes_of, word_of}
use sosagent.Wire.Words.{length-bytes_of, word_of-bytes_of}
use sosagent.Deliver.Order.{Carries, InOrder}
use sosagent.Receive.{ReadEnd, whole, dry, shut, read_payload, payload_ended, packet_arrived}
use sosagent.Receive.Gather.{Upkeep, Still, Filling}
use sosagent.Receive.Tcp.{come_in}
use sosagent.Receive.Dropped.{Unsent}
use sosagent.Receive.Payload.{Read, all_in, some_in, cut_short, read_payload-Read}
use sosagent.Receive.Header.{Heading}
use sosagent.Receive.Resting.{Resting, Resting-moved}
use sosagent.Receive.Arrival.{Settled, packet_arrived-Settled}

-- A slot in whose buffer stand the number and the payload of packet `n`.
pub Carries-come_in :
    (env : Env) (p : ℕ → List ℕ) (n : ℕ) (s : Slot)
    → s.size ≡ 4 + length (p n)
    → s.size < 2 ^ 31
    → s.size ≤ length s.serialized_data
    → s.in_use ≡ true
    → take s.size s.serialized_data ≡ bytes_of env.order n ++ p n
    → Carries p n s
Carries-come_in env p n s sized small room taken e = record {
  size_min = omega (arith, sized);
  size_max = small;
  fits = room;
  payload =
      sym (drop-take 4 s.size s.serialized_data)
      ∙ ap (drop 4) e
      ∙ drop_front 4 (bytes_of env.order n) (p n) (length-bytes_of env.order n);
  used_slot = taken;
}

pub number-come_in :
    (env : Env) (p : ℕ → List ℕ) (n : ℕ) (s : Slot)
    → n < 2 ^ 32
    → 4 ≤ s.size
    → take s.size s.serialized_data ≡ bytes_of env.order n ++ p n
    → word_of env.order (take 4 s.serialized_data) ≡ n
number-come_in env p n s small enough e =
    ap (word_of env.order) (
      sym (take-take_le 4 s.size s.serialized_data enough)
      ∙ ap (take 4) e
      ∙ take_front 4 (bytes_of env.order n) (p n) (length-bytes_of env.order n)
      ∙ sym (append-nil (bytes_of env.order n)))
    ∙ word_of-bytes_of env.order n [] small

module _ {env : Env} (p : ℕ → List ℕ) (J : env.Kernel → List Action → Type 0) (k a i : ℕ)
    (w₀ : World env (Client env.Table)) (h : Resting p k a i w₀) where
  -- What reading does to the connections leaves the order of delivery as it is.
  pub Resting-Still : (w : World env (Client env.Table)) → Still J a i w₀ w → Resting p k a i w
  Resting-Still w st =
      subst (λ c. Resting p k a i (record w { state = c })) (sym st.only_lanes)
        (Resting-moved p k a i w₀ w.kernel w.state.lanes w.trace (st.quiet w₀.state.host_sock)
          st.agree h)

  -- How `read_agent_send_host` may leave a packet of `size` bytes whose length word lies behind
  -- `front`: it is in its place in the stream to the host, or in the table; a part of it or of the
  -- word is in, and the packets so far are in order; or the connection is given up, and they are in
  -- order.
  pub data ReadOn (n fd size : ℕ) (front : List ℕ)
      : Status → World env (Client env.Table) → Type 0 where
    sorted :
        {w : World env (Client env.Table)} → Settled p k a i n w → ReadOn n fd size front success w
    part_read :
        {w : World env (Client env.Table)} (count : ℕ) (s : Slot)
        → Filling J a i fd size (front ++ network_bytes size) w₀ (some i) count w
        → count < size
        → slot_at w.state.lanes a i ≡ some s
        → s.host_sent_size ≡ count
        → Resting p k a i w
        → ReadOn n fd size front success w
    word_part_read :
        {w : World env (Client env.Table)} (s : Slot) (count : ℕ) (l : Lane)
        → Heading J a i fd front w₀ s count w
        → 0 < count
        → count < 4
        → get_elem? w.state.lanes a ≡ some l
        → l.agent_needed_header_size ≡ count
        → s.in_use ≡ true
        → w₀.state.buffer_size ≤ length s.serialized_data
        → Resting p k a i w
        → ReadOn n fd size front success w
    given_up :
        {w : World env (Client env.Table)}
        → Resting p k a i w
        → ReadOn n fd size front close_status w

  -- Where it exits the host has been sent no more than a prefix of the stream.
  pub data Stopped (w : World env (Client env.Table)) : Type 0 where
    in_order : InOrder p w → Stopped w
    unsent : Unsent w₀ w → Stopped w

  module _ (table : IsTable env) (posix : IsPosix env) (n fd size : ℕ) (front rest : List ℕ)
      (pending : env.Kernel → ℕ → List ℕ) (small : n < 2 ^ 32) (sized : size ≡ 4 + length (p n))
      (bounded : size < 2 ^ 31) (new : env.hash_find w₀.state.buffered_packet_table n ≡ none)
      (due : n ≡ k % 2 ^ 32 → has_out w₀.state.host_fd_poll ≡ false)
      (comes : (kernel : env.Kernel) (t : List Action)
        → J kernel t
        → incoming fd t ++ pending kernel fd
          ≡ (front ++ network_bytes size) ++ ((bytes_of env.order n ++ p n) ++ rest)) where
    -- The whole packet has come in.
    packet_arrived-ReadOn :
        (w : World env (Client env.Table))
        → Filling J a i fd size (front ++ network_bytes size) w₀ none size w
        → Ensures (ReadOn n fd size front) Stopped (packet_arrived a i w)
    packet_arrived-ReadOn w f =
        Ensures-mono
          (packet_arrived-Settled p table posix k a i n f.held w (Resting-Still w f.still)
            (record {
              at = f.at_slot;
              carries =
                  Carries-come_in env p n f.held (f.sized ∙ sized) (omega (arith, f.sized, bounded))
                    (omega (arith, f.sized, f.room)) f.taken there;
              new =
                  ap (λ (c : Client env.Table). env.hash_find c.buffered_packet_table n)
                    f.still.only_lanes
                  ∙ new;
              due = λ q.
                  ap (λ (c : Client env.Table). has_out c.host_fd_poll) f.still.only_lanes ∙ due q;
            })
            (number-come_in env p n f.held small (omega (arith, f.sized, sized)) there))
          (λ r w' d. subst (λ st. ReadOn n fd size front st w') (sym d.0) (sorted d.1))
          (λ w' o. in_order o)
      where
        there : take f.held.size f.held.serialized_data ≡ bytes_of env.order n ++ p n
        there =
            ap (λ m. take m f.held.serialized_data) f.sized
            ∙ come_in (front ++ network_bytes size) (bytes_of env.order n ++ p n) rest _ _ _
                (comes w.kernel w.trace f.still.kept) f.input
                (length-take size f.held.serialized_data f.room
                  ∙ sized
                  ∙ sym (
                      length-append (bytes_of env.order n) (p n)
                      ∙ ap (λ m. m + length (p n)) (length-bytes_of env.order n)))

    pub payload_ended-ReadOn :
        Upkeep env J
        → (fuel count : ℕ) (w : World env (Client env.Table))
        → Filling J a i fd size (front ++ network_bytes size) w₀ (some i) count w
        → count < size
        → size - count < fuel
        → Ensures
            (ReadOn n fd size front)
            Stopped
            (and_then (read_payload fuel a i size count w) (λ e. payload_ended e a i))
    unfolding payload_ended
    payload_ended-ReadOn up fuel count w f less enough =
        Ensures-and_then _
          (Ensures-mono
            (read_payload-Read J a i fd size (front ++ network_bytes size) w₀ posix up bounded fuel
              count w f less enough)
            (λ e w' r. r) (λ w' q. unsent q))
          (λ e w' r. go e w' r)
      where
        go :
            (e : ReadEnd) (w' : World env (Client env.Table))
            → Read J a i fd size (front ++ network_bytes size) w₀ e w'
            → Ensures (ReadOn n fd size front) Stopped (payload_ended e a i w')
        go whole w' (all_in g) = packet_arrived-ReadOn w' g
        go dry w' (some_in count s g below at marked) =
            returns (part_read count s g below at marked (Resting-Still w' g.still))
        go shut w' (cut_short l st at marked) = returns (given_up (Resting-Still w' st))

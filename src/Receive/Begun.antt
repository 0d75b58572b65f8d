-- ===== src/Receive/Begun.antt =====
-- `read_agent_send_host` (network.c) from the length word on, and where it begins.
use sosagent.Base.{
  ℕ, suc, ◌+◌, ◌-◌, ◌%◌, ◌^◌, ◌≤◌, ◌<◌, ◌≡◌, inl, inr, refl, ap, sym, subst, ◌∙◌, ◌==◌, ltb,
  Bool-cases, true, false, append-nil, append_assoc, List, ◌++◌, Option, none, some, length, set,
  arith, take_all, get_elem?-set_self,
}
use sosagent.System.{Action, Env}
use sosagent.System.Laws.{IsPosix, IsTable}
use sosagent.System.Outcome.{and_then, Ensures, returns, exits, Ensures-and_then, Ensures-mono}
use sosagent.System.Calls.{World}
use sosagent.Client.{Slot, Lane, Client, has_out}
use sosagent.Client.Access.{slot_at, put_slot}
use sosagent.Client.Slots.{slot_at-put_slot_self, slot_at-set_lane}
use sosagent.Wire.{network_bytes, bytes_of, word_of, ntohl, frame_header, frame}
use sosagent.Wire.Words.{length-network_bytes, ntohl-network_bytes, bytes_of-htonl}
use sosagent.Receive.{ReadEnd, read_payload, payload_ended, header_done, header_ended}
use sosagent.Receive.Gather.{Filling, Still-slot, Still-lane, lane-put_slot}
use sosagent.Receive.Tcp.{IsTcp, Coming, Coming-Upkeep, come_in}
use sosagent.Receive.Dropped.{Unsent}
use sosagent.Receive.Header.{Heading, Headed, word_in, part_in, word_cut}
use sosagent.Receive.Resting.{Resting}
use sosagent.Receive.Whole.{
  ReadOn, word_part_read, given_up, Stopped, unsent, Resting-Still, payload_ended-ReadOn,
}

not_zero : (n : ℕ) → 4 ≤ n → (n == 0) ≡ false
not_zero n h = ground arith

in_room : (n m : ℕ) → ltb m n ≡ false → n ≤ m
in_room n m h = ground arith

-- What comes in on connection `a`: after `front` a length word, packet `n` and more. The packet is
-- new to the table, and finds the host's socket not waited for if it is next.
pub record Next (env : Env) (p : ℕ → List ℕ) (k n size : ℕ) (w : World env (Client env.Table))
    : Type 0 where
  pub small : n < 2 ^ 32
  pub sized : size ≡ 4 + length (p n)
  pub bounded : size < 2 ^ 31
  pub new : env.hash_find w.state.buffered_packet_table n ≡ none
  pub due : n ≡ k % 2 ^ 32 → has_out w.state.host_fd_poll ≡ false

-- What the other agent has sent, on a machine of the same byte order.
abbrev pub frames_from : Env → (ℕ → List ℕ) → ℕ → List ℕ → List ℕ → List ℕ
frames_from env p n front rest = front ++ (frame env.order n (p n) ++ rest)

-- The parts of the frame.
frames_from-parts :
    (env : Env) (p : ℕ → List ℕ) (n size : ℕ) (front rest : List ℕ)
    → size ≡ 4 + length (p n)
    → frames_from env p n front rest
      ≡ front ++ (network_bytes size ++ ((bytes_of env.order n ++ p n) ++ rest))
unfolding frame frame_header
frames_from-parts env p n size front rest sized =
    ap (λ b. front ++ (((b ++ bytes_of env.order n) ++ p n) ++ rest))
      (bytes_of-htonl env.order (length (p n) + 4) ∙ ap network_bytes (omega (arith, sized)))
    ∙ ap (λ b. front ++ (b ++ rest))
        (append_assoc (network_bytes size) (bytes_of env.order n) (p n))
    ∙ ap (λ b. front ++ b) (append_assoc (network_bytes size) (bytes_of env.order n ++ p n) rest)

module _ {env : Env} (p : ℕ → List ℕ) (table : IsTable env) (posix : IsPosix env)
    (pending : env.Kernel → ℕ → List ℕ) (tcp : IsTcp env pending) (k a i n fd size : ℕ)
    (front rest : List ℕ) (w₀ : World env (Client env.Table)) (h : Resting p k a i w₀)
    (next : Next env p k n size w₀) where
  abbrev J : env.Kernel → List Action → Type 0
  J = Coming env pending fd (frames_from env p n front rest)

  -- The rest of a packet, of which `count` bytes are in.
  pub rest_of_payload-ReadOn :
      (fuel count : ℕ) (w : World env (Client env.Table))
      → Filling J a i fd size (front ++ network_bytes size) w₀ (some i) count w
      → count < size
      → size - count < fuel
      → Ensures
          (ReadOn p J k a i w₀ h n fd size front)
          (Stopped p J k a i w₀ h)
          (and_then (read_payload fuel a i size count w) (λ e. payload_ended e a i))
  rest_of_payload-ReadOn =
      payload_ended-ReadOn p J k a i w₀ h table posix n fd size front rest pending next.small
        next.sized next.bounded next.new next.due
        (λ kernel t c.
          c
          ∙ frames_from-parts env p n size front rest next.sized
          ∙ sym (append_assoc front (network_bytes size) _))
        (Coming-Upkeep pending fd _ tcp)

  -- The length word is in: the slot is ready for the packet.
  header_done-Filling :
      (s : Slot) (w : World env (Client env.Table)) (g : Heading J a i fd front w₀ s 4 w)
      → g.conn.agent_needed_header_size ≡ 0
      → s.in_use ≡ true
      → w₀.state.buffer_size ≤ length s.serialized_data
      → Ensures
          (λ r w'.
            (r ≡ size) × Filling J a i fd size (front ++ network_bytes size) w₀ (some i) 0 w')
          (Unsent w₀)
          (header_done a i w)
  unfolding header_done
  header_done-Filling s w g done taken room =
      rw (g.at_lane, told, not_zero size (omega (arith, next.sized)))
        (rw at_s (elim (Bool-cases (ltb w.state.buffer_size size)) [
          | inl q ↦ rw q (exits g.still.quiet)
          | inr q ↦ rw q (returns (refl, filling (in_room _ _ q)))
        ]))
    where
      word : g.conn.header_size ≡ network_bytes size
      word =
          sym (take_all g.conn.header_size 4 (omega (arith, g.word)))
          ∙ come_in front (network_bytes size) ((bytes_of env.order n ++ p n) ++ rest) _ _ _
              (g.still.kept ∙ frames_from-parts env p n size front rest next.sized) g.input
              (ap length (take_all g.conn.header_size 4 (omega (arith, g.word)))
                ∙ g.word
                ∙ sym (length-network_bytes size))

      told : ntohl env.order (word_of env.order g.conn.header_size) ≡ size
      told =
          ap (λ b. ntohl env.order (word_of env.order b)) word
          ∙ ntohl-network_bytes env.order size (omega (arith, next.bounded))

      count : ℕ
      count = (g.conn.agent_packet_queue_count + 1) % 2 ^ 32

      l' : Lane
      l' = record (g.conn) {
        agent_packet_queue_count = count;
        stats = record (g.conn.stats) {
          average_queue_length = (g.conn.stats.average_queue_length + count) % 2 ^ 32;
          recv_packets = (g.conn.stats.recv_packets + 1) % 2 ^ 64;
          recv_bytes = (g.conn.stats.recv_bytes + 4 + size) % 2 ^ 64;
        };
      }

      at_s : slot_at (set w.state.lanes a l') a i ≡ some s
      at_s = slot_at-set_lane w.state.lanes a a i g.conn l' g.at_lane refl ∙ g.at_slot

      s' : Slot
      s' = record s { size = size }

      filling :
          size ≤ w.state.buffer_size
          → Filling J a i fd size (front ++ network_bytes size) w₀ (some i) 0 (record w {
            state = record (w.state) { lanes = put_slot (set w.state.lanes a l') a i s' };
          })
      filling fits = record {
        still = Still-slot J a i w₀ _ s' (Still-lane J a i w₀ w g.conn l' g.at_lane refl g.still);
        conn = record l' { buffered_packet = set l'.buffered_packet i s' };
        at_lane =
            lane-put_slot _ a i l' s' (get_elem?-set_self w.state.lanes a l' g.conn g.at_lane);
        own = g.own;
        filled_index = g.index;
        no_header = done;
        held = s';
        at_slot = slot_at-put_slot_self _ a i s' s at_s;
        sized = refl;
        taken = taken;
        room =
            omega
              (arith, fits, room, ap (λ (c : Client env.Table). c.buffer_size) g.still.only_lanes);
        input =
            g.input
            ∙ ap (λ b. front ++ b) (take_all g.conn.header_size 4 (omega (arith, g.word)) ∙ word)
            ∙ sym (append-nil _);
      }

  -- After the loop for the word.
  pub header_ended-ReadOn :
      (s : Slot) (e : ReadEnd) (w : World env (Client env.Table))
      → s.in_use ≡ true
      → w₀.state.buffer_size ≤ length s.serialized_data
      → Headed J a i fd front w₀ s e w
      → Ensures
          (ReadOn p J k a i w₀ h n fd size front)
          (Stopped p J k a i w₀ h)
          (header_ended e a i w)
  unfolding header_ended
  header_ended-ReadOn s _ w taken room (word_in l g at done) =
      Ensures-and_then _
        (Ensures-mono (header_done-Filling s w g (same_need ∙ done) taken room) (λ r w' f. f)
          (λ w' q. unsent q))
        (λ r w' f.
          subst
            (λ m.
              Ensures (ReadOn p J k a i w₀ h n fd size front) (Stopped p J k a i w₀ h)
                (and_then (read_payload (suc m) a i m 0 w') (λ e. payload_ended e a i)))
            (sym f.0)
            (rest_of_payload-ReadOn (suc size) 0 w' f.1 (omega (arith, next.sized)) (omega arith)))
    where
      need_of : Option Lane → ℕ
      need_of none = 0
      need_of (some m) = m.agent_needed_header_size

      same_need : g.conn.agent_needed_header_size ≡ l.agent_needed_header_size
      same_need = ap need_of (sym g.at_lane ∙ at)
  header_ended-ReadOn s _ w taken room (part_in count l g more less at marked) = returns (
      word_part_read s count l g more less at marked taken room
        (Resting-Still p J k a i w₀ h w g.still))
  header_ended-ReadOn s _ w taken room (word_cut st) =
      returns (given_up (Resting-Still p J k a i w₀ h w st))

-- ===== src/Receive/Payload.antt =====
-- The loop of `read_agent_send_host` (network.c) that reads a packet into its slot.
use sosagent.Base.{
  ℕ, zero, suc, ◌+◌, ◌-◌, ◌%◌, ◌^◌, ◌≤◌, ◌<◌, ◌≡◌, refl, ap, sym, subst, ◌∙◌, ◌==◌, ==_iff, inl,
  inr, Bool-cases, false, List, [], ◌∷◌, ◌++◌, Option, none, some, get_elem?, take, length, set,
  arith, append_assoc, append-nil, get_elem?-set_self,
}
use sosagent.System.{eagain, Received, got, recv_failed, Action, Env}
use sosagent.System.Laws.{IsPosix}
use sosagent.System.Outcome.{M, Ensures, returns, exits}
use sosagent.System.Calls.{World, incoming, recv_log, stream-recv_log}
use sosagent.System.Rules.{after_recv_exactly}
use sosagent.Client.{closed, Slot, Lane, Client}
use sosagent.Client.Access.{slot_at, put_slot}
use sosagent.Client.Slots.{slot_at-put_slot_self, slot_at-set_lane}
use sosagent.Send.Layout.{splice, overwrite-eq, length-splice}
use sosagent.Receive.{ReadEnd, whole, dry, shut, payload_answered, read_payload}
use sosagent.Receive.Dropped.{Unsent, drop_agent_at-Still}
use sosagent.Receive.Gather.{
  bytes_in, take-splice, incoming-recv_log, lane-put_slot, Upkeep, Still, Filling, Still-slot,
  Still-lane,
}

pub not_yet :
    (count n : ℕ) {size : ℕ}
    → (count + n == size) ≡ false
    → n ≤ size - count
    → count < size
    → count + n < size
not_yet count n q most less = ground arith

bytes_bound :
    {env : Env} (posix : IsPosix env) (k : env.Kernel) (fd len : ℕ) (r : Received)
    → (env.recv_call k fd len).0 ≡ r
    → length (bytes_in r) ≤ len
bytes_bound posix k fd len (got bs) e = posix.recv_bound k fd len bs e
bytes_bound posix k fd len (recv_failed x) e = omega arith

pub recv_bytes_bound :
    {env : Env} (posix : IsPosix env) (k : env.Kernel) (fd len : ℕ)
    → length (bytes_in (env.recv_call k fd len).0) ≤ len
recv_bytes_bound posix k fd len = bytes_bound posix k fd len _ refl

module _ {env : Env} (J : env.Kernel → List Action → Type 0) (a i fd size : ℕ) (before : List ℕ)
    (w₀ : World env (Client env.Table)) where
  -- How the loop is left: the packet is whole, its bytes are out of the way and no slot is being
  -- filled; it goes on later behind what has come in; or the connection is at its end.
  pub data Read : ReadEnd → World env (Client env.Table) → Type 0 where
    all_in :
        {w : World env (Client env.Table)}
        → Filling J a i fd size before w₀ none size w
        → Read whole w
    some_in :
        {w : World env (Client env.Table)} (count : ℕ) (s : Slot)
        → Filling J a i fd size before w₀ (some i) count w
        → count < size
        → slot_at w.state.lanes a i ≡ some s
        → s.host_sent_size ≡ count
        → Read dry w
    cut_short :
        {w : World env (Client env.Table)} (l : Lane)
        → Still J a i w₀ w
        → get_elem? w.state.lanes a ≡ some l
        → l.agent_fd_poll ≡ closed
        → Read shut w

  -- A write to the slot that keeps its size and the bytes that are in.
  pub Filling-slot :
      (before' : List ℕ) (x : Option ℕ) (n count : ℕ) (w : World env (Client env.Table)) (s' : Slot)
      → (f : Filling J a i fd size before' w₀ x n w) → s'.size ≡ f.held.size
      → s'.in_use ≡ f.held.in_use
      → length s'.serialized_data ≡ length f.held.serialized_data
      → incoming fd w.trace ≡ before ++ take count s'.serialized_data
      → Filling J a i fd size before w₀ x count
          (record w { state = record (w.state) { lanes = put_slot w.state.lanes a i s' } })
  Filling-slot before' x n count w s' f same_size same_use same_length e = record {
    still = Still-slot J a i w₀ w s' f.still;
    conn = _;
    at_lane = lane-put_slot w.state.lanes a i f.conn s' f.at_lane;
    own = f.own;
    filled_index = f.filled_index;
    no_header = f.no_header;
    held = s';
    at_slot = slot_at-put_slot_self w.state.lanes a i s' f.held f.at_slot;
    sized = same_size ∙ f.sized;
    taken = same_use ∙ f.taken;
    room = omega (arith, f.room, same_length);
    input = e;
  }

  -- A write to the connection that keeps its socket and its slots.
  pub Filling-lane :
      (before' : List ℕ) (x : Option ℕ) (count : ℕ) (w : World env (Client env.Table)) (l' : Lane)
      → (f : Filling J a i fd size before' w₀ x count w) → l'.agent_sock ≡ f.conn.agent_sock
      → l'.buffered_packet ≡ f.conn.buffered_packet
      → l'.agent_needed_header_size ≡ f.conn.agent_needed_header_size
      → Filling J a i fd size before' w₀ l'.agent_packet_index_in count
          (record w { state = record (w.state) { lanes = set w.state.lanes a l' } })
  Filling-lane before' x count w l' f same_sock same_slots same_need = record {
    still = Still-lane J a i w₀ w f.conn l' f.at_lane same_slots f.still;
    conn = l';
    at_lane = get_elem?-set_self w.state.lanes a l' f.conn f.at_lane;
    own = same_sock ∙ f.own;
    filled_index = refl;
    no_header = same_need ∙ f.no_header;
    held = f.held;
    at_slot = slot_at-set_lane w.state.lanes a a i f.conn l' f.at_lane same_slots ∙ f.at_slot;
    sized = f.sized;
    taken = f.taken;
    room = f.room;
    input = f.input;
  }

  -- One answer of `recv`, with what came in already recorded.
  payload_answered-Read :
      (up : Upkeep env J) (r : Received) (count : ℕ) (w : World env (Client env.Table))
      (again : ℕ → M (World env (Client env.Table)) ReadEnd)
      → (f : Filling J a i fd size (incoming fd w.trace) w₀ (some i) 0 w)
      → incoming fd w.trace ≡ before ++ (take count f.held.serialized_data ++ bytes_in r)
      → count < size
      → length (bytes_in r) ≤ size - count
      → ((n : ℕ) (w' : World env (Client env.Table))
          → Filling J a i fd size before w₀ (some i) n w'
          → count < n
          → n < size
          → Ensures Read (Unsent w₀) (again n w'))
      → Ensures Read (Unsent w₀) (payload_answered r a i size count again w)
  unfolding payload_answered
  payload_answered-Read up (recv_failed eagain) count w again f e less most next =
      rw (f.at_lane, g.at_slot)
        (returns (
          some_in count (record (f.held) { host_sent_size = count })
            (Filling-slot _ (some i) 0 count _ (record (f.held) { host_sent_size = count }) g refl
              refl refl (e ∙ ap (λ b. before ++ b) (append-nil _)))
            less (slot_at-put_slot_self _ a i _ g.held g.at_slot) refl))
    where
      l' : Lane
      l' = record (f.conn) {
        stats = record (f.conn.stats) { blocked_recv = (f.conn.stats.blocked_recv + 1) % 2 ^ 64 };
      }

      g :
          Filling J a i fd size
            (incoming fd w.trace)
            w₀
            (some i)
            0
            (record w { state = record (w.state) { lanes = set w.state.lanes a l' } })
      g = record {
        still = Still-lane J a i w₀ w f.conn l' f.at_lane refl f.still;
        conn = l';
        at_lane = get_elem?-set_self w.state.lanes a l' f.conn f.at_lane;
        own = f.own;
        filled_index = f.filled_index;
        no_header = f.no_header;
        held = f.held;
        at_slot = slot_at-set_lane w.state.lanes a a i f.conn l' f.at_lane refl ∙ f.at_slot;
        sized = f.sized;
        taken = f.taken;
        room = f.room;
        input = f.input;
      }
  payload_answered-Read up (recv_failed x) count w again f e less most next = exits f.still.quiet
  payload_answered-Read up (got []) count w again f e less most next = rw f.at_lane (
      drop_agent_at-Still J a i w₀ up f.conn.agent_fd_poll w f.conn _ f.at_lane f.still
        (λ w' l at marked same h. returns (cut_short l h at marked)))
  payload_answered-Read up (got (b ∷ bs)) count w again f e less most next =
      rw (f.at_slot, overwrite-eq f.held.serialized_data count (b ∷ bs) fits)
        (elim (Bool-cases (count + length (b ∷ bs) == size)) [
          | inl q ↦
              let g =
                filled size (ap (λ n. before ++ take n s'.serialized_data) ((==_iff _ size).0 q)) in
              rw (q, g.at_lane)
                (returns (
                  all_in (
                    Filling-lane before (some i) size _
                      (record (g.conn) { agent_packet_index_in = none }) g refl refl refl)))
          | inr q ↦ rw q (
              next (count + length (b ∷ bs)) _ (filled (count + length (b ∷ bs)) refl) (omega arith)
                (not_yet count (length (b ∷ bs)) q most less))
        ])
    where
      fits : count + length (b ∷ bs) ≤ length f.held.serialized_data
      fits = omega (arith, f.room)

      s' : Slot
      s' = record (f.held) { serialized_data = splice f.held.serialized_data count (b ∷ bs) }

      filled :
          (n : ℕ)
          → before ++ take (count + length (b ∷ bs)) s'.serialized_data
            ≡ before ++ take n s'.serialized_data
          → Filling J a i fd size before w₀
              (some i)
              n
              (record w { state = record (w.state) { lanes = put_slot w.state.lanes a i s' } })
      filled n same =
          Filling-slot _ (some i) 0 n w s' f refl refl
            (length-splice f.held.serialized_data count (b ∷ bs) fits)
            (e
              ∙ ap (λ x. before ++ x) (sym (take-splice f.held.serialized_data count (b ∷ bs) fits))
              ∙ same)

  -- One round of the loop asks for the rest of the packet.
  heard :
      (up : Upkeep env J) (count len : ℕ) (w : World env (Client env.Table))
      → (f : Filling J a i fd size before w₀ (some i) count w)
      → (g : Filling J a i fd size
          (incoming fd
            (recv_log f.conn.agent_sock (env.recv_call w.kernel f.conn.agent_sock len).0 w.trace))
          w₀
          (some i)
          0
          (record w {
            kernel = (env.recv_call w.kernel f.conn.agent_sock len).1;
            trace =
                recv_log f.conn.agent_sock (env.recv_call w.kernel f.conn.agent_sock len).0 w.trace;
          }))
        × (incoming fd
              (recv_log f.conn.agent_sock (env.recv_call w.kernel f.conn.agent_sock len).0 w.trace)
            ≡ before
              ++ (take count g.held.serialized_data
                  ++ bytes_in (env.recv_call w.kernel f.conn.agent_sock len).0))
  heard up count len w f = (
    record {
      still = record {
        only_lanes = f.still.only_lanes;
        quiet = λ x. stream-recv_log x f.conn.agent_sock _ w.trace ∙ f.still.quiet x;
        agree = f.still.agree;
        others = f.still.others;
        kept = up.on_recv w.kernel w.trace f.conn.agent_sock len f.still.kept;
      };
      conn = f.conn;
      at_lane = f.at_lane;
      own = f.own;
      filled_index = f.filled_index;
      no_header = f.no_header;
      held = f.held;
      at_slot = f.at_slot;
      sized = f.sized;
      taken = f.taken;
      room = f.room;
      input = sym (append-nil _);
    },
    subst (λ x. incoming fd (recv_log x r w.trace) ≡ incoming fd w.trace ++ bytes_in r) (sym f.own)
          (incoming-recv_log fd r w.trace)
        ∙ ap (λ b. b ++ bytes_in r) f.input
        ∙ append_assoc before (take count f.held.serialized_data) (bytes_in r),
  )
    where
      r : Received
      r = (env.recv_call w.kernel f.conn.agent_sock len).0

  -- Where `count` bytes of a packet are in its slot, the loop returns or exits. It returns with the
  -- whole packet in the slot, with a part of it and the count to go on with, or, at the end of the
  -- stream, with connection `a` marked CLOSED; in each case nothing was sent, and of the client's state
  -- the other connections, the other slots of `a` and all fields outside the connections are as they
  -- were. Where it exits nothing was sent.
  pub read_payload-Read :
      IsPosix env
      → Upkeep env J
      → size < 2 ^ 31
      → (fuel count : ℕ) (w : World env (Client env.Table))
      → Filling J a i fd size before w₀ (some i) count w
      → count < size
      → size - count < fuel
      → Ensures Read (Unsent w₀) (read_payload fuel a i size count w)
  unfolding read_payload
  read_payload-Read posix up small zero count w f less enough = absurd (omega arith)
  read_payload-Read posix up small (suc fuel) count w f less enough =
      let next = heard up count ((size + 2 ^ 32 - count) % 2 ^ 32) w f in
      rw f.at_lane (
        after_recv_exactly f.conn.agent_sock ((size + 2 ^ 32 - count) % 2 ^ 32) w _ (
          payload_answered-Read up _ count _ _ next.0 next.1 less
            (omega (
              arith,
              recv_bytes_bound posix w.kernel f.conn.agent_sock ((size + 2 ^ 32 - count) % 2 ^ 32),
            ))
            (λ n w' g more b. read_payload-Read posix up small fuel n w' g b (omega arith))))

-- ===== src/Deliver/Packet.antt =====
-- The inner loop of `send_data_host` (network.c): `send` until the packet is gone, the host's socket
-- is full, or it is lost.
use sosagent.Base.{
  ap, ℕ, zero, suc, ◌+◌, ◌-◌, ◌%◌, ◌^◌, ◌≤◌, ◌<◌, ◌≡◌, refl, sym, ◌∙◌, ◌≢◌, ◌==◌, ==_iff, true,
  false, Bool-cases, List, ◌∷◌, some, take, drop, length, arith, inl, inr, append_assoc,
  take-take_add, length-drop, length-take,
}
use sosagent.System.{
  Errno, eagain, eshutdown, econnreset, epipe, sent, Sent, took, send_failed, Env,
}
use sosagent.System.Laws.{IsPosix}
use sosagent.System.Outcome.{Ensures, exits, Ensures-mono}
use sosagent.System.Calls.{World, stream, send_log}
use sosagent.System.Rules.{after_send}
use sosagent.Client.{has_out, Slot, Client}
use sosagent.Client.Access.{as_size_t, slice}
use sosagent.Client.Slots.{used}
use sosagent.Deliver.{
  host_lost, SendEnd, gone, full, lost, left_over, send_refused, send_packet, send_answered,
}
use sosagent.Deliver.Order.{InOrder, Between, Sending, Blocked, Cut, payload_rest}
use sosagent.Deliver.Steps.{host_full-Ensures, host_lost-Ensures, packet_gone-Ensures}

left_over-eq :
    (size count : ℕ) → size < 2 ^ 31 → count + 4 ≤ size → left_over size count ≡ size - 4 - count
left_over-eq size count h b = ground arith

last-eq : (size : ℕ) → size < 2 ^ 31 → 4 ≤ size → (as_size_t size + 2 ^ 64 - 4) % 2 ^ 64 ≡ size - 4
last-eq size h b = ground arith

-- A round that takes part of what is left comes closer to the end.
closer :
    (size count n fuel len : ℕ)
    → count + 4 ≤ size
    → len ≡ size - 4 - count
    → (0 < len → 0 < n)
    → count + n ≢ size - 4
    → n ≤ len
    → size - 4 - count < suc fuel
    → size - 4 - (count + n) < fuel
closer size count n fuel len part e pos ne b m = grind arith

pub slice-eq :
    (bytes : List ℕ) (off len : ℕ)
    → off + len ≤ length bytes
    → slice bytes off len ≡ some (take len (drop off bytes))
slice-eq bytes off len h = ground arith

module _ {env : Env} (p : ℕ → List ℕ) where
  -- How the inner loop ends, by its three ways; `u` slots were in use before it.
  pub data SentOff (k u : ℕ) : SendEnd → World env (Client env.Table) → Type 0 where
    all_out :
        {w : World env (Client env.Table)}
        → Between p (suc k) w
        → has_out w.state.host_fd_poll ≡ false
        → used w.state.lanes + 1 ≡ u
        → SentOff k u gone w
    on_hold : {w : World env (Client env.Table)} → Blocked p k w → SentOff k u full w
    cut_off : {w : World env (Client env.Table)} → Cut p k w → SentOff k u lost w

  -- A call that moves no byte keeps the packet where it is.
  Sending-kernel :
      (k a i count : ℕ) (w : World env (Client env.Table)) (kernel : env.Kernel)
      → Sending p k a i count w
      → Sending p k a i count (record w { kernel = kernel })
  Sending-kernel k a i count w kernel h = record {
    next = h.next;
    out = h.out;
    filed = h.filed;
    at_slot = h.at_slot;
    partial = h.partial;
    apart = h.apart;
    absent = h.absent;
  }

  module _ (k a i count : ℕ) (w : World env (Client env.Table)) (h : Sending p k a i count w) where
    abbrev packet : Slot
    packet = h.at_slot.held

    -- What `send` is handed: the rest of the payload.
    abbrev rest : List ℕ
    rest = take (packet.size - 4 - count) (drop (4 + count) packet.serialized_data)

    length-rest : length rest ≡ packet.size - 4 - count
    length-rest = length-take _ _ (
        omega (
          arith,
          length-drop (4 + count) packet.serialized_data,
          h.at_slot.carries.fits,
          h.partial,
        ))

    -- A `send` that takes `n` bytes moves the packet on by `n`.
    Sending-sent :
        (n : ℕ) (kernel : env.Kernel)
        → n ≤ length rest
        → Sending p k a i
            (count + n)
            (record w { kernel = kernel; trace = sent w.state.host_sock (take n rest) ∷ w.trace })
    unfolding stream
    Sending-sent n kernel b = record {
      next = h.next;
      out = rw (
        (==_iff w.state.host_sock w.state.host_sock).1 refl,
        h.out,
        payload_rest p (k % 2 ^ 32) count packet h.at_slot.carries h.partial,
        append_assoc,
        take-take_add,
      );
      filed = h.filed;
      at_slot = h.at_slot;
      partial = omega (arith, length-rest, b, h.partial);
      apart = h.apart;
      absent = h.absent;
    }

  -- The socket is lost.
  host_lost-SentOff :
      (x : Errno) (k a i count u : ℕ) (w : World env (Client env.Table)) (kernel : env.Kernel)
      → Sending p k a i count w
      → (env.send_call kernel w.state.host_sock (drop count (p (k % 2 ^ 32)))).0 ≡ send_failed x
      → Ensures (SentOff k u) (InOrder p) (host_lost w)
  host_lost-SentOff x k a i count u w kernel h refused =
      Ensures-mono (host_lost-Ensures p w (k, count, h.out))
        (λ e s q. rw q.0 (
          cut_off (record {
            k = k;
            later = omega arith;
            count = count;
            out = q.1 ∙ h.out;
            shut = q.3;
            kernel = kernel;
            error = x;
            refused =
                ap (λ fd. (env.send_call kernel fd (drop count (p (k % 2 ^ 32)))).0) q.2 ∙ refused;
          })))
        (λ s q. q)

  send_refused-Ensures :
      (e : Errno) (k a i count u : ℕ) (w : World env (Client env.Table)) (kernel : env.Kernel)
      → has_out w.state.host_fd_poll ≡ false
      → Sending p k a i count w
      → (env.send_call kernel w.state.host_sock (drop count (p (k % 2 ^ 32)))).0 ≡ send_failed e
      → Ensures (SentOff k u) (InOrder p) (send_refused e a i count w)
  unfolding send_refused
  send_refused-Ensures eagain k a i count u w kernel quiet h refused =
      Ensures-mono (host_full-Ensures p k a i count w quiet h)
        (λ e s q. rw q.0 (
          on_hold (record {
            waiting = q.1;
            kernel = kernel;
            refused =
                ap (λ m. (env.send_call kernel s.state.host_sock (drop m (p (k % 2 ^ 32)))).0) q.2
                ∙ ap (λ fd. (env.send_call kernel fd (drop count (p (k % 2 ^ 32)))).0) q.3
                ∙ refused;
          })))
        (λ s q. q)
  send_refused-Ensures eshutdown k a i count u w kernel quiet h refused =
      host_lost-SentOff eshutdown k a i count u w kernel h refused
  send_refused-Ensures econnreset k a i count u w kernel quiet h refused =
      host_lost-SentOff econnreset k a i count u w kernel h refused
  send_refused-Ensures epipe k a i count u w kernel quiet h refused =
      host_lost-SentOff epipe k a i count u w kernel h refused
  send_refused-Ensures e k a i count u w kernel quiet h refused = exits (k, count, h.out)

  -- The next round, where a `send` has not taken all that is left.
  abbrev GoesOn : (fuel k a i count : ℕ) (w : World env (Client env.Table)) → Type 0
  GoesOn fuel k a i count w =
      (h : Sending p k a i count w)
      → h.at_slot.held.size - 4 - count < fuel
      → Ensures (SentOff k (used w.state.lanes)) (InOrder p) (send_packet fuel a i count w)

  answered :
      IsPosix env
      → (fuel k a i count : ℕ) (w : World env (Client env.Table))
      → has_out w.state.host_fd_poll ≡ false
      → (h : Sending p k a i count w) → h.at_slot.held.size - 4 - count < suc fuel
      → (r : Sent) (kernel : env.Kernel)
      → (env.send_call w.kernel w.state.host_sock (rest k a i count w h)).0 ≡ r
      → ((n : ℕ) (w' : World env (Client env.Table))
          → w'.state ≡ w.state
          → GoesOn fuel k a i (count + n) w')
      → Ensures (SentOff k (used w.state.lanes)) (InOrder p) (
          send_answered r h.at_slot.held.size a i count (send_packet fuel a i) (record w {
            kernel = kernel;
            trace = send_log w.state.host_sock (rest k a i count w h) r w.trace;
          }))
  unfolding send_answered Sending-sent
  answered posix fuel k a i count w quiet h m (send_failed e) kernel eq again =
      send_refused-Ensures e k a i count _ _ w.kernel quiet (Sending-kernel k a i count w kernel h)
        (ap (λ b. (env.send_call w.kernel w.state.host_sock b).0)
            (sym (payload_rest p (k % 2 ^ 32) count h.at_slot.held h.at_slot.carries h.partial))
          ∙ eq)
  answered posix fuel k a i count w quiet h m (took n) kernel eq again =
      elim (Bool-cases (count + n == (as_size_t s.size + 2 ^ 64 - 4) % 2 ^ 64)) [
        | inl e ↦ rw e (
            Ensures-mono
              (packet_gone-Ensures p k a i (count + n) _ quiet moved
                (omega (arith, same e, h.at_slot.carries.size_min)))
              (λ e s q. rw q.0 (all_out q.1 q.2 q.3)) (λ s q. q))
        | inr e ↦ rw e (
            again n _ refl moved
              (closer s.size count n fuel _ h.partial left some_taken (differs e) bound m))
      ]
    where
      s : Slot
      s = h.at_slot.held

      bound : n ≤ length (rest k a i count w h)
      bound = posix.send_bound w.kernel w.state.host_sock (rest k a i count w h) n eq

      left : length (rest k a i count w h) ≡ s.size - 4 - count
      left = length-rest k a i count w h

      some_taken : 0 < length (rest k a i count w h) → 0 < n
      some_taken = posix.send_progress w.kernel w.state.host_sock (rest k a i count w h) n eq

      moved : Sending p k a i (count + n) (record w {
        kernel = kernel;
        trace = sent w.state.host_sock (take n (rest k a i count w h)) ∷ w.trace;
      })
      moved = Sending-sent k a i count w h n kernel bound

      last : (as_size_t s.size + 2 ^ 64 - 4) % 2 ^ 64 ≡ s.size - 4
      last = last-eq s.size h.at_slot.carries.size_max h.at_slot.carries.size_min

      end : ℕ
      end = (as_size_t s.size + 2 ^ 64 - 4) % 2 ^ 64

      same : (count + n == end) ≡ true → count + n ≡ s.size - 4
      same e = (==_iff (count + n) end).0 e ∙ last

      differs : (count + n == end) ≡ false → count + n ≢ s.size - 4
      differs e q = cc ((==_iff (count + n) end).1 (q ∙ sym last))

  -- The loop ends with more fuel than bytes, and every `send` keeps the order.
  pub send_packet-Ensures :
      IsPosix env
      → (fuel k a i count : ℕ) (w : World env (Client env.Table))
      → has_out w.state.host_fd_poll ≡ false
      → GoesOn fuel k a i count w
  unfolding send_packet
  send_packet-Ensures posix zero k a i count w quiet h m = absurd (omega arith)
  send_packet-Ensures posix (suc fuel) k a i count w quiet h m =
      rw
        (
          h.at_slot.at,
          left_over-eq s.size count h.at_slot.carries.size_max h.partial,
          slice-eq s.serialized_data (4 + count) (s.size - 4 - count)
              (omega (arith, h.at_slot.carries.fits)),
        )
        (after_send w.state.host_sock (rest k a i count w h) w _ (λ r kernel e.
          answered posix fuel k a i count w quiet h m r kernel e
            (λ n w' same. send_packet-Ensures posix fuel k a i (count + n) w' (rw same quiet))))
    where
      s : Slot
      s = h.at_slot.held

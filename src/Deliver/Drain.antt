-- ===== src/Deliver/Drain.antt =====
-- The outer loop of `send_data_host` (network.c), and the function as a whole.
use sosagent.Base.{
  ◌≤◌, ℕ, zero, suc, ◌%◌, ◌^◌, ◌<◌, ◌≡◌, refl, ap, sym, ◌∙◌, ◌≢◌, inl, inr, true, false, Option,
  none, some, arith, List, ◌∷◌, append-nil,
}
use native.Mathlib.Decide.{ℕ_discrete}
use sosagent.System.{Env, client_event_pool, Ctl, modify, delete, control}
use sosagent.System.Laws.{IsPosix, IsTable}
use sosagent.System.Outcome.{M, Ensures, returns, Ensures-and_then, and_then}
use sosagent.System.Calls.{World, stream}
use sosagent.System.Rules.{after_epoll_ctl_in_chain}
use sosagent.Client.{Poll, off, in_only, out_only, in_and_out, has_out, Slot, Client}
use sosagent.Client.Slots.{used, slot_count, used-le-slot_count}
use sosagent.Deliver.{
  SendEnd, readable, send_found, packet_ended, deliver, unwatch_host, send_data_host,
}
use sosagent.Deliver.Order.{Filed, InOrder, Between, Sending, Waiting, Delivered}
use sosagent.Deliver.Packet.{SentOff, all_out, on_hold, cut_off, send_packet-Ensures}

-- What is left in the table after `HASH_DEL` was there before, under another number.
pub found_after_del :
    {env : Env} (table : IsTable env) (t : env.Table) (m n : ℕ) (v : ℕ × ℕ)
    → env.hash_find (env.hash_del t m) n ≡ some v
    → (env.hash_find t n ≡ some v) × (m ≢ n)
found_after_del table t m n v e = elim (ℕ_discrete m n) [
  | yes q ↦ cc (table.find-del_self t m)
  | no q ↦ (sym (table.find-del_ne t m n q) ∙ e, q)
]

module _ {env : Env} (p : ℕ → List ℕ) (table : IsTable env) where
  same_slot : {o : Option Slot} {s t : Slot} → o ≡ some s → o ≡ some t → s ≡ t
  same_slot e f = cc

  -- Taking the next packet out of the table makes it the one to send.
  take_next :
      (k : ℕ) (w : World env (Client env.Table)) (b j : ℕ)
      → Between p k w
      → env.hash_find w.state.buffered_packet_table (k % 2 ^ 32) ≡ some (b, j)
      → Sending p k b j 0 (record w {
        state = record (w.state) {
          buffered_packet_table = env.hash_del w.state.buffered_packet_table (k % 2 ^ 32);
        };
      })
  take_next k w b j h e = record {
    next = h.next;
    out = h.out ∙ sym (append-nil _);
    filed = λ n a i e'. h.filed n a i (found_after_del table t (k % 2 ^ 32) n (a, i) e').0;
    at_slot = record { held = f.held; at = f.at; carries = f.carries };
    partial = f.carries.size_min;
    apart = λ n e'. twice n (found_after_del table t (k % 2 ^ 32) n (b, j) e');
    absent = table.find-del_self t (k % 2 ^ 32);
  }
    where
      t : env.Table
      t = w.state.buffered_packet_table

      f : Filed p w.state.lanes b j (k % 2 ^ 32)
      f = h.filed (k % 2 ^ 32) b j e

      twice : (n : ℕ) → (env.hash_find t n ≡ some (b, j)) × (k % 2 ^ 32 ≢ n) → ⊥
      twice n (e', q) = q (
          sym f.own_id
          ∙ ap (λ (s : Slot). s.id) (same_slot f.at (h.filed n b j e').at)
          ∙ (h.filed n b j e').own_id)

  -- The next round of the loop, from any packet.
  abbrev GoesOn : ℕ → Type 0
  GoesOn fuel =
      (k₀ k a i count : ℕ) (w : World env (Client env.Table))
      → k₀ ≤ k
      → has_out w.state.host_fd_poll ≡ false
      → Sending p k a i count w
      → used w.state.lanes < fuel
      → Ensures (Delivered p k₀) (InOrder p) (deliver fuel a i count w)

  send_found-Ensures :
      (fuel k₀ k : ℕ) (w : World env (Client env.Table)) (o : Option (ℕ × ℕ))
      → GoesOn fuel
      → k₀ < k
      → has_out w.state.host_fd_poll ≡ false
      → Between p k w
      → used w.state.lanes < fuel
      → env.hash_find w.state.buffered_packet_table (k % 2 ^ 32) ≡ o
      → Ensures (Delivered p k₀) (InOrder p) (send_found o (deliver fuel) w)
  unfolding send_found
  send_found-Ensures fuel k₀ k w none again later quiet h m e =
      returns (k, inl (later, record { between = h; quiet = quiet; absent = e }))
  send_found-Ensures fuel k₀ k w (some (b, j)) again later quiet h m e =
      rw (f.at, f.own_id, f.own_lane, f.own_place)
        (again k₀ k b j 0 _ (omega (arith, later)) quiet (take_next k w b j h e) m)
    where
      f : Filed p w.state.lanes b j (k % 2 ^ 32)
      f = h.filed (k % 2 ^ 32) b j e

  packet_ended-Ensures :
      (fuel k₀ k u : ℕ) (e : SendEnd) (w : World env (Client env.Table))
      → GoesOn fuel
      → k₀ ≤ k
      → u < suc fuel
      → SentOff p k u e w
      → Ensures (Delivered p k₀) (InOrder p) (packet_ended e (deliver fuel) w)
  unfolding packet_ended
  packet_ended-Ensures fuel k₀ k u e w again later m (on_hold h) = returns (k, inr (later, h))
  packet_ended-Ensures fuel k₀ k u e w again later m (cut_off h) = returns (record {
    k = h.k;
    later = omega (arith, later, h.later);
    count = h.count;
    out = h.out;
    shut = h.shut;
    kernel = h.kernel;
    error = h.error;
    refused = h.refused;
  })
  packet_ended-Ensures fuel k₀ k u e w again later m (all_out h quiet fewer) =
      send_found-Ensures fuel k₀ (suc k) w _ again (omega (arith, later)) quiet h (omega arith)
        (ap (env.hash_find w.state.buffered_packet_table) (sym h.next))

  -- Every packet that is next goes out; the loop ends, since each round frees a slot.
  pub deliver-Ensures : IsPosix env → (fuel : ℕ) → GoesOn fuel
  unfolding deliver
  deliver-Ensures posix zero k₀ k a i count w later quiet h m = absurd (omega arith)
  deliver-Ensures posix (suc fuel) k₀ k a i count w later quiet h m = rw h.at_slot.at (
      Ensures-and_then _
        (send_packet-Ensures p posix (suc h.at_slot.held.size) k a i count w quiet h (omega arith))
        (λ e w' q. packet_ended-Ensures fuel k₀ k _ e w' (deliver-Ensures posix fuel) later m q))

module _ {env : Env} {B : Type 0} {P : B → World env (Client env.Table) → Type 0}
    {E : World env (Client env.Table) → Type 0} where
  -- Once called for, the host's socket is no longer waited for.
  after_unwatch_host :
      (q : Poll) (w : World env (Client env.Table))
      (f : Unit {0} → M (World env (Client env.Table)) B)
      → has_out q ≡ true
      → ((k : env.Kernel) (c : Ctl) (q' : Poll)
          → has_out q' ≡ false
          → Ensures P E (
              f tt (record w {
                kernel = k;
                state = record (w.state) { host_fd_poll = q' };
                trace = control client_event_pool c w.state.host_sock ∷ w.trace;
              })))
      → ((k : env.Kernel) (c : Ctl)
          → E (record w {
            kernel = k;
            trace = control client_event_pool c w.state.host_sock ∷ w.trace;
          }))
      → Ensures P E (and_then (unwatch_host q w) f)
  unfolding unwatch_host
  after_unwatch_host in_and_out w f h ok failed =
      after_epoll_ctl_in_chain client_event_pool (modify readable) w.state.host_sock w _ f
        (λ k. ok k _ in_only refl) (λ k. failed k _)
  after_unwatch_host out_only w f h ok failed =
      after_epoll_ctl_in_chain client_event_pool delete w.state.host_sock w _ f
        (λ k. ok k _ off refl) (λ k. failed k _)
  after_unwatch_host q w f h ok failed = cc

module _ {env : Env} (p : ℕ → List ℕ) (table : IsTable env) (posix : IsPosix env) where
  -- Over a machine and a table that keep to their laws: where `k` packets are out, packet `k` stands
  -- whole in a slot outside the table, every entry of the table is a whole packet in its slot, and
  -- the host's socket is not waited for, `send_data_host` returns or exits. On a return with
  -- EXIT_SUCCESS, either some `k' > k` packets are out whole and in order, so packet `k` among them, and
  -- the next one is not in the table; or some `k' >= k` are, and of the next one the part that `send`
  -- took before it refused the rest with EAGAIN, and it is marked to be resumed there. On a return with
  -- CLOSE, `send` has failed on the rest of a packet `k' >= k`, the stream up to there is out and the
  -- host is marked CLOSED; on an exit, a prefix of the stream is out.
  pub send_data_host-new :
      (k a : ℕ) (w : World env (Client env.Table))
      → has_out w.state.host_fd_poll ≡ false
      → Sending p k a w.state.agent_packet_index_out 0 w
      → Ensures (Delivered p k) (InOrder p) (send_data_host false a w)
  unfolding send_data_host
  send_data_host-new k a w quiet h =
      deliver-Ensures p table posix (suc (slot_count w.state.lanes)) k k a _ 0 w (omega arith) quiet
        h (omega (arith, used-le-slot_count w.state.lanes))

  -- The same where packets 0 to `k - 1` and some first bytes of packet `k` are out, it was marked to be
  -- resumed there, and the host's socket is waited for: called for that socket, `send_data_host` returns
  -- or exits. On a return with EXIT_SUCCESS, some `k' > k` packets are out whole and in order, so packet
  -- `k` among them, and the next one is not in the table; or some `k' >= k` are, and of the next one
  -- the part that `send` took before it refused the rest with EAGAIN, and it is marked to be resumed
  -- there. On a return with CLOSE, `send` has failed on the rest of a packet `k' >= k`, the stream up
  -- to there is out and the host is marked CLOSED; on an exit, a prefix of the stream is out.
  pub send_data_host-resumed :
      (k : ℕ) (w : World env (Client env.Table))
      → Waiting p k w
      → Ensures (Delivered p k) (InOrder p) (send_data_host true w.state.host_agent_id w)
  unfolding send_data_host stream
  send_data_host-resumed k w h =
      after_unwatch_host w.state.host_fd_poll w _ h.wanted
        (λ kernel c q quiet.
          rw (h.sending.at_slot.at, h.marked)
            (deliver-Ensures p table posix (suc (slot_count w.state.lanes)) k k
              w.state.host_agent_id _ h.count _ (omega arith) quiet
              (record {
                next = h.sending.next;
                out = h.sending.out;
                filed = h.sending.filed;
                at_slot = h.sending.at_slot;
                partial = h.sending.partial;
                apart = h.sending.apart;
                absent = h.sending.absent;
              })
              (omega (arith, used-le-slot_count w.state.lanes))))
        (λ kernel c. (k, h.count, h.sending.out))

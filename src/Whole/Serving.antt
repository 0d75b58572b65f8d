-- ===== src/Whole/Serving.antt =====
-- `send_data_host` (network.c) keeps to what `Served` says; where it waits for the host's socket again,
-- the packet is one that was in the table or the first one.
pub mod Packets
use sosagent.Base.{
  ℕ, zero, suc, ◌+◌, ◌-◌, ◌%◌, ◌^◌, ◌==◌, ◌≡◌, ◌≢◌, refl, ap, sym, subst, ◌∙◌, ◌⊎◌, inl, inr, true,
  false, false≢true, List, Option, none, some, get_elem?, set,
}
use sosagent.System.{
  Env, Errno, eagain, eshutdown, econnreset, epipe, Sent, took, send_failed, Pool, Ctl, add, modify,
  delete, client_event_pool,
}
use sosagent.System.Laws.{IsTable}
use sosagent.System.Outcome.{M}
use sosagent.System.Calls.{World, incoming, send_log, close}
use sosagent.System.Rules.{after}
use sosagent.System.Partial.{
  Post, came_back, gave_up, endless, Post-and_then, Post-check, Post-if, Post-epoll_ctl, Post-send,
}
use sosagent.Client.{
  Poll, off, in_only, out_only, in_and_out, closed, has_out, Slot, Lane, Client, Status,
}
use sosagent.Client.Access.{slot_at, put_slot, slice}
use sosagent.Deliver.{
  SendEnd, gone, full, lost, left_over, readable, writable, both_ways, watch_host, host_full,
  host_lost, send_refused, watch_agent, packet_gone, send_answered, send_packet, send_found,
  packet_ended, deliver, unwatch_host, send_data_host,
}
use sosagent.Client.Slots.{slot_count}
use sosagent.Deliver.Order.{Filed, AllFiled, Apart}
use sosagent.Receive.Tcp.{IsTcp}
use sosagent.Client.Access.{as_size_t, set_agent_fd_poll}
use sosagent.Whole.Watching.{open_poll, poll_of}
use sosagent.Whole.Sending.{incoming-send_log}
use sosagent.Whole.Served.{
  Touched, first, filed, none≢some, Served, Served-here, Served-set, Served-slot, Served-call,
  Served-marks, Served-del,
}

pub same_slot : {s t : Slot} → some s ≡ some t → s ≡ t
same_slot e = cc

module _ {env : Env} {pending : env.Kernel → ℕ → List ℕ} (tcp : IsTcp env pending)
    (table : IsTable env) (p : ℕ → List ℕ) (a₀ i₀ : ℕ) (w₀ : World env (Client env.Table)) where
  abbrev pub Kept : World env (Client env.Table) → Type 0
  Kept = Served pending a₀ i₀ w₀

  abbrev pub Taken : World env (Client env.Table) → ℕ → ℕ → Type 0
  Taken w = Touched pending a₀ i₀ w₀ w.state.buffered_packet_table

  -- The number that is next is the first packet's or was in the table.
  abbrev pub Known : World env (Client env.Table) → Type 0
  Known w =
      (w.state.recv_seq ≡ w₀.state.recv_seq)
      ⊎ ((v : ℕ × ℕ) × (env.hash_find w₀.state.buffered_packet_table w.state.recv_seq ≡ some v))

  -- Where the host's socket is waited for, the packet that waits is such a one.
  pub record Held (w : World env (Client env.Table)) : Type 0 where
    pub served : Kept w
    pub waits :
        has_out w.state.host_fd_poll ≡ true
        → Known w × Taken w w.state.host_agent_id w.state.agent_packet_index_out

  -- Where the function exits the host's socket is the same.
  abbrev pub SameHost : World env (Client env.Table) → Type 0
  SameHost w = w.state.host_sock ≡ w₀.state.host_sock

  pub same_host : (w : World env (Client env.Table)) → Kept w → SameHost w
  same_host w h = ap (λ (c : Client env.Table). c.host_sock) h.only

  -- Packet in slot `i` of connection `a` is on its way.
  pub record Mid (a i : ℕ) (w : World env (Client env.Table)) : Type 0 where
    pub served : Kept w
    pub known : Known w
    pub quiet : has_out w.state.host_fd_poll ≡ false
    pub taken : Taken w a i

  pub data Ended : SendEnd → World env (Client env.Table) → Type 0 where
    is_gone :
        {w : World env (Client env.Table)}
        → Kept w
        → has_out w.state.host_fd_poll ≡ false
        → Ended gone w
    is_full : {w : World env (Client env.Table)} → Held w → Ended full w
    is_lost : {w : World env (Client env.Table)} → Held w → Ended lost w

  pub ctl :
      (w : World env (Client env.Table)) (pool : Pool) (c : Ctl) (fd : ℕ)
      → Kept w
      → Kept (after w pool c fd)
  unfolding incoming
  ctl w pool c fd h =
      Served-call pending a₀ i₀ w₀ w _ _ (λ x. refl) (λ x. tcp.ctl_pending w.kernel pool c fd x) h

  pub mark :
      (w : World env (Client env.Table)) (q : Poll)
      → Kept w
      → Kept (record w { state = record (w.state) { host_fd_poll = q } })
  mark w q h =
      Served-marks pending a₀ i₀ w₀ w w.state.recv_seq w.state.host_agent_id
        w.state.agent_packet_index_out w.state.total_sent_bytes q h

  watch_host-Kept :
      (q : Poll) (w : World env (Client env.Table))
      → Kept w
      → Known w × Taken w w.state.host_agent_id w.state.agent_packet_index_out
      → Post (λ _ w'. Held w') SameHost (watch_host q w)
  unfolding watch_host
  watch_host-Kept in_only w h t =
      Post-epoll_ctl client_event_pool (modify both_ways) w.state.host_sock w _ (same_host w h)
        (came_back (record { served = mark _ in_and_out (ctl w _ _ _ h); waits = λ q. t }))
  watch_host-Kept off w h t =
      Post-epoll_ctl client_event_pool (add writable) w.state.host_sock w _ (same_host w h)
        (came_back (record { served = mark _ out_only (ctl w _ _ _ h); waits = λ q. t }))
  watch_host-Kept q w h t = gave_up (same_host w h)

  host_full-Ended :
      (a i count : ℕ) (w : World env (Client env.Table))
      → Mid a i w
      → Post Ended SameHost (host_full a i count w)
  unfolding host_full
  host_full-Ended a i count w h = Post-check (slot_at w.state.lanes a i) w _ (λ s at.
      Post-and_then _ _
        (watch_host-Kept w.state.host_fd_poll _
          (Served-marks pending a₀ i₀ w₀ _ w.state.recv_seq a i w.state.total_sent_bytes
            w.state.host_fd_poll
            (Served-slot pending a₀ i₀ w₀ w a i s (record s { host_sent_size = count }) at refl
              h.taken h.served))
          (h.known, h.taken))
        (λ _ w' h'. came_back (is_full h')))

  host_lost-Ended : (w : World env (Client env.Table)) → Kept w → Post Ended SameHost (host_lost w)
  unfolding host_lost close incoming
  host_lost-Ended w h =
      Post-epoll_ctl client_event_pool delete w.state.host_sock w _ (same_host w h) (
        came_back (
          is_lost (record {
            served =
                Served-call pending a₀ i₀ w₀ _ _ _ (λ x. refl) (λ x. refl)
                  (mark _ closed (ctl w _ _ _ h));
            waits = λ q. absurd (false≢true q);
          })))

  send_refused-Ended :
      (x : Errno) (a i count : ℕ) (w : World env (Client env.Table))
      → Mid a i w
      → Post Ended SameHost (send_refused x a i count w)
  unfolding send_refused
  send_refused-Ended eagain a i count w h = host_full-Ended a i count w h
  send_refused-Ended eshutdown a i count w h = host_lost-Ended w h.served
  send_refused-Ended econnreset a i count w h = host_lost-Ended w h.served
  send_refused-Ended epipe a i count w h = host_lost-Ended w h.served
  send_refused-Ended x a i count w h = gave_up (same_host w h.served)

  set_agent_fd_poll-Kept :
      (a : ℕ) (q : Poll) (w : World env (Client env.Table))
      → ((l : Lane) → get_elem? w.state.lanes a ≡ some l → l.agent_fd_poll ≢ closed)
      → Kept w
      → Post
          (λ _ w'. Kept w' × (w'.state.host_fd_poll ≡ w.state.host_fd_poll))
          SameHost
          (set_agent_fd_poll a q w)
  set_agent_fd_poll-Kept a q w unshut h = Post-check (get_elem? w.state.lanes a) w _ (λ l at.
      came_back (
        Served-set pending a₀ i₀ w₀ w a l (record l { agent_fd_poll = q }) at refl
            (λ z. absurd (unshut l at z)) h,
        refl,
      ))

  watch_agent-Kept :
      (a : ℕ) (q : Poll) (w : World env (Client env.Table))
      → ((l : Lane) → get_elem? w.state.lanes a ≡ some l → l.agent_fd_poll ≡ q)
      → Kept w
      → Post
          (λ _ w'. Kept w' × (w'.state.host_fd_poll ≡ w.state.host_fd_poll))
          SameHost
          (watch_agent a q w)
  unfolding watch_agent
  watch_agent-Kept a out_only w is h = Post-check (get_elem? w.state.lanes a) w _ (λ l at.
      Post-epoll_ctl client_event_pool (modify both_ways) l.agent_sock w _ (same_host w h) (
        set_agent_fd_poll-Kept a in_and_out _ (λ m e z. open_poll refl (sym (is m e) ∙ z))
          (ctl w _ _ _ h)))
  watch_agent-Kept a off w is h = Post-check (get_elem? w.state.lanes a) w _ (λ l at.
      Post-epoll_ctl client_event_pool (add readable) l.agent_sock w _ (same_host w h) (
        set_agent_fd_poll-Kept a in_only _ (λ m e z. open_poll refl (sym (is m e) ∙ z))
          (ctl w _ _ _ h)))
  watch_agent-Kept a q w is h = came_back (h, refl)

  packet_gone-Ended :
      (a i count : ℕ) (w : World env (Client env.Table))
      → Mid a i w
      → Post Ended SameHost (packet_gone a i count w)
  unfolding packet_gone
  packet_gone-Ended a i count w h = Post-check (get_elem? w.state.lanes a) _ _ (λ l at.
      Post-check (slot_at (set w.state.lanes a (fewer l)) a i) _ _ (λ s at_s.
        Post-check
          (get_elem?
            (put_slot (set w.state.lanes a (fewer l)) a i (record s { size = 0; in_use = false }))
            a)
          _ _
          (λ l' at'.
            Post-and_then (watch_agent a l'.agent_fd_poll (next l s)) _
              (watch_agent-Kept a l'.agent_fd_poll (next l s) (λ m e. ap poll_of (sym e ∙ at'))
                (Served-marks pending a₀ i₀ w₀ _ ((w.state.recv_seq + 1) % 2 ^ 32)
                  w.state.host_agent_id w.state.agent_packet_index_out
                  ((w.state.total_sent_bytes + count) % 2 ^ 64) w.state.host_fd_poll
                  (Served-slot pending a₀ i₀ w₀ _ a i s (record s { size = 0; in_use = false }) at_s
                    refl h.taken
                    (Served-set pending a₀ i₀ w₀ w a l (fewer l) at refl (λ z. z) h.served))))
              (λ _ w' k. came_back (is_gone k.0 (ap has_out k.1 ∙ h.quiet))))))
    where
      fewer : Lane → Lane
      fewer l = record l {
        agent_packet_queue_count = (l.agent_packet_queue_count + 2 ^ 32 - 1) % 2 ^ 32;
      }

      next : Lane → Slot → World env (Client env.Table)
      next l s = record w {
        state = record (w.state) {
          total_sent_bytes = (w.state.total_sent_bytes + count) % 2 ^ 64;
          lanes =
              put_slot (set w.state.lanes a (fewer l)) a i (record s { size = 0; in_use = false });
          recv_seq = (w.state.recv_seq + 1) % 2 ^ 32;
        };
      }

  send_answered-Ended :
      (s : Slot) (a i count : ℕ) (r : Sent) (again : ℕ → M (World env (Client env.Table)) SendEnd)
      (w : World env (Client env.Table))
      → Mid a i w
      → ((n : ℕ) (v : World env (Client env.Table)) → Mid a i v → Post Ended SameHost (again n v))
      → Post Ended SameHost (send_answered r s.size a i count again w)
  unfolding send_answered
  send_answered-Ended s a i count (send_failed x) again w m next =
      send_refused-Ended x a i count w m
  send_answered-Ended s a i count (took n) again w m next =
      Post-if (count + n == (as_size_t s.size + 2 ^ 64 - 4) % 2 ^ 64) _ _ w
        (λ q. packet_gone-Ended a i (count + n) w m) (λ q. next (count + n) w m)

  pub send_packet-Ended :
      (fuel a i count : ℕ) (w : World env (Client env.Table))
      → Mid a i w
      → Post Ended SameHost (send_packet fuel a i count w)
  unfolding send_packet
  send_packet-Ended zero a i count w h = endless
  send_packet-Ended (suc fuel) a i count w h = Post-check (slot_at w.state.lanes a i) w _ (λ s at.
      Post-check (slice s.serialized_data (4 + count) (left_over s.size count)) w _ (λ bytes e.
        Post-send w.state.host_sock bytes w _ (
          send_answered-Ended s a i count (env.send_call w.kernel w.state.host_sock bytes).0
            (send_packet fuel a i) _ (sent bytes) (λ n v m. send_packet-Ended fuel a i n v m))))
    where
      sent :
          (bytes : List ℕ)
          → Mid a i (record w {
            kernel = (env.send_call w.kernel w.state.host_sock bytes).1;
            trace =
                send_log w.state.host_sock bytes
                  (env.send_call w.kernel w.state.host_sock bytes).0
                  w.trace;
          })
      sent bytes = record {
        served =
            Served-call pending a₀ i₀ w₀ w _ _
              (λ fd. incoming-send_log fd w.state.host_sock bytes _ w.trace)
              (λ fd. tcp.send_pending w.kernel w.state.host_sock fd bytes) h.served;
        known = h.known;
        quiet = h.quiet;
        taken = h.taken;
      }

-- ===== src/Whole/Sending.antt =====
-- `read_host_send_agent` (network.c) leaves the stream to the host and what is being read alone.
pub mod Marked
use sosagent.Base.{
  ℕ, zero, suc, ◌+◌, ◌-◌, ◌%◌, ◌^◌, ◌==◌, ◌≡◌, ◌≢◌, refl, sym, ap, ◌∙◌, inl, inr, if◌then◌else◌,
  take, ◌++◌, List, [], ◌∷◌, some, length, get_elem?, set, append-nil,
}
use sosagent.System.{
  Env, Action, Errno, eagain, eshutdown, econnreset, Received, got, recv_failed, Sent, took,
  send_failed, client_event_pool, delete,
}
use sosagent.System.Outcome.{M}
use sosagent.System.Calls.{World, stream, incoming, recv_log, send_log, stream-recv_log, close}
use sosagent.System.Rules.{after}
use sosagent.System.Partial.{
  Post, came_back, gave_up, endless, Post-and_then, Post-check, Post-if, Post-epoll_ctl, Post-recv,
  Post-send,
}
use sosagent.Client.{Poll, off, in_only, out_only, in_and_out, closed, Lane, Client, Status}
use sosagent.Client.Access.{set_agent_fd_poll, overwrite, rest_of}
use sosagent.Send.{
  watch_agent_output, agent_full, agent_lost, agent_refused, agent_answered, send_frame, drop_host,
  host_refused, load_frame, drop_host_at, host_answered, unwatch_agent_output, send_from,
  read_host_send_agent,
}
use sosagent.Wire.{bytes_of, htonl}
use sosagent.Receive.Tcp.{IsTcp, incoming-other, unequal}
use sosagent.Whole.Aside.{reading, Aside, Aside-set, Aside-counters, Aside-call}
use sosagent.Whole.Watching.{mark_agent-Aside, mark_host-Aside, Aside-ctl, HostUnsent}

stream-send_log :
    (fd to : ℕ) (bytes : List ℕ) (r : Sent) (t : List Action)
    → to ≢ fd
    → stream fd (send_log to bytes r t) ≡ stream fd t
unfolding stream
stream-send_log fd to bytes (took n) t other =
    ap (λ b. stream fd t ++ (if b then take n bytes else [])) (unequal to fd other) ∙ append-nil _
stream-send_log fd to bytes (send_failed x) t other = refl

pub incoming-send_log :
    (fd to : ℕ) (bytes : List ℕ) (r : Sent) (t : List Action)
    → incoming fd (send_log to bytes r t) ≡ incoming fd t
unfolding incoming
incoming-send_log fd to bytes (took n) t = refl
incoming-send_log fd to bytes (send_failed x) t = refl

module _ {env : Env} {pending : env.Kernel → ℕ → List ℕ} (tcp : IsTcp env pending) (a : ℕ)
    (w₀ : World env (Client env.Table))
    (apart : (l : Lane)
      → get_elem? w₀.state.lanes a ≡ some l
      → l.agent_sock ≢ w₀.state.host_sock) where
  abbrev Here : ℕ → Type 0
  Here j = a ≡ j

  abbrev Left : World env (Client env.Table) → Type 0
  Left = Aside pending Here w₀

  -- The connection's socket is not the host's.
  elsewhere :
      (w : World env (Client env.Table)) (l : Lane)
      → Left w
      → get_elem? w.state.lanes a ≡ some l
      → l.agent_sock ≢ w₀.state.host_sock
  elsewhere w l h at e =
      apart (h.kin a l at).0 (h.kin a l at).1
        (sym (ap (λ (m : Lane). m.agent_sock) (h.kin a l at).2.same) ∙ e)

  write_agent-Aside :
      (w : World env (Client env.Table)) (l l' : Lane)
      → get_elem? w.state.lanes a ≡ some l
      → reading l' ≡ reading l
      → Left w
      → Left (record w { state = record (w.state) { lanes = set w.state.lanes a l' } })
  write_agent-Aside w l l' at same h = Aside-set pending Here w₀ w a l l' at same (inl refl) h

  watch_agent_output-Left :
      (q : Poll) (w : World env (Client env.Table))
      → Left w
      → Post (λ _ w'. Left w') (HostUnsent tcp Here w₀) (watch_agent_output a q w)
  unfolding watch_agent_output
  watch_agent_output-Left in_only w h = mark_agent-Aside tcp Here w₀ a _ _ w (inl refl) h
  watch_agent_output-Left off w h = mark_agent-Aside tcp Here w₀ a _ _ w (inl refl) h
  watch_agent_output-Left q w h = came_back h

  unwatch_agent_output-Left :
      (q : Poll) (w : World env (Client env.Table))
      → Left w
      → Post (λ _ w'. Left w') (HostUnsent tcp Here w₀) (unwatch_agent_output a q w)
  unfolding unwatch_agent_output
  unwatch_agent_output-Left in_and_out w h = mark_agent-Aside tcp Here w₀ a _ _ w (inl refl) h
  unwatch_agent_output-Left out_only w h = mark_agent-Aside tcp Here w₀ a _ _ w (inl refl) h
  unwatch_agent_output-Left q w h = gave_up h.out

  mark-Left :
      (q : Poll) (w : World env (Client env.Table))
      → Left w
      → Post (λ _ w'. Left w') (HostUnsent tcp Here w₀) (set_agent_fd_poll a q w)
  mark-Left q w h =
      Post-check (get_elem? w.state.lanes a) w _
        (λ m at. came_back (write_agent-Aside w m (record m { agent_fd_poll = q }) at refl h))

  agent_lost-Left :
      (w : World env (Client env.Table))
      → Left w
      → Post (λ _ w'. Left w') (HostUnsent tcp Here w₀) (agent_lost a w)
  unfolding agent_lost close stream incoming
  agent_lost-Left w h = Post-check (get_elem? w.state.lanes a) w _ (λ l at.
      let h' : Left (after w client_event_pool delete l.agent_sock) =
        Aside-ctl tcp Here w₀ w client_event_pool delete l.agent_sock h in
      Post-epoll_ctl client_event_pool delete l.agent_sock w _ h'.out (
        Post-and_then (set_agent_fd_poll a off (after w client_event_pool delete l.agent_sock)) _
          (mark-Left off _ h')
          (λ _ w' h''. came_back (
            Aside-call pending Here w₀ w' _ _ (λ x. refl) (λ x other. refl) (λ x other. refl)
              h''))))

  agent_refused-Left :
      (x : Errno) (size count : ℕ) (w : World env (Client env.Table))
      → Left w
      → Post (λ _ w'. Left w') (HostUnsent tcp Here w₀) (agent_refused x a size count w)
  unfolding agent_refused agent_full
  agent_refused-Left eagain size count w h = Post-check (get_elem? w.state.lanes a) w _ (λ l at.
      Post-and_then _ _
        (watch_agent_output-Left l.agent_fd_poll _ (write_agent-Aside w l _ at refl h))
        (λ _ w' h'. came_back h'))
  agent_refused-Left eshutdown size count w h = agent_lost-Left w h
  agent_refused-Left econnreset size count w h = agent_lost-Left w h
  agent_refused-Left x size count w h = gave_up h.out

  -- What is sent on the connection does not go to the host.
  sent-Left :
      (l : Lane) (bytes : List ℕ) (w : World env (Client env.Table))
      → l.agent_sock ≢ w₀.state.host_sock
      → Left w
      → Left (record w {
        kernel = (env.send_call w.kernel l.agent_sock bytes).1;
        trace = send_log l.agent_sock bytes (env.send_call w.kernel l.agent_sock bytes).0 w.trace;
      })
  sent-Left l bytes w away h = record {
    only = h.only;
    slots = h.slots;
    kin = h.kin;
    out = stream-send_log _ _ bytes _ w.trace away ∙ h.out;
    ins = λ fd other. (
      incoming-send_log fd l.agent_sock bytes _ w.trace ∙ (h.ins fd other).0,
      tcp.send_pending w.kernel l.agent_sock fd bytes ∙ (h.ins fd other).1,
    );
    host = h.host;
  }

  agent_answered-Left :
      (r : Sent) (size count : ℕ) (again : ℕ → M (World env (Client env.Table)) Status)
      (w : World env (Client env.Table))
      → Left w
      → ((n : ℕ) (w' : World env (Client env.Table))
          → Left w'
          → Post (λ _ v. Left v) (HostUnsent tcp Here w₀) (again n w'))
      → Post (λ _ w'. Left w') (HostUnsent tcp Here w₀) (agent_answered r a size count again w)
  unfolding agent_answered
  agent_answered-Left (send_failed x) size count again w h next =
      agent_refused-Left x size count w h
  agent_answered-Left (took n) size count again w h next =
      Post-check (get_elem? w.state.lanes a) w _ (λ l at.
        Post-if (count + n == size) _ _ w (λ q. came_back (write_agent-Aside w l _ at refl h))
          (λ q. next (count + n) _ (write_agent-Aside w l _ at refl h)))

  send_frame-Left :
      (fuel size count : ℕ) (w : World env (Client env.Table))
      → Left w
      → Post (λ _ w'. Left w') (HostUnsent tcp Here w₀) (send_frame fuel a size count w)
  unfolding send_frame
  send_frame-Left zero size count w h = endless
  send_frame-Left (suc fuel) size count w h = Post-check (get_elem? w.state.lanes a) w _ (λ l at.
      Post-check (rest_of l.packet.serialized_data count size) w _ (λ bytes e.
        Post-send l.agent_sock bytes w _ (
          agent_answered-Left _ size count _ _ (sent-Left l bytes w (elsewhere w l h at) h)
            (λ n w' h'. send_frame-Left fuel size n w' h'))))

  load_frame-Left :
      (bytes : List ℕ) (w : World env (Client env.Table))
      → Left w
      → Post (λ _ w'. Left w') (HostUnsent tcp Here w₀) (load_frame a bytes w)
  unfolding load_frame
  load_frame-Left bytes w h = Post-check (get_elem? w.state.lanes a) w _ (λ l at.
      Post-check (overwrite l.packet.serialized_data 8 bytes) w _ (λ with_payload e.
        Post-check
          (overwrite with_payload 0 (bytes_of env.order (htonl env.order (length bytes + 4)))) w _
          (λ with_size e'.
            Post-check (overwrite with_size 4 (bytes_of env.order w.state.send_seq)) w _
              (λ with_seq e''. came_back (
                write_agent-Aside _ l _ at refl (
                  Aside-counters pending Here w₀ w ((w.state.send_seq + 1) % 2 ^ 32)
                    w.state.total_sent_bytes ((w.state.total_recv_bytes + length bytes) % 2 ^ 64)
                    w.state.host_fd_poll h.host h))))))

  drop_host-Left :
      (w : World env (Client env.Table))
      → Left w
      → Post (λ _ w'. Left w') (HostUnsent tcp Here w₀) (drop_host w)
  unfolding drop_host
  drop_host-Left w h = mark_host-Aside tcp Here w₀ delete closed w (inr refl) h

  host_answered-Left :
      (r : Received) (w : World env (Client env.Table))
      → Left w
      → Post (λ _ w'. Left w') (HostUnsent tcp Here w₀) (host_answered r a w)
  unfolding host_answered host_refused drop_host_at
  host_answered-Left (recv_failed eagain) w h = came_back h
  host_answered-Left (recv_failed eshutdown) w h =
      Post-and_then (drop_host w) _ (drop_host-Left w h) (λ _ w' h'. came_back h')
  host_answered-Left (recv_failed econnreset) w h =
      Post-and_then (drop_host w) _ (drop_host-Left w h) (λ _ w' h'. came_back h')
  host_answered-Left (recv_failed x) w h = gave_up h.out
  host_answered-Left (got []) w h =
      Post-and_then (drop_host_at w.state.host_fd_poll w) _ (dropped w.state.host_fd_poll)
        (λ _ w' h'. came_back h')
    where
      dropped : (q : Poll) → Post (λ _ w'. Left w') (HostUnsent tcp Here w₀) (drop_host_at q w)
      dropped off = came_back h
      dropped q = drop_host-Left w h
  host_answered-Left (got (b ∷ bs)) w h =
      Post-and_then (load_frame a (b ∷ bs) w) _ (load_frame-Left (b ∷ bs) w h)
        (λ _ w' h'. send_frame-Left _ _ _ w' h')

  -- What comes in from the host is no connection's.
  heard-Left :
      (len : ℕ) (w : World env (Client env.Table))
      → Left w
      → Left (record w {
        kernel = (env.recv_call w.kernel w.state.host_sock len).1;
        trace = recv_log w.state.host_sock (env.recv_call w.kernel w.state.host_sock len).0 w.trace;
      })
  heard-Left len w h =
      Aside-call pending Here w₀ w _ _ (λ fd. stream-recv_log fd w.state.host_sock _ w.trace)
        (λ fd other.
          incoming-other fd w.state.host_sock _ w.trace
            (λ e. other (sym e ∙ ap (λ (c : Client env.Table). c.host_sock) h.only)))
        (λ fd other.
          tcp.recv_other w.kernel w.state.host_sock len fd
            (λ e. other (sym e ∙ ap (λ (c : Client env.Table). c.host_sock) h.only)))
        h

  send_from-Left :
      (n : ℕ) (w : World env (Client env.Table))
      → Left w
      → Post (λ _ w'. Left w') (HostUnsent tcp Here w₀) (send_from n a w)
  unfolding send_from
  send_from-Left zero w h =
      Post-recv w.state.host_sock _ w _ (host_answered-Left _ _ (heard-Left _ w h))
  send_from-Left (suc n) w h = Post-check (get_elem? w.state.lanes a) w _ (λ l at.
      Post-and_then (unwatch_agent_output a l.agent_fd_poll w) _
        (unwatch_agent_output-Left l.agent_fd_poll w h) (λ _ w' h'. send_frame-Left _ _ _ w' h'))

  -- `read_host_send_agent` leaves all that alone.
  pub read_host_send_agent-Aside :
      (w : World env (Client env.Table))
      → Left w
      → Post (λ _ w'. Left w') (HostUnsent tcp Here w₀) (read_host_send_agent a w)
  unfolding read_host_send_agent
  read_host_send_agent-Aside w h =
      Post-check (get_elem? w.state.lanes a) w _
        (λ l at. send_from-Left l.packet.host_packet_size w h)

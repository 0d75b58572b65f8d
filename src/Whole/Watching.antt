-- ===== src/Whole/Watching.antt =====
-- `all_agents_socks_full` and `not_all_agent_socks_full` (poll.c) leave the stream to the host and what
-- is being read alone.
use sosagent.Base.{
  ℕ, zero, suc, ◌==◌, ◌≡◌, ◌≢◌, refl, sym, ap, ◌∙◌, ◌⊎◌, inl, inr, List, Option, some, none,
  get_elem?, Bool, true, false, false≢true,
}
use sosagent.System.{Env, Pool, Ctl, client_event_pool}
use sosagent.System.Outcome.{and_then}
use sosagent.System.Calls.{World, stream, incoming, epoll_ctl}
use sosagent.System.Rules.{after}
use sosagent.System.Partial.{Post, came_back, Post-and_then, Post-check, Post-if, Post-epoll_ctl}
use sosagent.Client.{Poll, off, in_only, out_only, in_and_out, closed, has_out, Lane, Client}
use sosagent.Client.Access.{lane, set_agent_fd_poll, set_host_fd_poll}
use sosagent.Send.{watch_agent_output}
use sosagent.Watch.{
  stop_host_input, watch_all_from, all_agents_socks_full, start_host_input, rest_agent,
  rest_all_from, not_all_agent_socks_full,
}
use sosagent.Receive.Tcp.{IsTcp}
use sosagent.Whole.Aside.{Aside, Aside-set, Aside-counters, Aside-call}

-- A mark other than CLOSED.
abbrev is_open : Poll → Bool
is_open closed = false
is_open q = true

pub open_poll : {q : Poll} → is_open q ≡ true → q ≢ closed
open_poll {q} e z = false≢true (sym (ap is_open z) ∙ e)

abbrev pub poll_of : Option Lane → Poll
poll_of none = off
poll_of (some m) = m.agent_fd_poll

module _ {env : Env} {pending : env.Kernel → ℕ → List ℕ} (tcp : IsTcp env pending)
    (exempt : ℕ → Type 0) (w₀ : World env (Client env.Table)) where
  -- Where a handler exits nothing was sent to the host.
  abbrev pub HostUnsent : World env (Client env.Table) → Type 0
  HostUnsent w = stream w₀.state.host_sock w.trace ≡ stream w₀.state.host_sock w₀.trace

  abbrev pub Kept : World env (Client env.Table) → Type 0
  Kept = Aside pending exempt w₀

  pub Aside-ctl :
      (w : World env (Client env.Table)) (pool : Pool) (c : Ctl) (fd : ℕ)
      → Kept w
      → Kept (after w pool c fd)
  unfolding stream incoming
  Aside-ctl w pool c fd h =
      Aside-call pending exempt w₀ w _ _ (λ x. refl) (λ x other. refl)
        (λ x other. tcp.ctl_pending w.kernel pool c fd x) h

  -- A connection's socket in the poll set, and its mark.
  pub mark_agent-Aside :
      (a : ℕ) (c : Ctl) (q : Poll) (w : World env (Client env.Table))
      → (exempt a
          ⊎ ((l : Lane)
              → get_elem? w.state.lanes a ≡ some l
              → l.agent_fd_poll ≡ closed
              → q ≡ closed))
      → Kept w
      → Post
          (λ _ w'. Kept w')
          HostUnsent
          (and_then (lane a w) (λ l v.
            and_then (epoll_ctl client_event_pool c l.agent_sock v) (λ _. set_agent_fd_poll a q)))
  mark_agent-Aside a c q w stay h = Post-check (get_elem? w.state.lanes a) w _ (λ l at.
      Post-epoll_ctl client_event_pool c l.agent_sock w _
        (Aside-ctl w client_event_pool c l.agent_sock h).out
        (Post-check (get_elem? w.state.lanes a) _ _ (λ m at'. came_back (
          Aside-set pending exempt w₀ _ a m (record m { agent_fd_poll = q }) at' refl
            (stays stay m at') (Aside-ctl w client_event_pool c l.agent_sock h)))))
    where
      stays :
          exempt a
            ⊎ ((l : Lane)
                → get_elem? w.state.lanes a ≡ some l
                → l.agent_fd_poll ≡ closed
                → q ≡ closed)
          → (m : Lane) → get_elem? w.state.lanes a ≡ some m
          → exempt a ⊎ (m.agent_fd_poll ≡ closed → q ≡ closed)
      stays (inl e) m at = inl e
      stays (inr k) m at = inr (k m at)

  -- The host's socket in the poll set, and its mark.
  pub mark_host-Aside :
      (c : Ctl) (q : Poll) (w : World env (Client env.Table))
      → (((has_out q ≡ has_out w.state.host_fd_poll) × (w.state.host_fd_poll ≢ closed))
          ⊎ (q ≡ closed))
      → Kept w
      → Post
          (λ _ w'. Kept w')
          HostUnsent
          (and_then (epoll_ctl client_event_pool c w.state.host_sock w) (λ _. set_host_fd_poll q))
  mark_host-Aside c q w mark h =
      Post-epoll_ctl client_event_pool c w.state.host_sock w _
        (Aside-ctl w client_event_pool c w.state.host_sock h).out
        (came_back (
          Aside-counters pending exempt w₀ _ w.state.send_seq w.state.total_sent_bytes
            w.state.total_recv_bytes q (marked mark h.host)
            (Aside-ctl w client_event_pool c w.state.host_sock h)))
    where
      marked :
          ((has_out q ≡ has_out w.state.host_fd_poll) × (w.state.host_fd_poll ≢ closed))
            ⊎ (q ≡ closed)
          → (has_out w.state.host_fd_poll ≡ has_out w₀.state.host_fd_poll)
            ⊎ (w.state.host_fd_poll ≡ closed)
          → (has_out q ≡ has_out w₀.state.host_fd_poll) ⊎ (q ≡ closed)
      marked (inl m) (inl e) = inl (m.0 ∙ e)
      marked (inl m) (inr e) = absurd (m.1 e)
      marked (inr e) other = inr e

  watch_agent_output-Aside :
      (a : ℕ) (q : Poll) (w : World env (Client env.Table))
      → ((l : Lane) → get_elem? w.state.lanes a ≡ some l → l.agent_fd_poll ≡ q)
      → Kept w
      → Post (λ _ w'. Kept w') HostUnsent (watch_agent_output a q w)
  unfolding watch_agent_output
  watch_agent_output-Aside a in_only w is h =
      mark_agent-Aside a _ _ w (inr (λ l at z. absurd (open_poll refl (sym (is l at) ∙ z)))) h
  watch_agent_output-Aside a off w is h =
      mark_agent-Aside a _ _ w (inr (λ l at z. absurd (open_poll refl (sym (is l at) ∙ z)))) h
  watch_agent_output-Aside a q w is h = came_back h

  rest_agent-Aside :
      (a : ℕ) (q : Poll) (w : World env (Client env.Table))
      → ((l : Lane) → get_elem? w.state.lanes a ≡ some l → l.agent_fd_poll ≡ q)
      → Kept w
      → Post (λ _ w'. Kept w') HostUnsent (rest_agent a q w)
  unfolding rest_agent
  rest_agent-Aside a in_and_out w is h =
      mark_agent-Aside a _ _ w (inr (λ l at z. absurd (open_poll refl (sym (is l at) ∙ z)))) h
  rest_agent-Aside a out_only w is h =
      mark_agent-Aside a _ _ w (inr (λ l at z. absurd (open_poll refl (sym (is l at) ∙ z)))) h
  rest_agent-Aside a q w is h = came_back h

  watch_all_from-Aside :
      (n i : ℕ) (w : World env (Client env.Table))
      → Kept w
      → Post (λ _ w'. Kept w') HostUnsent (watch_all_from n i w)
  unfolding watch_all_from
  watch_all_from-Aside zero i w h = came_back h
  watch_all_from-Aside (suc n) i w h = Post-check (get_elem? w.state.lanes i) w _ (λ l at.
      Post-and_then (watch_agent_output i l.agent_fd_poll w) _
        (watch_agent_output-Aside i l.agent_fd_poll w (λ m at'. ap poll_of (sym at' ∙ at)) h)
        (λ _ w' h'. watch_all_from-Aside n (suc i) w' h'))

  rest_all_from-Aside :
      (n i : ℕ) (w : World env (Client env.Table))
      → Kept w
      → Post (λ _ w'. Kept w') HostUnsent (rest_all_from n i w)
  unfolding rest_all_from
  rest_all_from-Aside zero i w h = came_back h
  rest_all_from-Aside (suc n) i w h = Post-check (get_elem? w.state.lanes i) w _ (λ l at.
      Post-and_then _ _
        (Post-if (l.packet.host_packet_size == 0) _ _ w
          (λ q. rest_agent-Aside i l.agent_fd_poll w (λ m at'. ap poll_of (sym at' ∙ at)) h)
          (λ q. came_back h))
        (λ _ w' h'. rest_all_from-Aside n (suc i) w' h'))

  -- `all_agents_socks_full` and `not_all_agent_socks_full` leave all that alone.
  pub all_agents_socks_full-Aside :
      (w : World env (Client env.Table))
      → Kept w
      → Post (λ _ w'. Kept w') HostUnsent (all_agents_socks_full w)
  unfolding all_agents_socks_full stop_host_input
  all_agents_socks_full-Aside w h =
      Post-and_then (stop_host_input w.state.host_fd_poll w) _ (stopped w.state.host_fd_poll refl)
        (λ _ w' h'. watch_all_from-Aside _ 0 w' h')
    where
      stopped :
          (q : Poll)
          → w.state.host_fd_poll ≡ q
          → Post (λ _ w'. Kept w') HostUnsent (stop_host_input q w)
      stopped in_and_out e =
          mark_host-Aside _ out_only w (inl (sym (ap has_out e), λ z. open_poll refl (sym e ∙ z))) h
      stopped in_only e =
          mark_host-Aside _ off w (inl (sym (ap has_out e), λ z. open_poll refl (sym e ∙ z))) h
      stopped q e = came_back h

  pub not_all_agent_socks_full-Aside :
      (w : World env (Client env.Table))
      → Kept w
      → Post (λ _ w'. Kept w') HostUnsent (not_all_agent_socks_full w)
  unfolding not_all_agent_socks_full start_host_input
  not_all_agent_socks_full-Aside w h =
      Post-and_then (start_host_input w.state.host_fd_poll w) _ (started w.state.host_fd_poll refl)
        (λ _ w' h'. rest_all_from-Aside _ 0 w' h')
    where
      started :
          (q : Poll)
          → w.state.host_fd_poll ≡ q
          → Post (λ _ w'. Kept w') HostUnsent (start_host_input q w)
      started out_only e =
          mark_host-Aside _ in_and_out w (inl (sym (ap has_out e), λ z. open_poll refl (sym e ∙ z)))
            h
      started off e =
          mark_host-Aside _ in_only w (inl (sym (ap has_out e), λ z. open_poll refl (sym e ∙ z))) h
      started q e = came_back h

-- ===== src/Whole/Turns.antt =====
-- What happens in a turn of `poll_data_transfer` (poll.c) while no connection brings anything in: the
-- host is sent what stands in the slots, in order, whatever else happens.
use sosagent.Base.{
  ℕ, zero, suc, ◌==◌, ◌≡◌, refl, ap, sym, ◌∙◌, inl, inr, true, false≢true, ◌&&◌, not, List, [], ◌∷◌,
  length, get_elem?,
}
use sosagent.System.{Env}
use sosagent.System.Laws.{IsTable, IsPosix}
use sosagent.System.Outcome.{Outcome, Ensures, Ensures-mono, exit, and_then}
use sosagent.System.Calls.{World, stream, incoming, close}
use sosagent.System.Partial.{
  Post, came_back, gave_up, faulted, Post-and_then, Post-check, Post-if, Post-mono, Ensures-Post,
}
use sosagent.Client.{Poll, closed, has_out, Lane, Client, Status, success, close_status}
use sosagent.Deliver.{send_data_host}
use sosagent.Deliver.Order.{Waiting, Delivered}
use sosagent.Deliver.Drain.{send_data_host-resumed}
use sosagent.Receive.Tcp.{IsTcp}
use sosagent.Send.{read_host_send_agent}
use sosagent.Watch.{all_agents_socks_full, not_all_agent_socks_full}
use sosagent.Transfer.{
  Event, Pick, pick_failed, pick_none, pick, all_marked, any_in_use, close_idle_from, finished_at,
  host_input, agent_output, free_client, close_agents_from, clean_up_connections, unknown_event,
}
use sosagent.Whole.Aside.{Aside, Aside-here, Aside-set, Aside-call}
use sosagent.Whole.Watching.{
  HostUnsent, all_agents_socks_full-Aside, not_all_agent_socks_full-Aside,
}
use sosagent.Whole.Sending.{read_host_send_agent-Aside}
use sosagent.Whole.Serving.{Held}
use sosagent.Whole.Serving.Packets.{send_data_host-Held_resumed}
use sosagent.Whole.Delivering.{
  Prefix, Delivering, idle, waiting, shut, Steady, Steady-Prefix, Aside-Steady,
}

module _ {env : Env} (p : ℕ → List ℕ) {pending : env.Kernel → ℕ → List ℕ} (tcp : IsTcp env pending)
    (table : IsTable env) (posix : IsPosix env) (h : ℕ) where
  abbrev On : World env (Client env.Table) → Type 0
  On = Steady p h

  abbrev Out : World env (Client env.Table) → Type 0
  Out = Prefix p h

  -- Nothing more was sent to the host.
  unsent :
      (w₀ w : World env (Client env.Table))
      → On w₀
      → stream w₀.state.host_sock w.trace ≡ stream w₀.state.host_sock w₀.trace
      → Out w
  unsent w₀ w s e =
      let d = Steady-Prefix p h w₀ s in
      (
        d.0,
        d.1,
        ap (λ n. stream n w.trace) (sym s.host) ∙ e ∙ ap (λ n. stream n w₀.trace) s.host ∙ d.2,
      )

  aside :
      {A : Type 0} {exempt : ℕ → Type 0} (w₀ : World env (Client env.Table))
      (o : Outcome (World env (Client env.Table)) A)
      → On w₀
      → Post (λ _ w'. Aside pending exempt w₀ w') (HostUnsent tcp exempt w₀) o
      → Post (λ _ w'. On w') Out o
  aside w₀ o s q = Post-mono o q (λ _ w' k. Aside-Steady p w₀ w' k h s) (λ w' e. unsent w₀ w' s e)

  read_host_send_agent-On :
      (a : ℕ) (w : World env (Client env.Table))
      → On w
      → Post (λ _ w'. On w') Out (read_host_send_agent a w)
  read_host_send_agent-On a w s = aside w _ s (
      read_host_send_agent-Aside tcp a w (λ l at. s.apart a l at) w
        (Aside-here pending (λ j. a ≡ j) w))

  NoOne : ℕ → Type 0
  NoOne j = ⊥

  -- Where the host is sent the stream in order, its socket is waited for until it can be written and
  -- is none of the connections', `send_data_host` for that socket comes back with all that as it was,
  -- but the mark, or exits; its stream is a prefix of the payloads wherever it ends.
  pub send_data_host-Steady :
      (w : World env (Client env.Table))
      → Steady p h w
      → has_out w.state.host_fd_poll ≡ true
      → Ensures (λ _ w'. Steady p h w') (Prefix p h) (send_data_host true w.state.host_agent_id w)
  send_data_host-Steady w s wanted = from s.delivering
    where
      sent_on :
          (k : ℕ) (d : Waiting p k w) (r : Status) (w' : World env (Client env.Table))
          → Delivered p k r w'
          → Held tcp table p w.state.host_agent_id w.state.agent_packet_index_out w w'
          → On w'
      sent_on k d r w' now held = record {
        host = ap (λ (c : Client env.Table). c.host_sock) held.served.only ∙ s.host;
        apart = λ j l at e.
            let old = held.served.kin j l at in
            s.apart j old.0 old.1 (
              sym (ap (λ (m : Lane). m.agent_sock) old.2.same)
              ∙ e
              ∙ ap (λ (c : Client env.Table). c.host_sock) held.served.only);
        delivering = at_end r now;
      }
        where
          at_end : (r : Status) → Delivered p k r w' → Delivering p w'
          at_end success (n, inl i) = idle n i.1
          at_end success (n, inr i) = waiting n i.1.waiting
          at_end close_status c = shut (c.k, c.count, c.out) (ap has_out c.shut)

      from :
          Delivering p w → Ensures (λ _ w'. On w') Out (send_data_host true w.state.host_agent_id w)
      from (idle k d) = absurd (false≢true (sym d.quiet ∙ wanted))
      from (shut d quiet) = absurd (false≢true (sym quiet ∙ wanted))
      from (waiting k d) =
          Ensures-mono
            (Ensures-Post (send_data_host-resumed p table posix k w d) (
              send_data_host-Held_resumed tcp table p w.state.host_agent_id
                w.state.agent_packet_index_out w d.sending.filed d.sending.apart refl))
            (λ r w' q. sent_on k d r w' q.0 q.1)
            (λ w' q. (q.0.0, q.0.1, ap (λ n. stream n w'.trace) (sym (q.1 ∙ s.host)) ∙ q.0.2))

  all_agents_socks_full-On :
      (w : World env (Client env.Table)) → On w → Post (λ _ w'. On w') Out (all_agents_socks_full w)
  all_agents_socks_full-On w s =
      aside w _ s (all_agents_socks_full-Aside tcp NoOne w w (Aside-here pending NoOne w))

  not_all_agent_socks_full-On :
      (w : World env (Client env.Table))
      → On w
      → Post (λ _ w'. On w') Out (not_all_agent_socks_full w)
  not_all_agent_socks_full-On w s =
      aside w _ s (not_all_agent_socks_full-Aside tcp NoOne w w (Aside-here pending NoOne w))

  -- The loop that closes connections leaves the mark of the host's socket.
  record Closing (w₀ w : World env (Client env.Table)) : Type 0 where
    left : Aside pending NoOne w₀ w
    mark : w.state.host_fd_poll ≡ w₀.state.host_fd_poll

  close_idle_from-Closing :
      (n i : ℕ) (w₀ w : World env (Client env.Table))
      → Closing w₀ w
      → Post (λ _ w'. Closing w₀ w') (HostUnsent tcp NoOne w₀) (close_idle_from n i w)
  unfolding close_idle_from close stream incoming
  close_idle_from-Closing zero i w₀ w c = came_back c
  close_idle_from-Closing (suc n) i w₀ w c = Post-check (get_elem? w.state.lanes i) w _ (λ l at.
      Post-if (l.packet.host_packet_size == 0) _ _ w
        (λ q.
          Post-and_then _ _
            (Post-check (get_elem? w.state.lanes i) _ _ (λ m at'. came_back (record {
              left =
                  Aside-set pending NoOne w₀ _ i m (record m { agent_fd_poll = closed }) at' refl
                    (inr (λ z. refl))
                    (Aside-call pending NoOne w₀ w _ _ (λ x. refl) (λ x other. refl)
                      (λ x other. refl) c.left);
              mark = c.mark;
            })))
            (λ _ w' c'. close_idle_from-Closing n (suc i) w₀ w' c'))
        (λ q.
          Post-and_then _ _ (close_idle_from-Closing n (suc i) w₀ w c) (λ b w' c'. came_back c')))

  -- The head of the loop keeps all that, and the mark.
  pub record Headed (w₀ w : World env (Client env.Table)) : Type 0 where
    pub on : On w
    pub mark : w.state.host_fd_poll ≡ w₀.state.host_fd_poll

  pub finished_at-Headed :
      (q : Poll) (w : World env (Client env.Table))
      → On w
      → Post (λ _ w'. Headed w w') Out (finished_at q w)
  unfolding finished_at close stream incoming
  finished_at-Headed closed w s =
      Post-mono _
        (close_idle_from-Closing (length w.state.lanes) 0 w w
          (record { left = Aside-here pending NoOne w; mark = refl }))
        (λ b w' c. record { on = Aside-Steady p w w' c.left h s; mark = c.mark })
        (λ w' e. unsent w w' s e)
  finished_at-Headed q w s =
      Post-if (all_marked w.state.lanes && not (any_in_use w.state.queue_size w.state.lanes)) _ _ w
        (λ z. came_back (record {
          on =
              Aside-Steady p w _
                (Aside-call pending NoOne w w _ _ (λ x. refl) (λ x other. refl) (λ x other. refl)
                  (Aside-here pending NoOne w))
                h s;
          mark = refl;
        }))
        (λ z. came_back (record { on = s; mark = refl }))

  pub host_input-On :
      (e : Event) (second : Pick) (w : World env (Client env.Table))
      → On w
      → Post (λ _ w'. On w') Out (host_input e second w)
  unfolding host_input
  host_input-On e pick_failed w s = gave_up (Steady-Prefix p h w s)
  host_input-On e pick_none w s =
      Post-if e.error _ _ w (λ z. gave_up (Steady-Prefix p h w s))
        (λ z. all_agents_socks_full-On w s)
  host_input-On e (pick a error) w s =
      Post-if error _ _ w (λ z. gave_up (Steady-Prefix p h w s))
        (λ z. Post-and_then _ _ (read_host_send_agent-On a w s) (λ _ w' s'. came_back s'))

  pub agent_output-On :
      (a : ℕ) (w : World env (Client env.Table))
      → On w
      → Post (λ _ w'. On w') Out (agent_output a w)
  unfolding agent_output
  agent_output-On a w s = Post-check (get_elem? w.state.lanes a) w _ (λ l at.
      Post-and_then _ _
        (Post-if (l.packet.host_packet_size == 0) _ _ w (λ q. not_all_agent_socks_full-On w s)
          (λ q. came_back s))
        (λ _ w' s'.
          Post-and_then _ _ (read_host_send_agent-On a w' s') (λ _ w'' s''. came_back s'')))

  pub unknown_event-Out :
      (e : Event) (w : World env (Client env.Table))
      → On w
      → Post (λ _ w'. On w') Out (unknown_event e w)
  unfolding unknown_event free_client clean_up_connections close_agents_from close stream
  unknown_event-Out e w s =
      Post-if e.error _ _ w
        (λ z.
          elim w.state.lanes
            as (λ ls.
              Post {A = Unit {0}} (λ _ w'. On w') Out
                (and_then (and_then (free_client w) (λ _. clean_up_connections (length ls)))
                  (λ _. exit))) [ [] ↦ gave_up (Steady-Prefix p h w s) | l ∷ ls ↦ faulted ])
        (λ z. gave_up (Steady-Prefix p h w s))

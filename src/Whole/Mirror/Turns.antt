-- ===== src/Whole/Mirror/Turns.antt =====
-- The turns of `poll_data_transfer` (poll.c) and the marks of the sockets.
use sosagent.Base.{
  ℕ, zero, suc, ◌==◌, if◌then◌else◌, Bool, true, false, ◌&&◌, not, List, [], ◌∷◌, length, get_elem?,
}
use sosagent.System.{Env}
use sosagent.System.Outcome.{exit, and_then}
use sosagent.System.Calls.{World, close}
use sosagent.System.Partial.{
  Post, came_back, gave_up, faulted, Post-and_then, Post-mono, Post-check, Post-if,
}
use sosagent.Client.{Poll, closed, Client}
use sosagent.Transfer.{
  Source, host_side, agent_side, Event, Wait, wait_failed, no_event, ready, Pick, pick_failed,
  pick_none, pick, all_marked, any_in_use, close_idle_from, finished_at, host_input, agent_output,
  free_client, close_agents_from, clean_up_connections, unknown_event, dispatch, handle,
  transfer_turn, poll_data_transfer,
}
use sosagent.Whole.Mirror.{Mirror, Anything, Mirror-closing}
use sosagent.Whole.Mirror.Sending.{
  all_agents_socks_full-Mirror, not_all_agent_socks_full-Mirror, read_host_send_agent-Mirror,
}
use sosagent.Whole.Mirror.Deliver.{send_data_host-Mirror}
use sosagent.Whole.Mirror.Receive.{read_agent_send_host-Mirror}

module _ {env : Env} where
  close_idle_from-Mirror :
      (n i : ℕ) (w : World env (Client env.Table))
      → Mirror w
      → Post (λ _ w'. Mirror w') Anything (close_idle_from n i w)
  unfolding close_idle_from close
  close_idle_from-Mirror zero i w h = came_back h
  close_idle_from-Mirror (suc n) i w h = Post-check (get_elem? w.state.lanes i) w _ (λ l at.
      Post-if (l.packet.host_packet_size == 0) _ _ w
        (λ q.
          Post-and_then _ _
            (Post-check (get_elem? w.state.lanes i) _ _
              (λ m at'. came_back (Mirror-closing w i l m at at' h)))
            (λ x w' h'. close_idle_from-Mirror n (suc i) w' h'))
        (λ q. Post-and_then _ _ (close_idle_from-Mirror n (suc i) w h) (λ b w' h'. came_back h')))

  -- Where the loop goes on after its head.
  abbrev Going : Bool → World env (Client env.Table) → Type 0
  Going true w = Unit {0}
  Going false w = Mirror w

  going : (b : Bool) (w : World env (Client env.Table)) → Mirror w → Going b w
  going true w h = tt
  going false w h = h

  finished_at-Going :
      (q : Poll) (w : World env (Client env.Table))
      → Mirror w
      → Post Going Anything (finished_at q w)
  unfolding finished_at close
  finished_at-Going closed w h =
      Post-mono _ (close_idle_from-Mirror (length w.state.lanes) 0 w h) (λ b w' h'. going b w' h')
        (λ w' e. e)
  finished_at-Going q w h =
      Post-if (all_marked w.state.lanes && not (any_in_use w.state.queue_size w.state.lanes)) _ _ w
        (λ z. came_back tt) (λ z. came_back h)

  host_input-Mirror :
      (e : Event) (second : Pick) (w : World env (Client env.Table))
      → Mirror w
      → Post (λ _ w'. Mirror w') Anything (host_input e second w)
  unfolding host_input
  host_input-Mirror e pick_failed w h = gave_up tt
  host_input-Mirror e pick_none w h =
      Post-if e.error _ _ w (λ z. gave_up tt) (λ z. all_agents_socks_full-Mirror w h)
  host_input-Mirror e (pick a error) w h =
      Post-if error _ _ w (λ z. gave_up tt)
        (λ z. Post-and_then _ _ (read_host_send_agent-Mirror a w h) (λ x w' h'. came_back h'))

  agent_output-Mirror :
      (a : ℕ) (w : World env (Client env.Table))
      → Mirror w
      → Post (λ _ w'. Mirror w') Anything (agent_output a w)
  unfolding agent_output
  agent_output-Mirror a w h = Post-check (get_elem? w.state.lanes a) w _ (λ l at.
      Post-and_then _ _
        (Post-if (l.packet.host_packet_size == 0) _ _ w (λ q. not_all_agent_socks_full-Mirror w h)
          (λ q. came_back h))
        (λ x w' h'.
          Post-and_then _ _ (read_host_send_agent-Mirror a w' h') (λ y w'' h''. came_back h'')))

  unknown_event-Mirror :
      (e : Event) (w : World env (Client env.Table))
      → Post (λ _ w'. Mirror w') Anything (unknown_event e w)
  unfolding unknown_event free_client clean_up_connections close_agents_from close
  unknown_event-Mirror e w =
      Post-if e.error _ _ w
        (λ z.
          elim w.state.lanes
            as (λ ls.
              Post {A = Unit {0}} (λ _ w'. Mirror w') Anything
                (and_then (and_then (free_client w) (λ _. clean_up_connections (length ls)))
                  (λ _. exit))) [ [] ↦ gave_up tt | l ∷ ls ↦ faulted ])
        (λ z. gave_up tt)

  dispatch-Mirror :
      (e : Event) (from : Source) (second : Pick) (w : World env (Client env.Table))
      → Mirror w
      → Post (λ _ w'. Mirror w') Anything (dispatch e from second w)
  unfolding dispatch
  dispatch-Mirror e host_side second w h =
      Post-if e.input _ _ w (λ q. host_input-Mirror e second w h)
        (λ q.
          Post-if e.output _ _ w
            (λ q'.
              Post-and_then _ _ (send_data_host-Mirror true w.state.host_agent_id w h)
                (λ x w' h'. came_back h'))
            (λ q'. unknown_event-Mirror e w))
  dispatch-Mirror e (agent_side a) second w h =
      Post-if e.output _ _ w (λ q. agent_output-Mirror a w h)
        (λ q.
          Post-if e.input _ _ w
            (λ q'. Post-and_then _ _ (read_agent_send_host-Mirror a w h) (λ x w' h'. came_back h'))
            (λ q'. unknown_event-Mirror e w))

  handle-Mirror :
      (first : Wait) (second : Pick) (w : World env (Client env.Table))
      → Mirror w
      → Post (λ _ w'. Mirror w') Anything (handle first second w)
  unfolding handle
  handle-Mirror wait_failed second w h = gave_up tt
  handle-Mirror no_event second w h = came_back h
  handle-Mirror (ready e) second w h = dispatch-Mirror e e.source second w h

  transfer_turn-Mirror :
      (first : Wait) (second : Pick) (w : World env (Client env.Table))
      → Mirror w
      → Post (λ _ w'. Mirror w') Anything (transfer_turn first second w)
  unfolding transfer_turn
  transfer_turn-Mirror first second w h =
      Post-and_then _ _ (finished_at-Going w.state.host_fd_poll w h) (λ b w' g. go b w' g)
    where
      go :
          (b : Bool) (w' : World env (Client env.Table))
          → Going b w'
          → Post (λ _ v. Mirror v) Anything ((if b then exit else handle first second) w')
      go true w' g = gave_up tt
      go false w' g = handle-Mirror first second w' g

  pub poll_data_transfer-Mirror :
      (history : List (Wait × Pick)) (w : World env (Client env.Table))
      → Mirror w
      → Post (λ _ w'. Mirror w') Anything (poll_data_transfer history w)
  unfolding poll_data_transfer
  poll_data_transfer-Mirror [] w h = came_back h
  poll_data_transfer-Mirror ((first, second) ∷ rest) w h =
      Post-and_then _ _ (transfer_turn-Mirror first second w h)
        (λ x w' h'. poll_data_transfer-Mirror rest w' h')

-- ===== src/Whole/Mirror/Sending.antt =====
-- `all_agents_socks_full`, `not_all_agent_socks_full` (poll.c) and `read_host_send_agent` (network.c)
-- and the marks of the sockets.
use sosagent.Base.{ℕ, zero, suc, ◌+◌, ◌==◌, refl, List, [], ◌∷◌, length, get_elem?}
use sosagent.System.{
  Env, Errno, eagain, eshutdown, econnreset, Received, got, recv_failed, Sent, took, send_failed,
  client_event_pool, delete,
}
use sosagent.System.Outcome.{M, check}
use sosagent.System.Calls.{World, close}
use sosagent.System.Partial.{
  Post, came_back, gave_up, endless, Post-and_then, Post-check, Post-if, Post-in_chain,
  Post-epoll_ctl, Post-recv, Post-send,
}
use sosagent.Client.{Poll, off, in_only, out_only, in_and_out, closed, Client, Status}
use sosagent.Client.Access.{overwrite, rest_of}
use sosagent.Wire.{bytes_of, htonl}
use sosagent.Send.{
  watch_agent_output, agent_full, agent_lost, agent_refused, agent_answered, send_frame, drop_host,
  host_refused, load_frame, drop_host_at, host_answered, unwatch_agent_output, send_from,
  read_host_send_agent,
}
use sosagent.Watch.{
  stop_host_input, watch_all_from, all_agents_socks_full, start_host_input, rest_agent,
  rest_all_from, not_all_agent_socks_full,
}
use sosagent.Whole.Mirror.{
  Mirror, Anything, mark_agent-Mirror, mark_host-Mirror, Mirror-lane, Mirror-state, Mirror-recv,
  Mirror-send, Mirror-dropped,
}

module _ {env : Env} where
  watch_agent_output-Mirror :
      (a : ℕ) (q : Poll) (w : World env (Client env.Table))
      → Mirror w
      → Post (λ _ w'. Mirror w') Anything (watch_agent_output a q w)
  unfolding watch_agent_output
  watch_agent_output-Mirror a in_only w h = mark_agent-Mirror a _ _ w refl h
  watch_agent_output-Mirror a off w h = mark_agent-Mirror a _ _ w refl h
  watch_agent_output-Mirror a q w h = came_back h

  rest_agent-Mirror :
      (a : ℕ) (q : Poll) (w : World env (Client env.Table))
      → Mirror w
      → Post (λ _ w'. Mirror w') Anything (rest_agent a q w)
  unfolding rest_agent
  rest_agent-Mirror a in_and_out w h = mark_agent-Mirror a _ _ w refl h
  rest_agent-Mirror a out_only w h = mark_agent-Mirror a _ _ w refl h
  rest_agent-Mirror a q w h = came_back h

  watch_all_from-Mirror :
      (n i : ℕ) (w : World env (Client env.Table))
      → Mirror w
      → Post (λ _ w'. Mirror w') Anything (watch_all_from n i w)
  unfolding watch_all_from
  watch_all_from-Mirror zero i w h = came_back h
  watch_all_from-Mirror (suc n) i w h = Post-check (get_elem? w.state.lanes i) w _ (λ l at.
      Post-and_then _ _ (watch_agent_output-Mirror i l.agent_fd_poll w h)
        (λ _ w' h'. watch_all_from-Mirror n (suc i) w' h'))

  rest_all_from-Mirror :
      (n i : ℕ) (w : World env (Client env.Table))
      → Mirror w
      → Post (λ _ w'. Mirror w') Anything (rest_all_from n i w)
  unfolding rest_all_from
  rest_all_from-Mirror zero i w h = came_back h
  rest_all_from-Mirror (suc n) i w h = Post-check (get_elem? w.state.lanes i) w _ (λ l at.
      Post-and_then _ _
        (Post-if (l.packet.host_packet_size == 0) _ _ w
          (λ q. rest_agent-Mirror i l.agent_fd_poll w h) (λ q. came_back h))
        (λ _ w' h'. rest_all_from-Mirror n (suc i) w' h'))

  stop_host_input-Mirror :
      (q : Poll) (w : World env (Client env.Table))
      → Mirror w
      → Post (λ _ w'. Mirror w') Anything (stop_host_input q w)
  unfolding stop_host_input
  stop_host_input-Mirror in_and_out w h = mark_host-Mirror _ out_only w refl h
  stop_host_input-Mirror in_only w h = mark_host-Mirror _ off w refl h
  stop_host_input-Mirror q w h = came_back h

  start_host_input-Mirror :
      (q : Poll) (w : World env (Client env.Table))
      → Mirror w
      → Post (λ _ w'. Mirror w') Anything (start_host_input q w)
  unfolding start_host_input
  start_host_input-Mirror out_only w h = mark_host-Mirror _ in_and_out w refl h
  start_host_input-Mirror off w h = mark_host-Mirror _ in_only w refl h
  start_host_input-Mirror q w h = came_back h

  pub all_agents_socks_full-Mirror :
      (w : World env (Client env.Table))
      → Mirror w
      → Post (λ _ w'. Mirror w') Anything (all_agents_socks_full w)
  unfolding all_agents_socks_full
  all_agents_socks_full-Mirror w h =
      Post-and_then _ _ (stop_host_input-Mirror w.state.host_fd_poll w h)
        (λ _ w' h'. watch_all_from-Mirror _ 0 w' h')

  pub not_all_agent_socks_full-Mirror :
      (w : World env (Client env.Table))
      → Mirror w
      → Post (λ _ w'. Mirror w') Anything (not_all_agent_socks_full w)
  unfolding not_all_agent_socks_full
  not_all_agent_socks_full-Mirror w h =
      Post-and_then _ _ (start_host_input-Mirror w.state.host_fd_poll w h)
        (λ _ w' h'. rest_all_from-Mirror _ 0 w' h')

  unwatch_agent_output-Mirror :
      (a : ℕ) (q : Poll) (w : World env (Client env.Table))
      → Mirror w
      → Post (λ _ w'. Mirror w') Anything (unwatch_agent_output a q w)
  unfolding unwatch_agent_output
  unwatch_agent_output-Mirror a in_and_out w h = mark_agent-Mirror a _ _ w refl h
  unwatch_agent_output-Mirror a out_only w h = mark_agent-Mirror a _ _ w refl h
  unwatch_agent_output-Mirror a q w h = gave_up tt

  agent_lost-Mirror :
      (a : ℕ) (w : World env (Client env.Table))
      → Mirror w
      → Post (λ _ w'. Mirror w') Anything (agent_lost a w)
  unfolding agent_lost close
  agent_lost-Mirror a w h = Post-check (get_elem? w.state.lanes a) w _ (λ l at.
      Post-epoll_ctl client_event_pool delete l.agent_sock w _ tt (
        Post-in_chain (check (get_elem? w.state.lanes a) _) _ _ (
          Post-check (get_elem? w.state.lanes a) _ _
            (λ m at'. came_back (Mirror-dropped w a l m off at at' refl h)))))

  agent_refused-Mirror :
      (x : Errno) (a size count : ℕ) (w : World env (Client env.Table))
      → Mirror w
      → Post (λ _ w'. Mirror w') Anything (agent_refused x a size count w)
  unfolding agent_refused agent_full
  agent_refused-Mirror eagain a size count w h = Post-check (get_elem? w.state.lanes a) w _ (λ l at.
      Post-and_then _ _
        (watch_agent_output-Mirror a l.agent_fd_poll _ (Mirror-lane w a l _ at refl refl h))
        (λ _ w' h'. came_back h'))
  agent_refused-Mirror eshutdown a size count w h = agent_lost-Mirror a w h
  agent_refused-Mirror econnreset a size count w h = agent_lost-Mirror a w h
  agent_refused-Mirror x a size count w h = gave_up tt

  agent_answered-Mirror :
      (r : Sent) (a size count : ℕ) (again : ℕ → M (World env (Client env.Table)) Status)
      (w : World env (Client env.Table))
      → Mirror w
      → ((n : ℕ) (w' : World env (Client env.Table))
          → Mirror w'
          → Post (λ _ v. Mirror v) Anything (again n w'))
      → Post (λ _ w'. Mirror w') Anything (agent_answered r a size count again w)
  unfolding agent_answered
  agent_answered-Mirror (send_failed x) a size count again w h next =
      agent_refused-Mirror x a size count w h
  agent_answered-Mirror (took n) a size count again w h next =
      Post-check (get_elem? w.state.lanes a) w _ (λ l at.
        Post-if (count + n == size) _ _ w (λ q. came_back (Mirror-lane w a l _ at refl refl h))
          (λ q. next (count + n) _ (Mirror-lane w a l _ at refl refl h)))

  send_frame-Mirror :
      (fuel a size count : ℕ) (w : World env (Client env.Table))
      → Mirror w
      → Post (λ _ w'. Mirror w') Anything (send_frame fuel a size count w)
  unfolding send_frame
  send_frame-Mirror zero a size count w h = endless
  send_frame-Mirror (suc fuel) a size count w h =
      Post-check (get_elem? w.state.lanes a) w _ (λ l at.
        Post-check (rest_of l.packet.serialized_data count size) w _ (λ bytes e.
          Post-send l.agent_sock bytes w _ (
            agent_answered-Mirror _ a size count _ _ (Mirror-send l.agent_sock bytes w h)
              (λ n w' h'. send_frame-Mirror fuel a size n w' h'))))

  load_frame-Mirror :
      (a : ℕ) (bytes : List ℕ) (w : World env (Client env.Table))
      → Mirror w
      → Post (λ _ w'. Mirror w') Anything (load_frame a bytes w)
  unfolding load_frame
  load_frame-Mirror a bytes w h = Post-check (get_elem? w.state.lanes a) w _ (λ l at.
      Post-check (overwrite l.packet.serialized_data 8 bytes) w _ (λ with_payload e.
        Post-check
          (overwrite with_payload 0 (bytes_of env.order (htonl env.order (length bytes + 4)))) w _
          (λ with_size e'.
            Post-check (overwrite with_size 4 (bytes_of env.order w.state.send_seq)) w _
              (λ with_seq e''.
                came_back (Mirror-lane _ a l _ at refl refl (Mirror-state w _ refl refl refl h))))))

  drop_host-Mirror :
      (w : World env (Client env.Table))
      → Mirror w
      → Post (λ _ w'. Mirror w') Anything (drop_host w)
  unfolding drop_host
  drop_host-Mirror w h = mark_host-Mirror delete closed w refl h

  host_answered-Mirror :
      (r : Received) (a : ℕ) (w : World env (Client env.Table))
      → Mirror w
      → Post (λ _ w'. Mirror w') Anything (host_answered r a w)
  unfolding host_answered host_refused drop_host_at
  host_answered-Mirror (recv_failed eagain) a w h = came_back h
  host_answered-Mirror (recv_failed eshutdown) a w h =
      Post-and_then (drop_host w) _ (drop_host-Mirror w h) (λ _ w' h'. came_back h')
  host_answered-Mirror (recv_failed econnreset) a w h =
      Post-and_then (drop_host w) _ (drop_host-Mirror w h) (λ _ w' h'. came_back h')
  host_answered-Mirror (recv_failed x) a w h = gave_up tt
  host_answered-Mirror (got []) a w h =
      Post-and_then (drop_host_at w.state.host_fd_poll w) _ (dropped w.state.host_fd_poll)
        (λ _ w' h'. came_back h')
    where
      dropped : (q : Poll) → Post (λ _ w'. Mirror w') Anything (drop_host_at q w)
      dropped off = came_back h
      dropped q = drop_host-Mirror w h
  host_answered-Mirror (got (b ∷ bs)) a w h =
      Post-and_then (load_frame a (b ∷ bs) w) _ (load_frame-Mirror a (b ∷ bs) w h)
        (λ _ w' h'. send_frame-Mirror _ a _ _ w' h')

  send_from-Mirror :
      (n a : ℕ) (w : World env (Client env.Table))
      → Mirror w
      → Post (λ _ w'. Mirror w') Anything (send_from n a w)
  unfolding send_from
  send_from-Mirror zero a w h =
      Post-recv w.state.host_sock _ w _
        (host_answered-Mirror _ a _ (Mirror-recv w.state.host_sock _ w h))
  send_from-Mirror (suc n) a w h = Post-check (get_elem? w.state.lanes a) w _ (λ l at.
      Post-and_then _ _ (unwatch_agent_output-Mirror a l.agent_fd_poll w h)
        (λ _ w' h'. send_frame-Mirror _ a _ _ w' h'))

  pub read_host_send_agent-Mirror :
      (a : ℕ) (w : World env (Client env.Table))
      → Mirror w
      → Post (λ _ w'. Mirror w') Anything (read_host_send_agent a w)
  unfolding read_host_send_agent
  read_host_send_agent-Mirror a w h =
      Post-check (get_elem? w.state.lanes a) w _
        (λ l at. send_from-Mirror l.packet.host_packet_size a w h)

-- ===== src/Whole/Sending/Marked.antt =====
-- The mark of the host's socket in `read_host_send_agent` (network.c).
use sosagent.Base.{
  ℕ, zero, suc, ◌+◌, ◌-◌, ◌%◌, ◌^◌, ◌==◌, ◌≡◌, refl, inl, inr, ◌⊎◌, List, [], ◌∷◌, some, length,
  get_elem?,
}
use sosagent.System.{
  Env, Errno, eagain, eshutdown, econnreset, Received, got, recv_failed, Sent, took, send_failed,
  client_event_pool, Ctl, delete,
}
use sosagent.System.Outcome.{M, and_then}
use sosagent.System.Calls.{World, epoll_ctl, close}
use sosagent.System.Partial.{
  Post, came_back, gave_up, endless, Post-and_then, Post-check, Post-if, Post-mono, Post-epoll_ctl,
  Post-send, Post-recv,
}
use sosagent.Client.{Poll, off, in_only, Lane, Client, Status}
use sosagent.Client.Access.{lane, set_agent_fd_poll, overwrite, rest_of}
use sosagent.Send.{
  watch_agent_output, agent_full, agent_lost, agent_refused, agent_answered, send_frame, drop_host,
  host_refused, load_frame, drop_host_at, host_answered, send_from, read_host_send_agent,
}
use sosagent.Wire.{bytes_of, htonl}

-- Answers of `recv` after which the host's connection is given up.
pub data Ended : Received → Type 0 where
  at_end : Ended (got [])
  shut_down : Ended (recv_failed eshutdown)
  was_reset : Ended (recv_failed econnreset)

module _ {env : Env} (a : ℕ) (w₀ : World env (Client env.Table)) where
  abbrev Marked : World env (Client env.Table) → Type 0
  Marked w = w.state.host_fd_poll ≡ w₀.state.host_fd_poll

  abbrev Anything : World env (Client env.Table) → Type 0
  Anything w = Unit {0}

  mark_agent-Marked :
      (c : Ctl) (q : Poll) (w : World env (Client env.Table))
      → Marked w
      → Post
          (λ _ w'. Marked w')
          Anything
          (and_then (lane a w) (λ l v.
            and_then (epoll_ctl client_event_pool c l.agent_sock v) (λ _. set_agent_fd_poll a q)))
  mark_agent-Marked c q w h = Post-check (get_elem? w.state.lanes a) w _ (λ l at.
      Post-epoll_ctl client_event_pool c l.agent_sock w _ tt
        (Post-check (get_elem? w.state.lanes a) _ _ (λ m at'. came_back h)))

  watch-Marked :
      (q : Poll) (w : World env (Client env.Table))
      → Marked w
      → Post (λ _ w'. Marked w') Anything (watch_agent_output a q w)
  unfolding watch_agent_output
  watch-Marked in_only w h = mark_agent-Marked _ _ w h
  watch-Marked off w h = mark_agent-Marked _ _ w h
  watch-Marked q w h = came_back h

  lost-Marked :
      (w : World env (Client env.Table))
      → Marked w
      → Post (λ _ w'. Marked w') Anything (agent_lost a w)
  unfolding agent_lost close
  lost-Marked w h = Post-check (get_elem? w.state.lanes a) w _ (λ l at.
      Post-epoll_ctl client_event_pool delete l.agent_sock w _ tt (
        Post-and_then _ _
          (Post-check {Q = λ _ w'. Marked w'} (get_elem? w.state.lanes a) _ _
            (λ m at'. came_back h))
          (λ _ w' h'. came_back h')))

  refused-Marked :
      (x : Errno) (size count : ℕ) (w : World env (Client env.Table))
      → Marked w
      → Post (λ _ w'. Marked w') Anything (agent_refused x a size count w)
  unfolding agent_refused agent_full
  refused-Marked eagain size count w h =
      Post-check (get_elem? w.state.lanes a) w _
        (λ l at. Post-and_then _ _ (watch-Marked l.agent_fd_poll _ h) (λ _ w' h'. came_back h'))
  refused-Marked eshutdown size count w h = lost-Marked w h
  refused-Marked econnreset size count w h = lost-Marked w h
  refused-Marked x size count w h = gave_up tt

  answered-Marked :
      (r : Sent) (size count : ℕ) (again : ℕ → M (World env (Client env.Table)) Status)
      (w : World env (Client env.Table))
      → Marked w
      → ((n : ℕ) (w' : World env (Client env.Table))
          → Marked w'
          → Post (λ _ v. Marked v) Anything (again n w'))
      → Post (λ _ w'. Marked w') Anything (agent_answered r a size count again w)
  unfolding agent_answered
  answered-Marked (send_failed x) size count again w h next = refused-Marked x size count w h
  answered-Marked (took n) size count again w h next =
      Post-check (get_elem? w.state.lanes a) w _
        (λ l at. Post-if (count + n == size) _ _ w (λ q. came_back h) (λ q. next (count + n) _ h))

  send_frame-Marked :
      (fuel size count : ℕ) (w : World env (Client env.Table))
      → Marked w
      → Post (λ _ w'. Marked w') Anything (send_frame fuel a size count w)
  unfolding send_frame
  send_frame-Marked zero size count w h = endless
  send_frame-Marked (suc fuel) size count w h = Post-check (get_elem? w.state.lanes a) w _ (λ l at.
      Post-check (rest_of l.packet.serialized_data count size) w _ (λ bytes e.
        Post-send l.agent_sock bytes w _
          (answered-Marked _ size count _ _ h (λ n w' h'. send_frame-Marked fuel size n w' h'))))

  load_frame-Marked :
      (bytes : List ℕ) (w : World env (Client env.Table))
      → Marked w
      → Post (λ _ w'. Marked w') Anything (load_frame a bytes w)
  unfolding load_frame
  load_frame-Marked bytes w h = Post-check (get_elem? w.state.lanes a) w _ (λ l at.
      Post-check (overwrite l.packet.serialized_data 8 bytes) w _ (λ with_payload e.
        Post-check
          (overwrite with_payload 0 (bytes_of env.order (htonl env.order (length bytes + 4)))) w _
          (λ with_size e'.
            Post-check (overwrite with_size 4 (bytes_of env.order w.state.send_seq)) w _
              (λ with_seq e''. came_back h))))

  drop_host-Marked :
      (r : Received) (w : World env (Client env.Table))
      → Ended r
      → Post (λ _ w'. Marked w' ⊎ Ended r) Anything (drop_host w)
  unfolding drop_host
  drop_host-Marked r w e =
      Post-epoll_ctl client_event_pool delete w.state.host_sock w _ tt (came_back (inr e))

  host_answered-Marked :
      (r : Received) (w : World env (Client env.Table))
      → Marked w
      → Post (λ _ w'. Marked w' ⊎ Ended r) Anything (host_answered r a w)
  unfolding host_answered host_refused drop_host_at
  host_answered-Marked (recv_failed eagain) w h = came_back (inl h)
  host_answered-Marked (recv_failed eshutdown) w h =
      Post-and_then (drop_host w) _ (drop_host-Marked _ w shut_down) (λ _ w' h'. came_back h')
  host_answered-Marked (recv_failed econnreset) w h =
      Post-and_then (drop_host w) _ (drop_host-Marked _ w was_reset) (λ _ w' h'. came_back h')
  host_answered-Marked (recv_failed x) w h = gave_up tt
  host_answered-Marked (got []) w h =
      Post-and_then (drop_host_at w.state.host_fd_poll w) _ (dropped w.state.host_fd_poll)
        (λ _ w' h'. came_back h')
    where
      dropped : (q : Poll) → Post (λ _ w'. Marked w' ⊎ Ended (got [])) Anything (drop_host_at q w)
      dropped off = came_back (inr at_end)
      dropped q = drop_host-Marked _ w at_end
  host_answered-Marked (got (b ∷ bs)) w h =
      Post-and_then (load_frame a (b ∷ bs) w) _ (load_frame-Marked (b ∷ bs) w h)
        (λ _ w' h'. Post-mono _ (send_frame-Marked _ _ _ w' h') (λ _ v k. inl k) (λ v e. e))

-- With no packet under way the mark of the host's socket stays as it was, or the host's answer is one
-- after which its connection is given up.
pub read_host_send_agent-Marked :
    {env : Env} (a : ℕ) (l : Lane) (w : World env (Client env.Table))
    → get_elem? w.state.lanes a ≡ some l
    → l.packet.host_packet_size ≡ 0
    → Post
        (λ _ w'.
          (w'.state.host_fd_poll ≡ w.state.host_fd_poll)
          ⊎ Ended
              (env.recv_call w.kernel w.state.host_sock
                ((w.state.buffer_size + 2 ^ 64 - 8) % 2 ^ 64)).0)
        (λ w'. Unit {0})
        (read_host_send_agent a w)
unfolding read_host_send_agent send_from
read_host_send_agent-Marked a l w at free =
    rw (at, free) (Post-recv w.state.host_sock _ w _ (host_answered-Marked a w _ _ refl))

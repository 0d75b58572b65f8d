-- ===== src/Whole/Mirror/Deliver.antt =====
-- `send_data_host` (network.c) and the marks of the sockets.
use sosagent.Base.{
  ℕ, zero, suc, ◌+◌, ◌-◌, ◌%◌, ◌^◌, ◌==◌, refl, Bool, true, false, Option, none, some, get_elem?,
  set,
}
use sosagent.System.{
  Env, Errno, eagain, eshutdown, econnreset, epipe, Sent, took, send_failed, client_event_pool,
  delete,
}
use sosagent.System.Outcome.{M}
use sosagent.System.Calls.{World, close}
use sosagent.System.Partial.{
  Post, came_back, gave_up, endless, Post-and_then, Post-check, Post-if, Post-epoll_ctl, Post-send,
}
use sosagent.Client.{Poll, off, in_only, out_only, in_and_out, closed, Lane, Client, Status}
use sosagent.Client.Access.{slot_at, put_slot, slice, as_size_t}
use sosagent.Client.Slots.{slot_count}
use sosagent.Deliver.{
  SendEnd, gone, full, lost, left_over, watch_host, host_full, host_lost, send_refused, watch_agent,
  packet_gone, send_answered, send_packet, send_found, packet_ended, deliver, unwatch_host,
  send_data_host,
}
use sosagent.Whole.Mirror.{
  Mirror, Anything, mark_agent-Mirror, mark_host-Mirror, Mirror-lane, Mirror-slot, Mirror-state,
  Mirror-send, Mirror-mark_host, Mirror-close_host,
}

module _ {env : Env} where
  watch_host-Mirror :
      (q : Poll) (w : World env (Client env.Table))
      → Mirror w
      → Post (λ _ w'. Mirror w') Anything (watch_host q w)
  unfolding watch_host
  watch_host-Mirror in_only w h = mark_host-Mirror _ in_and_out w refl h
  watch_host-Mirror off w h = mark_host-Mirror _ out_only w refl h
  watch_host-Mirror q w h = gave_up tt

  unwatch_host-Mirror :
      (q : Poll) (w : World env (Client env.Table))
      → Mirror w
      → Post (λ _ w'. Mirror w') Anything (unwatch_host q w)
  unfolding unwatch_host
  unwatch_host-Mirror in_and_out w h = mark_host-Mirror _ in_only w refl h
  unwatch_host-Mirror out_only w h = mark_host-Mirror _ off w refl h
  unwatch_host-Mirror q w h = came_back h

  watch_agent-Mirror :
      (a : ℕ) (q : Poll) (w : World env (Client env.Table))
      → Mirror w
      → Post (λ _ w'. Mirror w') Anything (watch_agent a q w)
  unfolding watch_agent
  watch_agent-Mirror a out_only w h = mark_agent-Mirror a _ _ w refl h
  watch_agent-Mirror a off w h = mark_agent-Mirror a _ _ w refl h
  watch_agent-Mirror a q w h = came_back h

  host_lost-Mirror :
      (w : World env (Client env.Table))
      → Mirror w
      → Post (λ _ w'. Mirror w') Anything (host_lost w)
  unfolding host_lost close
  host_lost-Mirror w h =
      Post-epoll_ctl client_event_pool delete w.state.host_sock w _ tt
        (came_back (Mirror-close_host _ refl (Mirror-mark_host w _ delete closed refl h)))

  send_refused-Mirror :
      (x : Errno) (a i count : ℕ) (w : World env (Client env.Table))
      → Mirror w
      → Post (λ _ w'. Mirror w') Anything (send_refused x a i count w)
  unfolding send_refused host_full
  send_refused-Mirror eagain a i count w h = Post-check (slot_at w.state.lanes a i) w _ (λ s at.
      Post-and_then _ _
        (watch_host-Mirror w.state.host_fd_poll _ (
          Mirror-state _ _ refl refl refl
            (Mirror-slot w a i (record s { host_sent_size = count }) h)))
        (λ _ w' h'. came_back h'))
  send_refused-Mirror eshutdown a i count w h = host_lost-Mirror w h
  send_refused-Mirror econnreset a i count w h = host_lost-Mirror w h
  send_refused-Mirror epipe a i count w h = host_lost-Mirror w h
  send_refused-Mirror x a i count w h = gave_up tt

  packet_gone-Mirror :
      (a i count : ℕ) (w : World env (Client env.Table))
      → Mirror w
      → Post (λ _ w'. Mirror w') Anything (packet_gone a i count w)
  unfolding packet_gone
  packet_gone-Mirror a i count w h = Post-check (get_elem? w.state.lanes a) _ _ (λ l at.
      Post-check (slot_at (set w.state.lanes a (fewer l)) a i) _ _ (λ s at_s.
        Post-check
          (get_elem?
            (put_slot (set w.state.lanes a (fewer l)) a i (record s { size = 0; in_use = false }))
            a)
          _ _
          (λ l' at'.
            Post-and_then _ _
              (watch_agent-Mirror a l'.agent_fd_poll _ (
                Mirror-state _ _ refl refl refl (
                  Mirror-slot _ a i (record s { size = 0; in_use = false })
                    (Mirror-lane w a l (fewer l) at refl refl h))))
              (λ _ w' h'. came_back h'))))
    where
      fewer : Lane → Lane
      fewer l = record l {
        agent_packet_queue_count = (l.agent_packet_queue_count + 2 ^ 32 - 1) % 2 ^ 32;
      }

  send_answered-Mirror :
      (r : Sent) (size a i count : ℕ) (again : ℕ → M (World env (Client env.Table)) SendEnd)
      (w : World env (Client env.Table))
      → Mirror w
      → ((n : ℕ) (v : World env (Client env.Table))
          → Mirror v
          → Post (λ _ v'. Mirror v') Anything (again n v))
      → Post (λ _ w'. Mirror w') Anything (send_answered r size a i count again w)
  unfolding send_answered
  send_answered-Mirror (send_failed x) size a i count again w h next =
      send_refused-Mirror x a i count w h
  send_answered-Mirror (took n) size a i count again w h next =
      Post-if (count + n == (as_size_t size + 2 ^ 64 - 4) % 2 ^ 64) _ _ w
        (λ q. packet_gone-Mirror a i (count + n) w h) (λ q. next (count + n) w h)

  send_packet-Mirror :
      (fuel a i count : ℕ) (w : World env (Client env.Table))
      → Mirror w
      → Post (λ _ w'. Mirror w') Anything (send_packet fuel a i count w)
  unfolding send_packet
  send_packet-Mirror zero a i count w h = endless
  send_packet-Mirror (suc fuel) a i count w h = Post-check (slot_at w.state.lanes a i) w _ (λ s at.
      Post-check (slice s.serialized_data (4 + count) (left_over s.size count)) w _ (λ bytes e.
        Post-send w.state.host_sock bytes w _ (
          send_answered-Mirror _ s.size a i count _ _ (Mirror-send w.state.host_sock bytes w h)
            (λ n v m. send_packet-Mirror fuel a i n v m))))

  abbrev GoesOn : (ℕ → ℕ → ℕ → M (World env (Client env.Table)) Status) → Type 0
  GoesOn again =
      (a i count : ℕ) (w : World env (Client env.Table))
      → Mirror w
      → Post (λ _ w'. Mirror w') Anything (again a i count w)

  send_found-Mirror :
      (o : Option (ℕ × ℕ)) (again : ℕ → ℕ → ℕ → M (World env (Client env.Table)) Status)
      (w : World env (Client env.Table))
      → GoesOn again
      → Mirror w
      → Post (λ _ w'. Mirror w') Anything (send_found o again w)
  unfolding send_found
  send_found-Mirror none again w next h = came_back h
  send_found-Mirror (some (b, j)) again w next h =
      Post-check (slot_at w.state.lanes b j) w _
        (λ t at. next t.agent_id t.packet_index 0 _ (Mirror-state w _ refl refl refl h))

  packet_ended-Mirror :
      (e : SendEnd) (again : ℕ → ℕ → ℕ → M (World env (Client env.Table)) Status)
      (w : World env (Client env.Table))
      → GoesOn again
      → Mirror w
      → Post (λ _ w'. Mirror w') Anything (packet_ended e again w)
  unfolding packet_ended
  packet_ended-Mirror gone again w next h = send_found-Mirror _ again w next h
  packet_ended-Mirror full again w next h = came_back h
  packet_ended-Mirror lost again w next h = came_back h

  deliver-Mirror : (fuel : ℕ) → GoesOn (deliver fuel)
  unfolding deliver
  deliver-Mirror zero a i count w h = endless
  deliver-Mirror (suc fuel) a i count w h = Post-check (slot_at w.state.lanes a i) w _ (λ s at.
      Post-and_then (send_packet (suc s.size) a i count w) _
        (send_packet-Mirror (suc s.size) a i count w h)
        (λ e w' h'. packet_ended-Mirror e (deliver fuel) w' (deliver-Mirror fuel) h'))

  pub send_data_host-Mirror :
      (b : Bool) (a : ℕ) (w : World env (Client env.Table))
      → Mirror w
      → Post (λ _ w'. Mirror w') Anything (send_data_host b a w)
  unfolding send_data_host
  send_data_host-Mirror false a w h = deliver-Mirror _ a _ 0 w h
  send_data_host-Mirror true a w h =
      Post-and_then (unwatch_host w.state.host_fd_poll w) _
        (unwatch_host-Mirror w.state.host_fd_poll w h)
        (λ _ v m.
          Post-check (slot_at v.state.lanes a w.state.agent_packet_index_out) v _
            (λ s at. deliver-Mirror (suc (slot_count w.state.lanes)) a _ _ v m))

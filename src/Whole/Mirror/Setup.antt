-- ===== src/Whole/Mirror/Setup.antt =====
-- `configure_poll` (network.c) and the loop after it (poll.c): the marks of the sockets and the poll set.
use sosagent.Base.{
  ℕ, zero, suc, ◌+◌, arith, ◌≡◌, refl, subst, List, none, some, length, get_elem?, set,
}
use sosagent.System.{Env, client_event_pool, event_poll_out_agent, event_poll_out_host, add}
use sosagent.System.Outcome.{check, Outcome, ret, exited, and_then}
use sosagent.System.Calls.{World}
use sosagent.System.Partial.{
  Post, came_back, gave_up, faulted, endless, Post-and_then, Post-check, Post-in_chain,
  Post-epoll_ctl,
}
use sosagent.Client.{in_only, Slot, Client}
use sosagent.Deliver.{readable, writable}
use sosagent.Transfer.{Wait, Pick, poll_data_transfer}
use sosagent.Transfer.Setup.{malloc, new_slots, new_lanes, poll_lanes, configure_poll}
use sosagent.Whole.Registered.{registered}
use sosagent.Whole.Mirror.{Mirror, Anything}
use sosagent.Whole.Mirror.Polled.{
  Different, Bare, Bare-lane, Polled, Polled-host, Polled-agent, Polled-Mirror,
}
use sosagent.Whole.Mirror.Turns.{poll_data_transfer-Mirror}

module _ {env : Env} where
  -- Nothing is registered yet, and the host's socket is `h`.
  abbrev Start : ℕ → ℕ → World env (Client env.Table) → Type 0
  Start h n w = Bare h n w.state w.trace

  malloc-Start :
      (h n size : ℕ) (w : World env (Client env.Table))
      → Start h n w
      → Post (λ _ w'. Start h n w') Anything (malloc size w)
  unfolding malloc
  malloc-Start h n size w d =
      elim (env.malloc_call w.kernel size).0
        as (λ r.
          Post (λ _ w'. Start h n w') Anything
            (elim r [
              | none ↦ exited (record w { kernel = (env.malloc_call w.kernel size).1 })
              | some bytes ↦ ret bytes (record w { kernel = (env.malloc_call w.kernel size).1 })
            ])) [ none ↦ gave_up tt | some bytes ↦ came_back d ]

  new_slots-Start :
      (h n : ℕ) (junk : Slot) (m size : ℕ) (w : World env (Client env.Table))
      → Start h n w
      → Post (λ _ w'. Start h n w') Anything (new_slots junk m size w)
  unfolding new_slots
  new_slots-Start h n junk zero size w d = came_back d
  new_slots-Start h n junk (suc m) size w d =
      Post-and_then _ _ (malloc-Start h n size w d) (λ bytes v b.
        Post-and_then _ _ (new_slots-Start h n junk m size v b) (λ rest v' b'. came_back b'))

  new_lanes-Start :
      (h n : ℕ) (junk : Slot) (m i : ℕ) (w : World env (Client env.Table))
      → Start h n w
      → Post (λ _ w'. Start h n w') Anything (new_lanes junk m i w)
  unfolding new_lanes
  new_lanes-Start h n junk zero i w d = came_back d
  new_lanes-Start h n junk (suc m) i w d =
      Post-and_then _ _ (malloc-Start h n w.state.buffer_size w d) (λ bytes v b.
        Post-and_then _ _ (new_slots-Start h n junk w.state.queue_size w.state.buffer_size v b)
          (λ slots v' b'. Post-check (get_elem? v'.state.lanes i) v' _ (λ l at.
            new_lanes-Start h n junk m (suc i) _
              (Bare-lane h n v'.state v'.trace i l _ at refl b'))))

  poll_lanes-Mirror :
      (h n m i : ℕ) (w : World env (Client env.Table))
      → i + m ≡ n
      → Polled h n i w.state w.trace
      → Post (λ _ w'. Mirror w') Anything (poll_lanes m i w)
  unfolding poll_lanes
  poll_lanes-Mirror h n zero i w all b = came_back (Polled-Mirror h n i w (omega (arith, all)) b)
  poll_lanes-Mirror h n (suc m) i w all b =
      Post-in_chain (check (get_elem? w.state.lanes i) w) _ _ (
        Post-check (get_elem? w.state.lanes i) w _ (λ l at.
          Post-check (get_elem? (set w.state.lanes i (record l { agent_fd_poll = in_only })) i) _ _
            (λ x at'. Post-epoll_ctl client_event_pool (add readable) x.agent_sock _ _ tt (
              Post-epoll_ctl event_poll_out_agent (add writable) x.agent_sock _ _ tt (
                poll_lanes-Mirror h n m (suc i) _ (omega (arith, all))
                  (Polled-agent h n i w.state w.trace l x at at' b))))))

  configure_poll-Mirror :
      (junk : Slot) (w : World env (Client env.Table))
      → Start w.state.host_sock (length w.state.lanes) w
      → Post (λ _ w'. Mirror w') Anything (configure_poll junk w)
  unfolding configure_poll
  configure_poll-Mirror junk w b =
      Post-and_then _ _ (new_lanes-Start _ _ junk (length w.state.lanes) 0 w b) (λ x v b'.
        Post-epoll_ctl client_event_pool (add readable) w.state.host_sock _ _ tt (
          Post-epoll_ctl event_poll_out_host (add writable) w.state.host_sock _ _ tt (
            poll_lanes-Mirror w.state.host_sock (length w.state.lanes) (length w.state.lanes) 0 _
              (omega arith)
              (Polled-host w.state.host_sock (length w.state.lanes) v.state v.trace b'))))

  returned :
      (o : Outcome (World env (Client env.Table)) (Unit {0})) (w : World env (Client env.Table))
      → Post (λ _ w'. Mirror w') Anything o
      → o ≡ ret tt w
      → Mirror w
  returned o w q e = subst Returned e (of q)
    where
      Returned : Outcome (World env (Client env.Table)) (Unit {0}) → Type 0
      Returned (ret a s) = Mirror s
      Returned r = Unit {0}

      of :
          {r : Outcome (World env (Client env.Table)) (Unit {0})}
          → Post (λ _ w'. Mirror w') Anything r
          → Returned r
      of (came_back d) = d
      of (gave_up d) = tt
      of faulted = tt
      of endless = tt

  -- Let no socket be registered in the poll set of the transfer, as is so before `configure_poll`,
  -- whatever the marks say then (they say IN), and let all the sockets of the transfer be different.
  -- Then in every state to which `configure_poll` and after it a history of events lead, `host_fd_poll`
  -- and the `agent_fd_poll` of each connection say what its socket is registered for in that poll set,
  -- whatever the events and the answers of the machine are.
  pub transfer-Mirror :
      (junk : Slot) (history : List (Wait × Pick)) (w w' : World env (Client env.Table))
      → ((fd : ℕ) → registered fd w.trace ≡ none)
      → Different w.state.host_sock w.state.lanes
      → and_then (configure_poll junk w) (λ _. poll_data_transfer history) ≡ ret tt w'
      → Mirror w'
  transfer-Mirror junk history w w' nothing different e =
      returned _ w'
        (Post-and_then _ _
          (configure_poll-Mirror junk w
            (record { host_sock = refl; different = different; count = refl; nothing = nothing }))
          (λ x v m. poll_data_transfer-Mirror history v m))
        e

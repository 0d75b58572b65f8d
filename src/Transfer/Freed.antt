-- ===== src/Transfer/Freed.antt =====
-- An event with EPOLLERR alone (`poll_data_transfer`, poll.c; `free_client`, `clean_up_connections`,
-- network.c): the sockets are closed after their array has been freed.
use sosagent.Base.{◌≡◌, refl, true, false, List, ◌∷◌}
use sosagent.System.{Env}
use sosagent.System.Outcome.{fault}
use sosagent.System.Calls.{World, close}
use sosagent.Client.{Lane, Client}
use sosagent.Transfer.{
  Source, host_side, agent_side, Event, Pick, free_client, close_agents_from, clean_up_connections,
  unknown_event, dispatch,
}

module _ {env : Env} where
  unknown_event-Freed :
      (e : Event) (l : Lane) (ls : List Lane) (w : World env (Client env.Table))
      → e.error ≡ true
      → w.state.lanes ≡ l ∷ ls
      → unknown_event e w ≡ fault
  unfolding unknown_event free_client clean_up_connections close_agents_from close
  unknown_event-Freed e l ls w err at = rw (err, at) refl

  -- Where a client has a connection, an event that is neither input nor output but has EPOLLERR leads
  -- to undefined behaviour, whatever its source is.
  pub dispatch-Freed :
      (e : Event) (from : Source) (second : Pick) (l : Lane) (ls : List Lane)
      (w : World env (Client env.Table))
      → e.input ≡ false
      → e.output ≡ false
      → e.error ≡ true
      → w.state.lanes ≡ l ∷ ls
      → dispatch e from second w ≡ fault
  unfolding dispatch
  dispatch-Freed e host_side second l ls w no_in no_out err at =
      simp (no_in, no_out) (unknown_event-Freed e l ls w err at)
  dispatch-Freed e (agent_side a) second l ls w no_in no_out err at =
      simp (no_in, no_out) (unknown_event-Freed e l ls w err at)

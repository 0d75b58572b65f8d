-- ===== src/Receive/Dropped.antt =====
-- How `read_agent_send_host` (network.c) gives a connection up.
use sosagent.Base.{ℕ, ◌≡◌, refl, some, get_elem?, List, ◌∷◌, get_elem?-set_self}
use sosagent.System.{client_event_pool, Ctl, delete, control, closed_fd, Action, Env}
use sosagent.System.Outcome.{M, Ensures, and_then, in_chain}
use sosagent.System.Calls.{World, stream, epoll_ctl}
use sosagent.System.Rules.{after_epoll_ctl_exactly}
use sosagent.Client.{Poll, off, closed, Lane, Client}
use sosagent.Client.Access.{slot_at}
use sosagent.Client.Slots.{slot_at-set_lane}
use sosagent.Receive.{drop_agent, drop_agent_at}
use sosagent.Receive.Gather.{Upkeep, Still, Still-lane}

-- Where the code exits nothing has been sent.
abbrev pub Unsent :
    {env : Env} → World env (Client env.Table) → World env (Client env.Table) → Type 0
Unsent w₀ w = (fd : ℕ) → stream fd w.trace ≡ stream fd w₀.trace

module _ {env : Env} (J : env.Kernel → List Action → Type 0) (a i : ℕ)
    (w₀ : World env (Client env.Table)) where
  -- A call on the poll set, and a socket that is closed.
  Still-ctl :
      (up : Upkeep env J) (w : World env (Client env.Table)) (c : Ctl) (on : ℕ)
      → Still J a i w₀ w
      → Still J a i w₀ (record w {
        kernel = (env.ctl_call w.kernel client_event_pool c on).1;
        trace = control client_event_pool c on ∷ w.trace;
      })
  unfolding stream
  Still-ctl up w c on h = record {
    only_lanes = h.only_lanes;
    quiet = h.quiet;
    agree = h.agree;
    others = h.others;
    kept = up.on_ctl w.kernel w.trace client_event_pool c on h.kept;
  }

  pub Still-close :
      (up : Upkeep env J) (w : World env (Client env.Table)) (fd : ℕ)
      → Still J a i w₀ w
      → Still J a i w₀ (record w { trace = closed_fd fd ∷ w.trace })
  unfolding stream
  Still-close up w fd h = record {
    only_lanes = h.only_lanes;
    quiet = h.quiet;
    agree = h.agree;
    others = h.others;
    kept = up.on_close w.kernel w.trace fd h.kept;
  }

  -- What is left of the connection and its slot when it is given up.
  abbrev pub Next :
      {B : Type 0} (P : B → World env (Client env.Table) → Type 0)
      (w : World env (Client env.Table)) (f : Unit {0} → M (World env (Client env.Table)) B)
      → Type 0
  Next P w f =
      (w' : World env (Client env.Table)) (l' : Lane)
      → get_elem? w'.state.lanes a ≡ some l'
      → l'.agent_fd_poll ≡ closed
      → slot_at w'.state.lanes a i ≡ slot_at w.state.lanes a i
      → Still J a i w₀ w'
      → Ensures P (Unsent w₀) (f tt w')

  module _ {B : Type 0} {P : B → World env (Client env.Table) → Type 0} (up : Upkeep env J) where
    pub drop_agent-Still :
        (w : World env (Client env.Table)) (l : Lane)
        (f : Unit {0} → M (World env (Client env.Table)) B)
        → get_elem? w.state.lanes a ≡ some l
        → Still J a i w₀ w
        → Next P w f
        → Ensures P (Unsent w₀) (and_then (drop_agent a w) f)
    unfolding drop_agent stream
    drop_agent-Still w l f at h next = rw at (
        in_chain (epoll_ctl client_event_pool delete l.agent_sock w) _ f (
          after_epoll_ctl_exactly client_event_pool delete l.agent_sock w _
            (rw at (
              next _ (record l { agent_fd_poll = closed })
                (get_elem?-set_self w.state.lanes a _ l at) refl
                (slot_at-set_lane w.state.lanes a a i l (record l { agent_fd_poll = closed }) at
                  refl)
                (Still-lane J a i w₀ _ l (record l { agent_fd_poll = closed }) at refl
                  (Still-ctl up w delete l.agent_sock h))))
            h.quiet))

    pub drop_agent_at-Still :
        (q : Poll) (w : World env (Client env.Table)) (l : Lane)
        (f : Unit {0} → M (World env (Client env.Table)) B)
        → get_elem? w.state.lanes a ≡ some l
        → Still J a i w₀ w
        → Next P w f
        → Ensures P (Unsent w₀) (and_then (drop_agent_at a q w) f)
    unfolding drop_agent_at
    drop_agent_at-Still off w l f at h next = rw at (
        next _ (record l { agent_fd_poll = closed }) (get_elem?-set_self w.state.lanes a _ l at)
          refl
          (slot_at-set_lane w.state.lanes a a i l (record l { agent_fd_poll = closed }) at refl)
          (Still-lane J a i w₀ w l (record l { agent_fd_poll = closed }) at refl h))
    drop_agent_at-Still q w l f at h next = drop_agent-Still w l f at h next

-- ===== src/Whole/Reached.antt =====
-- The states that turns of `poll_data_transfer` (poll.c) without input of a connection lead to.
use sosagent.Base.{ℕ, ◌≡◌, ap, sym, subst, ◌∙◌, true, false, false≢true, List}
use sosagent.System.{Env}
use sosagent.System.Laws.{IsTable, IsPosix}
use sosagent.System.Outcome.{Outcome, ret, exited}
use sosagent.System.Calls.{World}
use sosagent.System.Partial.{
  Post, came_back, gave_up, faulted, endless, Post-and_then, Post-if, Post-Ensures,
}
use sosagent.Client.{has_out, Client}
use sosagent.Receive.Tcp.{IsTcp}
use sosagent.Transfer.{
  Source, host_side, agent_side, Event, Wait, wait_failed, no_event, ready, Pick, dispatch, handle,
  transfer_turn,
}
use sosagent.Whole.Delivering.{Prefix, Steady, Steady-Prefix}
use sosagent.Whole.Turns.{
  send_data_host-Steady, host_input-On, agent_output-On, unknown_event-Out, Headed,
  finished_at-Headed,
}

-- An answer of `epoll_wait` that can come in state `w`, and that brings no input of a connection:
-- EPOLLOUT of the host's socket comes only where it is asked for.
abbrev pub FitsFrom : {env : Env} → Event → Source → World env (Client env.Table) → Type 0
FitsFrom e host_side w = e.input ≡ false → e.output ≡ true → has_out w.state.host_fd_poll ≡ true
FitsFrom e (agent_side a) w = e.output ≡ false → e.input ≡ false

abbrev pub Fits : {env : Env} → Wait → World env (Client env.Table) → Type 0
Fits wait_failed w = Unit {0}
Fits no_event w = Unit {0}
Fits (ready e) w = FitsFrom e e.source w

module _ {env : Env} (p : ℕ → List ℕ) {pending : env.Kernel → ℕ → List ℕ} (tcp : IsTcp env pending)
    (table : IsTable env) (posix : IsPosix env) (h : ℕ) where
  dispatch-Steady :
      (e : Event) (from : Source) (second : Pick) (w : World env (Client env.Table))
      → FitsFrom e from w
      → Steady p h w
      → Post (λ _ w'. Steady p h w') (Prefix p h) (dispatch e from second w)
  unfolding dispatch
  dispatch-Steady e host_side second w fits s =
      Post-if e.input _ _ w (λ q. host_input-On p tcp table posix h e second w s)
        (λ q.
          Post-if e.output _ _ w
            (λ q'.
              Post-and_then _ _
                (Post-Ensures (send_data_host-Steady p tcp table posix h w s (fits q q')))
                (λ _ w' s'. came_back s'))
            (λ q'. unknown_event-Out p tcp table posix h e w s))
  dispatch-Steady e (agent_side a) second w fits s =
      Post-if e.output _ _ w (λ q. agent_output-On p tcp table posix h a w s)
        (λ q.
          Post-if e.input _ _ w (λ q'. absurd (false≢true (sym (fits q) ∙ q')))
            (λ q'. unknown_event-Out p tcp table posix h e w s))

  handle-Steady :
      (first : Wait) (second : Pick) (w₀ w : World env (Client env.Table))
      → Fits first w₀
      → Headed p tcp table posix h w₀ w
      → Post (λ _ v. Steady p h v) (Prefix p h) (handle first second w)
  unfolding handle
  handle-Steady wait_failed second w₀ w fits d = gave_up (Steady-Prefix p h w d.on)
  handle-Steady no_event second w₀ w fits d = came_back d.on
  handle-Steady (ready e) second w₀ w fits d =
      dispatch-Steady e e.source second w (still e.source fits) d.on
    where
      still : (from : Source) → FitsFrom e from w₀ → FitsFrom e from w
      still host_side f = λ q q'. ap has_out d.mark ∙ f q q'
      still (agent_side a) f = f

  transfer_turn-Steady :
      (first : Wait) (second : Pick) (w : World env (Client env.Table))
      → Fits first w
      → Steady p h w
      → Post (λ _ w'. Steady p h w') (Prefix p h) (transfer_turn first second w)
  unfolding transfer_turn
  transfer_turn-Steady first second w fits s =
      Post-and_then _ _ (finished_at-Headed p tcp table posix h w.state.host_fd_poll w s) (λ b w' d.
        Post-if b _ _ w' (λ q. gave_up (Steady-Prefix p h w' d.on))
          (λ q. handle-Steady first second w w' fits d))

abbrev ReturnedIn : {S : Type 0} → (S → Type 0) → Outcome S (Unit {0}) → Type 0
ReturnedIn P (ret a s) = P s
ReturnedIn P o = Unit {0}

abbrev ExitedIn : {S : Type 0} → (S → Type 0) → Outcome S (Unit {0}) → Type 0
ExitedIn P (exited s) = P s
ExitedIn P o = Unit {0}

module _ {env : Env} where
  -- The states to which turns without input of a connection lead from `w₀`.
  pub data Reached (w₀ : World env (Client env.Table)) : World env (Client env.Table) → Type 0 where
    start : Reached w₀ w₀
    turn :
        {w w' : World env (Client env.Table)} (first : Wait) (second : Pick)
        → Reached w₀ w
        → Fits first w
        → transfer_turn first second w ≡ ret tt w'
        → Reached w₀ w'

module _ {env : Env} (p : ℕ → List ℕ) {pending : env.Kernel → ℕ → List ℕ} (tcp : IsTcp env pending)
    (table : IsTable env) (posix : IsPosix env) (h : ℕ) where
  came_Steady :
      (o : Outcome (World env (Client env.Table)) (Unit {0})) (w : World env (Client env.Table))
      → Post (λ _ w'. Steady p h w') (Prefix p h) o
      → o ≡ ret tt w
      → Steady p h w
  came_Steady o w q e = subst (ReturnedIn (Steady p h)) e (of q)
    where
      of :
          {o : Outcome (World env (Client env.Table)) (Unit {0})}
          → Post (λ _ w'. Steady p h w') (Prefix p h) o
          → ReturnedIn (Steady p h) o
      of (came_back d) = d
      of (gave_up d) = tt
      of faulted = tt
      of endless = tt

  gave_Prefix :
      (o : Outcome (World env (Client env.Table)) (Unit {0})) (w : World env (Client env.Table))
      → Post (λ _ w'. Steady p h w') (Prefix p h) o
      → o ≡ exited w
      → Prefix p h w
  gave_Prefix o w q e = subst (ExitedIn (Prefix p h)) e (of q)
    where
      of :
          {o : Outcome (World env (Client env.Table)) (Unit {0})}
          → Post (λ _ w'. Steady p h w') (Prefix p h) o
          → ExitedIn (Prefix p h) o
      of (came_back d) = tt
      of (gave_up d) = d
      of faulted = tt
      of endless = tt

  Reached-Steady :
      (w₀ w : World env (Client env.Table)) → Steady p h w₀ → Reached w₀ w → Steady p h w
  Reached-Steady w₀ _ s start = s
  Reached-Steady w₀ w' s (turn {w} first second r fits e) =
      came_Steady _ w'
        (transfer_turn-Steady p tcp table posix h first second w fits (Reached-Steady w₀ w s r)) e

  -- Let the host be sent the stream in order, none of the connections' sockets be the host's, and the
  -- machine keep to its laws. Then in every state that turns of the loop without input of a connection
  -- lead to, and also where a turn from there exits, the host's socket has been sent a prefix of the
  -- payload stream. The turns are any that `epoll_wait` allows: EPOLLOUT of the host's socket only
  -- where it is asked for.
  pub Reached-Prefix :
      (w₀ w : World env (Client env.Table))
      → Steady p h w₀
      → Reached w₀ w
      → Prefix p h w
        × ((first : Wait) (second : Pick) (w' : World env (Client env.Table))
            → Fits first w
            → transfer_turn first second w ≡ exited w'
            → Prefix p h w')
  Reached-Prefix w₀ w s r =
      let now = Reached-Steady w₀ w s r in
      (
        Steady-Prefix p h w now,
        λ first second w' fits e.
            gave_Prefix _ w' (transfer_turn-Steady p tcp table posix h first second w fits now) e,
      )

-- ===== src/Agent/Connected.antt =====
-- The sockets of a client that is being connected: `handle_host_connected`,
-- `agent_connected_event` and `close_all_data_sockets` of OriginalAgentCodeC/network.c, and the test
-- for the time limit in `poll_loop` of OriginalAgentCodeC/poll.c.
use sosagent.Base.{
  ℕ, zero, suc, ◌+◌, ◌≤◌, ◌<◌, ltb, ltb→lt, ap, sym, ◌∙◌, ◌==◌, ◌≡◌, refl, if◌then◌else◌, Bool,
  true, false, ◌&&◌, not, Bool-cases, inl, inr, List, [], ◌∷◌, none, get_elem?, set, arith,
}
use sosagent.System.{Env, event_pool, delete, control}
use sosagent.System.Outcome.{M, Ensures, Ensures-mono, returns, ret, skip, check, ◌>>=◌, ◌>>◌}
use sosagent.System.Calls.{World, get, put, epoll_ctl, close}
use sosagent.System.Rules.{after_epoll_ctl}
use sosagent.Client.{Poll, off, in_only}
use sosagent.Agent.{Session}
use sosagent.Agent.Handshake.{send_uuid}

-- TIMEOUT of common.h, in seconds.
abbrev pub time_limit : ℕ
time_limit = 10

-- `(current_time.tv_sec - accept_start.tv_sec) > TIMEOUT`.
unfoldable pub is_expired : ℕ → Session → Bool
is_expired now s = ltb (s.accept_start + time_limit) (now + s.taken_off)

-- `accept_start.tv_sec -= TIMEOUT`.
unfoldable pub set_back : Session → Session
set_back s = record s { taken_off = s.taken_off + time_limit }

abbrev pub is_in : Poll → Bool
is_in in_only = true
is_in p = false

-- The number of allowed connections is known and reached, and the host's socket is there.
unfoldable pub all_connected : Session → Bool
all_connected s =
    not (s.allowed_connections == 0)
    && (s.num_parallel_connections == s.allowed_connections)
    && is_in s.host_fd_poll

module _ {env : Env} (so_error : env.Kernel → ℕ → Bool × env.Kernel) where
  -- `getsockopt(…, SO_ERROR, …)`: whether the connection failed.
  unfoldable pub getsockopt : ℕ → M (World env Session) Bool
  getsockopt fd w = let (failed, k) = so_error w.kernel fd in ret failed (record w { kernel = k })

  unfoldable pub start_if_connected : M (World env Session) (Unit {0})
  unfolding all_connected set_back
  start_if_connected = do s ← get; if all_connected s then put (set_back s) else skip

  unfoldable pub host_connected : Bool → M (World env Session) (Unit {0})
  unfolding start_if_connected set_back
  host_connected false = do
    s ← get
    put (record s { host_fd_poll = in_only })
    epoll_ctl event_pool delete s.host_sock
    start_if_connected
  host_connected true = do
    s ← get
    epoll_ctl event_pool delete s.host_sock
    put (set_back (record s { host_fd_poll = off }))

  unfoldable pub handle_host_connected : M (World env Session) (Unit {0})
  unfolding getsockopt host_connected
  handle_host_connected = do s ← get; failed ← getsockopt s.host_sock; host_connected failed

  -- The socket in place `i` is there: it counts, and is sent the client's id.
  unfoldable pub agent_connected : ℕ → ℕ → ℕ → Bool → M (World env Session) (Unit {0})
  unfolding send_uuid
  agent_connected fuel i fd true = skip
  agent_connected fuel i fd false = do
    s ← get
    put (record s {
      num_parallel_connections = s.num_parallel_connections + 1;
      agent_fd_poll = set s.agent_fd_poll i in_only;
    })
    send_uuid fuel fd s.uuid 0

  -- `agent_connected_event(agent, event_info)` with `event_info->fd`.
  unfoldable pub agent_connected_event : ℕ → ℕ → M (World env Session) (Unit {0})
  unfolding getsockopt agent_connected start_if_connected
  agent_connected_event fuel i = do
    s ← get
    fd ← check (get_elem? s.agent_sock i)
    failed ← getsockopt fd
    agent_connected fuel i fd failed
    epoll_ctl event_pool delete fd
    start_if_connected

module _ {env : Env} where
  unfoldable pub close_each : ℕ → List ℕ → M (World env Session) (Unit {0})
  close_each zero fds = skip
  close_each (suc n) [] = check none
  close_each (suc n) (fd ∷ fds) = do close fd; close_each n fds

  unfoldable pub close_all_data_sockets : M (World env Session) (Unit {0})
  unfolding close_each
  close_all_data_sockets = do
    s ← get
    close s.host_sock
    close_each s.num_parallel_connections s.agent_sock

set_back-is_expired :
    (now : ℕ) (s : Session) → s.taken_off ≡ 0 → is_expired now (set_back s) ≡ ltb s.accept_start now
unfolding is_expired set_back
set_back-is_expired now s h = ground arith

in_time :
    (now : ℕ) (s : Session)
    → s.taken_off ≡ 0
    → now ≤ s.accept_start + time_limit
    → is_expired now s ≡ false
unfolding is_expired
in_time now s h b = ground arith

both : {a b : Bool} → (a && b) ≡ true → (a ≡ true) × (b ≡ true)
both {a = true} e = (refl, e)
both {a = false} e = cc

-- Whether the wait for a client's sockets is over, by the answer for the host's.
abbrev is_over : Bool → Session → Bool
is_over failed s = if failed then true else all_connected (record s { host_fd_poll = in_only })

module _ {env : Env} (so_error : env.Kernel → ℕ → Bool × env.Kernel) where
  -- What is expected of the time limit after a call for a client that was `s`.
  abbrev Late : ℕ → Bool → Session → Unit {0} → World env Session → Type 0
  Late now failed s r w = is_expired now w.state ≡ is_over failed s && ltb s.accept_start now

  abbrev pub Untouched : Session → World env Session → Type 0
  Untouched s w = w.state.taken_off ≡ s.taken_off

  start_if_connected-Late :
      (now : ℕ) (w : World env Session)
      → w.state.taken_off ≡ 0
      → now ≤ w.state.accept_start + time_limit
      → Ensures
          (λ r w'. is_expired now w'.state ≡ all_connected w.state && ltb w.state.accept_start now)
          (Untouched w.state)
          (start_if_connected so_error w)
  unfolding start_if_connected
  start_if_connected-Late now w h b = elim (Bool-cases (all_connected w.state)) [
    | inl q ↦ rw q (returns (set_back-is_expired now w.state h))
    | inr q ↦ rw q (returns (in_time now w.state h b))
  ]

  host_connected-Late :
      (now : ℕ) (failed : Bool) (w : World env Session)
      → w.state.taken_off ≡ 0
      → now ≤ w.state.accept_start + time_limit
      → Ensures (Late now failed w.state) (Untouched w.state) (host_connected so_error failed w)
  unfolding host_connected
  host_connected-Late now false w h b =
      after_epoll_ctl event_pool delete w.state.host_sock _ _
        (λ k.
          start_if_connected-Late now
            (record w {
              kernel = k;
              state = record (w.state) { host_fd_poll = in_only };
              trace = control event_pool delete w.state.host_sock ∷ w.trace;
            })
            h b)
        (λ k. refl)
  host_connected-Late now true w h b =
      after_epoll_ctl event_pool delete w.state.host_sock _ _
        (λ k. returns (set_back-is_expired now _ h)) (λ k. refl)

  handle_host_connected-Late :
      (now : ℕ) (w : World env Session)
      → w.state.taken_off ≡ 0
      → now ≤ w.state.accept_start + time_limit
      → Ensures
          (Late now (so_error w.kernel w.state.host_sock).0 w.state)
          (Untouched w.state)
          (handle_host_connected so_error w)
  unfolding handle_host_connected getsockopt
  handle_host_connected-Late now w h b = host_connected-Late now _ _ h b

-- The wait for a client's sockets is over: the host's connection failed, or the host is there and so
-- are the connections of the agent, whose number is known.
pub data Over (s : Session) : Bool → Type 0 where
  host_failed : Over s true
  all_there :
      0 < s.allowed_connections → s.num_parallel_connections ≡ s.allowed_connections → Over s false

is_over-Over : (failed : Bool) (s : Session) → is_over failed s ≡ true → Over s failed
unfolding all_connected
is_over-Over true s e = host_failed
is_over-Over false s e = all_there (ground arith) (ground arith)

Over-is_over : (failed : Bool) (s : Session) → Over s failed → is_over failed s ≡ true
unfolding all_connected
Over-is_over _ s host_failed = refl
Over-is_over _ s (all_there some_allowed same) = ground arith

lt→ltb : (a b : ℕ) → a < b → ltb a b ≡ true
lt→ltb a b h = ground arith

module _ {env : Env} (so_error : env.Kernel → ℕ → Bool × env.Kernel) where
  -- What a call for a client that was `s` makes of the time limit.
  pub record Due (now : ℕ) (failed : Bool) (s : Session) (w : World env Session) : Type 0 where
    pub runs_out : Over s failed → s.accept_start < now → is_expired now w.state ≡ true
    pub only_then : is_expired now w.state ≡ true → Over s failed × (s.accept_start < now)

  Late-Due :
      (now : ℕ) (failed : Bool) (s : Session) (w : World env Session)
      → is_expired now w.state ≡ is_over failed s && ltb s.accept_start now
      → Due now failed s w
  Late-Due now failed s w e = record {
    runs_out = λ over later.
        e ∙ ap (λ b. b && ltb s.accept_start now) (Over-is_over failed s over) ∙ lt→ltb _ _ later;
    only_then = λ out.
        let parts = both (sym e ∙ out) in (is_over-Over failed s parts.0, ltb→lt _ _ parts.1);
  }

  -- For a client of which no time has been taken off (`taken_off` 0), at a moment `now` that is not
  -- more than TIMEOUT after `accept_start`, so before it would expire anyway: `handle_host_connected`
  -- returns or exits. Where it returns, the client counts as expired at `now` exactly if `now` has a
  -- later `tv_sec` than `accept_start` and the wait is over: the host's connection failed, or the
  -- number of allowed connections is not 0 and as many connections are counted. In the same `tv_sec` it
  -- never does. Where it exits no time has been taken off.
  pub handle_host_connected-Due :
      (now : ℕ) (w : World env Session)
      → w.state.taken_off ≡ 0
      → now ≤ w.state.accept_start + time_limit
      → Ensures
          (λ r w'. Due now (so_error w.kernel w.state.host_sock).0 w.state w')
          (Untouched so_error w.state)
          (handle_host_connected so_error w)
  handle_host_connected-Due now w h b =
      Ensures-mono (handle_host_connected-Late so_error now w h b)
        (λ r w' e. Late-Due now _ w.state w' e) (λ w' e. e)

-- ===== src/System/Rules.antt =====
-- How a run goes on after a system call.
use sosagent.Base.{if◌then◌else◌, ℕ, ◌≡◌, refl, true, false, List, ◌∷◌}
use sosagent.System.{Received, Sent, Pool, Ctl, control, Env}
use sosagent.System.Outcome.{M, Ensures, exits, and_then, ret, exited, in_chain}
use sosagent.System.Calls.{World, send_log, recv_log, send, recv, epoll_ctl}

abbrev pub after : {env : Env} {S : Type 0} → World env S → Pool → Ctl → ℕ → World env S
after {env} w pool c fd = record w {
  kernel = (env.ctl_call w.kernel pool c fd).1;
  trace = control pool c fd ∷ w.trace;
}

module _ {env : Env} {S B : Type 0} {P : B → World env S → Type 0} {E : World env S → Type 0} where
  pub after_epoll_ctl :
      (pool : Pool) (c : Ctl) (fd : ℕ) (w : World env S) (f : Unit {0} → M (World env S) B)
      → ((k : env.Kernel)
          → Ensures P E (f tt (record w { kernel = k; trace = control pool c fd ∷ w.trace })))
      → ((k : env.Kernel) → E (record w { kernel = k; trace = control pool c fd ∷ w.trace }))
      → Ensures P E (and_then (epoll_ctl pool c fd w) f)
  unfolding epoll_ctl
  after_epoll_ctl pool c fd w f ok failed =
      elim (env.ctl_call w.kernel pool c fd).0
        as (λ b.
          Ensures P E
            (and_then (if b then exited (after w pool c fd) else ret tt (after w pool c fd)) f)) [
              | true ↦ exits (failed (env.ctl_call w.kernel pool c fd).1)
              | false ↦ ok (env.ctl_call w.kernel pool c fd).1
            ]

  -- The same where the call begins a chain of steps.
  pub after_epoll_ctl_in_chain :
      {A : Type 0} (pool : Pool) (c : Ctl) (fd : ℕ) (w : World env S)
      (g : Unit {0} → M (World env S) A) (f : A → M (World env S) B)
      → ((k : env.Kernel)
          → Ensures P E
              (and_then (g tt (record w { kernel = k; trace = control pool c fd ∷ w.trace })) f))
      → ((k : env.Kernel) → E (record w { kernel = k; trace = control pool c fd ∷ w.trace }))
      → Ensures P E (and_then (and_then (epoll_ctl pool c fd w) g) f)
  after_epoll_ctl_in_chain pool c fd w g f ok failed =
      in_chain (epoll_ctl pool c fd w) g f (after_epoll_ctl pool c fd w _ ok failed)

  pub after_send :
      (fd : ℕ) (bytes : List ℕ) (w : World env S) (f : Sent → M (World env S) B)
      → ((r : Sent) (k : env.Kernel)
          → (env.send_call w.kernel fd bytes).0 ≡ r
          → Ensures P E (f r (record w { kernel = k; trace = send_log fd bytes r w.trace })))
      → Ensures P E (and_then (send fd bytes w) f)
  unfolding send
  after_send fd bytes w f h = h _ _ refl

  pub after_recv :
      (fd len : ℕ) (w : World env S) (f : Received → M (World env S) B)
      → ((r : Received) (k : env.Kernel)
          → (env.recv_call w.kernel fd len).0 ≡ r
          → Ensures P E (f r (record w { kernel = k; trace = recv_log fd r w.trace })))
      → Ensures P E (and_then (recv fd len w) f)
  unfolding recv
  after_recv fd len w f h = h _ _ refl

  -- The same, where it matters which kernel goes on.
  pub after_recv_exactly :
      (fd len : ℕ) (w : World env S) (f : Received → M (World env S) B)
      → Ensures P E (
          f (env.recv_call w.kernel fd len).0 (record w {
            kernel = (env.recv_call w.kernel fd len).1;
            trace = recv_log fd (env.recv_call w.kernel fd len).0 w.trace;
          }))
      → Ensures P E (and_then (recv fd len w) f)
  unfolding recv
  after_recv_exactly fd len w f h = h

  pub after_epoll_ctl_exactly :
      (pool : Pool) (c : Ctl) (fd : ℕ) (w : World env S) (f : Unit {0} → M (World env S) B)
      → Ensures P E (f tt (after w pool c fd))
      → E (after w pool c fd)
      → Ensures P E (and_then (epoll_ctl pool c fd w) f)
  unfolding epoll_ctl
  after_epoll_ctl_exactly pool c fd w f ok failed =
      elim (env.ctl_call w.kernel pool c fd).0
        as (λ b.
          Ensures P E
            (and_then (if b then exited (after w pool c fd) else ret tt (after w pool c fd)) f)) [
              | true ↦ exits failed
              | false ↦ ok
            ]

-- ===== src/System/Calls.antt =====
-- The system calls as steps of a run: each asks the kernel and is recorded.
use sosagent.Base.{ℕ, ◌==◌, if◌then◌else◌, List, [], ◌∷◌, ◌++◌, ◌≡◌, refl, take}
use sosagent.System.{
  Received, got, recv_failed, Sent, took, send_failed, Pool, Ctl, Action, sent, received, control,
  closed_fd, Env,
}
use sosagent.System.Outcome.{ret, exited, M}

-- The state of a process: the kernel, the program's own data, and the calls made, newest first.
pub record World (env : Env) (S : Type 0) : Type 0 where
  pub kernel : env.Kernel
  pub state : S
  pub trace : List Action

-- What a call adds to the record; a call that fails moves no byte.
abbrev pub recv_log : ℕ → Received → List Action → List Action
recv_log fd (got bytes) t = received fd bytes ∷ t
recv_log fd (recv_failed e) t = t

abbrev pub send_log : ℕ → List ℕ → Sent → List Action → List Action
send_log fd bytes (took n) t = sent fd (take n bytes) ∷ t
send_log fd bytes (send_failed e) t = t

module _ {env : Env} {S : Type 0} where
  abbrev pub get : M (World env S) S
  get w = ret w.state w

  abbrev pub put : S → M (World env S) (Unit {0})
  put s w = ret tt (record w { state = s })

  unfoldable pub recv : ℕ → ℕ → M (World env S) Received
  recv fd len w =
      let (r, k) = env.recv_call w.kernel fd len in
      ret r (record w { kernel = k; trace = recv_log fd r w.trace })

  unfoldable pub send : ℕ → List ℕ → M (World env S) Sent
  send fd bytes w =
      let (r, k) = env.send_call w.kernel fd bytes in
      ret r (record w { kernel = k; trace = send_log fd bytes r w.trace })

  -- `if(epoll_ctl(…)) { perror(""); …; exit(1); }`
  unfoldable pub epoll_ctl : Pool → Ctl → ℕ → M (World env S) (Unit {0})
  epoll_ctl pool c fd w =
      let (failed, k) = env.ctl_call w.kernel pool c fd in
      let w' : World env S = record w { kernel = k; trace = control pool c fd ∷ w.trace } in
      if failed then exited w' else ret tt w'

  unfoldable pub close : ℕ → M (World env S) (Unit {0})
  close fd w = ret tt (record w { trace = closed_fd fd ∷ w.trace })

-- The bytes that were sent to a socket, in order.
unfoldable pub stream : ℕ → List Action → List ℕ
stream fd [] = []
stream fd (sent to bytes ∷ t) = stream fd t ++ (if to == fd then bytes else [])
stream fd (received from bytes ∷ t) = stream fd t
stream fd (control p c on ∷ t) = stream fd t
stream fd (closed_fd on ∷ t) = stream fd t

-- The bytes that came in from a socket, in order.
unfoldable pub incoming : ℕ → List Action → List ℕ
incoming fd [] = []
incoming fd (received from bytes ∷ t) = incoming fd t ++ (if from == fd then bytes else [])
incoming fd (sent to bytes ∷ t) = incoming fd t
incoming fd (control p c on ∷ t) = incoming fd t
incoming fd (closed_fd on ∷ t) = incoming fd t

-- What comes in leaves what was sent as it is.
pub stream-recv_log :
    (fd from : ℕ) (r : Received) (t : List Action) → stream fd (recv_log from r t) ≡ stream fd t
unfolding stream
stream-recv_log fd from (got bytes) t = refl
stream-recv_log fd from (recv_failed e) t = refl

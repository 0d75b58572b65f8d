-- ===== src/Receive/Progress.antt =====
-- `read_agent_send_host` (network.c): what it comes to, from each point at which it goes on.
use sosagent.Base.{ℕ, List}
use sosagent.System.{Action, Env}
use sosagent.System.Laws.{IsPosix, IsTable}
use sosagent.System.Calls.{World}
use sosagent.Client.{Client, Status, success, close_status}
use sosagent.Receive.Tcp.{IsTcp, Coming}
use sosagent.Receive.Resting.{Resting}
use sosagent.Receive.Arrival.{Settled}
use sosagent.Receive.Entry.{Begins}
use sosagent.Receive.Begun.{Next, frames_from}

module _ {env : Env} (p : ℕ → List ℕ) (table : IsTable env) (posix : IsPosix env)
    (pending : env.Kernel → ℕ → List ℕ) (tcp : IsTcp env pending) (k a i n fd size : ℕ)
    (front rest : List ℕ) (w₀ : World env (Client env.Table)) (h : Resting p k a i w₀)
    (next : Next env p k n size w₀) where
  abbrev Expected : env.Kernel → List Action → Type 0
  Expected = Coming env pending fd (frames_from env p n front rest)

  -- The function may be called again, where it goes on; or the packet is in its place in the stream to
  -- the host or in the table; or the connection is at its end, and the packets so far are in order.
  pub data Progress : Status → World env (Client env.Table) → Type 0 where
    settled : {w : World env (Client env.Table)} → Settled p k a i n w → Progress success w
    goes_on :
        {w : World env (Client env.Table)}
        → Resting p k a i w
        → Next env p k n size w
        → Begins {env = env} p pending k a i n fd size front rest w
        → Progress success w
    ended : {w : World env (Client env.Table)} → Resting p k a i w → Progress close_status w

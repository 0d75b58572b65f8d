-- ===== src/Deliver/Prompt.antt =====
-- `send_data_host` (network.c) on a machine that takes whatever is sent: nothing has to wait.
use sosagent.Base.{ℕ, ◌<◌, ◌≡◌, refl, sym, ◌∙◌, inl, inr, true, List, length}
use sosagent.System.{Env, Errno, took, send_failed}
use sosagent.System.Laws.{IsPosix, IsTable}
use sosagent.System.Outcome.{Ensures, Ensures-mono}
use sosagent.System.Calls.{World}
use sosagent.Client.{Client, Status, success, close_status}
use sosagent.Deliver.{send_data_host}
use sosagent.Deliver.Order.{InOrder, Idle, Waiting, Delivered}
use sosagent.Deliver.Drain.{send_data_host-resumed}

-- The machine has room for all bytes of each `send`.
abbrev pub TakesAll : Env → Type 0
TakesAll env =
    (k : env.Kernel) (fd : ℕ) (bytes : List ℕ) → (env.send_call k fd bytes).0 ≡ took (length bytes)

not_took : {x : Errno} {n : ℕ} → ¬ (send_failed x ≡ took n)
not_took e = cc

-- Over a machine that takes whatever is sent and a table that keeps to its laws: where packet `k` waits
-- for the host's socket, `send_data_host` for that socket exits, or it returns EXIT_SUCCESS and nothing
-- waits any more: some `k' > k` packets are out whole and in order, so packet `k` among them, the next
-- one is not in the table, and the host's socket is not waited for.
pub send_data_host-prompt :
    {env : Env} (takes : TakesAll env) (p : ℕ → List ℕ) (table : IsTable env) (posix : IsPosix env)
    (k : ℕ) (w : World env (Client env.Table))
    → Waiting p k w
    → Ensures
        (λ r w'. (r ≡ success) × (k' : ℕ) × (k < k') × Idle p k' w')
        (InOrder p)
        (send_data_host true w.state.host_agent_id w)
send_data_host-prompt {env = env} takes p table posix k w d =
    Ensures-mono (send_data_host-resumed p table posix k w d) at_rest (λ w' q. q)
  where
    at_rest :
        (r : Status) (w' : World env (Client env.Table))
        → Delivered p k r w'
        → (r ≡ success) × (k' : ℕ) × (k < k') × Idle p k' w'
    at_rest success w' (n, inl i) = (refl, n, i.0, i.1)
    at_rest success w' (n, inr b) =
        absurd (not_took (sym b.1.refused ∙ takes b.1.kernel w'.state.host_sock _))
    at_rest close_status w' c =
        absurd (not_took (sym c.refused ∙ takes c.kernel w'.state.host_sock _))

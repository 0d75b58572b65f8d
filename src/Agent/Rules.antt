-- ===== src/Agent/Rules.antt =====
-- How the agent's code goes on after a look at a client, and after `setnonblocking` (network.c).
use sosagent.Base.{ℕ, ◌≡◌, some, get_elem?}
use sosagent.System.Outcome.{and_then}
use sosagent.System.Calls.{World}
use sosagent.System.Ends.{Ends, Ends-unless_failed}
use sosagent.Agent.{Session}
use sosagent.Agent.Net.{Net, Agent, Run, client}
use sosagent.Agent.Accept.{setnonblocking}

module _ (net : Net) where
  -- The client is there.
  pub Ends-client :
      (n : ℕ) {B : Type 0} {P : B → World net.env (Agent net.Index) → Type 0}
      {E : World net.env (Agent net.Index) → Type 0} {F : Type 0}
      (w : World net.env (Agent net.Index)) (t : Session) (f : Session → Run net B)
      → get_elem? w.state.clients n ≡ some t
      → Ends P E F (f t w)
      → Ends P E F (and_then (client net n w) f)
  Ends-client n w t f at go = rw at go

  pub Ends-setnonblocking :
      {B : Type 0} {P : B → World net.env (Agent net.Index) → Type 0}
      {E : World net.env (Agent net.Index) → Type 0} {F : Type 0} (fd : ℕ)
      (w : World net.env (Agent net.Index)) (f : Unit {0} → Run net B)
      → E (record w { kernel = (net.nonblocking_call w.kernel fd).1 })
      → Ends P E F (f tt (record w { kernel = (net.nonblocking_call w.kernel fd).1 }))
      → Ends P E F (and_then (setnonblocking net fd w) f)
  unfolding setnonblocking
  Ends-setnonblocking fd w f bad good =
      Ends-unless_failed (net.nonblocking_call w.kernel fd).0
        (record w { kernel = (net.nonblocking_call w.kernel fd).1 }) f bad good

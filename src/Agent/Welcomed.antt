-- ===== src/Agent/Welcomed.antt =====
-- `accept_agent_side` (network.c): a new connection of an agent is put into the pool.
use sosagent.Base.{
  ◌∷◌, ℕ, ◌≡◌, ◌≢◌, refl, ap, sym, ◌∙◌, Option, none, some, List, get_elem?, set, get_elem?-set_ne,
  Option-cases, inl, inr,
}
use native.Mathlib.Decide.{ℕ_discrete}
use sosagent.System.{event_pool, add, control}
use sosagent.System.Calls.{World}
use sosagent.System.Ends.{Ends, gives_up, undefined, Ends-last_epoll_ctl}
use sosagent.Deliver.{writable}
use sosagent.Agent.Net.{Net, Agent}
use sosagent.Agent.Rules.{Ends-setnonblocking}
use sosagent.Agent.Pooled.{Placed, at_place, all_taken, find_empty_agent_sock-Placed}
use sosagent.Agent.Accept.{accept_at, agent_accepted, accept_agent_side}

-- Every socket that is in a pool is at its place in another.
abbrev pub Kept : List (Option ℕ) → List (Option ℕ) → Type 0
Kept pool pool' =
    (j fd : ℕ) → get_elem? pool j ≡ some (some fd) → get_elem? pool' j ≡ some (some fd)

-- What is found to be EMPTY is no socket's place.
Kept-set :
    (pool : List (Option ℕ)) (index fd : ℕ)
    → get_elem? pool index ≡ some none
    → Kept pool (set pool index (some fd))
Kept-set pool index fd free j sock e = elim (ℕ_discrete index j) [
  | yes same ↦ absurd (clash (sym e ∙ ap (get_elem? pool) (sym same) ∙ free))
  | no other ↦ get_elem?-set_ne pool index j (some fd) other ∙ e
]
  where
    clash : some (some sock) ≢ some none
    clash q = cc

module _ (net : Net) (w₀ : World net.env (Agent net.Index)) where
  -- The socket that `accept` hands over for listening socket `i` is at a place that was EMPTY and is
  -- waited for; nothing else has changed, and no other call is recorded.
  pub record Welcomed (i : ℕ) (w : World net.env (Agent net.Index)) : Type 0 where
    pub listening : ℕ
    pub fd : ℕ
    pub peer : List ℕ × ℕ
    pub listener : get_elem? w₀.state.agent_listen_sock i ≡ some listening
    pub accepted : (net.accept_call w₀.kernel listening).0 ≡ some (fd, peer)
    pub index : ℕ
    pub free : get_elem? w₀.state.agent_fd_pool index ≡ some none
    pub only_pool :
        w.state ≡ record (w₀.state) { agent_fd_pool = set w₀.state.agent_fd_pool index (some fd) }
    pub kept : Kept w₀.state.agent_fd_pool w.state.agent_fd_pool
    pub waited_for : w.trace ≡ control event_pool (add writable) fd ∷ w₀.trace

  agent_accepted-Welcomed :
      {F : Type 0} (i listening : ℕ) (r : Option (ℕ × (List ℕ × ℕ))) (index : ℕ)
      (k : net.env.Kernel)
      → get_elem? w₀.state.agent_listen_sock i ≡ some listening
      → (net.accept_call w₀.kernel listening).0 ≡ r
      → get_elem? w₀.state.agent_fd_pool index ≡ some none
      → Ends
          (λ _ w. Welcomed i w)
          (λ w. Kept w₀.state.agent_fd_pool w.state.agent_fd_pool)
          F
          (agent_accepted net r index (record w₀ { kernel = k }))
  unfolding agent_accepted
  agent_accepted-Welcomed i listening none index k at said free = gives_up (λ j fd e. e)
  agent_accepted-Welcomed i listening (some (fd, peer)) index k at said free =
      Ends-setnonblocking net fd u _ kept (
        Ends-last_epoll_ctl event_pool (add writable) fd _ (λ _. kept)
          (λ _. record {
            listening = listening;
            fd = fd;
            peer = peer;
            listener = at;
            accepted = said;
            index = index;
            free = free;
            only_pool = refl;
            kept = kept;
            waited_for = refl;
          }))
    where
      kept : Kept w₀.state.agent_fd_pool (set w₀.state.agent_fd_pool index (some fd))
      kept = Kept-set w₀.state.agent_fd_pool index fd free

      u : World net.env (Agent net.Index)
      u = record w₀ {
        kernel = k;
        state = record (w₀.state) { agent_fd_pool = set w₀.state.agent_fd_pool index (some fd) };
      }

  accept_at-Welcomed :
      (found : Option ℕ) (i : ℕ)
      → Placed w₀.state.agent_fd_pool found
      → Ends
          (λ _ w. Welcomed i w)
          (λ w. Kept w₀.state.agent_fd_pool w.state.agent_fd_pool)
          (get_elem? w₀.state.agent_listen_sock i ≡ none)
          (accept_at net found i w₀)
  unfolding accept_at
  accept_at-Welcomed _ i (all_taken no_place) = gives_up (λ j fd e. e)
  accept_at-Welcomed _ i (at_place {n = index} free before) =
      elim (Option-cases (get_elem? w₀.state.agent_listen_sock i)) [
        | inl q ↦ rw q (undefined refl)
        | inr q ↦ rw q.1 (agent_accepted-Welcomed i q.0 _ index _ q.1 refl free)
      ]

  -- `accept_agent_side` comes to an end: it comes back with the very socket that `accept` hands over for
  -- listening socket `i` at a place of the pool that was EMPTY and added to the poll set, and nothing
  -- else changed; or it exits. Either way no socket of the pool loses its place. It is undefined only
  -- for a number that is no listening socket's.
  pub accept_agent_side-Welcomed :
      (i : ℕ)
      → Ends
          (λ _ w. Welcomed i w)
          (λ w. Kept w₀.state.agent_fd_pool w.state.agent_fd_pool)
          (get_elem? w₀.state.agent_listen_sock i ≡ none)
          (accept_agent_side net i w₀)
  unfolding accept_agent_side
  accept_agent_side-Welcomed i =
      accept_at-Welcomed _ i (find_empty_agent_sock-Placed w₀.state.agent_fd_pool)

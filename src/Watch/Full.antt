-- ===== src/Watch/Full.antt =====
-- What `all_agents_socks_full` (poll.c) leaves: input from the host is stopped, and every connection
-- that is not closed is waited for.
use sosagent.Base.{
  ℕ, zero, suc, ◌+◌, ◌≡◌, refl, ap, subst, ◌∙◌, ◌⊎◌, inl, inr, true, false, some, length, get_elem?,
  arith,
}
use sosagent.System.{Env, client_event_pool, add, modify, delete}
use sosagent.System.Outcome.{Ensures, returns, Ensures-and_then, Ensures-mono}
use sosagent.System.Calls.{World, stream}
use sosagent.System.Rules.{after_epoll_ctl}
use sosagent.Client.{
  Poll, off, in_only, out_only, in_and_out, closed, has_in, has_out, Lane, Client,
}
use sosagent.Deliver.{writable, both_ways}
use sosagent.Send.{watch_agent_output}
use sosagent.Watch.Rounds.{entry, Silent, Upto, Upto-set, Upto-suc, no_round, all_rounds}
use sosagent.Watch.{stop_host_input, watch_all_from, all_agents_socks_full}

-- Waited for until it can be written, or closed.
abbrev pub Watched : Lane → Type 0
Watched l = (has_out l.agent_fd_poll ≡ true) ⊎ (l.agent_fd_poll ≡ closed)

module _ {env : Env} where
  watch_agent_output-Upto :
      (i : ℕ) (w v : World env (Client env.Table)) (l : Lane) (q : Poll)
      → l.agent_fd_poll ≡ q
      → Upto Watched i w v
      → get_elem? v.state.lanes i ≡ some l
      → Ensures (λ r v'. Upto Watched (suc i) w v') (Silent w) (watch_agent_output i q v)
  unfolding watch_agent_output stream
  watch_agent_output-Upto i w v l in_only e u at = rw at (
      after_epoll_ctl client_event_pool (modify both_ways) l.agent_sock v _
        (λ k.
          rw at
            (returns (Upto-set Watched i w v l in_and_out k (modify both_ways) u at (inl refl))))
        (λ k. u.silent))
  watch_agent_output-Upto i w v l off e u at = rw at (
      after_epoll_ctl client_event_pool (add writable) l.agent_sock v _
        (λ k. rw at (returns (Upto-set Watched i w v l out_only k (add writable) u at (inl refl))))
        (λ k. u.silent))
  watch_agent_output-Upto i w v l out_only e u at =
      returns (Upto-suc Watched i w v l u at (inl (ap has_out e)))
  watch_agent_output-Upto i w v l in_and_out e u at =
      returns (Upto-suc Watched i w v l u at (inl (ap has_out e)))
  watch_agent_output-Upto i w v l closed e u at = returns (Upto-suc Watched i w v l u at (inr e))

  watch_all_from-Upto :
      (n i : ℕ) (w v : World env (Client env.Table))
      → Upto Watched i w v
      → n + i ≡ length w.state.lanes
      → Ensures (λ r v'. Upto Watched (length w.state.lanes) w v') (Silent w) (watch_all_from n i v)
  unfolding watch_all_from
  watch_all_from-Upto zero i w v u h = returns (subst (λ m. Upto Watched m w v) (omega arith) u)
  watch_all_from-Upto (suc n) i w v u h =
      let found = entry v.state.lanes i (omega (arith, u.count)) in
      rw found.1 (
        Ensures-and_then _
          (watch_agent_output-Upto i w v found.0 found.0.agent_fd_poll refl u found.1)
          (λ r v' u'. watch_all_from-Upto n (suc i) w v' u' (omega arith)))

  -- The host is not read any more, and nothing else has changed.
  record Stopped (w v : World env (Client env.Table)) : Type 0 where
    host : has_in v.state.host_fd_poll ≡ false
    lanes : v.state.lanes ≡ w.state.lanes
    silent : Silent w v

  stop_host_input-Stopped :
      (q : Poll) (w : World env (Client env.Table))
      → w.state.host_fd_poll ≡ q
      → Ensures (λ r v. Stopped w v) (Silent w) (stop_host_input q w)
  unfolding stop_host_input stream
  stop_host_input-Stopped in_and_out w e =
      after_epoll_ctl client_event_pool (modify writable) w.state.host_sock w _
        (λ k. returns (record { host = refl; lanes = refl; silent = λ fd. refl })) (λ k fd. refl)
  stop_host_input-Stopped in_only w e =
      after_epoll_ctl client_event_pool delete w.state.host_sock w _
        (λ k. returns (record { host = refl; lanes = refl; silent = λ fd. refl })) (λ k fd. refl)
  stop_host_input-Stopped q w e =
      returns (record { host = ap has_in e; lanes = refl; silent = λ fd. refl })

  -- What the function leaves: the host is not read, every connection is watched or closed, and
  -- nothing was sent.
  pub record Paused (w w' : World env (Client env.Table)) : Type 0 where
    pub host : has_in w'.state.host_fd_poll ≡ false
    pub watched : (j : ℕ) (l : Lane) → get_elem? w'.state.lanes j ≡ some l → Watched l
    pub silent : Silent w w'

  -- From any state `all_agents_socks_full` returns or exits without sending anything. Where it
  -- returns, the host is not read, and every connection is either waited for until it can be written
  -- or marked CLOSED.
  pub all_agents_socks_full-Paused :
      (w : World env (Client env.Table))
      → Ensures (λ r w'. Paused w w') (Silent w) (all_agents_socks_full w)
  unfolding all_agents_socks_full
  all_agents_socks_full-Paused w =
      Ensures-and_then _ (stop_host_input-Stopped w.state.host_fd_poll w refl) (λ r v st.
        Ensures-mono
          (watch_all_from-Upto (length w.state.lanes) 0 v v (no_round Watched v)
            (omega (arith, ap length st.lanes)))
          (λ x w' u. record {
            host = ap has_in u.host ∙ st.host;
            watched = all_rounds Watched v w' u;
            silent = λ fd. u.silent fd ∙ st.silent fd;
          })
          (λ w' quiet fd. quiet fd ∙ st.silent fd))

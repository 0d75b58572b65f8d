-- ===== src/Watch/Resumed.antt =====
-- What `not_all_agent_socks_full` (poll.c) leaves: input from the host is wanted again, and a
-- connection with nothing to send is not waited for.
use sosagent.Base.{
  ℕ, zero, suc, ◌+◌, ◌≡◌, refl, ap, sym, subst, ◌∙◌, ◌⊎◌, inl, inr, true, false, Bool, ◌&&◌,
  Bool-cases, ◌==◌, some, length, get_elem?, arith,
}
use sosagent.System.{Env, client_event_pool, add, modify, delete}
use sosagent.System.Outcome.{Ensures, returns, Ensures-and_then, Ensures-mono}
use sosagent.System.Calls.{World, stream}
use sosagent.System.Rules.{after_epoll_ctl}
use sosagent.Client.{
  Poll, off, in_only, out_only, in_and_out, closed, has_in, has_out, Lane, Client,
}
use sosagent.Deliver.{readable, both_ways}
use sosagent.Watch.Rounds.{entry, Silent, Upto, Upto-set, Upto-suc, no_round, all_rounds}
use sosagent.Watch.{start_host_input, rest_agent, rest_all_from, not_all_agent_socks_full}

-- Not both waited for until it can be written and without a packet to send.
abbrev pub Rested : Lane → Type 0
Rested l = has_out l.agent_fd_poll && (l.packet.host_packet_size == 0) ≡ false

and_false : (b : Bool) → b && false ≡ false
and_false true = refl
and_false false = refl

module _ {env : Env} where
  rest_agent-Upto :
      (i : ℕ) (w v : World env (Client env.Table)) (l : Lane) (q : Poll)
      → l.agent_fd_poll ≡ q
      → Upto Rested i w v
      → get_elem? v.state.lanes i ≡ some l
      → Ensures (λ r v'. Upto Rested (suc i) w v') (Silent w) (rest_agent i q v)
  unfolding rest_agent stream
  rest_agent-Upto i w v l in_and_out e u at = rw at (
      after_epoll_ctl client_event_pool (modify readable) l.agent_sock v _
        (λ k. rw at (returns (Upto-set Rested i w v l in_only k (modify readable) u at refl)))
        (λ k. u.silent))
  rest_agent-Upto i w v l out_only e u at = rw at (
      after_epoll_ctl client_event_pool delete l.agent_sock v _
        (λ k. rw at (returns (Upto-set Rested i w v l off k delete u at refl))) (λ k. u.silent))
  rest_agent-Upto i w v l q e u at =
      returns
        (Upto-suc Rested i w v l u at (ap (λ x. has_out x && (l.packet.host_packet_size == 0)) e))

  rest_all_from-Upto :
      (n i : ℕ) (w v : World env (Client env.Table))
      → Upto Rested i w v
      → n + i ≡ length w.state.lanes
      → Ensures (λ r v'. Upto Rested (length w.state.lanes) w v') (Silent w) (rest_all_from n i v)
  unfolding rest_all_from
  rest_all_from-Upto zero i w v u h = returns (subst (λ m. Upto Rested m w v) (omega arith) u)
  rest_all_from-Upto (suc n) i w v u h =
      let found = entry v.state.lanes i (omega (arith, u.count)) in
      elim (Bool-cases (found.0.packet.host_packet_size == 0)) [
        | inl q ↦
            rw (found.1, q)
              (Ensures-and_then _
                (rest_agent-Upto i w v found.0 found.0.agent_fd_poll refl u found.1)
                (λ r v' u'. rest_all_from-Upto n (suc i) w v' u' (omega arith)))
        | inr q ↦
            rw (found.1, q)
              (rest_all_from-Upto n (suc i) w v
                (Upto-suc Rested i w v found.0 u found.1 (
                  ap (λ z. has_out found.0.agent_fd_poll && z) q
                  ∙ and_false (has_out found.0.agent_fd_poll)))
                (omega arith))
      ]

  -- The host is read, or closed, and nothing else has changed.
  record Started (w v : World env (Client env.Table)) : Type 0 where
    host : (has_in v.state.host_fd_poll ≡ true) ⊎ (v.state.host_fd_poll ≡ closed)
    lanes : v.state.lanes ≡ w.state.lanes
    silent : Silent w v

  start_host_input-Started :
      (q : Poll) (w : World env (Client env.Table))
      → w.state.host_fd_poll ≡ q
      → Ensures (λ r v. Started w v) (Silent w) (start_host_input q w)
  unfolding start_host_input stream
  start_host_input-Started out_only w e =
      after_epoll_ctl client_event_pool (modify both_ways) w.state.host_sock w _
        (λ k. returns (record { host = inl refl; lanes = refl; silent = λ fd. refl }))
        (λ k fd. refl)
  start_host_input-Started off w e =
      after_epoll_ctl client_event_pool (add readable) w.state.host_sock w _
        (λ k. returns (record { host = inl refl; lanes = refl; silent = λ fd. refl }))
        (λ k fd. refl)
  start_host_input-Started in_only w e =
      returns (record { host = inl (ap has_in e); lanes = refl; silent = λ fd. refl })
  start_host_input-Started in_and_out w e =
      returns (record { host = inl (ap has_in e); lanes = refl; silent = λ fd. refl })
  start_host_input-Started closed w e =
      returns (record { host = inr e; lanes = refl; silent = λ fd. refl })

  -- What the function leaves: the host is read, or closed, no connection without a packet is waited
  -- for until it can be written, and nothing was sent.
  pub record Running (w w' : World env (Client env.Table)) : Type 0 where
    pub host : (has_in w'.state.host_fd_poll ≡ true) ⊎ (w'.state.host_fd_poll ≡ closed)
    pub rested : (j : ℕ) (l : Lane) → get_elem? w'.state.lanes j ≡ some l → Rested l
    pub silent : Silent w w'

  -- From any state `not_all_agent_socks_full` returns or exits without sending anything. Where it
  -- returns, the host is read or marked CLOSED, and no connection with nothing to send is waited for
  -- until it can be written.
  pub not_all_agent_socks_full-Running :
      (w : World env (Client env.Table))
      → Ensures (λ r w'. Running w w') (Silent w) (not_all_agent_socks_full w)
  unfolding not_all_agent_socks_full
  not_all_agent_socks_full-Running w =
      Ensures-and_then _ (start_host_input-Started w.state.host_fd_poll w refl) (λ r v st.
        Ensures-mono
          (rest_all_from-Upto (length w.state.lanes) 0 v v (no_round Rested v)
            (omega (arith, ap length st.lanes)))
          (λ x w' u. record {
            host = subst (λ q. (has_in q ≡ true) ⊎ (q ≡ closed)) (sym u.host) st.host;
            rested = all_rounds Rested v w' u;
            silent = λ fd. u.silent fd ∙ st.silent fd;
          })
          (λ w' quiet fd. quiet fd ∙ st.silent fd))

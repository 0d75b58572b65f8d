-- ===== src/Watch/Rounds.antt =====
-- The loops over the connections in `all_agents_socks_full` and `not_all_agent_socks_full` (poll.c):
-- what has been brought about for the connections so far.
use sosagent.Base.{
  ℕ, zero, suc, ◌<◌, ◌≡◌, refl, sym, ap, subst, ◌∙◌, List, [], ◌∷◌, Option, none, some, length,
  get_elem?, set, length-set, get_elem?-set_self, get_elem?-set_ne, arith,
}
use native.Mathlib.Decide.{ℕ_discrete}
use sosagent.System.{Env, client_event_pool, control, Ctl}
use sosagent.System.Calls.{World, stream}
use sosagent.Client.{Poll, Lane, Client}

pub get_elem?-bound :
    {A : Type 0} (xs : List A) (i : ℕ) (x : A) → get_elem? xs i ≡ some x → i < length xs
get_elem?-bound [] i x e = cc
get_elem?-bound (y ∷ xs) zero x e = omega arith
get_elem?-bound (y ∷ xs) (suc i) x e = omega (arith, get_elem?-bound xs i x e)

pub entry : {A : Type 0} (xs : List A) (i : ℕ) → i < length xs → (x : A) × (get_elem? xs i ≡ some x)
entry [] i h = absurd (omega arith)
entry (y ∷ xs) zero h = (y, refl)
entry (y ∷ xs) (suc i) h = entry xs i (omega arith)

abbrev lane_of : Option Lane → Lane → Lane
lane_of none l = l
lane_of (some m) l = m

module _ {env : Env} where
  -- Nothing is sent.
  abbrev pub Silent : World env (Client env.Table) → World env (Client env.Table) → Type 0
  Silent w w' = (fd : ℕ) → stream fd w'.trace ≡ stream fd w.trace

module _ {env : Env} (Good : Lane → Type 0) where
  -- The first `i` connections are good, nothing was sent since `w`, and the host's entry and the
  -- number of connections are as they were.
  pub record Upto (i : ℕ) (w w' : World env (Client env.Table)) : Type 0 where
    pub fine : (j : ℕ) (l : Lane) → j < i → get_elem? w'.state.lanes j ≡ some l → Good l
    pub silent : Silent w w'
    pub host : w'.state.host_fd_poll ≡ w.state.host_fd_poll
    pub count : length w'.state.lanes ≡ length w.state.lanes

  -- One more connection is good.
  pub Upto-set :
      (i : ℕ) (w v : World env (Client env.Table)) (l : Lane) (q : Poll) (k : env.Kernel) (c : Ctl)
      → Upto i w v
      → get_elem? v.state.lanes i ≡ some l
      → Good (record l { agent_fd_poll = q })
      → Upto (suc i) w (record v {
        kernel = k;
        state = record (v.state) { lanes = set v.state.lanes i (record l { agent_fd_poll = q }) };
        trace = control client_event_pool c l.agent_sock ∷ v.trace;
      })
  unfolding stream
  Upto-set i w v l q k c u at good = record {
    fine = λ j m h e. elim (ℕ_discrete i j) [
      | yes same ↦
          subst (λ x. Good x)
            (ap (λ o. lane_of o l)
              (sym (get_elem?-set_self v.state.lanes i (record l { agent_fd_poll = q }) l at)
                ∙ ap (λ n. get_elem? (set v.state.lanes i (record l { agent_fd_poll = q })) n) same
                ∙ e))
            good
      | no other ↦
          u.fine j m (omega (arith, other))
            (sym (get_elem?-set_ne v.state.lanes i j (record l { agent_fd_poll = q }) other) ∙ e)
    ];
    silent = u.silent;
    host = u.host;
    count = length-set v.state.lanes i (record l { agent_fd_poll = q }) ∙ u.count;
  }

  -- One that is good already.
  pub Upto-suc :
      (i : ℕ) (w v : World env (Client env.Table)) (l : Lane)
      → Upto i w v
      → get_elem? v.state.lanes i ≡ some l
      → Good l
      → Upto (suc i) w v
  Upto-suc i w v l u at good = record {
    fine = λ j m h e. elim (ℕ_discrete i j) [
      | yes same ↦
          subst (λ x. Good x)
            (ap (λ o. lane_of o l) (sym at ∙ ap (λ n. get_elem? v.state.lanes n) same ∙ e)) good
      | no other ↦ u.fine j m (omega (arith, other)) e
    ];
    silent = u.silent;
    host = u.host;
    count = u.count;
  }

  -- Before the first connection.
  pub no_round : (w : World env (Client env.Table)) → Upto 0 w w
  no_round w = record {
    fine = λ j l h e. absurd (omega arith);
    silent = λ fd. refl;
    host = refl;
    count = refl;
  }

  -- At the end of the loop all connections are good.
  pub all_rounds :
      (w v : World env (Client env.Table))
      → Upto (length w.state.lanes) w v
      → (j : ℕ) (l : Lane) → get_elem? v.state.lanes j ≡ some l
      → Good l
  all_rounds w v u j l e =
      u.fine j l (omega (arith, get_elem?-bound v.state.lanes j l e, u.count)) e

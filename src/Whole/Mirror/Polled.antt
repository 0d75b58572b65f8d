-- ===== src/Whole/Mirror/Polled.antt =====
-- The marks of the sockets while `configure_poll` (network.c) enters them in the poll set one by one.
use sosagent.Base.{
  ℕ, suc, ◌≤◌, ◌<◌, ◌==◌, Bool-cases, inl, inr, ◌≡◌, ◌≢◌, refl, ap, sym, subst, ◌∙◌, List, ◌∷◌,
  Option, none, some, length, get_elem?, set, length-set, get_elem?-set_self, get_elem?-set_ne,
  arith,
}
use native.Mathlib.Decide.{ℕ_discrete}
use sosagent.System.{
  Env, Pool, Ctl, control, client_event_pool, event_poll_out_agent, event_poll_out_host, add,
  Action, Events,
}
use sosagent.System.Calls.{World}
use sosagent.Client.{in_only, Lane, Client}
use sosagent.Deliver.{readable, writable}
use sosagent.Watch.Rounds.{get_elem?-bound}
use sosagent.Whole.Aside.{lane_in}
use sosagent.Whole.Registered.{
  applied, registered, mask_of, registered-control, registered-control_other,
}
use sosagent.Whole.Mirror.{Mirror}

-- A call for another pool.
registered-elsewhere :
    (fd on : ℕ) (c : Ctl) (t : List Action) (p : Pool)
    → ((before : Option Events) → applied p c before ≡ before)
    → registered fd (control p c on ∷ t) ≡ registered fd t
unfolding registered
registered-elsewhere fd on c t p same = elim (Bool-cases (on == fd)) [
  | inl q ↦ rw q (same (registered fd t))
  | inr q ↦ rw q refl
]

-- The sockets of a transfer, the host's `h` and the connections', are all different.
pub record Different (h : ℕ) (ls : List Lane) : Type 0 where
  pub apart : (j : ℕ) (l : Lane) → get_elem? ls j ≡ some l → l.agent_sock ≢ h
  pub distinct :
      (j m : ℕ) (l l' : Lane)
      → get_elem? ls j ≡ some l
      → get_elem? ls m ≡ some l'
      → j ≢ m
      → l.agent_sock ≢ l'.agent_sock

here :
    (ls : List Lane) (a : ℕ) (l l' m : Lane)
    → get_elem? ls a ≡ some l
    → get_elem? (set ls a l') a ≡ some m
    → m ≡ l'
here ls a l l' m at e = ap (λ o. lane_in o l') (sym e ∙ get_elem?-set_self ls a l' l at)

there :
    (ls : List Lane) (a j : ℕ) (l' m : Lane)
    → a ≢ j
    → get_elem? (set ls a l') j ≡ some m
    → get_elem? ls j ≡ some m
there ls a j l' m q e = sym (get_elem?-set_ne ls a j l' q) ∙ e

-- A write to a connection that leaves its socket.
pub Different-set :
    (h : ℕ) (ls : List Lane) (a : ℕ) (l l' : Lane)
    → get_elem? ls a ≡ some l
    → l'.agent_sock ≡ l.agent_sock
    → Different h ls
    → Different h (set ls a l')
Different-set h ls a l l' at same d = record {
  apart = λ j m e z. let old = before j m e in d.apart j old.0 old.1 (sym old.2 ∙ z);
  distinct = λ j n m m' e e' other z.
      let old = before j m e in
      let old' = before n m' e' in
      d.distinct j n old.0 old'.0 old.1 old'.1 other (sym old.2 ∙ z ∙ old'.2);
}
  where
    before :
        (j : ℕ) (m : Lane)
        → get_elem? (set ls a l') j ≡ some m
        → (x : Lane) × (get_elem? ls j ≡ some x) × (m.agent_sock ≡ x.agent_sock)
    before j m e = elim (ℕ_discrete a j) [
      | yes q ↦ (
        l,
        ap (get_elem? ls) (sym q) ∙ at,
        ap (λ (x : Lane). x.agent_sock) (here ls a l l' m at (ap (get_elem? (set ls a l')) q ∙ e))
            ∙ same,
      )
      | no q ↦ (m, there ls a j l' m q e, refl)
    ]

-- The calls for a socket: it is registered, and nothing else changes.
mine :
    (s : ℕ) (t : List Action) (p : Pool)
    → ((before : Option Events) → applied p (add writable) before ≡ before)
    → registered s (control p (add writable) s ∷ (control client_event_pool (add readable) s ∷ t))
      ≡ some readable
mine s t p elsewhere =
    registered-elsewhere s s (add writable) _ p elsewhere ∙ registered-control s (add readable) t

theirs :
    (fd s : ℕ) (t : List Action) (p : Pool)
    → ((before : Option Events) → applied p (add writable) before ≡ before)
    → s ≢ fd
    → registered fd (control p (add writable) s ∷ (control client_event_pool (add readable) s ∷ t))
      ≡ registered fd t
theirs fd s t p elsewhere other =
    registered-elsewhere fd s (add writable) _ p elsewhere
    ∙ registered-control_other fd s (add readable) t other

module _ {T : Type 0} where
  -- Nothing is registered.
  pub record Bare (h n : ℕ) (c : Client T) (t : List Action) : Type 0 where
    pub host_sock : c.host_sock ≡ h
    pub different : Different h c.lanes
    pub count : length c.lanes ≡ n
    pub nothing : (fd : ℕ) → registered fd t ≡ none

  pub Bare-lane :
      (h n : ℕ) (c : Client T) (t : List Action) (a : ℕ) (l l' : Lane)
      → get_elem? c.lanes a ≡ some l
      → l'.agent_sock ≡ l.agent_sock
      → Bare h n c t
      → Bare h n (record c { lanes = set c.lanes a l' }) t
  Bare-lane h n c t a l l' at same b = record {
    host_sock = b.host_sock;
    different = Different-set h c.lanes a l l' at same b.different;
    count = length-set c.lanes a l' ∙ b.count;
    nothing = b.nothing;
  }

  -- The host's socket and those of the first `i` connections are registered as their marks say, the
  -- others are not.
  pub record Polled (h n i : ℕ) (c : Client T) (t : List Action) : Type 0 where
    pub host_sock : c.host_sock ≡ h
    pub different : Different h c.lanes
    pub count : length c.lanes ≡ n
    pub host : registered h t ≡ mask_of c.host_fd_poll
    pub done :
        (j : ℕ) (l : Lane)
        → get_elem? c.lanes j ≡ some l
        → j < i
        → registered l.agent_sock t ≡ mask_of l.agent_fd_poll
    pub rest :
        (j : ℕ) (l : Lane) → get_elem? c.lanes j ≡ some l → i ≤ j → registered l.agent_sock t ≡ none

  pub Polled-host :
      (h n : ℕ) (c : Client T) (t : List Action)
      → Bare h n c t
      → Polled h n 0
          (record c { host_fd_poll = in_only })
          (control event_poll_out_host (add writable) h
            ∷ (control client_event_pool (add readable) h ∷ t))
  Polled-host h n c t b = record {
    host_sock = b.host_sock;
    different = b.different;
    count = b.count;
    host = mine h t event_poll_out_host (λ x. refl);
    done = λ j l at less. absurd (omega (arith, less));
    rest = λ j l at less.
        theirs l.agent_sock h t event_poll_out_host (λ x. refl)
          (λ e. b.different.apart j l at (sym e))
        ∙ b.nothing l.agent_sock;
  }

  pub Polled-agent :
      (h n i : ℕ) (c : Client T) (t : List Action) (l m : Lane)
      → get_elem? c.lanes i ≡ some l
      → get_elem? (set c.lanes i (record l { agent_fd_poll = in_only })) i ≡ some m
      → Polled h n i c t
      → Polled h n
          (suc i)
          (record c { lanes = set c.lanes i (record l { agent_fd_poll = in_only }) })
          (control event_poll_out_agent (add writable) m.agent_sock
            ∷ (control client_event_pool (add readable) m.agent_sock ∷ t))
  Polled-agent h n i c t l m at at' b = record {
    host_sock = b.host_sock;
    different =
        Different-set h c.lanes i l (record l { agent_fd_poll = in_only }) at refl b.different;
    count = length-set c.lanes i _ ∙ b.count;
    host = others h (b.different.apart i l at) ∙ b.host;
    done = λ j x e less. elim (ℕ_discrete i j) [
      | yes q ↦
          let now : x ≡ record l { agent_fd_poll = in_only } =
            here c.lanes i l _ x at (ap (get_elem? (set c.lanes i _)) q ∙ e) in
          subst
            (λ (y : Lane).
              registered y.agent_sock (
                control event_poll_out_agent (add writable) m.agent_sock
                ∷ (control client_event_pool (add readable) m.agent_sock ∷ t))
              ≡ mask_of y.agent_fd_poll)
            (sym now)
            (subst
              (λ s.
                registered l.agent_sock (
                  control event_poll_out_agent (add writable) s
                  ∷ (control client_event_pool (add readable) s ∷ t))
                ≡ some readable)
              (sym sock) (mine l.agent_sock t event_poll_out_agent (λ y. refl)))
      | no q ↦
          let old = there c.lanes i j _ x q e in
          others x.agent_sock (b.different.distinct i j l x at old q)
          ∙ b.done j x old (omega (arith, less, q))
    ];
    rest = λ j x e less.
        let q : i ≢ j = λ same. absurd (omega (arith, less, same)) in
        let old = there c.lanes i j _ x q e in
        others x.agent_sock (b.different.distinct i j l x at old q)
        ∙ b.rest j x old (omega (arith, less));
  }
    where
      sock : m.agent_sock ≡ l.agent_sock
      sock = ap (λ (x : Lane). x.agent_sock) (here c.lanes i l _ m at at')

      others :
          (fd : ℕ)
          → l.agent_sock ≢ fd
          → registered fd (
              control event_poll_out_agent (add writable) m.agent_sock
              ∷ (control client_event_pool (add readable) m.agent_sock ∷ t))
            ≡ registered fd t
      others fd other =
          theirs fd m.agent_sock t event_poll_out_agent (λ y. refl) (λ e. other (sym sock ∙ e))

-- All connections are there.
pub Polled-Mirror :
    {env : Env} (h n i : ℕ) (w : World env (Client env.Table))
    → i ≡ n
    → Polled h n i w.state w.trace
    → Mirror w
Polled-Mirror h n i w all b = record {
  host = ap (λ s. registered s w.trace) b.host_sock ∙ b.host;
  agents =
      λ j l at. b.done j l at (omega (arith, get_elem?-bound w.state.lanes j l at, b.count, all));
  apart = λ j l at e. b.different.apart j l at (e ∙ b.host_sock);
  distinct = b.different.distinct;
}

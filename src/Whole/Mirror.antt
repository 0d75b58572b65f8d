-- ===== src/Whole/Mirror.antt =====
-- `host_fd_poll` and `agent_fd_poll` as a mirror of what the poll set has registered (poll.c, network.c).
pub mod Sending
pub mod Deliver
pub mod Receive
pub mod Turns
pub mod Polled
pub mod Setup
use sosagent.Base.{
  ℕ, ◌==◌, ◌≡◌, ◌≢◌, refl, ap, sym, subst, ◌∙◌, if◌then◌else◌, true, false, List, [], ◌∷◌, Option,
  none, some, get_elem?, set, get_elem?-set_self, get_elem?-set_ne, ==_iff,
}
use native.Mathlib.Decide.{ℕ_discrete}
use sosagent.System.{
  Env, Action, Received, got, recv_failed, Sent, took, send_failed, Events, Pool, client_event_pool,
  event_poll_out_agent, event_poll_out_host, event_pool, Ctl, add, modify, delete, sent, received,
  control, closed_fd,
}
use sosagent.System.Outcome.{M, and_then}
use sosagent.System.Calls.{World, recv_log, send_log, epoll_ctl}
use sosagent.System.Rules.{after}
use sosagent.System.Partial.{Post, came_back, Post-check, Post-epoll_ctl}
use sosagent.Client.{Poll, off, in_only, out_only, in_and_out, closed, Slot, Lane, Client}
use sosagent.Client.Access.{lane, set_agent_fd_poll, set_host_fd_poll, put_slot}
use sosagent.Deliver.{readable, writable, both_ways}
use sosagent.Receive.Tcp.{unequal}
use sosagent.Whole.Aside.{lane_in}
use sosagent.Whole.Served.{get_elem?-put_slot}
use sosagent.Whole.Registered.{
  asked, registered, mask_of, registered-recv_log, registered-send_log, registered-control,
  registered-control_other, registered-closed, registered-closed_other,
}

-- The connections of `new` have the sockets and marks that they have in `old`.
abbrev pub Same : List Lane → List Lane → Type 0
Same old new =
    (j : ℕ) (l' : Lane)
    → get_elem? new j ≡ some l'
    → (l : Lane) × (get_elem? old j ≡ some l)
      × (l'.agent_sock ≡ l.agent_sock)
      × (l'.agent_fd_poll ≡ l.agent_fd_poll)

pub Same-here : (ls : List Lane) → Same ls ls
Same-here ls j l e = (l, e, refl, refl)

pub Same-slot : (ls : List Lane) (a i : ℕ) (s : Slot) → Same ls (put_slot ls a i s)
Same-slot ls a i s j l' e =
    let found = get_elem?-put_slot ls a i j s l' e in
    (
      found.0,
      found.1,
      ap (λ (l : Lane). l.agent_sock) found.2,
      ap (λ (l : Lane). l.agent_fd_poll) found.2,
    )

pub Same-set :
    (ls : List Lane) (a : ℕ) (l l' : Lane)
    → get_elem? ls a ≡ some l
    → l'.agent_sock ≡ l.agent_sock
    → l'.agent_fd_poll ≡ l.agent_fd_poll
    → Same ls (set ls a l')
Same-set ls a l l' at sock mark j m e = elim (ℕ_discrete a j) [
  | yes q ↦
      let here : m ≡ l' =
        ap (λ o. lane_in o l')
          (sym e ∙ ap (get_elem? (set ls a l')) (sym q) ∙ get_elem?-set_self ls a l' l at) in
      (
        l,
        ap (get_elem? ls) (sym q) ∙ at,
        ap (λ (x : Lane). x.agent_sock) here ∙ sock,
        ap (λ (x : Lane). x.agent_fd_poll) here ∙ mark,
      )
  | no q ↦ (m, sym (get_elem?-set_ne ls a j l' q) ∙ e, refl, refl)
]

-- The other way round, where a connection is written as it is.
pub Same-back : (ls : List Lane) (a : ℕ) (l : Lane) → get_elem? ls a ≡ some l → Same (set ls a l) ls
Same-back ls a l at j m e = elim (ℕ_discrete a j) [
  | yes q ↦
      let here : m ≡ l = ap (λ o. lane_in o l) (sym e ∙ ap (get_elem? ls) (sym q) ∙ at) in
      (
        l,
        ap (get_elem? (set ls a l)) (sym q) ∙ get_elem?-set_self ls a l l at,
        ap (λ (x : Lane). x.agent_sock) here,
        ap (λ (x : Lane). x.agent_fd_poll) here,
      )
  | no q ↦ (m, get_elem?-set_ne ls a j l q ∙ e, refl, refl)
]

module _ {env : Env} where
  -- The marks say what is registered, and no two sockets of the transfer are the same.
  pub record Mirror (w : World env (Client env.Table)) : Type 0 where
    pub host : registered w.state.host_sock w.trace ≡ mask_of w.state.host_fd_poll
    pub agents :
        (j : ℕ) (l : Lane)
        → get_elem? w.state.lanes j ≡ some l
        → registered l.agent_sock w.trace ≡ mask_of l.agent_fd_poll
    pub apart :
        (j : ℕ) (l : Lane) → get_elem? w.state.lanes j ≡ some l → l.agent_sock ≢ w.state.host_sock
    pub distinct :
        (j m : ℕ) (l l' : Lane)
        → get_elem? w.state.lanes j ≡ some l
        → get_elem? w.state.lanes m ≡ some l'
        → j ≢ m
        → l.agent_sock ≢ l'.agent_sock

  -- Writes that leave sockets and marks, and calls that leave what is registered.
  pub Mirror-kept :
      (w w' : World env (Client env.Table))
      → w'.state.host_sock ≡ w.state.host_sock
      → w'.state.host_fd_poll ≡ w.state.host_fd_poll
      → Same w.state.lanes w'.state.lanes
      → ((fd : ℕ) → registered fd w'.trace ≡ registered fd w.trace)
      → Mirror w
      → Mirror w'
  Mirror-kept w w' sock mark same reg h = record {
    host = reg _ ∙ ap (λ n. registered n w.trace) sock ∙ h.host ∙ ap mask_of (sym mark);
    agents = λ j l at.
        let old = same j l at in
        reg _
        ∙ ap (λ n. registered n w.trace) old.2
        ∙ h.agents j old.0 old.1
        ∙ ap mask_of (sym old.3);
    apart = λ j l at e. let old = same j l at in h.apart j old.0 old.1 (sym old.2 ∙ e ∙ sock);
    distinct = λ j m l l' at at' other e.
        let old = same j l at in
        let old' = same m l' at' in
        h.distinct j m old.0 old'.0 old.1 old'.1 other (sym old.2 ∙ e ∙ old'.2);
  }

  pub Mirror-slot :
      (w : World env (Client env.Table)) (a i : ℕ) (s : Slot)
      → Mirror w
      → Mirror (record w { state = record (w.state) { lanes = put_slot w.state.lanes a i s } })
  Mirror-slot w a i s h = Mirror-kept w _ refl refl (Same-slot w.state.lanes a i s) (λ fd. refl) h

  pub Mirror-lane :
      (w : World env (Client env.Table)) (a : ℕ) (l l' : Lane)
      → get_elem? w.state.lanes a ≡ some l
      → l'.agent_sock ≡ l.agent_sock
      → l'.agent_fd_poll ≡ l.agent_fd_poll
      → Mirror w
      → Mirror (record w { state = record (w.state) { lanes = set w.state.lanes a l' } })
  Mirror-lane w a l l' at sock mark h =
      Mirror-kept w _ refl refl (Same-set w.state.lanes a l l' at sock mark) (λ fd. refl) h

  -- The other fields of the state.
  pub Mirror-state :
      (w : World env (Client env.Table)) (c : Client env.Table)
      → c.host_sock ≡ w.state.host_sock
      → c.host_fd_poll ≡ w.state.host_fd_poll
      → c.lanes ≡ w.state.lanes
      → Mirror w
      → Mirror (record w { state = c })
  Mirror-state w c sock mark lanes h =
      Mirror-kept w _ sock mark (subst (Same w.state.lanes) (sym lanes) (Same-here w.state.lanes))
        (λ fd. refl) h

  pub Mirror-recv :
      (fd len : ℕ) (w : World env (Client env.Table))
      → Mirror w
      → Mirror (record w {
        kernel = (env.recv_call w.kernel fd len).1;
        trace = recv_log fd (env.recv_call w.kernel fd len).0 w.trace;
      })
  Mirror-recv fd len w h =
      Mirror-kept w _ refl refl (Same-here w.state.lanes) (λ x. registered-recv_log x fd _ w.trace)
        h

  pub Mirror-send :
      (fd : ℕ) (bytes : List ℕ) (w : World env (Client env.Table))
      → Mirror w
      → Mirror (record w {
        kernel = (env.send_call w.kernel fd bytes).1;
        trace = send_log fd bytes (env.send_call w.kernel fd bytes).0 w.trace;
      })
  Mirror-send fd bytes w h =
      Mirror-kept w _ refl refl (Same-here w.state.lanes)
        (λ x. registered-send_log x fd bytes _ w.trace) h

  -- The two writes to the record of calls, and the mark of the connection that they are about.
  marked_agent :
      (w : World env (Client env.Table)) (k : env.Kernel) (a : ℕ) (l l' : Lane) (t : List Action)
      → get_elem? w.state.lanes a ≡ some l
      → l'.agent_sock ≡ l.agent_sock
      → registered l.agent_sock t ≡ mask_of l'.agent_fd_poll
      → ((fd : ℕ) → l.agent_sock ≢ fd → registered fd t ≡ registered fd w.trace)
      → Mirror w
      → Mirror (record w {
        kernel = k;
        state = record (w.state) { lanes = set w.state.lanes a l' };
        trace = t;
      })
  marked_agent w k a l l' t at sock mine others h = record {
    host = others _ (h.apart a l at) ∙ h.host;
    agents = λ j m e. elim (ℕ_discrete a j) [
      | yes q ↦
          subst (λ x. registered x.agent_sock t ≡ mask_of x.agent_fd_poll) (sym (here j m q e))
            (ap (λ n. registered n t) sock ∙ mine)
      | no q ↦ let old = there j m q e in others _ (h.distinct a j l m at old q) ∙ h.agents j m old
    ];
    apart = λ j m e. let old = before j m e in λ z. h.apart j old.0 old.1 (sym old.2 ∙ z);
    distinct = λ j n m m' e e' other z.
        let old = before j m e in
        let old' = before n m' e' in
        h.distinct j n old.0 old'.0 old.1 old'.1 other (sym old.2 ∙ z ∙ old'.2);
  }
    where
      here : (j : ℕ) (m : Lane) → a ≡ j → get_elem? (set w.state.lanes a l') j ≡ some m → m ≡ l'
      here j m q e =
          ap (λ o. lane_in o l')
            (sym e
              ∙ ap (get_elem? (set w.state.lanes a l')) (sym q)
              ∙ get_elem?-set_self w.state.lanes a l' l at)

      there :
          (j : ℕ) (m : Lane)
          → a ≢ j
          → get_elem? (set w.state.lanes a l') j ≡ some m
          → get_elem? w.state.lanes j ≡ some m
      there j m q e = sym (get_elem?-set_ne w.state.lanes a j l' q) ∙ e

      before :
          (j : ℕ) (m : Lane)
          → get_elem? (set w.state.lanes a l') j ≡ some m
          → (x : Lane) × (get_elem? w.state.lanes j ≡ some x) × (m.agent_sock ≡ x.agent_sock)
      before j m e = elim (ℕ_discrete a j) [
        | yes q ↦ (
          l,
          ap (get_elem? w.state.lanes) (sym q) ∙ at,
          ap (λ (x : Lane). x.agent_sock) (here j m q e) ∙ sock,
        )
        | no q ↦ (m, there j m q e, refl)
      ]

  pub Mirror-mark :
      (w : World env (Client env.Table)) (k : env.Kernel) (a : ℕ) (l : Lane) (c : Ctl) (q : Poll)
      → get_elem? w.state.lanes a ≡ some l
      → asked c ≡ mask_of q
      → Mirror w
      → Mirror (record w {
        kernel = k;
        state = record (w.state) { lanes = set w.state.lanes a (record l { agent_fd_poll = q }) };
        trace = control client_event_pool c l.agent_sock ∷ w.trace;
      })
  Mirror-mark w k a l c q at e h =
      marked_agent w k a l (record l { agent_fd_poll = q }) _ at refl
        (registered-control l.agent_sock c w.trace ∙ e)
        (λ fd other. registered-control_other fd l.agent_sock c w.trace other) h

  -- The socket of a connection that is not waited for is closed.
  pub Mirror-close :
      (w : World env (Client env.Table)) (a : ℕ) (l : Lane)
      → get_elem? w.state.lanes a ≡ some l
      → mask_of l.agent_fd_poll ≡ none
      → Mirror w
      → Mirror (record w { trace = closed_fd l.agent_sock ∷ w.trace })
  Mirror-close w a l at e h =
      Mirror-kept _ _ refl refl (Same-back w.state.lanes a l at) (λ fd. refl)
        (marked_agent w w.kernel a l l _ at refl (registered-closed l.agent_sock w.trace ∙ sym e)
          (λ fd other. registered-closed_other fd l.agent_sock w.trace other) h)

  -- It is marked CLOSED when its socket is closed, or when it is not waited for.
  pub Mirror-closing :
      (w : World env (Client env.Table)) (a : ℕ) (l m : Lane)
      → get_elem? w.state.lanes a ≡ some l
      → get_elem? w.state.lanes a ≡ some m
      → Mirror w
      → Mirror (record w {
        state = record (w.state) {
          lanes = set w.state.lanes a (record m { agent_fd_poll = closed });
        };
        trace = closed_fd l.agent_sock ∷ w.trace;
      })
  Mirror-closing w a l m at at' h =
      marked_agent w w.kernel a l (record m { agent_fd_poll = closed }) _ at
        (ap (λ o. (lane_in o l).agent_sock) (sym at' ∙ at)) (registered-closed l.agent_sock w.trace)
        (λ fd other. registered-closed_other fd l.agent_sock w.trace other) h

  pub Mirror-shut :
      (w : World env (Client env.Table)) (a : ℕ) (l : Lane)
      → get_elem? w.state.lanes a ≡ some l
      → mask_of l.agent_fd_poll ≡ none
      → Mirror w
      → Mirror (record w {
        state = record (w.state) {
          lanes = set w.state.lanes a (record l { agent_fd_poll = closed });
        };
      })
  Mirror-shut w a l at e h =
      marked_agent w w.kernel a l (record l { agent_fd_poll = closed }) w.trace at refl
        (h.agents a l at ∙ e) (λ fd other. refl) h

  -- A connection leaves the poll set, is marked so, and its socket is closed.
  pub Mirror-dropped :
      (w : World env (Client env.Table)) (a : ℕ) (l m : Lane) (q : Poll)
      → get_elem? w.state.lanes a ≡ some l
      → get_elem? w.state.lanes a ≡ some m
      → mask_of q ≡ none
      → Mirror w
      → Mirror (record w {
        kernel = (env.ctl_call w.kernel client_event_pool delete l.agent_sock).1;
        state = record (w.state) { lanes = set w.state.lanes a (record m { agent_fd_poll = q }) };
        trace = closed_fd l.agent_sock ∷ (control client_event_pool delete l.agent_sock ∷ w.trace);
      })
  Mirror-dropped w a l m q at at' e h =
      marked_agent w _ a l (record m { agent_fd_poll = q }) _ at
        (ap (λ o. (lane_in o l).agent_sock) (sym at' ∙ at))
        (registered-closed l.agent_sock _ ∙ sym e)
        (λ fd other.
          registered-closed_other fd l.agent_sock _ other
          ∙ registered-control_other fd l.agent_sock delete w.trace other)
        h

  marked_host :
      (w : World env (Client env.Table)) (k : env.Kernel) (q : Poll) (t : List Action)
      → registered w.state.host_sock t ≡ mask_of q
      → ((fd : ℕ) → w.state.host_sock ≢ fd → registered fd t ≡ registered fd w.trace)
      → Mirror w
      → Mirror (record w { kernel = k; state = record (w.state) { host_fd_poll = q }; trace = t })
  marked_host w k q t mine others h = record {
    host = mine;
    agents = λ j l at. others _ (λ e. h.apart j l at (sym e)) ∙ h.agents j l at;
    apart = h.apart;
    distinct = h.distinct;
  }

  pub Mirror-mark_host :
      (w : World env (Client env.Table)) (k : env.Kernel) (c : Ctl) (q : Poll)
      → asked c ≡ mask_of q
      → Mirror w
      → Mirror (record w {
        kernel = k;
        state = record (w.state) { host_fd_poll = q };
        trace = control client_event_pool c w.state.host_sock ∷ w.trace;
      })
  Mirror-mark_host w k c q e h =
      marked_host w k q _ (registered-control w.state.host_sock c w.trace ∙ e)
        (λ fd other. registered-control_other fd w.state.host_sock c w.trace other) h

  pub Mirror-close_host :
      (w : World env (Client env.Table))
      → mask_of w.state.host_fd_poll ≡ none
      → Mirror w
      → Mirror (record w { trace = closed_fd w.state.host_sock ∷ w.trace })
  Mirror-close_host w e h =
      marked_host w w.kernel w.state.host_fd_poll _
        (registered-closed w.state.host_sock w.trace ∙ sym e)
        (λ fd other. registered-closed_other fd w.state.host_sock w.trace other) h

  -- Where the code exits nothing is left to mirror.
  abbrev pub Anything : World env (Client env.Table) → Type 0
  Anything w = Unit {0}

  pub mark_agent-Mirror :
      (a : ℕ) (c : Ctl) (q : Poll) (w : World env (Client env.Table))
      → asked c ≡ mask_of q
      → Mirror w
      → Post
          (λ _ w'. Mirror w')
          Anything
          (and_then (lane a w) (λ l v.
            and_then (epoll_ctl client_event_pool c l.agent_sock v) (λ _. set_agent_fd_poll a q)))
  mark_agent-Mirror a c q w e h = Post-check (get_elem? w.state.lanes a) w _ (λ l at.
      Post-epoll_ctl client_event_pool c l.agent_sock w _ tt (
        Post-check (get_elem? w.state.lanes a) _ _ (λ m at'. came_back (
          subst
            (λ x. Mirror (record w {
              kernel = (env.ctl_call w.kernel client_event_pool c l.agent_sock).1;
              state = record (w.state) {
                lanes = set w.state.lanes a (record x { agent_fd_poll = q });
              };
              trace = control client_event_pool c l.agent_sock ∷ w.trace;
            }))
            (ap (λ o. lane_in o l) (sym at ∙ at')) (Mirror-mark w _ a l c q at e h)))))

  pub mark_host-Mirror :
      (c : Ctl) (q : Poll) (w : World env (Client env.Table))
      → asked c ≡ mask_of q
      → Mirror w
      → Post
          (λ _ w'. Mirror w')
          Anything
          (and_then (epoll_ctl client_event_pool c w.state.host_sock w) (λ _. set_host_fd_poll q))
  mark_host-Mirror c q w e h =
      Post-epoll_ctl client_event_pool c w.state.host_sock w _ tt
        (came_back (Mirror-mark_host w _ c q e h))

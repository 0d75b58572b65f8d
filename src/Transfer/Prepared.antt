-- ===== src/Transfer/Prepared.antt =====
-- `configure_poll` (network.c): the state in which a transfer begins.
use sosagent.Base.{
  ℕ, zero, suc, ◌+◌, ◌%◌, ◌^◌, ◌<◌, ◌≡◌, ◌≢◌, refl, ap, sym, subst, ◌∙◌, List, [], ◌∷◌, Option,
  none, some, length, get_elem?, set, length-set, get_elem?-set_self, get_elem?-set_ne, arith,
}
use native.Mathlib.Decide.{ℕ_discrete}
use sosagent.System.{
  Env, Pool, Ctl, add, control, client_event_pool, event_poll_out_agent, event_poll_out_host,
}
use sosagent.System.Outcome.{M, Ensures, returns, Ensures-mono, and_then, in_chain}
use sosagent.System.Calls.{World, stream}
use sosagent.Client.{Poll, in_only, has_out, Slot, Lane, Client}
use sosagent.System.Laws.{IsTable}
use sosagent.System.Rules.{after_epoll_ctl}
use sosagent.Deliver.{readable, writable}
use sosagent.Deliver.Order.{first_payloads, Idle}
use sosagent.Watch.Rounds.{entry, get_elem?-bound}
use sosagent.Transfer.Queues.{Free, after_malloc, after_new_slots}
use sosagent.Transfer.Setup.{malloc, new_slots, new_lanes, poll_lanes, configure_poll}

-- A connection of which nothing has come in, with a queue of free slots.
pub record Fresh (queue_size : ℕ) (l : Lane) : Type 0 where
  pub index : l.agent_packet_index_in ≡ none
  pub header : l.agent_needed_header_size ≡ 0
  pub waiting : l.agent_packet_queue_count ≡ 0
  pub slots : Free queue_size l.buffered_packet

abbrev lane_of : Option Lane → Lane → Lane
lane_of none l = l
lane_of (some m) l = m

module _ {env : Env} (w₀ : World env (Client env.Table)) where
  -- The first `b` connections are fresh, nothing was sent, and apart from the connections and the mark
  -- of the host's socket the state is as it was.
  pub record Prepared (b : ℕ) (w : World env (Client env.Table)) : Type 0 where
    pub only :
        w.state ≡ record (w₀.state) { host_fd_poll = w.state.host_fd_poll; lanes = w.state.lanes }
    pub quiet : (fd : ℕ) → stream fd w.trace ≡ stream fd w₀.trace
    pub count : length w.state.lanes ≡ length w₀.state.lanes
    pub fresh :
        (j : ℕ) (l : Lane)
        → j < b
        → get_elem? w.state.lanes j ≡ some l
        → Fresh w₀.state.queue_size l

  -- One connection is written.
  Prepared-set :
      (b b' i : ℕ) (w : World env (Client env.Table)) (l l' : Lane)
      → ((j : ℕ) → j < b' → i ≢ j → j < b)
      → get_elem? w.state.lanes i ≡ some l
      → Fresh w₀.state.queue_size l'
      → Prepared b w
      → Prepared b' (record w { state = record (w.state) { lanes = set w.state.lanes i l' } })
  Prepared-set b b' i w l l' less at new h = record {
    only = ap (λ (c : Client env.Table). record c { lanes = set w.state.lanes i l' }) h.only;
    quiet = h.quiet;
    count = length-set w.state.lanes i l' ∙ h.count;
    fresh = λ j m q e. elim (ℕ_discrete i j) [
      | yes same ↦
          subst (Fresh w₀.state.queue_size)
            (ap (λ o. lane_of o l)
              (sym (get_elem?-set_self w.state.lanes i l' l at)
                ∙ ap (get_elem? (set w.state.lanes i l')) same
                ∙ e))
            new
      | no other ↦
          h.fresh j m (less j q other) (sym (get_elem?-set_ne w.state.lanes i j l' other) ∙ e)
    ];
  }

  -- Where `configure_poll` exits nothing was sent.
  abbrev pub Unused : World env (Client env.Table) → Type 0
  Unused w = (fd : ℕ) → stream fd w.trace ≡ stream fd w₀.trace

  module _ {P : Unit {0} → World env (Client env.Table) → Type 0} (junk : Slot) where
    after_new_lanes :
        (n i : ℕ) (w : World env (Client env.Table))
        (f : Unit {0} → M (World env (Client env.Table)) (Unit {0}))
        → i + n ≡ length w₀.state.lanes
        → Prepared i w
        → ((w' : World env (Client env.Table))
            → Prepared (length w₀.state.lanes) w'
            → Ensures P Unused (f tt w'))
        → Ensures P Unused (and_then (new_lanes junk n i w) f)
    unfolding new_lanes
    after_new_lanes zero i w f e h ok = ok w (subst (λ m. Prepared m w) (omega (arith, e)) h)
    after_new_lanes (suc n) i w f e h ok = in_chain (malloc w.state.buffer_size w) _ f (
        after_malloc w.state.buffer_size w _ (λ k. h.quiet)
          (λ bytes k.
            in_chain
              (new_slots junk w.state.queue_size w.state.buffer_size (record w { kernel = k })) _ f
              (after_new_slots junk w.state.buffer_size w.state.queue_size (record w { kernel = k })
                _ (λ k'. h.quiet)
                (λ slots k' free. rw found.1 (
                  after_new_lanes n (suc i) _ f (omega (arith, e))
                    (Prepared-set i (suc i) i (record w { kernel = k' }) found.0 _
                      (λ j less other. omega (arith, other)) found.1
                      (record { index = refl; header = refl; waiting = refl; slots = same free })
                      (record { only = h.only; quiet = h.quiet; count = h.count; fresh = h.fresh }))
                    ok)))))
      where
        found : (l : Lane) × (get_elem? w.state.lanes i ≡ some l)
        found = entry w.state.lanes i (omega (arith, e, h.count))

        same : {slots : List Slot} → Free w.state.queue_size slots → Free w₀.state.queue_size slots
        same {slots} free =
            subst (λ m. Free m slots) (ap (λ (c : Client env.Table). c.queue_size) h.only) free

  Prepared-call :
      (b : ℕ) (w : World env (Client env.Table)) (k : env.Kernel) (pool : Pool) (c : Ctl) (fd : ℕ)
      → Prepared b w
      → Prepared b (record w { kernel = k; trace = control pool c fd ∷ w.trace })
  unfolding stream
  Prepared-call b w k pool c fd h = record {
    only = h.only;
    quiet = h.quiet;
    count = h.count;
    fresh = h.fresh;
  }

  Prepared-host :
      (b : ℕ) (w : World env (Client env.Table)) (q : Poll)
      → Prepared b w
      → Prepared b (record w { state = record (w.state) { host_fd_poll = q } })
  Prepared-host b w q h = record {
    only = ap (λ (c : Client env.Table). record c { host_fd_poll = q }) h.only;
    quiet = h.quiet;
    count = h.count;
    fresh = h.fresh;
  }

  -- The sockets from number `i` on go into the poll sets.
  poll_lanes-Prepared :
      (n i : ℕ) (w : World env (Client env.Table))
      → i + n ≡ length w₀.state.lanes
      → Prepared (length w₀.state.lanes) w
      → w.state.host_fd_poll ≡ in_only
      → Ensures
          (λ _ w'. Prepared (length w₀.state.lanes) w' × (w'.state.host_fd_poll ≡ in_only))
          Unused
          (poll_lanes n i w)
  unfolding poll_lanes stream
  poll_lanes-Prepared zero i w e h q = returns (h, q)
  poll_lanes-Prepared (suc n) i w e h q =
      rw (found.1, get_elem?-set_self w.state.lanes i l' found.0 found.1)
        (after_epoll_ctl client_event_pool (add readable) l'.agent_sock v _
          (λ k.
            after_epoll_ctl event_poll_out_agent (add writable) l'.agent_sock _ _
              (λ k'.
                poll_lanes-Prepared n (suc i) _ (omega (arith, e))
                  (Prepared-call _ _ k' event_poll_out_agent (add writable) l'.agent_sock
                    (Prepared-call _ v k client_event_pool (add readable) l'.agent_sock written))
                  q)
              (λ k'. h.quiet))
          (λ k. h.quiet))
    where
      found : (l : Lane) × (get_elem? w.state.lanes i ≡ some l)
      found = entry w.state.lanes i (omega (arith, e, h.count))

      l' : Lane
      l' = record (found.0) { agent_fd_poll = in_only }

      v : World env (Client env.Table)
      v = record w { state = record (w.state) { lanes = set w.state.lanes i l' } }

      fresh : Fresh w₀.state.queue_size found.0
      fresh = h.fresh i found.0 (omega (arith, e)) found.1

      written : Prepared (length w₀.state.lanes) v
      written =
          Prepared-set _ _ i w found.0 l' (λ j less other. less) found.1
            (record {
              index = fresh.index;
              header = fresh.header;
              waiting = fresh.waiting;
              slots = fresh.slots;
            })
            h

module _ {env : Env} (p : ℕ → List ℕ) (w₀ : World env (Client env.Table)) where
  -- No packet has gone out and none is in the table, the host is read, and each connection is fresh.
  pub record Configured (w : World env (Client env.Table)) : Type 0 where
    pub idle : Idle p 0 w
    pub host : w.state.host_fd_poll ≡ in_only
    pub count : length w.state.lanes ≡ length w₀.state.lanes
    pub fresh :
        (j : ℕ) (l : Lane) → get_elem? w.state.lanes j ≡ some l → Fresh w₀.state.queue_size l

-- On a client that has not sent the host anything and whose table is empty, `configure_poll` returns
-- with no packet delivered, the table in order, the host's socket not waited for to be written and all
-- slots of all connections free; or it exits without sending anything.
pub configure_poll-Configured :
    {env : Env} (p : ℕ → List ℕ) (table : IsTable env) (junk : Slot)
    (w : World env (Client env.Table))
    → w.state.recv_seq ≡ 0
    → w.state.buffered_packet_table ≡ env.no_entries
    → stream w.state.host_sock w.trace ≡ []
    → Ensures (λ _ w'. Configured p w w') (Unused w) (configure_poll junk w)
unfolding configure_poll stream first_payloads
configure_poll-Configured {env = env} p table junk w seq empty silent =
    after_new_lanes w junk (length w.state.lanes) 0 w _ (omega arith) begin (λ w' h.
      after_epoll_ctl client_event_pool (add readable) w.state.host_sock _ _
        (λ k.
          after_epoll_ctl event_poll_out_host (add writable) w.state.host_sock _ _
            (λ k'.
              Ensures-mono
                (poll_lanes-Prepared w (length w.state.lanes) 0 _ (omega arith)
                  (Prepared-call w _ _ k' event_poll_out_host (add writable) w.state.host_sock (
                    Prepared-call w _ _ k client_event_pool (add readable) w.state.host_sock
                      (Prepared-host w _ w' in_only h)))
                  refl)
                (λ _ v d. finish v d.0 d.1) (λ v q. q))
            (λ k'. h.quiet))
        (λ k. h.quiet))
  where
    begin : Prepared w 0 w
    begin = record {
      only = refl;
      quiet = λ fd. refl;
      count = refl;
      fresh = λ j l less e. absurd (omega arith);
    }

    finish :
        (v : World env (Client env.Table))
        → Prepared w (length w.state.lanes) v
        → v.state.host_fd_poll ≡ in_only
        → Configured p w v
    finish v h q = record {
      idle = record {
        between = record {
          next = ap (λ (c : Client env.Table). c.recv_seq) h.only ∙ seq;
          out =
              ap (λ (c : Client env.Table). stream c.host_sock v.trace) h.only
              ∙ h.quiet w.state.host_sock
              ∙ silent;
          filed = λ n a i e. absurd (not_found (sym (none_at n) ∙ e));
        };
        quiet = ap has_out q;
        absent = none_at (0 % 2 ^ 32);
      };
      host = q;
      count = h.count;
      fresh = λ j l e. h.fresh j l (omega (arith, get_elem?-bound v.state.lanes j l e, h.count)) e;
    }
      where
        none_at : (n : ℕ) → env.hash_find v.state.buffered_packet_table n ≡ none
        none_at n =
            ap (λ t. env.hash_find t n)
              (ap (λ (c : Client env.Table). c.buffered_packet_table) h.only ∙ empty)
            ∙ table.find_none n

        not_found : {x : ℕ × ℕ} → none ≢ some x
        not_found z = cc

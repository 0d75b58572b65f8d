-- ===== src/Whole/Aside.antt =====
-- What the handlers of the other direction leave alone (`read_host_send_agent` of network.c,
-- `all_agents_socks_full` and `not_all_agent_socks_full` of poll.c): the stream to the host, and what
-- is being read from the connections.
use sosagent.Base.{
  ℕ, ◌≡◌, ◌≢◌, refl, ap, sym, ◌∙◌, ◌⊎◌, inl, inr, List, [], Option, none, some, get_elem?, set,
  subst, get_elem?-set_self, get_elem?-set_ne,
}
use sosagent.System.{Env, Action}
use sosagent.System.Calls.{World, stream, incoming}
use native.Mathlib.Decide.{ℕ_discrete}
use sosagent.Client.Access.{slot_at}
use sosagent.Client.Slots.{slot_at-set_lane}
use sosagent.Client.{Poll, off, closed, has_out, Packet, LaneStats, Lane, Client}

abbrev pub lane_in : Option Lane → Lane → Lane
lane_in none l = l
lane_in (some m) l = m

abbrev blank_packet : Packet
blank_packet = record { serialized_data = []; host_packet_size = 0; host_sent_size = 0 }

abbrev blank_stats : LaneStats
blank_stats = record {
  sent_bytes = 0;
  recv_bytes = 0;
  sent_packets = 0;
  recv_packets = 0;
  blocked = 0;
  blocked_recv = 0;
  not_full_send = 0;
  average_queue_length = 0;
}

-- What reading a connection is about: its socket, the word, the index and the slots.
abbrev pub reading : Lane → Lane
reading l = record l {
  agent_fd_poll = off;
  packet = blank_packet;
  agent_packet_queue_count = 0;
  stats = blank_stats;
}

module _ {env : Env} (pending : env.Kernel → ℕ → List ℕ) (exempt : ℕ → Type 0)
    (w₀ : World env (Client env.Table)) where
  -- A connection is read as before, and stays CLOSED if it was and is not exempt.
  pub record Kin (j : ℕ) (l₀ l : Lane) : Type 0 where
    pub same : reading l ≡ reading l₀
    pub shut : ¬ exempt j → l₀.agent_fd_poll ≡ closed → l.agent_fd_poll ≡ closed

  -- Since `w₀` nothing was sent to the host or read from another socket than the host's, the slots and
  -- the fields for delivery and for reading are as they were, and the host's socket is waited for as
  -- before or marked CLOSED.
  pub record Aside (w : World env (Client env.Table)) : Type 0 where
    pub only : w.state ≡ record (w₀.state) {
      send_seq = w.state.send_seq;
      host_fd_poll = w.state.host_fd_poll;
      total_sent_bytes = w.state.total_sent_bytes;
      total_recv_bytes = w.state.total_recv_bytes;
      lanes = w.state.lanes;
    }
    pub slots : (b j : ℕ) → slot_at w.state.lanes b j ≡ slot_at w₀.state.lanes b j
    pub kin :
        (j : ℕ) (l : Lane)
        → get_elem? w.state.lanes j ≡ some l
        → (l₀ : Lane) × (get_elem? w₀.state.lanes j ≡ some l₀) × Kin j l₀ l
    pub out : stream w₀.state.host_sock w.trace ≡ stream w₀.state.host_sock w₀.trace
    pub ins :
        (fd : ℕ)
        → fd ≢ w₀.state.host_sock
        → (incoming fd w.trace ≡ incoming fd w₀.trace)
          × (pending w.kernel fd ≡ pending w₀.kernel fd)
    pub host :
        (has_out w.state.host_fd_poll ≡ has_out w₀.state.host_fd_poll)
        ⊎ (w.state.host_fd_poll ≡ closed)

  pub Aside-here : Aside w₀
  Aside-here = record {
    only = refl;
    slots = λ b j. refl;
    kin = λ j l at. (l, at, record { same = refl; shut = λ other q. q });
    out = refl;
    ins = λ fd other. (refl, refl);
    host = inl refl;
  }

  -- One connection is written.
  pub Aside-set :
      (w : World env (Client env.Table)) (a : ℕ) (l l' : Lane)
      → get_elem? w.state.lanes a ≡ some l
      → reading l' ≡ reading l
      → (exempt a ⊎ (l.agent_fd_poll ≡ closed → l'.agent_fd_poll ≡ closed))
      → Aside w
      → Aside (record w { state = record (w.state) { lanes = set w.state.lanes a l' } })
  Aside-set w a l l' at same stay h = record {
    only = ap (λ (c : Client env.Table). record c { lanes = set w.state.lanes a l' }) h.only;
    slots = λ b j.
        slot_at-set_lane w.state.lanes a b j l l' at (ap (λ (m : Lane). m.buffered_packet) same)
        ∙ h.slots b j;
    kin = λ j m e. elim (ℕ_discrete a j) [
      | yes q ↦
          let found = h.kin a l at in
          subst (λ n. (l₀ : Lane) × (get_elem? w₀.state.lanes n ≡ some l₀) × Kin n l₀ m) q
            (subst (λ x. (l₀ : Lane) × (get_elem? w₀.state.lanes a ≡ some l₀) × Kin a l₀ x)
              (ap (λ o. lane_in o l)
                (sym (get_elem?-set_self w.state.lanes a l' l at)
                  ∙ ap (get_elem? (set w.state.lanes a l')) q
                  ∙ e))
              (
                found.0,
                found.1,
                record {
                  same = same ∙ found.2.same;
                  shut = λ other z. stays stay other (found.2.shut other z);
                },
              ))
      | no q ↦ h.kin j m (sym (get_elem?-set_ne w.state.lanes a j l' q) ∙ e)
    ];
    out = h.out;
    ins = h.ins;
    host = h.host;
  }
    where
      stays :
          exempt a ⊎ (l.agent_fd_poll ≡ closed → l'.agent_fd_poll ≡ closed)
          → ¬ exempt a
          → l.agent_fd_poll ≡ closed
          → l'.agent_fd_poll ≡ closed
      stays (inl e) other q = absurd (other e)
      stays (inr k) other q = k q

  -- The counters of the other direction, and the mark of the host's socket.
  pub Aside-counters :
      (w : World env (Client env.Table)) (seq sent received : ℕ) (q : Poll)
      → (has_out q ≡ has_out w₀.state.host_fd_poll) ⊎ (q ≡ closed)
      → Aside w
      → Aside (record w {
        state = record (w.state) {
          send_seq = seq;
          total_sent_bytes = sent;
          total_recv_bytes = received;
          host_fd_poll = q;
        };
      })
  Aside-counters w seq sent received q mark h = record {
    only =
        ap
          (λ (c : Client env.Table). record c {
            send_seq = seq;
            total_sent_bytes = sent;
            total_recv_bytes = received;
            host_fd_poll = q;
          })
          h.only;
    slots = h.slots;
    kin = h.kin;
    out = h.out;
    ins = h.ins;
    host = mark;
  }

  -- Calls that neither read nor write a socket.
  pub Aside-call :
      (w : World env (Client env.Table)) (k : env.Kernel) (t : List Action)
      → ((fd : ℕ) → stream fd t ≡ stream fd w.trace)
      → ((fd : ℕ) → fd ≢ w₀.state.host_sock → incoming fd t ≡ incoming fd w.trace)
      → ((fd : ℕ) → fd ≢ w₀.state.host_sock → pending k fd ≡ pending w.kernel fd)
      → Aside w
      → Aside (record w { kernel = k; trace = t })
  Aside-call w k t out ins rest h = record {
    only = h.only;
    slots = h.slots;
    kin = h.kin;
    out = out _ ∙ h.out;
    ins = λ fd other. (ins fd other ∙ (h.ins fd other).0, rest fd other ∙ (h.ins fd other).1);
    host = h.host;
  }

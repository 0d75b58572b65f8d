-- ===== src/Receive/Resting.antt =====
-- What reading a connection leaves as it is (`read_agent_send_host`, network.c): the slot that is
-- being filled is none that waits for its turn.
use sosagent.Base.{ℕ, ◌≡◌, ◌∙◌, ◌⊎◌, inl, inr, List}
use sosagent.System.{Env, Action}
use sosagent.System.Calls.{World, stream}
use sosagent.Client.{Lane, Client}
use sosagent.Client.Access.{slot_at}
use sosagent.Deliver.Order.{Filed, AllFiled, Apart, Idle, Waiting}

-- Two states of the slots that differ in one slot at most.
abbrev pub Agree : List Lane → List Lane → ℕ → ℕ → Type 0
Agree old new a i = (b j : ℕ) → ¬ ((a ≡ b) × (i ≡ j)) → slot_at new b j ≡ slot_at old b j

module _ {env : Env} (p : ℕ → List ℕ) where
  -- `k` packets are out, and slot `i` of connection `a` holds none that waits.
  pub record Resting (k a i : ℕ) (w : World env (Client env.Table)) : Type 0 where
    pub apart : Apart env w.state.buffered_packet_table a i
    pub rest :
        Idle p k w
        ⊎ (Waiting p k w × ¬ ((a ≡ w.state.host_agent_id) × (i ≡ w.state.agent_packet_index_out)))

module _ (p : ℕ → List ℕ) (env : Env) where
  pub AllFiled-Agree :
      (t : env.Table) (old new : List Lane) (a i : ℕ)
      → Agree old new a i
      → Apart env t a i
      → AllFiled p env t old
      → AllFiled p env t new
  AllFiled-Agree t old new a i same apart filed n b j e = record {
    held = f.held;
    at = same b j (λ q. apart n (rw (q.0, q.1) e)) ∙ f.at;
    carries = f.carries;
    own_id = f.own_id;
    own_lane = f.own_lane;
    own_place = f.own_place;
  }
    where
      f : Filed p old b j n
      f = filed n b j e

module _ {env : Env} where
  -- The state with other lanes, after calls that send nothing to the host.
  abbrev pub moved :
      World env (Client env.Table)
      → env.Kernel
      → List Lane
      → List Action
      → World env (Client env.Table)
  moved w kernel lanes t = record w {
    kernel = kernel;
    state = record (w.state) { lanes = lanes };
    trace = t;
  }

module _ {env : Env} (p : ℕ → List ℕ) where
  pub Resting-moved :
      (k a i : ℕ) (w : World env (Client env.Table)) (kernel : env.Kernel) (lanes : List Lane)
      (t : List Action)
      → stream w.state.host_sock t ≡ stream w.state.host_sock w.trace
      → Agree w.state.lanes lanes a i
      → Resting p k a i w
      → Resting p k a i (moved w kernel lanes t)
  Resting-moved k a i w kernel lanes t e same h = record { apart = h.apart; rest = go h.rest }
    where
      go :
          Idle p k w
            ⊎ (Waiting p k w
                × ¬ ((a ≡ w.state.host_agent_id) × (i ≡ w.state.agent_packet_index_out)))
          → Idle p k (moved w kernel lanes t)
            ⊎ (Waiting p k (moved w kernel lanes t)
                × ¬ ((a ≡ w.state.host_agent_id) × (i ≡ w.state.agent_packet_index_out)))
      go (inl d) = inl (record {
        between = record {
          next = d.between.next;
          out = e ∙ d.between.out;
          filed = AllFiled-Agree p env _ _ lanes a i same h.apart d.between.filed;
        };
        quiet = d.quiet;
        absent = d.absent;
      })
      go (inr (d, other)) = inr (
        record {
          count = d.count;
          sending = record {
            next = d.sending.next;
            out = e ∙ d.sending.out;
            filed = AllFiled-Agree p env _ _ lanes a i same h.apart d.sending.filed;
            at_slot = record {
              held = d.sending.at_slot.held;
              at = same _ _ other ∙ d.sending.at_slot.at;
              carries = d.sending.at_slot.carries;
            };
            partial = d.sending.partial;
            apart = d.sending.apart;
            absent = d.sending.absent;
          };
          marked = d.marked;
          wanted = d.wanted;
        },
        other,
      )

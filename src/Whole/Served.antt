-- ===== src/Whole/Served.antt =====
-- What `send_data_host` (network.c) leaves as it is while packets go out to the host: every slot but
-- those of the packets it sends, and what is being read from the connections.
use sosagent.Base.{
  ℕ, zero, suc, ◌≡◌, ◌≢◌, refl, ap, sym, subst, ◌∙◌, List, [], ◌∷◌, Option, none, some, length,
  length-set, get_elem?, set, get_elem?-set_self, get_elem?-set_ne,
}
use native.Mathlib.Decide.{ℕ_discrete}
use sosagent.System.{Env, Action}
use sosagent.System.Calls.{World, incoming}
use sosagent.System.Laws.{IsTable}
use sosagent.Deliver.Drain.{found_after_del}
use sosagent.Client.{Poll, closed, Slot, Lane, Client}
use sosagent.Client.Access.{slot_at, put_slot}
use sosagent.Client.Slots.{slot_at-put_slot_self, slot_at-put_slot_ne, slot_at-set_lane}
use sosagent.Whole.Aside.{reading, lane_in}

pub none≢some : {v : ℕ × ℕ} → none ≢ some v
none≢some e = cc

pub no_entry : (o : Option (ℕ × ℕ)) → ((v : ℕ × ℕ) → o ≢ some v) → o ≡ none
no_entry none h = refl
no_entry (some v) h = absurd (h v refl)

-- The same without the slots.
abbrev pub word_reading : Lane → Lane
word_reading l = record (reading l) { buffered_packet = [] }

-- A connection whose slot is written is the same in all else.
pub get_elem?-put_slot :
    (ls : List Lane) (a i j : ℕ) (s : Slot) (l' : Lane)
    → get_elem? (put_slot ls a i s) j ≡ some l'
    → (l : Lane) × (get_elem? ls j ≡ some l)
      × (l' ≡ record l { buffered_packet = l'.buffered_packet })
      × (length l'.buffered_packet ≡ length l.buffered_packet)
unfolding put_slot
get_elem?-put_slot [] a i j s l' e = cc
get_elem?-put_slot (x ∷ ls) zero i zero s l' e = (
  x,
  refl,
  here (λ l. l ≡ record x { buffered_packet = l.buffered_packet }) refl,
  here (λ l. length l.buffered_packet ≡ length x.buffered_packet)
      (length-set x.buffered_packet i s),
)
  where
    here : (P : Lane → Type 0) → P (record x { buffered_packet = set x.buffered_packet i s }) → P l'
    here P h = subst P (ap (λ o. lane_in o x) e) h
get_elem?-put_slot (x ∷ ls) zero i (suc j) s l' e = (l', e, refl, refl)
get_elem?-put_slot (x ∷ ls) (suc a) i zero s l' e = (l', e, refl, refl)
get_elem?-put_slot (x ∷ ls) (suc a) i (suc j) s l' e = get_elem?-put_slot ls a i j s l' e

module _ {env : Env} (pending : env.Kernel → ℕ → List ℕ) (a₀ i₀ : ℕ)
    (w₀ : World env (Client env.Table)) where
  -- A connection's word is read as before; it has as many slots, and stays CLOSED if it was.
  pub record Kin (l₀ l : Lane) : Type 0 where
    pub same : word_reading l ≡ word_reading l₀
    pub queue : length l.buffered_packet ≡ length l₀.buffered_packet
    pub shut : l₀.agent_fd_poll ≡ closed → l.agent_fd_poll ≡ closed

  -- The slot that is sent first, and those that have been taken out of the table.
  pub data Touched (t : env.Table) (b j : ℕ) : Type 0 where
    first : a₀ ≡ b → i₀ ≡ j → Touched t b j
    filed :
        (n : ℕ)
        → env.hash_find w₀.state.buffered_packet_table n ≡ some (b, j)
        → env.hash_find t n ≡ none
        → Touched t b j

  -- Since `w₀` no entry has come into the table, slots that are not touched are as they were, and the
  -- others have buffers as large; nothing has been read, and the fields for it are the same.
  pub record Served (w : World env (Client env.Table)) : Type 0 where
    pub only : w.state ≡ record (w₀.state) {
      buffered_packet_table = w.state.buffered_packet_table;
      recv_seq = w.state.recv_seq;
      host_fd_poll = w.state.host_fd_poll;
      host_agent_id = w.state.host_agent_id;
      agent_packet_index_out = w.state.agent_packet_index_out;
      total_sent_bytes = w.state.total_sent_bytes;
      lanes = w.state.lanes;
    }
    pub shrinks :
        (n : ℕ) (v : ℕ × ℕ)
        → env.hash_find w.state.buffered_packet_table n ≡ some v
        → env.hash_find w₀.state.buffered_packet_table n ≡ some v
    pub slots :
        (b j : ℕ)
        → ¬ Touched w.state.buffered_packet_table b j
        → slot_at w.state.lanes b j ≡ slot_at w₀.state.lanes b j
    pub room :
        (b j : ℕ) (s : Slot)
        → slot_at w.state.lanes b j ≡ some s
        → (s₀ : Slot) × (slot_at w₀.state.lanes b j ≡ some s₀)
          × (length s.serialized_data ≡ length s₀.serialized_data)
    pub kin :
        (j : ℕ) (l : Lane)
        → get_elem? w.state.lanes j ≡ some l
        → (l₀ : Lane) × (get_elem? w₀.state.lanes j ≡ some l₀) × Kin l₀ l
    pub ins :
        (fd : ℕ)
        → (incoming fd w.trace ≡ incoming fd w₀.trace)
          × (pending w.kernel fd ≡ pending w₀.kernel fd)

  pub Served-here : Served w₀
  Served-here = record {
    only = refl;
    shrinks = λ n v e. e;
    slots = λ b j new. refl;
    room = λ b j s at. (s, at, refl);
    kin = λ j l at. (l, at, record { same = refl; queue = refl; shut = λ q. q });
    ins = λ fd. (refl, refl);
  }

  -- One connection is written, but not its slots.
  pub Served-set :
      (w : World env (Client env.Table)) (a : ℕ) (l l' : Lane)
      → get_elem? w.state.lanes a ≡ some l
      → reading l' ≡ reading l
      → (l.agent_fd_poll ≡ closed → l'.agent_fd_poll ≡ closed)
      → Served w
      → Served (record w { state = record (w.state) { lanes = set w.state.lanes a l' } })
  Served-set w a l l' at same stay h = record {
    only = ap (λ (c : Client env.Table). record c { lanes = set w.state.lanes a l' }) h.only;
    shrinks = h.shrinks;
    slots = λ b j new. as_before b j ∙ h.slots b j new;
    room = λ b j s e. h.room b j s (sym (as_before b j) ∙ e);
    kin = λ j m e. elim (ℕ_discrete a j) [
      | yes q ↦
          let found = h.kin a l at in
          subst (λ n. (l₀ : Lane) × (get_elem? w₀.state.lanes n ≡ some l₀) × Kin l₀ m) q
            (subst (λ x. (l₀ : Lane) × (get_elem? w₀.state.lanes a ≡ some l₀) × Kin l₀ x)
              (ap (λ o. lane_in o l)
                (sym (get_elem?-set_self w.state.lanes a l' l at)
                  ∙ ap (get_elem? (set w.state.lanes a l')) q
                  ∙ e))
              (
                found.0,
                found.1,
                record {
                  same = ap (λ (x : Lane). word_reading x) same ∙ found.2.same;
                  queue = ap (λ (x : Lane). length x.buffered_packet) same ∙ found.2.queue;
                  shut = λ z. stay (found.2.shut z);
                },
              ))
      | no q ↦ h.kin j m (sym (get_elem?-set_ne w.state.lanes a j l' q) ∙ e)
    ];
    ins = h.ins;
  }
    where
      as_before : (b j : ℕ) → slot_at (set w.state.lanes a l') b j ≡ slot_at w.state.lanes b j
      as_before b j =
          slot_at-set_lane w.state.lanes a b j l l' at (ap (λ (m : Lane). m.buffered_packet) same)

  -- A touched slot is written.
  pub Served-slot :
      (w : World env (Client env.Table)) (a i : ℕ) (s s' : Slot)
      → slot_at w.state.lanes a i ≡ some s
      → length s'.serialized_data ≡ length s.serialized_data
      → Touched w.state.buffered_packet_table a i
      → Served w
      → Served (record w { state = record (w.state) { lanes = put_slot w.state.lanes a i s' } })
  Served-slot w a i s s' at size t h = record {
    only = ap (λ (c : Client env.Table). record c { lanes = put_slot w.state.lanes a i s' }) h.only;
    shrinks = h.shrinks;
    slots = λ b j new.
        slot_at-put_slot_ne w.state.lanes a i b j s' (λ q. new (
          subst (λ m. Touched w.state.buffered_packet_table b m) q.1
            (subst (λ m. Touched w.state.buffered_packet_table m i) q.0 t)))
        ∙ h.slots b j new;
    room = λ b j r e. elim (ℕ_discrete a b) [
      | yes q ↦ elim (ℕ_discrete i j) [
        | yes q' ↦ at_same b j r q q' e
        | no q' ↦
            h.room b j r (sym (slot_at-put_slot_ne w.state.lanes a i b j s' (λ z. q' z.1)) ∙ e)
      ]
      | no q ↦ h.room b j r (sym (slot_at-put_slot_ne w.state.lanes a i b j s' (λ z. q z.0)) ∙ e)
    ];
    kin = λ j m e.
        let found = get_elem?-put_slot w.state.lanes a i j s' m e in
        let old = h.kin j found.0 found.1 in
        (
          old.0,
          old.1,
          record {
            same = ap (λ (x : Lane). word_reading x) found.2 ∙ old.2.same;
            queue = found.3 ∙ old.2.queue;
            shut = λ z. ap (λ (x : Lane). x.agent_fd_poll) found.2 ∙ old.2.shut z;
          },
        );
    ins = h.ins;
  }
    where
      slot_in : Option Slot → Slot
      slot_in none = s'
      slot_in (some r) = r

      at_same :
          (b j : ℕ) (r : Slot)
          → a ≡ b
          → i ≡ j
          → slot_at (put_slot w.state.lanes a i s') b j ≡ some r
          → (s₀ : Slot) × (slot_at w₀.state.lanes b j ≡ some s₀)
            × (length r.serialized_data ≡ length s₀.serialized_data)
      at_same b j r q q' e =
          let old = h.room b j s (
            ap (λ n. slot_at w.state.lanes n j) (sym q)
            ∙ ap (slot_at w.state.lanes a) (sym q')
            ∙ at) in
          (
            old.0,
            old.1,
            ap (λ o. length (slot_in o).serialized_data)
                  (sym e
                    ∙ ap (λ n. slot_at (put_slot w.state.lanes a i s') n j) (sym q)
                    ∙ ap (slot_at (put_slot w.state.lanes a i s') a) (sym q')
                    ∙ slot_at-put_slot_self w.state.lanes a i s' s at)
                ∙ size
                ∙ old.2,
          )

  -- A call, and the fields that say what is sent next.
  pub Served-call :
      (w : World env (Client env.Table)) (k : env.Kernel) (t : List Action)
      → ((fd : ℕ) → incoming fd t ≡ incoming fd w.trace)
      → ((fd : ℕ) → pending k fd ≡ pending w.kernel fd)
      → Served w
      → Served (record w { kernel = k; trace = t })
  Served-call w k t ins rest h = record {
    only = h.only;
    shrinks = h.shrinks;
    slots = h.slots;
    room = h.room;
    kin = h.kin;
    ins = λ fd. (ins fd ∙ (h.ins fd).0, rest fd ∙ (h.ins fd).1);
  }

  pub Served-marks :
      (w : World env (Client env.Table)) (seq a i sent : ℕ) (q : Poll)
      → Served w
      → Served (record w {
        state = record (w.state) {
          recv_seq = seq;
          host_agent_id = a;
          agent_packet_index_out = i;
          total_sent_bytes = sent;
          host_fd_poll = q;
        };
      })
  Served-marks w seq a i sent q h = record {
    only =
        ap
          (λ (c : Client env.Table). record c {
            recv_seq = seq;
            host_agent_id = a;
            agent_packet_index_out = i;
            total_sent_bytes = sent;
            host_fd_poll = q;
          })
          h.only;
    shrinks = h.shrinks;
    slots = h.slots;
    room = h.room;
    kin = h.kin;
    ins = h.ins;
  }

  -- `HASH_DEL`.
  pub Served-del :
      IsTable env
      → (w : World env (Client env.Table)) (n : ℕ) → Served w
      → Served (record w {
        state = record (w.state) {
          buffered_packet_table = env.hash_del w.state.buffered_packet_table n;
        };
      })
  Served-del table w n h = record {
    only =
        ap
          (λ (c : Client env.Table). record c {
            buffered_packet_table = env.hash_del w.state.buffered_packet_table n;
          })
          h.only;
    shrinks =
        λ m v e. h.shrinks m v (found_after_del table w.state.buffered_packet_table n m v e).0;
    slots = λ b j new. h.slots b j (λ t. new (later t));
    room = h.room;
    kin = h.kin;
    ins = h.ins;
  }
    where
      later :
          {b j : ℕ}
          → Touched w.state.buffered_packet_table b j
          → Touched (env.hash_del w.state.buffered_packet_table n) b j
      later (first e f) = first e f
      later (filed m e f) = filed m e (
          no_entry _ (λ v q.
            none≢some (sym f ∙ (found_after_del table w.state.buffered_packet_table n m v q).0)))

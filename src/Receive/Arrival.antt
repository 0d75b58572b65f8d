-- ===== src/Receive/Arrival.antt =====
-- A packet that has come in whole (the end of `read_agent_send_host`, network.c): the host still
-- receives the payloads in order.
use sosagent.Base.{
  ℕ, ◌%◌, ◌^◌, ◌≡◌, refl, ap, sym, ◌∙◌, ◌≢◌, ◌⊎◌, inl, inr, ◌==◌, ==_iff, false, false≢true,
  append-nil, Bool-cases, List, ◌∷◌, Option, none, some, subst, take, get_elem?, set, arith,
}
use native.Mathlib.Decide.{ℕ_discrete}
use sosagent.Wire.{word_of}
use sosagent.System.{Env, client_event_pool, Ctl, modify, delete, control}
use sosagent.System.Laws.{IsPosix, IsTable}
use sosagent.System.Outcome.{M, Ensures, returns, Ensures-and_then, and_then}
use sosagent.System.Calls.{World, stream}
use sosagent.System.Rules.{after_epoll_ctl_in_chain}
use sosagent.Client.{
  Poll, off, in_only, out_only, in_and_out, has_out, Slot, Lane, Client, Status, success,
}
use sosagent.Client.Access.{slot_at, put_slot}
use sosagent.Client.Slots.{
  slot_at-put_slot_self, slot_at-put_slot_ne, slot_at-set_lane, lane_of_slot,
}
use sosagent.Deliver.{writable}
use sosagent.Deliver.Order.{
  Carries, Filed, AllFiled, Apart, InOrder, Sending, Idle, Waiting, Delivered,
}
use sosagent.Deliver.Packet.{slice-eq}
use sosagent.Deliver.Drain.{send_data_host-new}
use sosagent.Receive.{unwatch_agent, file_packet, sort_packet, packet_arrived}
use sosagent.Receive.Resting.{Agree, Resting, AllFiled-Agree, moved, Resting-moved}

abbrev lane_of : Option (ℕ × ℕ) → ℕ
lane_of none = 0
lane_of (some v) = v.0

abbrev place_of : Option (ℕ × ℕ) → ℕ
place_of none = 0
place_of (some v) = v.1

some-eq-some :
    {a b i j : ℕ} {o : Option (ℕ × ℕ)} → o ≡ some (a, i) → o ≡ some (b, j) → (a ≡ b) × (i ≡ j)
some-eq-some e f = (ap lane_of (sym e ∙ f), ap place_of (sym e ∙ f))

module _ {env : Env} (p : ℕ → List ℕ) where
  -- How `read_agent_send_host` leaves packet `n`, which came into slot `i` of connection `a` when `k`
  -- packets were out: as the next one it has gone to `send_data_host`, and any other is in the table.
  pub data Settled (k a i n : ℕ) (w : World env (Client env.Table)) : Type 0 where
    sent_on : n ≡ k % 2 ^ 32 → (st : Status) → Delivered p k st w → Settled k a i n w
    put_by :
        n ≢ k % 2 ^ 32
        → env.hash_find w.state.buffered_packet_table n ≡ some (a, i)
        → Filed p w.state.lanes a i n
        → (Idle p k w ⊎ Waiting p k w)
        → Settled k a i n w

  -- A whole packet with number `n` in slot `i`: new to the table, and not the one that waits.
  pub record Arrived (k a i n : ℕ) (s : Slot) (w : World env (Client env.Table)) : Type 0 where
    pub at : slot_at w.state.lanes a i ≡ some s
    pub carries : Carries p n s
    pub new : env.hash_find w.state.buffered_packet_table n ≡ none
    pub due : n ≡ k % 2 ^ 32 → has_out w.state.host_fd_poll ≡ false

module _ {env : Env} (p : ℕ → List ℕ) (table : IsTable env) where
  -- The table with packet `n` filed in a slot that it did not know.
  AllFiled-add :
      (t : env.Table) (old new : List Lane) (a i n : ℕ)
      → env.hash_find t n ≡ none
      → Agree old new a i
      → Apart env t a i
      → AllFiled p env t old
      → Filed p new a i n
      → AllFiled p env (env.hash_add t n (a, i)) new
  AllFiled-add t old new a i n absent same apart filed f m b j e = elim (ℕ_discrete n m) [
    | yes q ↦ let same = some-eq-some (found q) e in rw (← q, ← same.0, ← same.1) f
    | no q ↦
        AllFiled-Agree p env t old new a i same apart filed m b j
          (sym (table.find-add_ne t n m (a, i) q) ∙ e)
  ]
    where
      found : n ≡ m → env.hash_find (env.hash_add t n (a, i)) m ≡ some (a, i)
      found q =
          subst (λ x. env.hash_find (env.hash_add t n (a, i)) x ≡ some (a, i)) q
            (table.find-add_self t n (a, i) absent)

  Apart-add :
      (t : env.Table) (a i b j n : ℕ)
      → env.hash_find t n ≡ none
      → ¬ ((a ≡ b) × (i ≡ j))
      → Apart env t b j
      → Apart env (env.hash_add t n (a, i)) b j
  Apart-add t a i b j n absent other apart m e = elim (ℕ_discrete n m) [
    | yes q ↦ other (some-eq-some (found q) e)
    | no q ↦ apart m (sym (table.find-add_ne t n m (a, i) q) ∙ e)
  ]
    where
      found : n ≡ m → env.hash_find (env.hash_add t n (a, i)) m ≡ some (a, i)
      found q =
          subst (λ x. env.hash_find (env.hash_add t n (a, i)) x ≡ some (a, i)) q
            (table.find-add_self t n (a, i) absent)

  file_packet-Settled :
      (k a i n : ℕ) (s : Slot) (w : World env (Client env.Table))
      → Resting p k a i w
      → Arrived p k a i n s w
      → s.seq_num ≡ n
      → n ≢ k % 2 ^ 32
      → Ensures (λ r w'. Settled p k a i n w') (InOrder p) (file_packet a i w)
  unfolding file_packet
  file_packet-Settled k a i n s w h v e late =
      rw (v.at, e) (returns (put_by late (table.find-add_self t n (a, i) v.new) here (go h.rest)))
    where
      t : env.Table
      t = w.state.buffered_packet_table

      filed_slot : Slot
      filed_slot = record s { agent_id = a; packet_index = i; id = n; seq_num = n }

      lanes : List Lane
      lanes = put_slot w.state.lanes a i filed_slot

      same : Agree w.state.lanes lanes a i
      same b j q = slot_at-put_slot_ne w.state.lanes a i b j filed_slot q

      here : Filed p lanes a i n
      here = record {
        held = filed_slot;
        at = slot_at-put_slot_self w.state.lanes a i filed_slot s v.at;
        carries = record {
          size_min = v.carries.size_min;
          size_max = v.carries.size_max;
          fits = v.carries.fits;
          payload = v.carries.payload;
          used_slot = v.carries.used_slot;
        };
        own_id = refl;
        own_lane = refl;
        own_place = refl;
      }

      absent :
          env.hash_find t (k % 2 ^ 32) ≡ none
          → env.hash_find (env.hash_add t n (a, i)) (k % 2 ^ 32) ≡ none
      absent q = table.find-add_ne t n (k % 2 ^ 32) (a, i) late ∙ q

      after : World env (Client env.Table)
      after = record w {
        state = record (w.state) { buffered_packet_table = env.hash_add t n (a, i); lanes = lanes };
      }

      go :
          Idle p k w
            ⊎ (Waiting p k w
                × ¬ ((a ≡ w.state.host_agent_id) × (i ≡ w.state.agent_packet_index_out)))
          → Idle p k after ⊎ Waiting p k after
      go (inl d) = inl (record {
        between = record {
          next = d.between.next;
          out = d.between.out;
          filed = AllFiled-add t _ lanes a i n v.new same h.apart d.between.filed here;
        };
        quiet = d.quiet;
        absent = absent d.absent;
      })
      go (inr (d, other)) = inr (record {
        count = d.count;
        sending = record {
          next = d.sending.next;
          out = d.sending.out;
          filed = AllFiled-add t _ lanes a i n v.new same h.apart d.sending.filed here;
          at_slot = record {
            held = d.sending.at_slot.held;
            at = same _ _ other ∙ d.sending.at_slot.at;
            carries = d.sending.at_slot.carries;
          };
          partial = d.sending.partial;
          apart = Apart-add t a i _ _ n v.new other d.sending.apart;
          absent = absent d.sending.absent;
        };
        marked = d.marked;
        wanted = d.wanted;
      })

  -- The packet that is due finds the host's socket free, and becomes the one to send.
  start_sending :
      (k a i n : ℕ) (s : Slot) (w : World env (Client env.Table))
      → Resting p k a i w
      → Arrived p k a i n s w
      → n ≡ k % 2 ^ 32
      → Sending p k a i 0 (record w { state = record (w.state) { agent_packet_index_out = i } })
  start_sending k a i n s w h v e = go h.rest
    where
      after : World env (Client env.Table)
      after = record w { state = record (w.state) { agent_packet_index_out = i } }

      go :
          Idle p k w
            ⊎ (Waiting p k w
                × ¬ ((a ≡ w.state.host_agent_id) × (i ≡ w.state.agent_packet_index_out)))
          → Sending p k a i 0 after
      go (inl d) = record {
        next = d.between.next;
        out = d.between.out ∙ sym (append-nil _);
        filed = d.between.filed;
        at_slot = record { held = s; at = v.at; carries = rw (← e) v.carries };
        partial = v.carries.size_min;
        apart = h.apart;
        absent = d.absent;
      }
      go (inr (d, other)) = absurd (false≢true (sym (v.due e) ∙ d.wanted))

  next_is_due :
      (k a i : ℕ) (w : World env (Client env.Table))
      → Resting p k a i w
      → w.state.recv_seq ≡ k % 2 ^ 32
  next_is_due k a i w h = elim h.rest [ inl d ↦ d.between.next | inr d ↦ d.0.sending.next ]

  sort_packet-Settled :
      IsPosix env
      → (k a i n : ℕ) (s : Slot) (w : World env (Client env.Table)) → Resting p k a i w
      → Arrived p k a i n s w
      → s.seq_num ≡ n
      → Ensures (λ r w'. (r ≡ success) × Settled p k a i n w') (InOrder p) (sort_packet a i w)
  unfolding sort_packet
  sort_packet-Settled posix k a i n s w h v e = elim (Bool-cases (w.state.recv_seq == s.seq_num)) [
    | inl q ↦
        rw (v.at, q)
          (let due : n ≡ k % 2 ^ 32 = sym e ∙ sym ((==_iff _ _).0 q) ∙ next_is_due k a i w h in
            Ensures-and_then _
              (send_data_host-new p table posix k a _ (v.due due)
                (start_sending k a i n s w h v due))
              (λ st w' d. returns (refl, sent_on due st d)))
    | inr q ↦
        rw (v.at, q)
          (Ensures-and_then _
            (file_packet-Settled k a i n s w h v e (λ due. false≢true (
              sym q
              ∙ (==_iff w.state.recv_seq s.seq_num).1 (next_is_due k a i w h ∙ sym (e ∙ due)))))
            (λ st w' d. returns (refl, d)))
  ]

module _ {env : Env} {B : Type 0} {P : B → World env (Client env.Table) → Type 0}
    {E : World env (Client env.Table) → Type 0} where
  -- The connection may leave the poll set.
  after_unwatch_agent :
      (a : ℕ) (l : Lane) (q : Poll) (w : World env (Client env.Table))
      (f : Unit {0} → M (World env (Client env.Table)) B)
      → get_elem? w.state.lanes a ≡ some l
      → ((k : env.Kernel) (c : Ctl) (q' : Poll)
          → Ensures P E (
              f tt (
                moved w k
                  (set w.state.lanes a (record l { agent_fd_poll = q' }))
                  (control client_event_pool c l.agent_sock ∷ w.trace))))
      → ((k : env.Kernel) (c : Ctl)
          → E (record w { kernel = k; trace = control client_event_pool c l.agent_sock ∷ w.trace }))
      → Ensures P E (f tt w)
      → Ensures P E (and_then (unwatch_agent a q w) f)
  unfolding unwatch_agent
  after_unwatch_agent a l in_and_out w f el ok failed same = rw el (
      after_epoll_ctl_in_chain client_event_pool (modify writable) l.agent_sock w _ f
        (λ k. rw el (ok k _ out_only)) (λ k. failed k _))
  after_unwatch_agent a l in_only w f el ok failed same = rw el (
      after_epoll_ctl_in_chain client_event_pool delete l.agent_sock w _ f (λ k. rw el (ok k _ off))
        (λ k. failed k _))
  after_unwatch_agent a l q w f el ok failed same = same

module _ {env : Env} (p : ℕ → List ℕ) (table : IsTable env) (posix : IsPosix env) where
  pub Resting-InOrder :
      (k a i : ℕ) (w : World env (Client env.Table)) → Resting p k a i w → InOrder p w
  Resting-InOrder k a i w h = elim h.rest [
    | inl d ↦ (k, 0, d.between.out ∙ sym (append-nil _))
    | inr d ↦ (k, d.0.count, d.0.sending.out)
  ]

  -- Over a machine and a table that keep to their laws: where the packets so far are delivered in
  -- order, and a whole packet stands in a slot that holds none that waits, whose first four bytes say
  -- that it is number `n`, which is not in the table and, if it is next, finds the host's socket not
  -- waited for, the end of `read_agent_send_host` returns EXIT_SUCCESS or exits with a prefix of the
  -- stream out. Where it returns: if packet `n` is next, it was handed to `send_data_host`, and it is
  -- out whole, or it waits behind the part that `send` took before it refused the rest with EAGAIN, or
  -- it or a packet behind it was cut off by another failure of `send` and the host is marked CLOSED; if
  -- it is not next, the table has number `n` at this slot, which holds the packet whole, and `k`
  -- packets are out whole as before, with packet `k` not there or waiting.
  pub packet_arrived-Settled :
      (k a i n : ℕ) (s : Slot) (w : World env (Client env.Table))
      → Resting p k a i w
      → Arrived p k a i n s w
      → word_of env.order (take 4 s.serialized_data) ≡ n
      → Ensures (λ r w'. (r ≡ success) × Settled p k a i n w') (InOrder p) (packet_arrived a i w)
  unfolding packet_arrived stream
  packet_arrived-Settled k a i n s w h v e =
      rw
        (
          v.at,
          slice-eq s.serialized_data 0 4 (omega (arith, v.carries.fits, v.carries.size_min)),
          e,
          el,
        )
        (elim (Bool-cases (l.agent_packet_queue_count == w.state.queue_size)) [
          | inl full ↦ rw full (
              after_unwatch_agent a l l.agent_fd_poll _ _ el
                (λ kernel c q.
                  let l' : Lane = record l { agent_fd_poll = q } in
                  sort_packet-Settled p table posix k a i n noted _
                    (Resting-moved p k a i w kernel _ _ refl
                      (λ b j other. slot_at-set_lane lanes a b j l l' el refl ∙ same b j other) h)
                    (record {
                      at = slot_at-set_lane lanes a a i l l' el refl ∙ at_noted;
                      carries = carries;
                      new = v.new;
                      due = v.due;
                    })
                    refl)
                (λ kernel c. in_order) sorted)
          | inr room ↦ rw room sorted
        ])
    where
      noted : Slot
      noted = record s { seq_num = n }

      lanes : List Lane
      lanes = put_slot w.state.lanes a i noted

      at_noted : slot_at lanes a i ≡ some noted
      at_noted = slot_at-put_slot_self w.state.lanes a i noted s v.at

      l : Lane
      l = (lane_of_slot lanes a i noted at_noted).0

      el : get_elem? lanes a ≡ some l
      el = (lane_of_slot lanes a i noted at_noted).1

      same : Agree w.state.lanes lanes a i
      same b j other = slot_at-put_slot_ne w.state.lanes a i b j noted other

      carries : Carries p n noted
      carries = record {
        size_min = v.carries.size_min;
        size_max = v.carries.size_max;
        fits = v.carries.fits;
        payload = v.carries.payload;
        used_slot = v.carries.used_slot;
      }

      in_order : InOrder p w
      in_order = Resting-InOrder k a i w h

      sorted :
          Ensures
            (λ r w'. (r ≡ success) × Settled p k a i n w')
            (InOrder p)
            (sort_packet a i (moved w w.kernel lanes w.trace))
      sorted =
          sort_packet-Settled p table posix k a i n noted _
            (Resting-moved p k a i w w.kernel lanes w.trace refl same h)
            (record { at = at_noted; carries = carries; new = v.new; due = v.due }) refl

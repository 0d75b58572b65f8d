-- ===== src/Whole/Delivering.antt =====
-- How far the host has been sent the payload stream, and that what goes the other way leaves it so.
use sosagent.Base.{
  ℕ, ◌%◌, ◌^◌, ◌≡◌, ◌≢◌, ap, sym, ◌∙◌, ◌⊎◌, inl, inr, refl, false, List, ◌++◌, none, some, take,
  get_elem?, append-nil,
}
use sosagent.System.{Env}
use sosagent.System.Calls.{World, stream}
use sosagent.Client.{Lane, Client, closed, has_out}
use sosagent.Client.Access.{slot_at}
use sosagent.Deliver.Order.{first_payloads, AllFiled, InOrder, Idle, Waiting}
use sosagent.Whole.Aside.{Aside}

module _ {env : Env} (p : ℕ → List ℕ) where
  -- Socket `h` has been sent a prefix of the payload stream.
  abbrev pub Prefix : ℕ → World env (Client env.Table) → Type 0
  Prefix h w =
      (k : ℕ) × (m : ℕ) × (stream h w.trace ≡ first_payloads p k ++ take m (p (k % 2 ^ 32)))

  -- The host has all the payloads that could be sent, or its socket is full and waited for, or it is
  -- not sent to any more.
  pub data Delivering (w : World env (Client env.Table)) : Type 0 where
    idle : (k : ℕ) → Idle p k w → Delivering w
    waiting : (k : ℕ) → Waiting p k w → Delivering w
    shut : InOrder p w → has_out w.state.host_fd_poll ≡ false → Delivering w

  -- The host's socket is `h`, none of the connections' is, and the host is sent the stream in order.
  pub record Steady (h : ℕ) (w : World env (Client env.Table)) : Type 0 where
    pub host : w.state.host_sock ≡ h
    pub apart :
        (j : ℕ) (l : Lane) → get_elem? w.state.lanes j ≡ some l → l.agent_sock ≢ w.state.host_sock
    pub delivering : Delivering w

  delivering-InOrder : (w : World env (Client env.Table)) → Delivering w → InOrder p w
  delivering-InOrder w (idle k d) = (k, 0, d.between.out ∙ sym (append-nil _))
  delivering-InOrder w (waiting k d) = (k, d.count, d.sending.out)
  delivering-InOrder w (shut d quiet) = d

  pub Steady-Prefix : (h : ℕ) (w : World env (Client env.Table)) → Steady h w → Prefix h w
  Steady-Prefix h w s =
      let d = delivering-InOrder w s.delivering in
      (d.0, d.1, ap (λ n. stream n w.trace) (sym s.host) ∙ d.2)

  -- Since `w₀` the host was sent nothing, its socket is the same, and the delivery is exactly as far as
  -- it was: with nothing to send, or with the same packet waiting behind the same bytes, unless the
  -- host's socket is marked CLOSED.
  pub record Undisturbed (w₀ w : World env (Client env.Table)) : Type 0 where
    pub same_host : w.state.host_sock ≡ w₀.state.host_sock
    pub unsent : stream w₀.state.host_sock w.trace ≡ stream w₀.state.host_sock w₀.trace
    pub idle_kept : (k : ℕ) → Idle p k w₀ → Idle p k w
    pub waiting_kept :
        (k : ℕ) (d : Waiting p k w₀)
        → ((d' : Waiting p k w) × (d'.count ≡ d.count)) ⊎ (w.state.host_fd_poll ≡ closed)

  module _ {pending : env.Kernel → ℕ → List ℕ} {exempt : ℕ → Type 0}
      (w₀ w : World env (Client env.Table)) (a : Aside pending exempt w₀ w) where
    table_same : w.state.buffered_packet_table ≡ w₀.state.buffered_packet_table
    table_same = ap (λ (c : Client env.Table). c.buffered_packet_table) a.only

    same_out : stream w.state.host_sock w.trace ≡ stream w₀.state.host_sock w₀.trace
    same_out =
        ap (λ n. stream n w.trace) (ap (λ (c : Client env.Table). c.host_sock) a.only) ∙ a.out

    filed_still :
        AllFiled p env w₀.state.buffered_packet_table w₀.state.lanes
        → AllFiled p env w.state.buffered_packet_table w.state.lanes
    filed_still filed n b j e =
        let f = filed n b j (ap (λ t. env.hash_find t n) (sym table_same) ∙ e) in
        record {
          held = f.held;
          at = a.slots b j ∙ f.at;
          carries = f.carries;
          own_id = f.own_id;
          own_lane = f.own_lane;
          own_place = f.own_place;
        }

    absent_still :
        (n : ℕ)
        → env.hash_find w₀.state.buffered_packet_table n ≡ none
        → env.hash_find w.state.buffered_packet_table n ≡ none
    absent_still n e = ap (λ t. env.hash_find t n) table_same ∙ e

    seq_still : w.state.recv_seq ≡ w₀.state.recv_seq
    seq_still = ap (λ (c : Client env.Table). c.recv_seq) a.only

    id_still : w.state.host_agent_id ≡ w₀.state.host_agent_id
    id_still = ap (λ (c : Client env.Table). c.host_agent_id) a.only

    index_still : w.state.agent_packet_index_out ≡ w₀.state.agent_packet_index_out
    index_still = ap (λ (c : Client env.Table). c.agent_packet_index_out) a.only

    still_waiting :
        (k : ℕ)
        → has_out w.state.host_fd_poll ≡ has_out w₀.state.host_fd_poll
        → (d : Waiting p k w₀) → (d' : Waiting p k w) × (d'.count ≡ d.count)
    still_waiting k mark d = (
      record {
        count = d.count;
        sending = record {
          next = seq_still ∙ d.sending.next;
          out = same_out ∙ d.sending.out;
          filed = filed_still d.sending.filed;
          at_slot = record {
            held = d.sending.at_slot.held;
            at = place ∙ d.sending.at_slot.at;
            carries = d.sending.at_slot.carries;
          };
          partial = d.sending.partial;
          apart = λ n e. d.sending.apart n (
              ap (λ t. env.hash_find t n) (sym table_same)
              ∙ e
              ∙ ap some (
                  ap (λ x. (x, w.state.agent_packet_index_out)) id_still
                  ∙ ap (λ x. (w₀.state.host_agent_id, x)) index_still));
          absent = absent_still (k % 2 ^ 32) d.sending.absent;
        };
        marked = d.marked;
        wanted = mark ∙ d.wanted;
      },
      refl,
    )
      where
        place :
            slot_at w.state.lanes w.state.host_agent_id w.state.agent_packet_index_out
            ≡ slot_at w₀.state.lanes w₀.state.host_agent_id w₀.state.agent_packet_index_out
        place =
            ap (λ x. slot_at w.state.lanes x w.state.agent_packet_index_out) id_still
            ∙ ap (slot_at w.state.lanes w₀.state.host_agent_id) index_still
            ∙ a.slots _ _

    quiet_still : has_out w₀.state.host_fd_poll ≡ false → has_out w.state.host_fd_poll ≡ false
    quiet_still quiet = at_mark a.host
      where
        at_mark :
            (has_out w.state.host_fd_poll ≡ has_out w₀.state.host_fd_poll)
              ⊎ (w.state.host_fd_poll ≡ closed)
            → has_out w.state.host_fd_poll ≡ false
        at_mark (inl mark) = mark ∙ quiet
        at_mark (inr e) = ap has_out e

    still_idle : (k : ℕ) → Idle p k w₀ → Idle p k w
    still_idle k d = record {
      between = record {
        next = seq_still ∙ d.between.next;
        out = same_out ∙ d.between.out;
        filed = filed_still d.between.filed;
      };
      quiet = quiet_still d.quiet;
      absent = absent_still (k % 2 ^ 32) d.absent;
    }

    still_delivering : Delivering w₀ → Delivering w
    still_delivering (idle k d) = idle k (still_idle k d)
    still_delivering (shut d quiet) = shut (d.0, d.1, same_out ∙ d.2) (quiet_still quiet)
    still_delivering (waiting k d) = at_mark a.host
      where
        at_mark :
            (has_out w.state.host_fd_poll ≡ has_out w₀.state.host_fd_poll)
              ⊎ (w.state.host_fd_poll ≡ closed)
            → Delivering w
        at_mark (inl mark) = waiting k (still_waiting k mark d).0
        at_mark (inr e) = shut (k, d.count, same_out ∙ d.sending.out) (ap has_out e)

    pub Aside-Undisturbed : Undisturbed w₀ w
    Aside-Undisturbed = record {
      same_host = ap (λ (c : Client env.Table). c.host_sock) a.only;
      unsent = a.out;
      idle_kept = still_idle;
      waiting_kept = λ k d. elim a.host [ inl mark ↦ inl (still_waiting k mark d) | inr e ↦ inr e ];
    }

    -- What leaves the stream and the slots alone keeps to the order.
    pub Aside-Steady : (h : ℕ) → Steady h w₀ → Steady h w
    Aside-Steady h s = record {
      host = ap (λ (c : Client env.Table). c.host_sock) a.only ∙ s.host;
      apart = λ j l at e.
          let old = a.kin j l at in
          s.apart j old.0 old.1 (
            sym (ap (λ (m : Lane). m.agent_sock) old.2.same)
            ∙ e
            ∙ ap (λ (c : Client env.Table). c.host_sock) a.only);
      delivering = still_delivering s.delivering;
    }

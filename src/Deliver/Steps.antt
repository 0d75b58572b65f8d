-- ===== src/Deliver/Steps.antt =====
-- The steps of `send_data_host` (network.c): each keeps what the host has received in order.
use sosagent.Base.{
  ℕ, suc, ◌+◌, ◌-◌, ◌%◌, ◌^◌, ◌≡◌, refl, ap, ◌∙◌, true, false, List, ◌∷◌, ◌++◌, some, get_elem?,
  set, arith, append-nil, take_all,
}
use sosagent.System.{client_event_pool, Ctl, add, modify, delete, control, Env}
use sosagent.System.Outcome.{M, Ensures, returns, exits, and_then}
use sosagent.System.Calls.{World, stream, close}
use sosagent.System.Rules.{after_epoll_ctl, after_epoll_ctl_in_chain}
use sosagent.Client.{Poll, off, in_only, out_only, in_and_out, closed, has_out, Slot, Lane, Client}
use sosagent.Client.Access.{slot_at, put_slot}
use sosagent.Client.Slots.{
  slot_at-put_slot_self, slot_at-put_slot_ne, slot_at-set_lane, used, used-put_slot, used-set_lane,
  lane_of_slot,
}
use sosagent.Deliver.{
  both_ways, writable, readable, gone, full, lost, watch_host, host_full, host_lost, watch_agent,
  packet_gone,
}
use sosagent.Deliver.Order.{
  first_payloads, Filed, AllFiled, Apart, InOrder, Between, Sending, Waiting, length-payload,
}

module _ (p : ℕ → List ℕ) (env : Env) where
  -- A change to a slot that the table does not know leaves the filed packets as they are.
  AllFiled-put_slot :
      (t : env.Table) (lanes : List Lane) (a i : ℕ) (s : Slot)
      → Apart env t a i
      → AllFiled p env t lanes
      → AllFiled p env t (put_slot lanes a i s)
  AllFiled-put_slot t lanes a i s apart filed n b j e = record {
    held = f.held;
    at = slot_at-put_slot_ne lanes a i b j s (λ q. apart n (rw (q.0, q.1) e)) ∙ f.at;
    carries = f.carries;
    own_id = f.own_id;
    own_lane = f.own_lane;
    own_place = f.own_place;
  }
    where
      f : Filed p lanes b j n
      f = filed n b j e

  AllFiled-set_lane :
      (t : env.Table) (lanes : List Lane) (a : ℕ) (l l' : Lane)
      → get_elem? lanes a ≡ some l
      → l'.buffered_packet ≡ l.buffered_packet
      → AllFiled p env t lanes
      → AllFiled p env t (set lanes a l')
  AllFiled-set_lane t lanes a l l' el eb filed n b j e = record {
    held = f.held;
    at = slot_at-set_lane lanes a b j l l' el eb ∙ f.at;
    carries = f.carries;
    own_id = f.own_id;
    own_lane = f.own_lane;
    own_place = f.own_place;
  }
    where
      f : Filed p lanes b j n
      f = filed n b j e

module _ {env : Env} (p : ℕ → List ℕ) where
  -- ESHUTDOWN, ECONNRESET or EPIPE on the host's socket.
  pub host_lost-Ensures :
      (w : World env (Client env.Table))
      → InOrder p w
      → Ensures
          (λ e w'.
            (e ≡ lost)
            × (stream w'.state.host_sock w'.trace ≡ stream w.state.host_sock w.trace)
            × (w'.state.host_sock ≡ w.state.host_sock)
            × (w'.state.host_fd_poll ≡ closed))
          (InOrder p)
          (host_lost w)
  unfolding host_lost close stream
  host_lost-Ensures w h =
      after_epoll_ctl client_event_pool delete w.state.host_sock w _
        (λ k. returns (refl, refl, refl, refl)) (λ k. h)

module _ {env : Env} {B : Type 0} {P : B → World env (Client env.Table) → Type 0}
    {E : World env (Client env.Table) → Type 0} where
  -- The poll set waits for the host's socket; if the socket is lost the code exits.
  after_watch_host :
      (q : Poll) (w : World env (Client env.Table))
      (f : Unit {0} → M (World env (Client env.Table)) B)
      → has_out q ≡ false
      → ((k : env.Kernel) (c : Ctl) (q' : Poll)
          → has_out q' ≡ true
          → Ensures P E (
              f tt (record w {
                kernel = k;
                state = record (w.state) { host_fd_poll = q' };
                trace = control client_event_pool c w.state.host_sock ∷ w.trace;
              })))
      → ((k : env.Kernel) (c : Ctl)
          → E (record w {
            kernel = k;
            trace = control client_event_pool c w.state.host_sock ∷ w.trace;
          }))
      → E w
      → Ensures P E (and_then (watch_host q w) f)
  unfolding watch_host
  after_watch_host in_only w f h ok failed e =
      after_epoll_ctl_in_chain client_event_pool (modify both_ways) w.state.host_sock w _ f
        (λ k. ok k _ in_and_out refl) (λ k. failed k _)
  after_watch_host off w f h ok failed e =
      after_epoll_ctl_in_chain client_event_pool (add writable) w.state.host_sock w _ f
        (λ k. ok k _ out_only refl) (λ k. failed k _)
  after_watch_host closed w f h ok failed e = exits e
  after_watch_host q w f h ok failed e = cc

module _ {env : Env} (p : ℕ → List ℕ) where
  -- The packet waits: EAGAIN, where the host's socket was not yet waited for.
  pub host_full-Ensures :
      (k a i count : ℕ) (w : World env (Client env.Table))
      → has_out w.state.host_fd_poll ≡ false
      → Sending p k a i count w
      → Ensures
          (λ e w'.
            (e ≡ full)
            × (h' : Waiting p k w') × (h'.count ≡ count)
            × (w'.state.host_sock ≡ w.state.host_sock))
          (InOrder p)
          (host_full a i count w)
  unfolding host_full stream
  host_full-Ensures k a i count w quiet h = rw h.at_slot.at (
      after_watch_host w.state.host_fd_poll _ _ quiet
        (λ kernel c q wanted. returns (
          refl,
          record {
            count = count;
            sending = record {
              next = h.next;
              out = h.out;
              filed = AllFiled-put_slot p env _ _ a i _ h.apart h.filed;
              at_slot = record {
                held = record old { host_sent_size = count };
                at = slot_at-put_slot_self w.state.lanes a i _ old h.at_slot.at;
                carries = record {
                  size_min = h.at_slot.carries.size_min;
                  size_max = h.at_slot.carries.size_max;
                  fits = h.at_slot.carries.fits;
                  payload = h.at_slot.carries.payload;
                  used_slot = h.at_slot.carries.used_slot;
                };
              };
              partial = h.partial;
              apart = h.apart;
              absent = h.absent;
            };
            marked = refl;
            wanted = wanted;
          },
          refl,
          refl,
        ))
        (λ kernel c. (k, count, h.out)) (k, count, h.out))
    where
      old : Slot
      old = h.at_slot.held

module _ {env : Env} {B : Type 0} {P : B → World env (Client env.Table) → Type 0}
    {E : World env (Client env.Table) → Type 0} where
  -- The poll set asks again for what the connection sends.
  after_watch_agent :
      (a : ℕ) (l : Lane) (q : Poll) (w : World env (Client env.Table))
      (f : Unit {0} → M (World env (Client env.Table)) B)
      → get_elem? w.state.lanes a ≡ some l
      → ((k : env.Kernel) (c : Ctl) (q' : Poll)
          → Ensures P E (
              f tt (record w {
                kernel = k;
                state = record (w.state) {
                  lanes = set w.state.lanes a (record l { agent_fd_poll = q' });
                };
                trace = control client_event_pool c l.agent_sock ∷ w.trace;
              })))
      → ((k : env.Kernel) (c : Ctl)
          → E (record w { kernel = k; trace = control client_event_pool c l.agent_sock ∷ w.trace }))
      → Ensures P E (f tt w)
      → Ensures P E (and_then (watch_agent a q w) f)
  unfolding watch_agent
  after_watch_agent a l out_only w f el ok failed same = rw el (
      after_epoll_ctl_in_chain client_event_pool (modify both_ways) l.agent_sock w _ f
        (λ k. rw el (ok k _ in_and_out)) (λ k. failed k _))
  after_watch_agent a l off w f el ok failed same = rw el (
      after_epoll_ctl_in_chain client_event_pool (add readable) l.agent_sock w _ f
        (λ k. rw el (ok k _ in_only)) (λ k. failed k _))
  after_watch_agent a l q w f el ok failed same = same

module _ {env : Env} (p : ℕ → List ℕ) where
  -- The whole packet is out: the next number is due, and a slot is free.
  pub packet_gone-Ensures :
      (k a i count : ℕ) (w : World env (Client env.Table))
      → has_out w.state.host_fd_poll ≡ false
      → (h : Sending p k a i count w) → count + 4 ≡ h.at_slot.held.size
      → Ensures
          (λ e w'.
            (e ≡ gone)
            × Between p (suc k) w'
            × (has_out w'.state.host_fd_poll ≡ false)
            × (used w'.state.lanes + 1 ≡ used w.state.lanes))
          (InOrder p)
          (packet_gone a i count w)
  unfolding packet_gone stream first_payloads
  packet_gone-Ensures k a i count w quiet h whole =
      rw (el, at₁, el₂)
        (after_watch_agent a l₂ l₂.agent_fd_poll _ _ el₂
          (λ kernel c q. returns (
            refl,
            record {
              next = next;
              out = out;
              filed = AllFiled-set_lane p env _ lanes₂ a l₂ _ el₂ refl filed₂;
            },
            quiet,
            rw (used-set_lane lanes₂ a l₂ (record l₂ { agent_fd_poll = q }) el₂ refl) used₂,
          ))
          (λ kernel c. (suc k, 0, rw append-nil out))
          (returns (refl, record { next = next; out = out; filed = filed₂ }, quiet, used₂)))
    where
      old : Slot
      old = h.at_slot.held

      l : Lane
      l = (lane_of_slot w.state.lanes a i old h.at_slot.at).0

      el : get_elem? w.state.lanes a ≡ some l
      el = (lane_of_slot w.state.lanes a i old h.at_slot.at).1

      l₁ : Lane
      l₁ = record l {
        agent_packet_queue_count = (l.agent_packet_queue_count + 2 ^ 32 - 1) % 2 ^ 32;
      }

      lanes₁ : List Lane
      lanes₁ = set w.state.lanes a l₁

      at₁ : slot_at lanes₁ a i ≡ some old
      at₁ = slot_at-set_lane w.state.lanes a a i l l₁ el refl ∙ h.at_slot.at

      freed : Slot
      freed = record old { size = 0; in_use = false }

      lanes₂ : List Lane
      lanes₂ = put_slot lanes₁ a i freed

      at₂ : slot_at lanes₂ a i ≡ some freed
      at₂ = slot_at-put_slot_self lanes₁ a i freed old at₁

      l₂ : Lane
      l₂ = (lane_of_slot lanes₂ a i freed at₂).0

      el₂ : get_elem? lanes₂ a ≡ some l₂
      el₂ = (lane_of_slot lanes₂ a i freed at₂).1

      filed₂ : AllFiled p env w.state.buffered_packet_table lanes₂
      filed₂ =
          AllFiled-put_slot p env _ lanes₁ a i freed h.apart
            (AllFiled-set_lane p env _ w.state.lanes a l l₁ el refl h.filed)

      used₂ : used lanes₂ + 1 ≡ used w.state.lanes
      used₂ =
          used-put_slot lanes₁ a i freed old at₁ h.at_slot.carries.used_slot refl
          ∙ used-set_lane w.state.lanes a l l₁ el refl

      next : (w.state.recv_seq + 1) % 2 ^ 32 ≡ suc k % 2 ^ 32
      next = omega (arith, h.next)

      out : stream w.state.host_sock w.trace ≡ first_payloads p (suc k)
      out =
          h.out
          ∙ ap (◌++◌ (first_payloads p k)) (
              take_all (p (k % 2 ^ 32)) count
                (omega (arith, whole, length-payload p (k % 2 ^ 32) old h.at_slot.carries)))

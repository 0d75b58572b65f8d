-- ===== src/Whole/Serving/Packets.antt =====
-- The loops of `send_data_host` (network.c), packet after packet: it keeps to what `Held` says.
use sosagent.Base.{
  ℕ, zero, suc, ◌≡◌, refl, ap, sym, subst, ◌∙◌, inl, inr, true, false, false≢true, List, Option,
  none, some,
}
use sosagent.System.{Env, modify, delete, client_event_pool}
use sosagent.System.Laws.{IsTable}
use sosagent.System.Outcome.{M}
use sosagent.System.Calls.{World}
use sosagent.System.Partial.{Post, came_back, endless, Post-and_then, Post-check, Post-epoll_ctl}
use sosagent.Client.{Poll, off, in_only, out_only, in_and_out, has_out, Slot, Client, Status}
use sosagent.Client.Access.{slot_at}
use sosagent.Deliver.{
  SendEnd, readable, send_packet, send_found, packet_ended, deliver, unwatch_host, send_data_host,
}
use sosagent.Client.Slots.{slot_count}
use sosagent.Deliver.Order.{Filed, AllFiled, Apart}
use sosagent.Receive.Tcp.{IsTcp}
use sosagent.Whole.Served.{Touched, first, filed, none≢some, Served-here, Served-del}
use sosagent.Whole.Serving.{
  same_slot, Kept, Taken, Held, SameHost, Mid, Ended, is_gone, is_full, is_lost, ctl, mark,
  send_packet-Ended,
}

module _ {env : Env} {pending : env.Kernel → ℕ → List ℕ} (tcp : IsTcp env pending)
    (table : IsTable env) (p : ℕ → List ℕ) (a₀ i₀ : ℕ) (w₀ : World env (Client env.Table)) where
  module _ (packets : AllFiled p env w₀.state.buffered_packet_table w₀.state.lanes)
      (apart : Apart env w₀.state.buffered_packet_table a₀ i₀) where
    -- An entry of the table is none that has been touched.
    untouched :
        (w : World env (Client env.Table)) (n b j : ℕ)
        → (Kept tcp table p a₀ i₀ w₀) w
        → env.hash_find w.state.buffered_packet_table n ≡ some (b, j)
        → ¬ (Taken tcp table p a₀ i₀ w₀) w b j
    untouched w n b j h e (first q q') =
        apart n
          (h.shrinks n (b, j) e ∙ ap some (ap (λ x. (x, j)) (sym q) ∙ ap (λ y. (a₀, y)) (sym q')))
    untouched w n b j h e (filed m e' f) = none≢some (
        sym f
        ∙ ap (env.hash_find w.state.buffered_packet_table) (
            sym (packets m b j e').own_id
            ∙ ap id_of (sym (packets m b j e').at ∙ (packets n b j (h.shrinks n (b, j) e)).at)
            ∙ (packets n b j (h.shrinks n (b, j) e)).own_id)
        ∙ e)
      where
        id_of : Option Slot → ℕ
        id_of none = 0
        id_of (some s) = s.id

    abbrev GoesOn : (ℕ → ℕ → ℕ → M (World env (Client env.Table)) Status) → Type 0
    GoesOn again =
        (a i count : ℕ) (w : World env (Client env.Table))
        → (Mid tcp table p a₀ i₀ w₀) a i w
        → Post (λ _ w'. (Held tcp table p a₀ i₀ w₀) w') (SameHost tcp table p a₀ i₀ w₀)
            (again a i count w)

    send_found-Held :
        (o : Option (ℕ × ℕ)) (again : ℕ → ℕ → ℕ → M (World env (Client env.Table)) Status)
        (w : World env (Client env.Table))
        → GoesOn again
        → (Kept tcp table p a₀ i₀ w₀) w
        → has_out w.state.host_fd_poll ≡ false
        → env.hash_find w.state.buffered_packet_table w.state.recv_seq ≡ o
        → Post
            (λ _ w'. (Held tcp table p a₀ i₀ w₀) w')
            (SameHost tcp table p a₀ i₀ w₀)
            (send_found o again w)
    unfolding send_found
    send_found-Held none again w next h quiet e =
        came_back (record { served = h; waits = λ q. absurd (false≢true (sym quiet ∙ q)) })
    send_found-Held (some (b, j)) again w next h quiet e =
        Post-check (slot_at w.state.lanes b j) w _ (λ t at.
          let same : t ≡ f.held = same_slot (sym at ∙ h.slots b j (untouched w _ b j h e) ∙ f.at) in
          next t.agent_id t.packet_index 0 _ (record {
            served = Served-del pending a₀ i₀ w₀ table w t.id h;
            known = inr ((b, j), old);
            quiet = quiet;
            taken =
                subst
                  (Touched pending a₀ i₀ w₀ (env.hash_del w.state.buffered_packet_table t.id)
                    t.agent_id)
                  (sym (ap (λ (s : Slot). s.packet_index) same ∙ f.own_place))
                  (subst
                    (λ x.
                      Touched pending a₀ i₀ w₀ (env.hash_del w.state.buffered_packet_table t.id) x
                        j)
                    (sym (ap (λ (s : Slot). s.agent_id) same ∙ f.own_lane))
                    (filed w.state.recv_seq old (
                      ap
                        (λ n.
                          env.hash_find (env.hash_del w.state.buffered_packet_table n)
                            w.state.recv_seq)
                        (ap (λ (s : Slot). s.id) same ∙ f.own_id)
                      ∙ table.find-del_self w.state.buffered_packet_table w.state.recv_seq)));
          }))
      where
        old : env.hash_find w₀.state.buffered_packet_table w.state.recv_seq ≡ some (b, j)
        old = h.shrinks w.state.recv_seq (b, j) e

        f : Filed p w₀.state.lanes b j w.state.recv_seq
        f = packets w.state.recv_seq b j old

    packet_ended-Held :
        (e : SendEnd) (again : ℕ → ℕ → ℕ → M (World env (Client env.Table)) Status)
        (w : World env (Client env.Table))
        → GoesOn again
        → (Ended tcp table p a₀ i₀ w₀) e w
        → Post
            (λ _ w'. (Held tcp table p a₀ i₀ w₀) w')
            (SameHost tcp table p a₀ i₀ w₀)
            (packet_ended e again w)
    unfolding packet_ended
    packet_ended-Held _ again w next (is_gone h quiet) = send_found-Held _ again w next h quiet refl
    packet_ended-Held _ again w next (is_full h) = came_back h
    packet_ended-Held _ again w next (is_lost h) = came_back h

    deliver-Held : (fuel : ℕ) → GoesOn (deliver fuel)
    unfolding deliver
    deliver-Held zero a i count w m = endless
    deliver-Held (suc fuel) a i count w m = Post-check (slot_at w.state.lanes a i) w _ (λ s at.
        Post-and_then (send_packet (suc s.size) a i count w) _
          (send_packet-Ended tcp table p a₀ i₀ w₀ (suc s.size) a i count w m)
          (λ e w' q. packet_ended-Held e (deliver fuel) w' (deliver-Held fuel) q))

    -- With a new packet.
    pub send_data_host-Held :
        i₀ ≡ w₀.state.agent_packet_index_out
        → has_out w₀.state.host_fd_poll ≡ false
        → Post
            (λ _ w'. (Held tcp table p a₀ i₀ w₀) w')
            (SameHost tcp table p a₀ i₀ w₀)
            (send_data_host false a₀ w₀)
    unfolding send_data_host
    send_data_host-Held e quiet = deliver-Held _ a₀ _ 0 w₀ (record {
      served = Served-here pending a₀ i₀ w₀;
      known = inl refl;
      quiet = quiet;
      taken = first refl e;
    })

    -- The host's socket is no longer waited for.
    unwatch_host-Mid :
        (q : Poll)
        → w₀.state.host_fd_poll ≡ q
        → Post
            (λ _ w'. (Mid tcp table p a₀ i₀ w₀) a₀ i₀ w')
            (SameHost tcp table p a₀ i₀ w₀)
            (unwatch_host q w₀)
    unfolding unwatch_host
    unwatch_host-Mid in_and_out e =
        Post-epoll_ctl client_event_pool (modify readable) w₀.state.host_sock w₀ _ refl (
          came_back (record {
            served =
                mark tcp table p a₀ i₀ w₀ _ in_only
                  (ctl tcp table p a₀ i₀ w₀ w₀ _ _ _ (Served-here pending a₀ i₀ w₀));
            known = inl refl;
            quiet = refl;
            taken = first refl refl;
          }))
    unwatch_host-Mid out_only e =
        Post-epoll_ctl client_event_pool delete w₀.state.host_sock w₀ _ refl (
          came_back (record {
            served =
                mark tcp table p a₀ i₀ w₀ _ off
                  (ctl tcp table p a₀ i₀ w₀ w₀ _ _ _ (Served-here pending a₀ i₀ w₀));
            known = inl refl;
            quiet = refl;
            taken = first refl refl;
          }))
    unwatch_host-Mid q e = came_back (record {
      served = Served-here pending a₀ i₀ w₀;
      known = inl refl;
      quiet = ap has_out e;
      taken = first refl refl;
    })

    -- With the packet that waits.
    pub send_data_host-Held_resumed :
        i₀ ≡ w₀.state.agent_packet_index_out
        → Post
            (λ _ w'. (Held tcp table p a₀ i₀ w₀) w')
            (SameHost tcp table p a₀ i₀ w₀)
            (send_data_host true a₀ w₀)
    unfolding send_data_host
    send_data_host-Held_resumed e =
        Post-and_then (unwatch_host w₀.state.host_fd_poll w₀) _
          (unwatch_host-Mid w₀.state.host_fd_poll refl)
          (λ _ w m.
            Post-check (slot_at w.state.lanes a₀ w₀.state.agent_packet_index_out) w _ (λ s at.
              subst
                (λ i.
                  Post (λ _ w'. (Held tcp table p a₀ i₀ w₀) w') (SameHost tcp table p a₀ i₀ w₀)
                    (deliver (suc (slot_count w₀.state.lanes)) a₀ i s.host_sent_size w))
                e (deliver-Held (suc (slot_count w₀.state.lanes)) a₀ i₀ s.host_sent_size w m)))

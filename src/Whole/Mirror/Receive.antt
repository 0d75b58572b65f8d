-- ===== src/Whole/Mirror/Receive.antt =====
-- `read_agent_send_host` (network.c) and the marks of the sockets.
use sosagent.Base.{
  ℕ, zero, suc, ◌+◌, ◌==◌, ◌≡◌, refl, ap, sym, subst, ◌∙◌, ltb, false, [], ◌∷◌, Option, none, some,
  length, get_elem?, set, get_elem?-set_self,
}
use sosagent.System.{
  Env, Errno, eagain, eshutdown, econnreset, Received, got, recv_failed, client_event_pool, delete,
  control,
}
use sosagent.System.Outcome.{M}
use sosagent.System.Calls.{World, close}
use sosagent.System.Partial.{
  Post, came_back, gave_up, faulted, endless, Post-and_then, Post-mono, Post-check, Post-if,
  Post-epoll_ctl, Post-recv,
}
use sosagent.Client.{Poll, off, in_only, in_and_out, closed, Lane, Client}
use sosagent.Client.Access.{slot_at, overwrite, slice}
use sosagent.Wire.{word_of, ntohl}
use sosagent.Receive.{
  ReadEnd, whole, dry, shut, first_free, take_slot, get_free_packet_index, drop_agent,
  header_refused, header_answered, read_header, header_done, drop_agent_at, payload_answered,
  read_payload, unwatch_agent, file_packet, sort_packet, packet_arrived, payload_ended,
  header_ended, begin_packet, read_from, read_agent_send_host,
}
use sosagent.Whole.Aside.{lane_in}
use sosagent.Whole.Registered.{mask_of}
use sosagent.Whole.Mirror.{
  Mirror, Anything, mark_agent-Mirror, Mirror-mark, Mirror-lane, Mirror-slot, Mirror-state,
  Mirror-recv, Mirror-close, Mirror-shut,
}
use sosagent.Whole.Mirror.Deliver.{send_data_host-Mirror}

module _ {env : Env} where
  abbrev Kept : {A : Type 0} → A → World env (Client env.Table) → Type 0
  Kept x = Mirror

  -- The connection is not waited for.
  record Dropped (a : ℕ) (w : World env (Client env.Table)) : Type 0 where
    mirror : Mirror w
    unwatched : (l : Lane) → get_elem? w.state.lanes a ≡ some l → mask_of l.agent_fd_poll ≡ none

  drop_agent-Dropped :
      (a : ℕ) (w : World env (Client env.Table))
      → Mirror w
      → Post (λ _ w'. Dropped a w') Anything (drop_agent a w)
  unfolding drop_agent
  drop_agent-Dropped a w h = Post-check (get_elem? w.state.lanes a) w _ (λ l at.
      Post-epoll_ctl client_event_pool delete l.agent_sock w _ tt (
        Post-check (get_elem? w.state.lanes a) _ _ (λ m at'. came_back (record {
          mirror =
              subst
                (λ x. Mirror (record w {
                  kernel = (env.ctl_call w.kernel client_event_pool delete l.agent_sock).1;
                  state = record (w.state) {
                    lanes = set w.state.lanes a (record x { agent_fd_poll = closed });
                  };
                  trace = control client_event_pool delete l.agent_sock ∷ w.trace;
                }))
                (ap (λ o. lane_in o l) (sym at ∙ at'))
                (Mirror-mark w _ a l delete closed at refl h);
          unwatched = λ x e.
              ap (λ o. mask_of (lane_in o x).agent_fd_poll)
                (sym e
                  ∙ get_elem?-set_self w.state.lanes a (record m { agent_fd_poll = closed }) m at');
        }))))

  header_refused-Mirror :
      (x : Errno) (a i count : ℕ) (w : World env (Client env.Table))
      → Mirror w
      → Post Kept Anything (header_refused x a i count w)
  unfolding header_refused close
  header_refused-Mirror eshutdown a i count w h =
      Post-and_then _ _ (drop_agent-Dropped a w h) (λ _ v d.
        Post-check (get_elem? v.state.lanes a) v _
          (λ l at. came_back (Mirror-close v a l at (d.unwatched l at) d.mirror)))
  header_refused-Mirror econnreset a i count w h =
      Post-and_then _ _ (drop_agent-Dropped a w h) (λ _ v d.
        Post-check (get_elem? v.state.lanes a) v _
          (λ l at. came_back (Mirror-close v a l at (d.unwatched l at) d.mirror)))
  header_refused-Mirror eagain a i count w h =
      Post-if (count == 0) _ _ w (λ q. gave_up tt)
        (λ q.
          Post-check (get_elem? w.state.lanes a) w _
            (λ l at. came_back (Mirror-lane w a l _ at refl refl h)))
  header_refused-Mirror x a i count w h = gave_up tt

  header_answered-Mirror :
      (r : Received) (a i count : ℕ) (again : ℕ → M (World env (Client env.Table)) ReadEnd)
      (w : World env (Client env.Table))
      → Mirror w
      → ((n : ℕ) (v : World env (Client env.Table)) → Mirror v → Post Kept Anything (again n v))
      → Post Kept Anything (header_answered r a i count again w)
  unfolding header_answered
  header_answered-Mirror (recv_failed x) a i count again w h next =
      header_refused-Mirror x a i count w h
  header_answered-Mirror (got []) a i count again w h next =
      Post-and_then _ _ (drop_agent-Dropped a w h) (λ _ v d.
        Post-check (slot_at v.state.lanes a i) v _
          (λ s at. came_back (Mirror-slot v a i _ d.mirror)))
  header_answered-Mirror (got (b ∷ bs)) a i count again w h next =
      Post-check (get_elem? w.state.lanes a) w _ (λ l at.
        Post-check (overwrite l.header_size count (b ∷ bs)) w _ (λ word e.
          Post-if (count + length (b ∷ bs) == 4) _ _ _
            (λ q.
              Post-check (get_elem? (set w.state.lanes a (record l { header_size = word })) a) _ _
                (λ m at'. came_back (
                  Mirror-lane _ a m _ at' refl refl
                    (Mirror-lane w a l (record l { header_size = word }) at refl refl h))))
            (λ q. next _ _ (Mirror-lane w a l (record l { header_size = word }) at refl refl h))))

  read_header-Mirror :
      (fuel a i count : ℕ) (w : World env (Client env.Table))
      → Mirror w
      → Post Kept Anything (read_header fuel a i count w)
  unfolding read_header
  read_header-Mirror zero a i count w h = endless
  read_header-Mirror (suc fuel) a i count w h = Post-check (get_elem? w.state.lanes a) w _ (λ l at.
      Post-recv l.agent_sock _ w _ (
        header_answered-Mirror _ a i count _ _ (Mirror-recv l.agent_sock _ w h)
          (λ n v m. read_header-Mirror fuel a i n v m)))

  header_done-Mirror :
      (a i : ℕ) (w : World env (Client env.Table))
      → Mirror w
      → Post Kept Anything (header_done a i w)
  unfolding header_done
  header_done-Mirror a i w h = Post-check (get_elem? w.state.lanes a) w _ (λ l at.
      Post-if (ntohl env.order (word_of env.order l.header_size) == 0) _ _ w (λ q. gave_up tt)
        (λ q. Post-check (slot_at (set w.state.lanes a _) a i) _ _ (λ s at'.
          Post-if (ltb w.state.buffer_size (ntohl env.order (word_of env.order l.header_size))) _ _
            _ (λ z. gave_up tt)
            (λ z. came_back (Mirror-slot _ a i _ (Mirror-lane w a l _ at refl refl h))))))

  drop_agent_at-Mirror :
      (a : ℕ) (q : Poll) (w : World env (Client env.Table))
      → ((l : Lane) → get_elem? w.state.lanes a ≡ some l → l.agent_fd_poll ≡ q)
      → Mirror w
      → Post Kept Anything (drop_agent_at a q w)
  unfolding drop_agent_at
  drop_agent_at-Mirror a off w is h =
      Post-check (get_elem? w.state.lanes a) w _
        (λ l at. came_back (Mirror-shut w a l at (ap mask_of (is l at)) h))
  drop_agent_at-Mirror a q w is h =
      Post-mono _ (drop_agent-Dropped a w h) (λ x v d. d.mirror) (λ v e. e)

  payload_answered-Mirror :
      (r : Received) (a i size count : ℕ) (again : ℕ → M (World env (Client env.Table)) ReadEnd)
      (w : World env (Client env.Table))
      → Mirror w
      → ((n : ℕ) (v : World env (Client env.Table)) → Mirror v → Post Kept Anything (again n v))
      → Post Kept Anything (payload_answered r a i size count again w)
  unfolding payload_answered
  payload_answered-Mirror (recv_failed eagain) a i size count again w h next =
      Post-check (get_elem? w.state.lanes a) w _ (λ l at.
        Post-check (slot_at (set w.state.lanes a _) a i) _ _
          (λ s at'. came_back (Mirror-slot _ a i _ (Mirror-lane w a l _ at refl refl h))))
  payload_answered-Mirror (recv_failed x) a i size count again w h next = gave_up tt
  payload_answered-Mirror (got []) a i size count again w h next =
      Post-check (get_elem? w.state.lanes a) w _ (λ l at.
        Post-and_then _ _
          (drop_agent_at-Mirror a l.agent_fd_poll w
            (λ m at'. ap (λ o. (lane_in o l).agent_fd_poll) (sym at' ∙ at)) h)
          (λ x v m. came_back m))
  payload_answered-Mirror (got (b ∷ bs)) a i size count again w h next =
      Post-check (slot_at w.state.lanes a i) w _ (λ s at.
        Post-check (overwrite s.serialized_data count (b ∷ bs)) w _ (λ bytes e.
          Post-if (count + length (b ∷ bs) == size) _ _ _
            (λ q.
              Post-check (get_elem? _ a) _ _
                (λ m at'. came_back (Mirror-lane _ a m _ at' refl refl (Mirror-slot w a i _ h))))
            (λ q. next _ _ (Mirror-slot w a i _ h))))

  read_payload-Mirror :
      (fuel a i size count : ℕ) (w : World env (Client env.Table))
      → Mirror w
      → Post Kept Anything (read_payload fuel a i size count w)
  unfolding read_payload
  read_payload-Mirror zero a i size count w h = endless
  read_payload-Mirror (suc fuel) a i size count w h =
      Post-check (get_elem? w.state.lanes a) w _ (λ l at. Post-recv l.agent_sock _ w _ (
        payload_answered-Mirror _ a i size count _ _ (Mirror-recv l.agent_sock _ w h)
          (λ n v m. read_payload-Mirror fuel a i size n v m)))

  unwatch_agent-Mirror :
      (a : ℕ) (q : Poll) (w : World env (Client env.Table))
      → Mirror w
      → Post Kept Anything (unwatch_agent a q w)
  unfolding unwatch_agent
  unwatch_agent-Mirror a in_and_out w h = mark_agent-Mirror a _ _ w refl h
  unwatch_agent-Mirror a in_only w h = mark_agent-Mirror a _ _ w refl h
  unwatch_agent-Mirror a q w h = came_back h

  sort_packet-Mirror :
      (a i : ℕ) (w : World env (Client env.Table))
      → Mirror w
      → Post Kept Anything (sort_packet a i w)
  unfolding sort_packet file_packet
  sort_packet-Mirror a i w h = Post-check (slot_at w.state.lanes a i) w _ (λ s at.
      Post-if (w.state.recv_seq == s.seq_num) _ _ w
        (λ q.
          Post-and_then _ _ (send_data_host-Mirror false a _ (Mirror-state w _ refl refl refl h))
            (λ st v m. came_back m))
        (λ q.
          Post-and_then _ _
            (Post-check (slot_at w.state.lanes a i) w _
              (λ t at'. came_back (Mirror-state _ _ refl refl refl (Mirror-slot w a i _ h))))
            (λ st v m. came_back m)))

  packet_arrived-Mirror :
      (a i : ℕ) (w : World env (Client env.Table))
      → Mirror w
      → Post Kept Anything (packet_arrived a i w)
  unfolding packet_arrived
  packet_arrived-Mirror a i w h = Post-check (slot_at w.state.lanes a i) w _ (λ s at.
      Post-check (slice s.serialized_data 0 4) w _ (λ bytes e.
        Post-check (get_elem? _ a) _ _ (λ l at'.
          Post-and_then _ _
            (Post-if (l.agent_packet_queue_count == w.state.queue_size) _ _ _
              (λ q. unwatch_agent-Mirror a l.agent_fd_poll _ (Mirror-slot w a i _ h))
              (λ q. came_back (Mirror-slot w a i _ h)))
            (λ x v m. sort_packet-Mirror a i v m))))

  payload_ended-Mirror :
      (e : ReadEnd) (a i : ℕ) (w : World env (Client env.Table))
      → Mirror w
      → Post Kept Anything (payload_ended e a i w)
  unfolding payload_ended
  payload_ended-Mirror whole a i w h = packet_arrived-Mirror a i w h
  payload_ended-Mirror dry a i w h = came_back h
  payload_ended-Mirror shut a i w h = came_back h

  header_ended-Mirror :
      (e : ReadEnd) (a i : ℕ) (w : World env (Client env.Table))
      → Mirror w
      → Post Kept Anything (header_ended e a i w)
  unfolding header_ended
  header_ended-Mirror whole a i w h = Post-and_then _ _ (header_done-Mirror a i w h) (λ size v m.
      Post-and_then _ _ (read_payload-Mirror (suc size) a i size 0 v m)
        (λ e v' m'. payload_ended-Mirror e a i v' m'))
  header_ended-Mirror dry a i w h = came_back h
  header_ended-Mirror shut a i w h = came_back h

  get_free_packet_index-Mirror :
      (a : ℕ) (w : World env (Client env.Table))
      → Mirror w
      → Post Kept Anything (get_free_packet_index a w)
  unfolding get_free_packet_index
  get_free_packet_index-Mirror a w h = Post-check (get_elem? w.state.lanes a) w _ (λ l at.
      Post-check (first_free w.state.queue_size 0 l.buffered_packet) w _ (λ found e. taken found))
    where
      taken : (found : Option ℕ) → Post Kept Anything (take_slot a found w)
      taken none = came_back h
      taken (some i) =
          Post-check (slot_at w.state.lanes a i) w _ (λ s at. came_back (Mirror-slot w a i _ h))

  begin_packet-Mirror :
      (a : ℕ) (found : Option ℕ) (v : World env (Client env.Table))
      → Mirror v
      → Post Kept Anything (begin_packet a found v)
  unfolding begin_packet
  begin_packet-Mirror a none v m = gave_up tt
  begin_packet-Mirror a (some i) v m = Post-check (get_elem? v.state.lanes a) v _ (λ l at.
      Post-and_then _ _
        (read_header-Mirror 5 a i 0 _
          (Mirror-lane v a l (record l { agent_packet_index_in = some i }) at refl refl m))
        (λ e v' m'. header_ended-Mirror e a i v' m'))

  read_from-Mirror :
      (index : Option ℕ) (need a : ℕ) (w : World env (Client env.Table))
      → Mirror w
      → Post Kept Anything (read_from index need a w)
  unfolding read_from
  read_from-Mirror (some i) (suc n) a w h =
      Post-and_then _ _ (read_header-Mirror 5 a i (suc n) w h)
        (λ e v m. header_ended-Mirror e a i v m)
  read_from-Mirror none zero a w h =
      Post-and_then _ _ (get_free_packet_index-Mirror a w h)
        (λ found v m. begin_packet-Mirror a found v m)
  read_from-Mirror (some i) zero a w h = Post-check (slot_at w.state.lanes a i) w _ (λ s at.
      Post-and_then _ _ (read_payload-Mirror (suc s.size) a i s.size s.host_sent_size w h)
        (λ e v m. payload_ended-Mirror e a i v m))
  read_from-Mirror none (suc n) a w h = faulted

  pub read_agent_send_host-Mirror :
      (a : ℕ) (w : World env (Client env.Table))
      → Mirror w
      → Post Kept Anything (read_agent_send_host a w)
  unfolding read_agent_send_host
  read_agent_send_host-Mirror a w h =
      Post-check (get_elem? w.state.lanes a) w _
        (λ l at. read_from-Mirror l.agent_packet_index_in l.agent_needed_header_size a w h)

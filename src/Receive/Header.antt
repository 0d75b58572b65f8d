-- ===== src/Receive/Header.antt =====
-- The loop of `read_agent_send_host` (network.c) that reads the length word of a packet.
use sosagent.Base.{
  ℕ, zero, suc, ◌+◌, ◌-◌, ◌%◌, ◌^◌, ◌≤◌, ◌<◌, ◌≡◌, refl, ap, sym, subst, ◌∙◌, ◌==◌, ==_iff, inl,
  inr, Bool-cases, false, List, [], ◌∷◌, ◌++◌, some, take, length, get_elem?, set, arith,
  append_assoc, append-nil, get_elem?-set_self,
}
use sosagent.System.{Errno, eagain, eshutdown, econnreset, Received, got, recv_failed, Action, Env}
use sosagent.System.Laws.{IsPosix}
use sosagent.System.Outcome.{M, Ensures, returns, exits}
use sosagent.System.Calls.{World, incoming, recv_log, stream-recv_log, close}
use sosagent.System.Rules.{after_recv_exactly}
use sosagent.Client.{Slot, Lane, Client}
use sosagent.Client.Access.{slot_at}
use sosagent.Client.Slots.{slot_at-set_lane}
use sosagent.Send.Layout.{splice, overwrite-eq, length-splice}
use sosagent.Receive.{ReadEnd, whole, dry, shut, header_refused, header_answered, read_header}
use sosagent.Receive.Gather.{
  bytes_in, take-splice, incoming-recv_log, Upkeep, Still, Still-slot, Still-lane,
}
use sosagent.Receive.Dropped.{Unsent, Still-close, drop_agent-Still}
use sosagent.Receive.Payload.{recv_bytes_bound, not_yet}

module _ {env : Env} (J : env.Kernel → List Action → Type 0) (a i fd : ℕ) (before : List ℕ)
    (w₀ : World env (Client env.Table)) where
  -- `count` bytes of the length word have come in behind `before`, and stand in the connection's
  -- word; the slot is there for the packet.
  pub record Heading (s : Slot) (count : ℕ) (w : World env (Client env.Table)) : Type 0 where
    pub still : Still J a i w₀ w
    pub conn : Lane
    pub at_lane : get_elem? w.state.lanes a ≡ some conn
    pub own : conn.agent_sock ≡ fd
    pub at_slot : slot_at w.state.lanes a i ≡ some s
    pub word : length conn.header_size ≡ 4
    pub index : conn.agent_packet_index_in ≡ some i
    pub input : incoming fd w.trace ≡ before ++ take count conn.header_size

  -- How the loop is left: the word is there; it goes on later; or the connection is at its end.
  pub data Headed (s : Slot) : ReadEnd → World env (Client env.Table) → Type 0 where
    word_in :
        {w : World env (Client env.Table)} (l : Lane)
        → Heading s 4 w
        → get_elem? w.state.lanes a ≡ some l
        → l.agent_needed_header_size ≡ 0
        → Headed s whole w
    part_in :
        {w : World env (Client env.Table)} (count : ℕ) (l : Lane)
        → Heading s count w
        → 0 < count
        → count < 4
        → get_elem? w.state.lanes a ≡ some l
        → l.agent_needed_header_size ≡ count
        → Headed s dry w
    word_cut : {w : World env (Client env.Table)} → Still J a i w₀ w → Headed s shut w

  -- A write to the connection's fields for the header.
  Heading-lane :
      (s : Slot) (count : ℕ) (w : World env (Client env.Table)) (l l' : Lane)
      → Still J a i w₀ w
      → get_elem? w.state.lanes a ≡ some l
      → slot_at w.state.lanes a i ≡ some s
      → l'.buffered_packet ≡ l.buffered_packet
      → l'.agent_sock ≡ fd
      → length l'.header_size ≡ 4
      → l'.agent_packet_index_in ≡ some i
      → incoming fd w.trace ≡ before ++ take count l'.header_size
      → Heading s count (record w { state = record (w.state) { lanes = set w.state.lanes a l' } })
  Heading-lane s count w l l' h at at_s slots sock word index e = record {
    still = Still-lane J a i w₀ w l l' at slots h;
    conn = l';
    at_lane = get_elem?-set_self w.state.lanes a l' l at;
    own = sock;
    at_slot = slot_at-set_lane w.state.lanes a a i l l' at slots ∙ at_s;
    word = word;
    index = index;
    input = e;
  }

  -- A failed `recv`.
  header_refused-Headed :
      (up : Upkeep env J) (s : Slot) (x : Errno) (count : ℕ) (w : World env (Client env.Table))
      → Heading s count w
      → count < 4
      → Ensures (Headed s) (Unsent w₀) (header_refused x a i count w)
  unfolding header_refused close
  header_refused-Headed up s eshutdown count w h less =
      drop_agent-Still J a i w₀ up w h.conn _ h.at_lane h.still (λ w' l at marked same st.
        rw at (returns (word_cut (Still-close J a i w₀ up w' l.agent_sock st))))
  header_refused-Headed up s econnreset count w h less =
      drop_agent-Still J a i w₀ up w h.conn _ h.at_lane h.still (λ w' l at marked same st.
        rw at (returns (word_cut (Still-close J a i w₀ up w' l.agent_sock st))))
  header_refused-Headed up s eagain count w h less = elim (Bool-cases (count == 0)) [
    | inl q ↦ rw q (exits h.still.quiet)
    | inr q ↦
        rw (q, h.at_lane)
          (returns (
            part_in count l'
              (Heading-lane s count w h.conn l' h.still h.at_lane h.at_slot refl h.own h.word refl
                h.input)
              (positive count q) less (get_elem?-set_self w.state.lanes a l' h.conn h.at_lane)
              refl))
  ]
    where
      l' : Lane
      l' = record (h.conn) { agent_packet_index_in = some i; agent_needed_header_size = count }

      positive : (n : ℕ) → (n == 0) ≡ false → 0 < n
      positive n q = ground arith
  header_refused-Headed up s x count w h less = exits h.still.quiet

  -- One answer of `recv`, with what came in already recorded.
  header_answered-Headed :
      (up : Upkeep env J) (s : Slot) (r : Received) (count : ℕ) (w : World env (Client env.Table))
      (again : ℕ → M (World env (Client env.Table)) ReadEnd) (l : Lane)
      → Still J a i w₀ w
      → get_elem? w.state.lanes a ≡ some l
      → l.agent_sock ≡ fd
      → slot_at w.state.lanes a i ≡ some s
      → length l.header_size ≡ 4
      → l.agent_packet_index_in ≡ some i
      → incoming fd w.trace ≡ before ++ (take count l.header_size ++ bytes_in r)
      → count < 4
      → length (bytes_in r) ≤ 4 - count
      → ((n : ℕ) (w' : World env (Client env.Table))
          → Heading s n w'
          → count < n
          → n < 4
          → Ensures (Headed s) (Unsent w₀) (again n w'))
      → Ensures (Headed s) (Unsent w₀) (header_answered r a i count again w)
  unfolding header_answered
  header_answered-Headed up s (recv_failed x) count w again l st at own at_s word index e less most
        next =
      header_refused-Headed up s x count w
        (record {
          still = st;
          conn = l;
          at_lane = at;
          own = own;
          at_slot = at_s;
          word = word;
          index = index;
          input = e ∙ ap (λ b. before ++ b) (append-nil _);
        })
        less
  header_answered-Headed up s (got []) count w again l st at own at_s word index e less most next =
      drop_agent-Still J a i w₀ up w l _ at st (λ w' l' at' marked same st'.
        rw (same ∙ at_s)
          (returns (word_cut (Still-slot J a i w₀ w' (record s { in_use = false }) st'))))
  header_answered-Headed up s (got (b ∷ bs)) count w again l st at own at_s word index e less most
        next =
      rw (at, overwrite-eq l.header_size count (b ∷ bs) fits)
        (elim (Bool-cases (count + length (b ∷ bs) == 4)) [
          | inl q ↦
              rw (q, at')
                (returns (
                  word_in l''
                    (Heading-lane s 4 _ l' l'' (Still-lane J a i w₀ w l l' at refl st) at'
                      (slot_at-set_lane w.state.lanes a a i l l' at refl ∙ at_s) refl own
                      (length-splice l.header_size count (b ∷ bs) fits ∙ word) index
                      (put_in ∙ ap (λ n. before ++ take n l'.header_size) ((==_iff _ 4).0 q)))
                    (get_elem?-set_self _ a l'' l' at') refl))
          | inr q ↦ rw q (
              next (count + length (b ∷ bs)) _ (filled (count + length (b ∷ bs)) refl) (omega arith)
                (not_yet count (length (b ∷ bs)) q most less))
        ])
    where
      fits : count + length (b ∷ bs) ≤ length l.header_size
      fits = omega (arith, word)

      l' : Lane
      l' = record l { header_size = splice l.header_size count (b ∷ bs) }

      l'' : Lane
      l'' = record l' { agent_needed_header_size = 0 }

      at' : get_elem? (set w.state.lanes a l') a ≡ some l'
      at' = get_elem?-set_self w.state.lanes a l' l at

      put_in : incoming fd w.trace ≡ before ++ take (count + length (b ∷ bs)) l'.header_size
      put_in = e ∙ ap (λ x. before ++ x) (sym (take-splice l.header_size count (b ∷ bs) fits))

      filled :
          (n : ℕ)
          → before ++ take (count + length (b ∷ bs)) l'.header_size
            ≡ before ++ take n l'.header_size
          → Heading s n (record w { state = record (w.state) { lanes = set w.state.lanes a l' } })
      filled n same =
          Heading-lane s n w l l' st at at_s refl own
            (length-splice l.header_size count (b ∷ bs) fits ∙ word) index (put_in ∙ same)

  pub read_header-Headed :
      IsPosix env
      → Upkeep env J
      → (s : Slot) (fuel count : ℕ) (w : World env (Client env.Table)) → Heading s count w
      → count < 4
      → 4 - count < fuel
      → Ensures (Headed s) (Unsent w₀) (read_header fuel a i count w)
  unfolding read_header
  read_header-Headed posix up s zero count w h less enough = absurd (omega arith)
  read_header-Headed posix up s (suc fuel) count w h less enough = rw h.at_lane (
      after_recv_exactly h.conn.agent_sock len w _ (
        header_answered-Headed up s _ count _ _ h.conn
          (record {
            only_lanes = h.still.only_lanes;
            quiet = λ x. stream-recv_log x h.conn.agent_sock _ w.trace ∙ h.still.quiet x;
            agree = h.still.agree;
            others = h.still.others;
            kept = up.on_recv w.kernel w.trace h.conn.agent_sock len h.still.kept;
          })
          h.at_lane h.own h.at_slot h.word h.index
          (subst (λ x. incoming fd (recv_log x r w.trace) ≡ incoming fd w.trace ++ bytes_in r)
              (sym h.own) (incoming-recv_log fd r w.trace)
            ∙ ap (λ b. b ++ bytes_in r) h.input
            ∙ append_assoc before (take count h.conn.header_size) (bytes_in r))
          less (omega (arith, recv_bytes_bound posix w.kernel h.conn.agent_sock len))
          (λ n w' g more b. read_header-Headed posix up s fuel n w' g b (omega arith))))
    where
      len : ℕ
      len = (4 + 2 ^ 64 - count) % 2 ^ 64

      r : Received
      r = (env.recv_call w.kernel h.conn.agent_sock len).0

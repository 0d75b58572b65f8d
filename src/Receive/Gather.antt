-- ===== src/Receive/Gather.antt =====
-- How `read_agent_send_host` (network.c) gathers what comes in on a connection: what stands in the
-- buffer is what came in behind a given point of the connection's stream.
use sosagent.Base.{
  ℕ, zero, suc, ◌+◌, ◌≤◌, ◌≡◌, ◌≢◌, get_elem?-set_ne, refl, ap, sym, ◌∙◌, if◌then◌else◌, List, [],
  ◌∷◌, ◌++◌, Option, none, some, take, length, get_elem?, set, arith, append_assoc, append-nil,
  take_front, length-append, length-take, ==_iff, true,
}
use sosagent.System.{Received, got, recv_failed, Pool, Ctl, control, closed_fd, Action, Env}
use sosagent.System.Calls.{World, stream, incoming, recv_log}
use sosagent.Client.{Slot, Lane, Client}
use sosagent.Client.Access.{slot_at, put_slot}
use sosagent.Client.Slots.{slot_at-put_slot_ne, slot_at-set_lane}
use sosagent.Send.Layout.{splice}
use sosagent.Receive.Resting.{Agree}

-- The bytes of an answer.
abbrev pub bytes_in : Received → List ℕ
bytes_in (got bs) = bs
bytes_in (recv_failed e) = []

-- What is written behind the first `count` bytes of a buffer continues them.
pub take-splice :
    (old : List ℕ) (count : ℕ) (new : List ℕ)
    → count + length new ≤ length old
    → take (count + length new) (splice old count new) ≡ take count old ++ new
take-splice old count new h =
    ap (take (count + length new)) (sym (append_assoc (take count old) new _))
    ∙ take_front (count + length new) (take count old ++ new) _ (
        length-append (take count old) new
        ∙ ap (λ m. m + length new) (length-take count old (omega arith)))

pub incoming-recv_log :
    (fd : ℕ) (r : Received) (t : List Action)
    → incoming fd (recv_log fd r t) ≡ incoming fd t ++ bytes_in r
unfolding incoming
incoming-recv_log fd (got bytes) t =
    ap (λ b. incoming fd t ++ (if b then bytes else [])) ((==_iff fd fd).1 refl)
incoming-recv_log fd (recv_failed e) t = sym (append-nil (incoming fd t))

pub lane-put_slot :
    (ls : List Lane) (a i : ℕ) (l : Lane) (s : Slot)
    → get_elem? ls a ≡ some l
    → get_elem? (put_slot ls a i s) a
      ≡ some (record l { buffered_packet = set l.buffered_packet i s })
unfolding put_slot
lane-put_slot [] a i l s h = cc
lane-put_slot (x ∷ ls) zero i l s h =
    ap
      (λ o. some (record (lane_in o l) { buffered_packet = set (lane_in o l).buffered_packet i s }))
      h
  where
    lane_in : Option Lane → Lane → Lane
    lane_in none m = m
    lane_in (some n) m = n
lane-put_slot (x ∷ ls) (suc a) i l s h = lane-put_slot ls a i l s h

get_elem?-put_slot_ne :
    (ls : List Lane) (a i j : ℕ) (s : Slot)
    → a ≢ j
    → get_elem? (put_slot ls a i s) j ≡ get_elem? ls j
unfolding put_slot
get_elem?-put_slot_ne [] a i j s q = refl
get_elem?-put_slot_ne (x ∷ ls) zero i zero s q = absurd (q refl)
get_elem?-put_slot_ne (x ∷ ls) zero i (suc j) s q = refl
get_elem?-put_slot_ne (x ∷ ls) (suc a) i zero s q = refl
get_elem?-put_slot_ne (x ∷ ls) (suc a) i (suc j) s q =
    get_elem?-put_slot_ne ls a i j s (λ e. q (ap suc e))

-- A condition on the kernel and the record of calls that the calls of the two loops keep: what is
-- known of the bytes that are still to come in.
pub record Upkeep (env : Env) (J : env.Kernel → List Action → Type 0) : Type 0 where
  pub on_recv :
      (k : env.Kernel) (t : List Action) (fd len : ℕ)
      → J k t
      → J (env.recv_call k fd len).1 (recv_log fd (env.recv_call k fd len).0 t)
  pub on_ctl :
      (k : env.Kernel) (t : List Action) (pool : Pool) (c : Ctl) (fd : ℕ)
      → J k t
      → J (env.ctl_call k pool c fd).1 (control pool c fd ∷ t)
  pub on_close : (k : env.Kernel) (t : List Action) (fd : ℕ) → J k t → J k (closed_fd fd ∷ t)

module _ {env : Env} (J : env.Kernel → List Action → Type 0) where
  -- Since `w₀` nothing was sent, and nothing has changed but connection `a`, and of its slots slot
  -- `i` alone.
  pub record Still (a i : ℕ) (w₀ w : World env (Client env.Table)) : Type 0 where
    pub only_lanes : w.state ≡ record (w₀.state) { lanes = w.state.lanes }
    pub quiet : (fd : ℕ) → stream fd w.trace ≡ stream fd w₀.trace
    pub agree : Agree w₀.state.lanes w.state.lanes a i
    pub others : (j : ℕ) → a ≢ j → get_elem? w.state.lanes j ≡ get_elem? w₀.state.lanes j
    pub kept : J w.kernel w.trace

  -- `count` bytes of a packet's `size` have come in behind `before`, and stand in its slot.
  pub record Filling (a i fd size : ℕ) (before : List ℕ) (w₀ : World env (Client env.Table))
      (index : Option ℕ) (count : ℕ) (w : World env (Client env.Table)) : Type 0 where
    pub still : Still a i w₀ w
    pub conn : Lane
    pub at_lane : get_elem? w.state.lanes a ≡ some conn
    pub own : conn.agent_sock ≡ fd
    pub filled_index : conn.agent_packet_index_in ≡ index
    pub no_header : conn.agent_needed_header_size ≡ 0
    pub held : Slot
    pub at_slot : slot_at w.state.lanes a i ≡ some held
    pub sized : held.size ≡ size
    pub taken : held.in_use ≡ true
    pub room : size ≤ length held.serialized_data
    pub input : incoming fd w.trace ≡ before ++ take count held.serialized_data

  -- A write to the slot.
  pub Still-slot :
      (a i : ℕ) (w₀ w : World env (Client env.Table)) (s : Slot)
      → Still a i w₀ w
      → Still a i w₀
          (record w { state = record (w.state) { lanes = put_slot w.state.lanes a i s } })
  Still-slot a i w₀ w s h = record {
    only_lanes =
        ap (λ (c : Client env.Table). record c { lanes = put_slot w.state.lanes a i s })
          h.only_lanes;
    quiet = h.quiet;
    agree = λ b j q. slot_at-put_slot_ne w.state.lanes a i b j s q ∙ h.agree b j q;
    others = λ j q. get_elem?-put_slot_ne w.state.lanes a i j s q ∙ h.others j q;
    kept = h.kept;
  }

  -- A write to the connection's other fields.
  pub Still-lane :
      (a i : ℕ) (w₀ w : World env (Client env.Table)) (l l' : Lane)
      → get_elem? w.state.lanes a ≡ some l
      → l'.buffered_packet ≡ l.buffered_packet
      → Still a i w₀ w
      → Still a i w₀ (record w { state = record (w.state) { lanes = set w.state.lanes a l' } })
  Still-lane a i w₀ w l l' at e h = record {
    only_lanes =
        ap (λ (c : Client env.Table). record c { lanes = set w.state.lanes a l' }) h.only_lanes;
    quiet = h.quiet;
    agree = λ b j q. slot_at-set_lane w.state.lanes a b j l l' at e ∙ h.agree b j q;
    others = λ j q. get_elem?-set_ne w.state.lanes a j l' q ∙ h.others j q;
    kept = h.kept;
  }

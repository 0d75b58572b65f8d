-- ===== src/Receive/Entry.antt =====
-- `read_agent_send_host` (network.c): the points at which it goes on.
use sosagent.Base.{
  ℕ, suc, ◌≤◌, ◌<◌, ◌≡◌, ◌⊎◌, inl, inr, refl, ap, sym, ◌∙◌, Bool, true, false, false≢true,
  append-nil, List, ◌++◌, Option, none, some, length, get_elem?, set, arith, get_elem?-set_self,
}
use sosagent.System.{Action, Env}
use sosagent.System.Laws.{IsPosix, IsTable}
use sosagent.System.Outcome.{and_then, Ensures, Ensures-and_then, Ensures-mono}
use sosagent.System.Calls.{World, incoming}
use sosagent.Client.{Slot, Lane, Client}
use sosagent.Client.Access.{slot_at, put_slot}
use sosagent.Client.Slots.{slot_at-put_slot_self, slot_at-set_lane}
use sosagent.Wire.{network_bytes}
use sosagent.Deliver.Order.{Filed, Idle, Waiting}
use sosagent.Receive.{
  first_free, take_slot, get_free_packet_index, read_header, header_ended, begin_packet, read_from,
  read_agent_send_host,
}
use sosagent.Receive.Gather.{Filling, Still-slot, Still-lane, lane-put_slot}
use sosagent.Receive.Tcp.{IsTcp, Coming, Coming-Upkeep}
use sosagent.Receive.Header.{Heading, read_header-Headed}
use sosagent.Receive.Resting.{Resting}
use sosagent.Receive.Whole.{ReadOn, Stopped, unsent}
use sosagent.Receive.Begun.{Next, frames_from, rest_of_payload-ReadOn, header_ended-ReadOn}

abbrev used_of : Option Slot → Bool
used_of none = false
used_of (some t) = t.in_use

not_free : (s t : Slot) → s.in_use ≡ false → some s ≡ some t → t.in_use ≡ true → ⊥
not_free s t free e q = false≢true (sym free ∙ ap used_of e ∙ q)

-- A slot that is not in use holds no packet that waits.
pub free-Resting :
    {env : Env} (p : ℕ → List ℕ) (k a i : ℕ) (w : World env (Client env.Table)) (s : Slot)
    → slot_at w.state.lanes a i ≡ some s
    → s.in_use ≡ false
    → Idle p k w ⊎ Waiting p k w
    → Resting p k a i w
free-Resting {env = env} p k a i w s at free (inl d) = record {
  apart = λ n e.
      let f : Filed p w.state.lanes a i n = d.between.filed n a i e in
      not_free s f.held free (sym at ∙ f.at) f.carries.used_slot;
  rest = inl d;
}
free-Resting {env = env} p k a i w s at free (inr d) = record {
  apart = λ n e.
      let f : Filed p w.state.lanes a i n = d.sending.filed n a i e in
      not_free s f.held free (sym at ∙ f.at) f.carries.used_slot;
  rest = inr (
    d,
    λ q.
        not_free s d.sending.at_slot.held free
          (sym at
            ∙ ap (λ b. slot_at w.state.lanes b i) q.0
            ∙ ap (λ j. slot_at w.state.lanes w.state.host_agent_id j) q.1
            ∙ d.sending.at_slot.at)
          d.sending.at_slot.carries.used_slot,
  );
}

module _ {env : Env} (p : ℕ → List ℕ) (pending : env.Kernel → ℕ → List ℕ) (k a i n fd size : ℕ)
    (front rest : List ℕ) (w₀ : World env (Client env.Table)) where
  abbrev Stream : env.Kernel → List Action → Type 0
  Stream = Coming env pending fd (frames_from env p n front rest)

  -- Where `read_agent_send_host` goes on with the packet whose length word lies behind `front`: in its
  -- payload, in the word, or at the word's first byte, with the first free slot. What has come in so
  -- far is in the slot or in the word, with the count of its bytes.
  pub data Begins : Type 0 where
    in_payload :
        (count : ℕ)
        (f : Filling Stream a i fd size (front ++ network_bytes size) w₀ (some i) count w₀)
        → count < size
        → f.held.host_sent_size ≡ count
        → Begins
    in_word :
        (count : ℕ) (s : Slot) (g : Heading Stream a i fd front w₀ s (suc count) w₀)
        → suc count < 4
        → g.conn.agent_needed_header_size ≡ suc count
        → s.in_use ≡ true
        → w₀.state.buffer_size ≤ length s.serialized_data
        → Begins
    at_packet :
        (s : Slot) (l : Lane)
        → Stream w₀.kernel w₀.trace
        → get_elem? w₀.state.lanes a ≡ some l
        → l.agent_sock ≡ fd
        → l.agent_packet_index_in ≡ none
        → l.agent_needed_header_size ≡ 0
        → length l.header_size ≡ 4
        → first_free w₀.state.queue_size 0 l.buffered_packet ≡ some (some i)
        → slot_at w₀.state.lanes a i ≡ some s
        → w₀.state.buffer_size ≤ length s.serialized_data
        → incoming fd w₀.trace ≡ front
        → Begins

module _ {env : Env} (p : ℕ → List ℕ) (table : IsTable env) (posix : IsPosix env)
    (pending : env.Kernel → ℕ → List ℕ) (tcp : IsTcp env pending) (k a i n fd size : ℕ)
    (front rest : List ℕ) (w₀ : World env (Client env.Table)) (h : Resting p k a i w₀)
    (next : Next env p k n size w₀) where
  abbrev J : env.Kernel → List Action → Type 0
  J = Stream {env = env} p pending k a i n fd size front rest w₀

  -- The loop for the word, and what follows it.
  read_word-ReadOn :
      (s : Slot) (count : ℕ) (w : World env (Client env.Table))
      → Heading J a i fd front w₀ s count w
      → count < 4
      → s.in_use ≡ true
      → w₀.state.buffer_size ≤ length s.serialized_data
      → Ensures
          (ReadOn p J k a i w₀ h n fd size front)
          (Stopped p J k a i w₀ h)
          (and_then (read_header 5 a i count w) (λ e. header_ended e a i))
  read_word-ReadOn s count w g less taken room =
      Ensures-and_then _
        (Ensures-mono
          (read_header-Headed J a i fd front w₀ posix (Coming-Upkeep pending fd _ tcp) s 5 count w g
            less (omega arith))
          (λ e w' r. r) (λ w' q. unsent q))
        (λ e w' r.
          header_ended-ReadOn p table posix pending tcp k a i n fd size front rest w₀ h next s e w'
            taken room r)

  -- What `read_agent_send_host` comes to.
  pub read_from-ReadOn :
      Begins {env = env} p pending k a i n fd size front rest w₀
      → Ensures
          (ReadOn p J k a i w₀ h n fd size front)
          (Stopped p J k a i w₀ h)
          (read_agent_send_host a w₀)
  unfolding read_agent_send_host read_from begin_packet get_free_packet_index take_slot
  read_from-ReadOn (in_payload count f less marked) =
      rw (f.at_lane, f.filled_index, f.no_header, f.at_slot, marked, f.sized)
        (rest_of_payload-ReadOn p table posix pending tcp k a i n fd size front rest w₀ h next
          (suc size) count w₀ f less (omega arith))
  read_from-ReadOn (in_word count s g less marked taken room) =
      rw (g.at_lane, g.index, marked) (read_word-ReadOn s (suc count) w₀ g less taken room)
  read_from-ReadOn (at_packet s l stream at own index need word free at_s room e) =
      rw (at, index, need)
        (rw (at, free, at_s) (rw at' (read_word-ReadOn s' 0 _ heading (omega arith) refl room)))
    where
      s' : Slot
      s' = record s { in_use = true }

      l' : Lane
      l' = record l { buffered_packet = set l.buffered_packet i s' }

      at' : get_elem? (put_slot w₀.state.lanes a i s') a ≡ some l'
      at' = lane-put_slot w₀.state.lanes a i l s' at

      heading : Heading J a i fd front w₀ s' 0 (record w₀ {
        state = record (w₀.state) {
          lanes =
              set (put_slot w₀.state.lanes a i s') a (record l' { agent_packet_index_in = some i });
        };
      })
      heading = record {
        still =
            Still-lane J a i w₀ _ l' (record l' { agent_packet_index_in = some i }) at' refl
              (Still-slot J a i w₀ w₀ s' (record {
                only_lanes = refl;
                quiet = λ x. refl;
                agree = λ b j q. refl;
                others = λ j q. refl;
                kept = stream;
              }));
        conn = record l' { agent_packet_index_in = some i };
        at_lane = get_elem?-set_self _ a (record l' { agent_packet_index_in = some i }) l' at';
        own = own;
        at_slot =
            slot_at-set_lane _ a a i l' (record l' { agent_packet_index_in = some i }) at' refl
            ∙ slot_at-put_slot_self w₀.state.lanes a i s' s at_s;
        word = word;
        index = refl;
        input = e ∙ sym (append-nil front);
      }

-- ===== src/Send/Flight.antt =====
-- A frame on its way out (the send loop of `read_host_send_agent`, network.c).
use sosagent.Base.{
  leb, true, if◌then◌else◌, none, ℕ, zero, suc, ◌+◌, ◌-◌, ◌%◌, ◌^◌, ◌≤◌, ◌<◌, ◌≡◌, refl, ap, sym,
  ◌∙◌, ◌≢◌, inl, inr, ◌==◌, ==_iff, false, false≢true, Bool-cases, List, ◌∷◌, ◌++◌, some, take,
  drop, length, get_elem?, set, arith, append_assoc, take-take_add, take_all, drop-take,
  length-drop, get_elem?-set_self,
}
use sosagent.System.{
  Errno, eagain, eshutdown, econnreset, Sent, took, send_failed, client_event_pool, Ctl, add,
  modify, delete, Action, sent, control, Env,
}
use sosagent.System.Laws.{IsPosix}
use sosagent.System.Outcome.{M, Ensures, returns, exits, and_then}
use sosagent.System.Calls.{World, stream, send_log, close}
use sosagent.System.Rules.{after_epoll_ctl, after_epoll_ctl_in_chain, after_send}
use sosagent.Client.{
  Poll, off, in_only, out_only, in_and_out, Lane, Client, Status, success, close_status,
}
use sosagent.Deliver.{both_ways, writable}
use sosagent.Deliver.Packet.{slice-eq}
use sosagent.Client.Access.{slice, rest_of}
use sosagent.Send.{
  watch_agent_output, agent_full, agent_lost, agent_refused, agent_answered, send_frame,
}

-- A round that takes part of what is left comes closer to the end.
pub closer :
    (size count n fuel len : ℕ)
    → len ≡ size - count
    → (0 < len → 0 < n)
    → count ≤ size
    → count + n ≢ size
    → n ≤ len
    → size - count < suc fuel
    → size - (count + n) < fuel
closer size count n fuel len e pos le ne b m = grind arith

rest_of-eq :
    (bytes : List ℕ) (count size : ℕ)
    → count ≤ size
    → size ≤ length bytes
    → rest_of bytes count size ≡ some (take (size - count) (drop count bytes))
rest_of-eq bytes count size less fits =
    ap (λ b. if b then slice bytes count (size - count) else none) (leb_of count size less)
    ∙ slice-eq bytes count (size - count) (omega (arith, less, fits))
  where
    leb_of : (a b : ℕ) → a ≤ b → leb a b ≡ true
    leb_of a b h = ground arith

module _ {env : Env} {B : Type 0} {P : B → World env (Client env.Table) → Type 0}
    {E : World env (Client env.Table) → Type 0} where
  after_watch_agent_output :
      (a : ℕ) (l : Lane) (q : Poll) (w : World env (Client env.Table))
      (f : Unit {0} → M (World env (Client env.Table)) B)
      → get_elem? w.state.lanes a ≡ some l
      → ((k : env.Kernel) (c : Ctl) (q' : Poll)
          → Ensures P E (
              f tt (record w {
                kernel = k;
                state = record (w.state) {
                  lanes = set w.state.lanes a (record l { agent_fd_poll = q' });
                };
                trace = control client_event_pool c l.agent_sock ∷ w.trace;
              })))
      → ((k : env.Kernel) (c : Ctl)
          → E (record w { kernel = k; trace = control client_event_pool c l.agent_sock ∷ w.trace }))
      → Ensures P E (f tt w)
      → Ensures P E (and_then (watch_agent_output a q w) f)
  unfolding watch_agent_output
  after_watch_agent_output a l in_only w f el ok failed same = rw el (
      after_epoll_ctl_in_chain client_event_pool (modify both_ways) l.agent_sock w _ f
        (λ k. rw el (ok k _ in_and_out)) (λ k. failed k _))
  after_watch_agent_output a l off w f el ok failed same = rw el (
      after_epoll_ctl_in_chain client_event_pool (add writable) l.agent_sock w _ f
        (λ k. rw el (ok k _ out_only)) (λ k. failed k _))
  after_watch_agent_output a l q w f el ok failed same = same

module _ {env : Env} (base fr : List ℕ) (fd a : ℕ) where
  -- `count` bytes of the frame have gone out on the connection's socket, and it stands whole in the
  -- connection's buffer.
  pub record Flying (count : ℕ) (w : World env (Client env.Table)) : Type 0 where
    pub now : Lane
    pub at : get_elem? w.state.lanes a ≡ some now
    pub own : now.agent_sock ≡ fd
    pub loaded : take (length fr) now.packet.serialized_data ≡ fr
    pub fits : length fr ≤ length now.packet.serialized_data
    pub out : stream fd w.trace ≡ base ++ take count fr
    pub partial : count ≤ length fr

  -- What has gone out is a part of the frame, from its beginning.
  abbrev pub Begun : World env (Client env.Table) → Type 0
  Begun w = (m : ℕ) × (stream fd w.trace ≡ base ++ take m fr)

  -- How the function leaves the frame: gone, waiting for the socket, or cut off.
  pub data Left : Status → World env (Client env.Table) → Type 0 where
    done :
        {w : World env (Client env.Table)}
        → stream fd w.trace ≡ base ++ fr
        → (l : Lane) → get_elem? w.state.lanes a ≡ some l
        → l.packet.host_packet_size ≡ 0
        → Left success w
    kept :
        {w : World env (Client env.Table)} (count : ℕ) (f : Flying count w)
        → f.now.packet.host_packet_size ≡ length fr
        → f.now.packet.host_sent_size ≡ count
        → Left success w
    cut : {w : World env (Client env.Table)} → Begun w → Left close_status w

  -- Other calls, and other entries of the lane, leave the frame as it is.
  pub flying_on :
      (count : ℕ) (w : World env (Client env.Table)) (f : Flying count w) (kernel : env.Kernel)
      (l : Lane) (t : List Action)
      → l.agent_sock ≡ fd
      → l.packet.serialized_data ≡ f.now.packet.serialized_data
      → stream fd t ≡ stream fd w.trace
      → Flying count (record w {
        kernel = kernel;
        state = record (w.state) { lanes = set w.state.lanes a l };
        trace = t;
      })
  flying_on count w f kernel l t own bytes e = record {
    now = l;
    at = get_elem?-set_self w.state.lanes a l f.now f.at;
    own = own;
    loaded = rw bytes f.loaded;
    fits = rw bytes f.fits;
    out = e ∙ f.out;
    partial = f.partial;
  }

  agent_full-Left :
      (count : ℕ) (w : World env (Client env.Table))
      → Flying count w
      → Ensures Left Begun (agent_full a (length fr) count w)
  unfolding agent_full flying_on stream
  agent_full-Left count w f = rw f.at (
      after_watch_agent_output a l l.agent_fd_poll w₁ _ el
        (λ kernel c q.
          let f₂ : Flying count (record w₁ {
            kernel = kernel;
            state = record (w₁.state) {
              lanes = set w₁.state.lanes a (record l { agent_fd_poll = q });
            };
            trace = control client_event_pool c l.agent_sock ∷ w.trace;
          }) =
            flying_on count w₁ f₁ kernel (record l { agent_fd_poll = q }) _ f.own refl refl in
          returns (kept count f₂ refl refl))
        (λ kernel c. (count, f.out)) (returns (kept count f₁ refl refl)))
    where
      l : Lane
      l = record (f.now) {
        packet = record (f.now.packet) { host_sent_size = count; host_packet_size = length fr };
        stats = record (f.now.stats) { blocked = (f.now.stats.blocked + 1) % 2 ^ 32 };
      }

      w₁ : World env (Client env.Table)
      w₁ = record w { state = record (w.state) { lanes = set w.state.lanes a l } }

      el : get_elem? w₁.state.lanes a ≡ some l
      el = get_elem?-set_self w.state.lanes a l f.now f.at

      f₁ : Flying count w₁
      f₁ = flying_on count w f w.kernel l w.trace f.own refl refl

  agent_lost-Left :
      (count : ℕ) (w : World env (Client env.Table))
      → Flying count w
      → Ensures Left Begun (agent_lost a w)
  unfolding agent_lost close stream
  agent_lost-Left count w f = rw f.at (
      after_epoll_ctl client_event_pool delete f.now.agent_sock w _
        (λ k. rw f.at (returns (cut (count, f.out)))) (λ k. (count, f.out)))

  agent_refused-Left :
      (e : Errno) (count : ℕ) (w : World env (Client env.Table))
      → Flying count w
      → Ensures Left Begun (agent_refused e a (length fr) count w)
  unfolding agent_refused
  agent_refused-Left eagain count w f = agent_full-Left count w f
  agent_refused-Left eshutdown count w f = agent_lost-Left count w f
  agent_refused-Left econnreset count w f = agent_lost-Left count w f
  agent_refused-Left e count w f = exits (count, f.out)

-- The next round of the loop.
abbrev pub GoesOn : (env : Env) (base fr : List ℕ) (fd a fuel : ℕ) → Type 0
GoesOn env base fr fd a fuel =
    (count : ℕ) (w : World env (Client env.Table))
    → Flying base fr fd a count w
    → length fr - count < fuel
    → Ensures (Left base fr fd a) (Begun base fr fd a) (send_frame fuel a (length fr) count w)

module _ {env : Env} (base fr : List ℕ) (fd a : ℕ) where
  -- The answer to a `send` of all that is left of the frame.
  agent_answered-Left :
      IsPosix env
      → (fuel count : ℕ) (w : World env (Client env.Table)) → (f : Flying base fr fd a count w)
      → length fr - count < suc fuel
      → (r : Sent) (kernel : env.Kernel)
      → (env.send_call w.kernel f.now.agent_sock (drop count fr)).0 ≡ r
      → GoesOn env base fr fd a fuel
      → Ensures (Left base fr fd a) (Begun base fr fd a) (
          agent_answered r a (length fr) count (send_frame fuel a (length fr)) (record w {
            kernel = kernel;
            trace = send_log f.now.agent_sock (drop count fr) r w.trace;
          }))
  unfolding agent_answered stream
  agent_answered-Left posix fuel count w f m (send_failed e) kernel eq again =
      agent_refused-Left base fr fd a e count _ (record {
        now = f.now;
        at = f.at;
        own = f.own;
        loaded = f.loaded;
        fits = f.fits;
        out = f.out;
        partial = f.partial;
      })
  agent_answered-Left posix fuel count w f m (took n) kernel eq again =
      rw f.at (elim (Bool-cases (count + n == length fr)) [
        | inl e ↦ rw e (
            returns (
              done
                (out
                  ∙ ap (◌++◌ base) (
                      take_all fr (count + n)
                        (omega (arith, (==_iff (count + n) (length fr)).0 e))))
                _ (get_elem?-set_self w.state.lanes a _ f.now f.at) refl))
        | inr e ↦ rw e (
            again (count + n) _
              (flying_on base fr fd a (count + n) _ moved kernel _ _ f.own refl refl)
              (closer (length fr) count n fuel _ left
                (posix.send_progress w.kernel f.now.agent_sock _ n eq) f.partial (differs e) bound
                m))
      ])
    where
      left : length (drop count fr) ≡ length fr - count
      left = length-drop count fr

      bound : n ≤ length (drop count fr)
      bound = posix.send_bound w.kernel f.now.agent_sock (drop count fr) n eq

      differs : (count + n == length fr) ≡ false → count + n ≢ length fr
      differs e q = false≢true (sym e ∙ (==_iff (count + n) (length fr)).1 q)

      out :
          stream fd (sent f.now.agent_sock (take n (drop count fr)) ∷ w.trace)
          ≡ base ++ take (count + n) fr
      out = rw ((==_iff f.now.agent_sock fd).1 f.own, f.out, append_assoc, take-take_add)

      moved : Flying base fr fd a (count + n) (record w {
        kernel = kernel;
        trace = sent f.now.agent_sock (take n (drop count fr)) ∷ w.trace;
      })
      moved = record {
        now = f.now;
        at = f.at;
        own = f.own;
        loaded = f.loaded;
        fits = f.fits;
        out = out;
        partial = omega (arith, bound, left, f.partial);
      }

  -- The loop ends with more fuel than bytes.
  pub send_frame-Left : IsPosix env → (fuel : ℕ) → GoesOn env base fr fd a fuel
  unfolding send_frame
  send_frame-Left posix zero count w f m = absurd (omega arith)
  send_frame-Left posix (suc fuel) count w f m =
      rw
        (
          f.at,
          rest_of-eq f.now.packet.serialized_data count (length fr) (omega (arith, f.partial))
              (omega (arith, f.fits)),
          ← drop-take count (length fr) f.now.packet.serialized_data,
          f.loaded,
        )
        (after_send f.now.agent_sock (drop count fr) w _ (λ r kernel e.
          agent_answered-Left posix fuel count w f m r kernel e (send_frame-Left posix fuel)))

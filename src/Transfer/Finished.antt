-- ===== src/Transfer/Finished.antt =====
-- When a transfer is over (the head of the loop of `poll_data_transfer`, poll.c).
use sosagent.Base.{
  ℕ, zero, suc, ◌<◌, ◌≡◌, ◌≢◌, refl, ap, sym, subst, ◌∙◌, ◌⊎◌, inl, inr, Bool, true, false, ◌&&◌,
  ◌||◌, not, false≢true, Bool-cases, List, [], ◌∷◌, Option, none, some, get_elem?, arith,
}
use sosagent.System.{Env}
use sosagent.System.Outcome.{Ensures, returns}
use sosagent.System.Calls.{World, close}
use sosagent.Client.{Poll, off, in_only, out_only, in_and_out, closed, Slot, Lane, Client}
use sosagent.Transfer.{is_closed, all_marked, slot_in_use, any_in_use, finished_at}

both : (a b : Bool) → a && b ≡ true → (a ≡ true) × (b ≡ true)
both true b e = (refl, e)
both false b e = absurd (false≢true e)

neither : (a b : Bool) → a || b ≡ false → (a ≡ false) × (b ≡ false)
neither true b e = absurd (false≢true (sym e))
neither false b e = (refl, e)

is_closed_iff : (q : Poll) → is_closed q ≡ true → q ≡ closed
is_closed_iff closed e = refl
is_closed_iff off e = absurd (false≢true e)
is_closed_iff in_only e = absurd (false≢true e)
is_closed_iff out_only e = absurd (false≢true e)
is_closed_iff in_and_out e = absurd (false≢true e)

-- Every connection is marked CLOSED.
abbrev pub AllClosed : List Lane → Type 0
AllClosed ls = (j : ℕ) (l : Lane) → get_elem? ls j ≡ some l → l.agent_fd_poll ≡ closed

-- No slot below `n` of a connection is in use.
abbrev pub NoneInUse : ℕ → List Slot → Type 0
NoneInUse n ss = (i : ℕ) (s : Slot) → i < n → get_elem? ss i ≡ some s → s.in_use ≡ false

abbrev pub AllSent : ℕ → List Lane → Type 0
AllSent n ls = (j : ℕ) (l : Lane) → get_elem? ls j ≡ some l → NoneInUse n l.buffered_packet

abbrev lane_of : Option Lane → Lane → Lane
lane_of none l = l
lane_of (some m) l = m

abbrev slot_of : Option Slot → Slot → Slot
slot_of none s = s
slot_of (some t) s = t

marked-AllClosed : (ls : List Lane) → all_marked ls ≡ true → AllClosed ls
unfolding all_marked
marked-AllClosed [] e j l at = cc
marked-AllClosed (x ∷ ls) e zero l at =
    ap (λ o. (lane_of o x).agent_fd_poll) (sym at) ∙ is_closed_iff x.agent_fd_poll (both _ _ e).0
marked-AllClosed (x ∷ ls) e (suc j) l at = marked-AllClosed ls (both _ _ e).1 j l at

AllClosed-marked : (ls : List Lane) → AllClosed ls → all_marked ls ≡ true
unfolding all_marked
AllClosed-marked [] h = refl
AllClosed-marked (x ∷ ls) h =
    ap (λ b. b && all_marked ls) (ap is_closed (h 0 x refl))
    ∙ AllClosed-marked ls (λ j l at. h (suc j) l at)

free-NoneInUse : (n : ℕ) (ss : List Slot) → slot_in_use n ss ≡ false → NoneInUse n ss
unfolding slot_in_use
free-NoneInUse zero ss e i s less at = absurd (omega (arith, less))
free-NoneInUse (suc n) [] e i s less at = cc
free-NoneInUse (suc n) (x ∷ ss) e zero s less at =
    ap (λ o. (slot_of o x).in_use) (sym at) ∙ (neither _ _ e).0
free-NoneInUse (suc n) (x ∷ ss) e (suc i) s less at =
    free-NoneInUse n ss (neither _ _ e).1 i s (omega (arith, less)) at

NoneInUse-free : (n : ℕ) (ss : List Slot) → NoneInUse n ss → slot_in_use n ss ≡ false
unfolding slot_in_use
NoneInUse-free zero ss h = refl
NoneInUse-free (suc n) [] h = refl
NoneInUse-free (suc n) (x ∷ ss) h =
    ap (λ b. b || slot_in_use n ss) (h 0 x (omega arith) refl)
    ∙ NoneInUse-free n ss (λ i s less at. h (suc i) s (omega (arith, less)) at)

free-AllSent : (n : ℕ) (ls : List Lane) → any_in_use n ls ≡ false → AllSent n ls
unfolding any_in_use
free-AllSent n [] e j l at = cc
free-AllSent n (x ∷ ls) e zero l at =
    subst (λ (y : Lane). NoneInUse n y.buffered_packet) (ap (λ o. lane_of o x) at)
      (free-NoneInUse n x.buffered_packet (neither _ _ e).0)
free-AllSent n (x ∷ ls) e (suc j) l at = free-AllSent n ls (neither _ _ e).1 j l at

AllSent-free : (n : ℕ) (ls : List Lane) → AllSent n ls → any_in_use n ls ≡ false
unfolding any_in_use
AllSent-free n [] h = refl
AllSent-free n (x ∷ ls) h =
    ap (λ b. b || any_in_use n ls) (NoneInUse-free n x.buffered_packet (h 0 x refl))
    ∙ AllSent-free n ls (λ j l at. h (suc j) l at)

module _ {env : Env} where
  -- All connections are closed and all that came in is sent.
  pub record Done (w : World env (Client env.Table)) : Type 0 where
    pub shut : AllClosed w.state.lanes
    pub all_sent : AllSent w.state.queue_size w.state.lanes

  decided-Done :
      (w : World env (Client env.Table))
      → (all_marked w.state.lanes && not (any_in_use w.state.queue_size w.state.lanes) ≡ true
          → Done w)
        × (Done w
            → all_marked w.state.lanes && not (any_in_use w.state.queue_size w.state.lanes) ≡ true)
  decided-Done w = (
    λ e. record {
      shut = marked-AllClosed w.state.lanes (both _ _ e).0;
      all_sent = free-AllSent w.state.queue_size w.state.lanes (unset _ (both _ _ e).1);
    },
    λ d.
        ap (λ b. b && not (any_in_use w.state.queue_size w.state.lanes))
          (AllClosed-marked w.state.lanes d.shut)
        ∙ ap not (AllSent-free w.state.queue_size w.state.lanes d.all_sent),
  )
    where
      unset : (b : Bool) → not b ≡ true → b ≡ false
      unset false e = refl
      unset true e = absurd (false≢true e)

  -- As long as the host is not marked CLOSED, the head of the loop says that the transfer is over if
  -- and only if every connection is marked CLOSED and no slot of a queue is in use.
  pub finished_at-Done :
      (w : World env (Client env.Table))
      → w.state.host_fd_poll ≢ closed
      → Ensures
          (λ b w'. ((b ≡ true) × Done w) ⊎ ((b ≡ false) × (¬ Done w)))
          (λ w'. ⊥)
          (finished_at w.state.host_fd_poll w)
  unfolding finished_at close
  finished_at-Done w going_on = at w.state.host_fd_poll going_on
    where
      ended :
          (b : Bool)
          → (all_marked w.state.lanes && not (any_in_use w.state.queue_size w.state.lanes)) ≡ b
          → ((b ≡ true) × Done w) ⊎ ((b ≡ false) × (¬ Done w))
      ended true e = inl (refl, (decided-Done w).0 e)
      ended false e = inr (refl, λ d. false≢true (sym e ∙ (decided-Done w).1 d))

      at :
          (q : Poll)
          → q ≢ closed
          → Ensures
              (λ b w'. ((b ≡ true) × Done w) ⊎ ((b ≡ false) × (¬ Done w)))
              (λ w'. ⊥)
              (finished_at q w)
      at closed open_mark = absurd (open_mark refl)
      at q open_mark =
          elim (Bool-cases
            (all_marked w.state.lanes && not (any_in_use w.state.queue_size w.state.lanes))) [
              | inl e ↦ rw e (returns (ended true e))
              | inr e ↦ rw e (returns (ended false e))
            ]

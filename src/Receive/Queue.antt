-- ===== src/Receive/Queue.antt =====
-- The search of `get_free_packet_index` (network.c) for a free slot in a connection's queue.
use sosagent.Base.{
  ℕ, zero, suc, ◌+◌, ◌≤◌, ◌<◌, ◌≡◌, refl, ap, subst, inl, inr, true, false, Bool-cases, List, [],
  ◌∷◌, Option, none, some, length, get_elem?, arith,
}
use sosagent.Client.{Slot}
use sosagent.Receive.{first_free}

abbrev slot_of : Option Slot → Slot → Slot
slot_of none s = s
slot_of (some t) s = t

-- Every slot in front of place `n` is in use.
abbrev pub UsedBelow : ℕ → List Slot → Type 0
UsedBelow n ss = (m : ℕ) (t : Slot) → m < n → get_elem? ss m ≡ some t → t.in_use ≡ true

-- What each result of a search of `n` places, counted from `i` on, says of the slots: the first free
-- one, that there is none, or a read beyond the last of them.
pub data Sought (n i : ℕ) (ss : List Slot) : Option (Option ℕ) → Type 0 where
  free_at :
      {j k : ℕ} {s : Slot}
      → k ≡ i + j
      → j < n
      → get_elem? ss j ≡ some s
      → s.in_use ≡ false
      → UsedBelow j ss
      → Sought n i ss (some (some k))
  all_used : n ≤ length ss → UsedBelow n ss → Sought n i ss (some none)
  beyond : length ss < n → UsedBelow n ss → Sought n i ss none

UsedBelow-suc :
    (n : ℕ) (s : Slot) (ss : List Slot)
    → s.in_use ≡ true
    → UsedBelow n ss
    → UsedBelow (suc n) (s ∷ ss)
UsedBelow-suc n s ss q below zero t h e = subst (λ x. x.in_use ≡ true) (ap (λ o. slot_of o s) e) q
UsedBelow-suc n s ss q below (suc m) t h e = below m t (omega arith) e

Sought-later :
    (n i : ℕ) (s : Slot) (ss : List Slot) (res : Option (Option ℕ))
    → s.in_use ≡ true
    → Sought n (suc i) ss res
    → Sought (suc n) i (s ∷ ss) res
Sought-later n i s ss _ q (free_at {j = j} {k = k} place h at free below) =
    free_at {j = suc j} (omega arith) (omega arith) at free (UsedBelow-suc j s ss q below)
Sought-later n i s ss _ q (all_used h below) = all_used (omega arith) (UsedBelow-suc n s ss q below)
Sought-later n i s ss _ q (beyond h below) = beyond (omega arith) (UsedBelow-suc n s ss q below)

-- The search over the first `n` slots of a queue, counted from `i` on, comes to the first slot that
-- is not in use; to -1 only if the queue has that many slots and all of them are in use; and it reads
-- beyond the queue only if the queue has fewer, all in use.
pub first_free-Sought : (n i : ℕ) (ss : List Slot) → Sought n i ss (first_free n i ss)
unfolding first_free
first_free-Sought zero i ss = all_used (omega arith) (λ m t h e. absurd (omega arith))
first_free-Sought (suc n) i [] = beyond (omega arith) (λ m t h e. cc)
first_free-Sought (suc n) i (s ∷ ss) = elim (Bool-cases s.in_use) [
  | inl q ↦ simp (q) (Sought-later n i s ss _ q (first_free-Sought n (suc i) ss))
  | inr q ↦
      simp (q)
        (free_at {j = 0} (omega arith) (omega arith) refl q (λ m t h e. absurd (omega arith)))
]

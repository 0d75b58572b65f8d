-- ===== src/Client/Slots.antt =====
-- The slots of all connections as one map (buffered_packet of network.c), and how many are in use.
use sosagent.Base.{
  ℕ, zero, suc, ◌+◌, ◌≤◌, ◌≡◌, refl, ap, true, false, if◌then◌else◌, List, [], ◌∷◌, some, length,
  get_elem?, set, arith, get_elem?-set_self, get_elem?-set_ne,
}
use sosagent.Client.{Slot, Lane}
use sosagent.Client.Access.{slot_at, put_slot}

pub slot_at-put_slot_self :
    (ls : List Lane) (a i : ℕ) (s old : Slot)
    → slot_at ls a i ≡ some old
    → slot_at (put_slot ls a i s) a i ≡ some s
unfolding slot_at put_slot
slot_at-put_slot_self [] a i s old h = cc
slot_at-put_slot_self (l ∷ ls) zero i s old h = get_elem?-set_self l.buffered_packet i s old h
slot_at-put_slot_self (l ∷ ls) (suc a) i s old h = slot_at-put_slot_self ls a i s old h

pub slot_at-put_slot_ne :
    (ls : List Lane) (a i b j : ℕ) (s : Slot)
    → ¬ ((a ≡ b) × (i ≡ j))
    → slot_at (put_slot ls a i s) b j ≡ slot_at ls b j
unfolding slot_at put_slot
slot_at-put_slot_ne [] a i b j s h = refl
slot_at-put_slot_ne (l ∷ ls) zero i zero j s h =
    get_elem?-set_ne l.buffered_packet i j s (λ e. h (refl, e))
slot_at-put_slot_ne (l ∷ ls) zero i (suc b) j s h = refl
slot_at-put_slot_ne (l ∷ ls) (suc a) i zero j s h = refl
slot_at-put_slot_ne (l ∷ ls) (suc a) i (suc b) j s h =
    slot_at-put_slot_ne ls a i b j s (λ e. h (ap suc e.0, e.1))

-- A lane that is replaced by one with the same slots leaves the map as it is.
pub slot_at-set_lane :
    (ls : List Lane) (a b j : ℕ) (l l' : Lane)
    → get_elem? ls a ≡ some l
    → l'.buffered_packet ≡ l.buffered_packet
    → slot_at (set ls a l') b j ≡ slot_at ls b j
unfolding slot_at
slot_at-set_lane [] a b j l l' h e = refl
slot_at-set_lane (x ∷ ls) zero zero j l l' h e = ground arith
slot_at-set_lane (x ∷ ls) zero (suc b) j l l' h e = refl
slot_at-set_lane (x ∷ ls) (suc a) zero j l l' h e = refl
slot_at-set_lane (x ∷ ls) (suc a) (suc b) j l l' h e = slot_at-set_lane ls a b j l l' h e

-- A slot stands in a lane.
pub lane_of_slot :
    (ls : List Lane) (a i : ℕ) (s : Slot)
    → slot_at ls a i ≡ some s
    → (l : Lane) × (get_elem? ls a ≡ some l)
unfolding slot_at
lane_of_slot [] a i s h = cc
lane_of_slot (l ∷ ls) zero i s h = (l, refl)
lane_of_slot (l ∷ ls) (suc a) i s h = lane_of_slot ls a i s h

-- The number of slots in use, and of all slots.
unfoldable pub used_slots : List Slot → ℕ
used_slots [] = 0
used_slots (s ∷ ss) = (if s.in_use then 1 else 0) + used_slots ss

unfoldable pub used : List Lane → ℕ
used [] = 0
used (l ∷ ls) = used_slots l.buffered_packet + used ls

unfoldable pub slot_count : List Lane → ℕ
slot_count [] = 0
slot_count (l ∷ ls) = length l.buffered_packet + slot_count ls

used_slots-le : (ss : List Slot) → used_slots ss ≤ length ss
unfolding used_slots
used_slots-le [] = omega arith
used_slots-le (s ∷ ss) = ground (arith, used_slots-le ss)

pub used-le-slot_count : (ls : List Lane) → used ls ≤ slot_count ls
unfolding used slot_count
used-le-slot_count [] = omega arith
used-le-slot_count (l ∷ ls) = omega (arith, used_slots-le l.buffered_packet, used-le-slot_count ls)

used_slots-set :
    (ss : List Slot) (i : ℕ) (s old : Slot)
    → get_elem? ss i ≡ some old
    → old.in_use ≡ true
    → s.in_use ≡ false
    → used_slots (set ss i s) + 1 ≡ used_slots ss
unfolding used_slots
used_slots-set [] i s old h u f = cc
used_slots-set (x ∷ ss) zero s old h u f = ground arith
used_slots-set (x ∷ ss) (suc i) s old h u f = omega (arith, used_slots-set ss i s old h u f)

-- Giving up a slot that was in use leaves one fewer.
pub used-put_slot :
    (ls : List Lane) (a i : ℕ) (s old : Slot)
    → slot_at ls a i ≡ some old
    → old.in_use ≡ true
    → s.in_use ≡ false
    → used (put_slot ls a i s) + 1 ≡ used ls
unfolding slot_at put_slot used
used-put_slot [] a i s old h u f = cc
used-put_slot (l ∷ ls) zero i s old h u f =
    omega (arith, used_slots-set l.buffered_packet i s old h u f)
used-put_slot (l ∷ ls) (suc a) i s old h u f = omega (arith, used-put_slot ls a i s old h u f)

pub used-set_lane :
    (ls : List Lane) (a : ℕ) (l l' : Lane)
    → get_elem? ls a ≡ some l
    → l'.buffered_packet ≡ l.buffered_packet
    → used (set ls a l') ≡ used ls
unfolding used
used-set_lane [] a l l' h e = refl
used-set_lane (x ∷ ls) zero l l' h e = ground arith
used-set_lane (x ∷ ls) (suc a) l l' h e =
    ap (◌+◌ (used_slots x.buffered_packet)) (used-set_lane ls a l l' h e)

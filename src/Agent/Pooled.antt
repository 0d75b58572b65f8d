-- ===== src/Agent/Pooled.antt =====
-- `find_empty_agent_sock` of OriginalAgentCodeC/network.c: a free place in the pool of sockets.
use sosagent.Base.{
  ℕ, zero, suc, ◌<◌, ◌≡◌, refl, ◌≢◌, List, [], ◌∷◌, Option, none, some, get_elem?, arith,
}

-- The search over the pool's places; EMPTY is `none`, of a place and of the result.
unfoldable pub next_place : Option ℕ → Option ℕ
next_place none = none
next_place (some n) = some (suc n)

unfoldable pub find_empty_agent_sock : List (Option ℕ) → Option ℕ
unfolding next_place
find_empty_agent_sock [] = none
find_empty_agent_sock (none ∷ pool) = some 0
find_empty_agent_sock (some fd ∷ pool) = next_place (find_empty_agent_sock pool)

-- The place that is found is EMPTY and every one before it is taken; where none is found every
-- place is taken.
pub data Placed (pool : List (Option ℕ)) : Option ℕ → Type 0 where
  at_place :
      {n : ℕ}
      → get_elem? pool n ≡ some none
      → ((i : ℕ) → i < n → (fd : ℕ) × (get_elem? pool i ≡ some (some fd)))
      → Placed pool (some n)
  all_taken : ((i : ℕ) → get_elem? pool i ≢ some none) → Placed pool none

Placed-later :
    (fd : ℕ) (pool : List (Option ℕ)) (found : Option ℕ)
    → Placed pool found
    → Placed (some fd ∷ pool) (next_place found)
unfolding next_place
Placed-later fd pool _ (at_place {n = n} free before) = at_place free earlier
  where
    earlier : (i : ℕ) → i < suc n → (sock : ℕ) × (get_elem? (some fd ∷ pool) i ≡ some (some sock))
    earlier zero h = (fd, refl)
    earlier (suc i) h = before i (omega arith)
Placed-later fd pool _ (all_taken none_free) = all_taken still_none
  where
    still_none : (i : ℕ) → get_elem? (some fd ∷ pool) i ≢ some none
    still_none zero e = cc
    still_none (suc i) e = none_free i e

-- `find_empty_agent_sock` finds the first EMPTY place of the pool: every place before it is taken,
-- and where it finds none, none is EMPTY.
pub find_empty_agent_sock-Placed :
    (pool : List (Option ℕ)) → Placed pool (find_empty_agent_sock pool)
unfolding find_empty_agent_sock
find_empty_agent_sock-Placed [] = all_taken (λ i e. cc)
find_empty_agent_sock-Placed (none ∷ pool) = at_place refl (λ i h. absurd (omega arith))
find_empty_agent_sock-Placed (some fd ∷ pool) =
    Placed-later fd pool _ (find_empty_agent_sock-Placed pool)

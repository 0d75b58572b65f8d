-- ===== src/Client/Access.antt =====
-- Reads and writes of the arrays of `client_t`, each with its bounds: outside them the code's
-- behaviour is undefined. A write follows a read of the same entry. Sizes are C's `int` and `size_t`.
use sosagent.Base.{
  ℕ, zero, suc, ◌+◌, ◌-◌, ◌^◌, ltb, leb, if◌then◌else◌, List, [], ◌∷◌, ◌++◌, Option, none, some,
  length, get_elem?, set, take, drop,
}
use sosagent.Client.{Slot, Lane, Client, Poll}
use sosagent.System.{Env}
use sosagent.System.Outcome.{M, check, ◌>>=◌}
use sosagent.System.Calls.{World, get, put}

-- `buffered_packet[a][i]`.
unfoldable pub slot_at : List Lane → ℕ → ℕ → Option Slot
slot_at [] a i = none
slot_at (l ∷ ls) zero i = get_elem? l.buffered_packet i
slot_at (l ∷ ls) (suc a) i = slot_at ls a i

unfoldable pub put_slot : List Lane → ℕ → ℕ → Slot → List Lane
put_slot [] a i s = []
put_slot (l ∷ ls) zero i s = record l { buffered_packet = set l.buffered_packet i s } ∷ ls
put_slot (l ∷ ls) (suc a) i s = l ∷ put_slot ls a i s

-- An `int` that an expression of type `size_t` uses is sign-extended.
abbrev pub as_size_t : ℕ → ℕ
as_size_t n = if ltb n (2 ^ 31) then n else n + (2 ^ 64 - 2 ^ 32)

-- `len` bytes from `off` on, and a write of bytes from `off` on.
abbrev pub slice : List ℕ → ℕ → ℕ → Option (List ℕ)
slice bytes off len =
    if leb (off + len) (length bytes) then some (take len (drop off bytes)) else none

-- The bytes from `count` on up to `size`: with a count beyond the size the length, an `int` below 0, is
-- one beyond any buffer as a `size_t`.
abbrev pub rest_of : List ℕ → ℕ → ℕ → Option (List ℕ)
rest_of bytes count size = if leb count size then slice bytes count (size - count) else none

abbrev pub overwrite : List ℕ → ℕ → List ℕ → Option (List ℕ)
overwrite bytes off new =
    if leb (off + length new) (length bytes)
    then some (take off bytes ++ (new ++ drop (off + length new) bytes))
    else none

module _ {env : Env} where
  abbrev pub lane : ℕ → M (World env (Client env.Table)) Lane
  lane a = do c ← get; check (get_elem? c.lanes a)

  abbrev pub set_lane : ℕ → Lane → M (World env (Client env.Table)) (Unit {0})
  set_lane a l = do c ← get; put (record c { lanes = set c.lanes a l })

  abbrev pub slot : ℕ → ℕ → M (World env (Client env.Table)) Slot
  slot a i = do c ← get; check (slot_at c.lanes a i)

  abbrev pub set_slot : ℕ → ℕ → Slot → M (World env (Client env.Table)) (Unit {0})
  set_slot a i s = do c ← get; put (record c { lanes = put_slot c.lanes a i s })

  abbrev pub set_host_fd_poll : Poll → M (World env (Client env.Table)) (Unit {0})
  set_host_fd_poll p = do c ← get; put (record c { host_fd_poll = p })

  abbrev pub set_agent_fd_poll : ℕ → Poll → M (World env (Client env.Table)) (Unit {0})
  set_agent_fd_poll a p = do l ← lane a; set_lane a (record l { agent_fd_poll = p })

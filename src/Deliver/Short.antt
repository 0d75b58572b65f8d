-- ===== src/Deliver/Short.antt =====
-- `send_data_host` (network.c) on a packet that is too short to hold its sequence number.
use sosagent.Base.{ℕ, ◌+◌, ◌^◌, ◌<◌, ◌≡◌, refl, leb, false, some, length, arith}
use sosagent.System.{Env}
use sosagent.System.Outcome.{fault}
use sosagent.System.Calls.{World}
use sosagent.Client.{Slot, Client}
use sosagent.Client.Access.{slot_at}
use sosagent.Deliver.{left_over, send_packet, deliver, send_data_host}

-- The length of what is left of its payload wraps around.
beyond : (size room : ℕ) → size < 4 → room < 2 ^ 64 → leb (4 + 0 + left_over size 0) room ≡ false
beyond size room h small = ground arith

module _ {env : Env} where
  -- Where a packet that is next is shorter than the 4 bytes of its sequence number,
  -- `send_data_host` has undefined behaviour: it asks `send` for bytes behind the end of the buffer.
  pub send_data_host-short :
      (a : ℕ) (w : World env (Client env.Table)) (s : Slot)
      → slot_at w.state.lanes a w.state.agent_packet_index_out ≡ some s
      → s.size < 4
      → length s.serialized_data < 2 ^ 64
      → send_data_host false a w ≡ fault
  unfolding send_data_host deliver send_packet
  send_data_host-short a w s at short small =
      rw (at, at, beyond s.size (length s.serialized_data) short small) refl

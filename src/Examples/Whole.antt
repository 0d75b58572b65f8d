-- ===== src/Examples/Whole.antt =====
-- A host whose socket was full is sent the rest, in turns of `poll_data_transfer` (poll.c).
use sosagent.Base.{
  ℕ, suc, zero, ◌≡◌, ◌≢◌, refl, ap, true, false, [], ◌∷◌, replicate, Option, none, some, arith,
  get_elem?,
}
use sosagent.System.{sent}
use sosagent.System.Outcome.{Outcome, ret, exited, fault, hung, Ensures}
use sosagent.System.Calls.{World, stream, send, epoll_ctl}
use sosagent.Client.{off, out_only, Lane, Client}
use sosagent.Deliver.{
  unwatch_host, watch_agent, packet_gone, send_answered, send_packet, send_found, packet_ended,
  deliver, send_data_host,
}
use sosagent.Client.Slots.{slot_count}
use sosagent.Client.Access.{slot_at, put_slot}
use sosagent.Deliver.Order.{first_payloads, Waiting}
use sosagent.Transfer.{
  host_side, Wait, ready, Pick, pick_none, all_marked, slot_in_use, any_in_use, finished_at,
  dispatch, handle, transfer_turn,
}
use sosagent.Transfer.Freed.{dispatch-Freed}
use sosagent.Whole.Delivering.{Prefix, waiting, Steady}
use sosagent.Whole.Turns.{send_data_host-Steady}
use sosagent.Whole.Reached.{Fits, Reached, start, turn, Reached-Prefix}
use sosagent.Examples.Machine.{Sockets, find, remove, transmit}
use sosagent.Examples.Streams.{streaming, streaming-IsTcp, streaming-IsPosix, streaming-IsTable}
use sosagent.Examples.Transfers.{
  payload, no_stats, first_slot, second_slot, state, all_filed, first_held, first-Apart,
}

-- One byte of packet 0 is out, and packet 1 waits behind it.
abbrev one_out_on : Sockets → World (streaming 11) (Client (streaming 11).Table)
one_out_on kernel = record {
  kernel = kernel;
  state = state 1 out_only;
  trace = sent 11 (7 ∷ []) ∷ [];
}

abbrev one_out : World (streaming 11) (Client (streaming 11).Table)
one_out = one_out_on (record { pieces = []; rooms = 5 ∷ 5 ∷ [] })

still_waiting : (kernel : Sockets) → Waiting payload 0 (one_out_on kernel)
unfolding first_payloads find stream first_held
still_waiting kernel = record {
  count = 1;
  sending = record {
    next = refl;
    out = refl;
    filed = all_filed 1;
    at_slot = first_held 1;
    partial = omega arith;
    apart = first-Apart;
    absent = refl;
  };
  marked = refl;
  wanted = refl;
}

abbrev sock_of : Option Lane → ℕ
sock_of none = 21
sock_of (some l) = l.agent_sock

steady : (kernel : Sockets) → Steady payload 11 (one_out_on kernel)
steady kernel = record { host = refl; apart = apart; delivering = waiting 0 (still_waiting kernel) }
  where
    other : (j : ℕ) → sock_of (get_elem? (state 1 out_only).lanes j) ≡ 21
    other zero = refl
    other (suc j) = refl

    apart :
        (j : ℕ) (l : Lane)
        → get_elem? (state 1 out_only).lanes j ≡ some l
        → l.agent_sock ≢ (state 1 out_only).host_sock
    apart j l e q = absurd (omega (arith, q, other j, ap sock_of e))

send_data_host-Steady_example :
    Ensures (λ r w. Steady payload 11 w) (Prefix payload 11) (send_data_host true 0 one_out)
send_data_host-Steady_example =
    send_data_host-Steady payload (streaming-IsTcp 11) (streaming-IsTable 11) (streaming-IsPosix 11)
      11 one_out (steady one_out.kernel) refl

abbrev host_writable : Wait
host_writable = ready (record { source = host_side; input = false; output = true; error = false })

abbrev world_of :
    Outcome (World (streaming 11) (Client (streaming 11).Table)) (Unit {0})
    → World (streaming 11) (Client (streaming 11).Table)
world_of (ret a w) = w
world_of (exited w) = one_out
world_of fault = one_out
world_of hung = one_out

abbrev both_out : World (streaming 11) (Client (streaming 11).Table)
both_out = world_of (transfer_turn host_writable pick_none one_out)

both_sent : stream 11 both_out.trace ≡ 7 ∷ 8 ∷ 9 ∷ []
unfolding stream transfer_turn finished_at all_marked any_in_use slot_in_use handle dispatch
    send_data_host unwatch_host deliver send_packet send_answered packet_gone packet_ended
    send_found watch_agent epoll_ctl send slot_at put_slot slot_count find remove transmit
both_sent = refl

one_turn : Reached one_out both_out
unfolding transfer_turn finished_at all_marked any_in_use slot_in_use handle dispatch send_data_host
    unwatch_host deliver send_packet send_answered packet_gone packet_ended send_found watch_agent
    epoll_ctl send slot_at put_slot slot_count find remove transmit
one_turn = turn host_writable pick_none start (λ q q'. refl) refl

Reached-Prefix_example :
    Prefix payload 11 both_out
    × ((first : Wait) (second : Pick) (w : World (streaming 11) (Client (streaming 11).Table))
        → Fits first both_out
        → transfer_turn first second both_out ≡ exited w
        → Prefix payload 11 w)
Reached-Prefix_example =
    Reached-Prefix payload (streaming-IsTcp 11) (streaming-IsTable 11) (streaming-IsPosix 11) 11
      one_out both_out (steady one_out.kernel) one_turn

-- The host has two bytes for the other side.
abbrev blocked_lane : Lane
blocked_lane = record {
  agent_sock = 21;
  agent_fd_poll = off;
  packet = record { serialized_data = []; host_packet_size = 0; host_sent_size = 0 };
  header_size = [];
  agent_needed_header_size = 0;
  agent_packet_index_in = none;
  agent_packet_queue_count = 2;
  buffered_packet = first_slot 1 ∷ second_slot ∷ [];
  stats = no_stats;
}

abbrev empty_lane : Lane
empty_lane = record blocked_lane {
  packet = record { serialized_data = replicate 16 0; host_packet_size = 0; host_sent_size = 0 };
}

abbrev input : Sockets
input = record { pieces = (3 ∷ 4 ∷ []) ∷ []; rooms = 5 ∷ 5 ∷ [] }

abbrev host_talks : World (streaming 11) (Client (streaming 11).Table)
host_talks = record (one_out_on input) {
  state = record (state 1 out_only) { lanes = empty_lane ∷ [] };
}

dispatch-Freed_example :
    dispatch
      (record { source = host_side; input = false; output = false; error = true })
      host_side
      pick_none
      host_talks
    ≡ fault
dispatch-Freed_example =
    dispatch-Freed _ host_side pick_none empty_lane [] host_talks refl refl refl refl

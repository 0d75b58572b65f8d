-- ===== src/Examples/Polls.antt =====
-- A transfer is set up, and a packet comes in (`configure_poll`, network.c; `poll_data_transfer`, poll.c).
use sosagent.Base.{
  ◌⊎◌, ℕ, zero, suc, ◌≡◌, refl, ap, sym, ◌∙◌, true, false, List, [], ◌∷◌, Option, none, some, arith,
  get_elem?,
}
use sosagent.System.Outcome.{Ensures, Outcome, ret, and_then}
use sosagent.System.Calls.{World, send, recv, epoll_ctl}
use sosagent.Client.{in_only, Lane, Client}
use sosagent.Client.Access.{slot_at, put_slot}
use sosagent.Client.Slots.{slot_count}
use sosagent.Wire.{network_bytes, bytes_of, word_of, ntohl}
use sosagent.Deliver.{
  watch_agent, packet_gone, send_answered, send_packet, send_found, packet_ended, deliver,
  send_data_host,
}
use sosagent.Receive.{
  first_free, take_slot, get_free_packet_index, header_answered, read_header, header_done,
  payload_answered, read_payload, unwatch_agent, sort_packet, packet_arrived, payload_ended,
  header_ended, begin_packet, read_from, read_agent_send_host,
}
use sosagent.Transfer.{
  agent_side, Wait, ready, Pick, pick_none, all_marked, slot_in_use, any_in_use, finished_at,
  dispatch, handle, transfer_turn, poll_data_transfer,
}
use sosagent.Transfer.Setup.{malloc, new_slots, new_lanes, poll_lanes, configure_poll}
use sosagent.Transfer.Finished.{Done, finished_at-Done}
use sosagent.Whole.Watching.{open_poll}
use sosagent.Whole.Registered.{registered}
use sosagent.Whole.Mirror.{Mirror}
use sosagent.Whole.Mirror.Polled.{Different}
use sosagent.Whole.Mirror.Setup.{transfer-Mirror}
use sosagent.Examples.Machine.{find, remove, transmit}
use sosagent.Examples.Reading.{slot, lane}
use sosagent.Examples.Streams.{keep, receive_from, streaming, start}

-- The marks are IN, as they are before a transfer.
abbrev only_lane : Lane
only_lane = lane none

abbrev unpolled : World (streaming 21) (Client (streaming 21).Table)
unpolled = record start {
  state = record (start.state) { host_fd_poll = in_only; lanes = only_lane ∷ [] };
}

abbrev lane_of : Option Lane → Lane
lane_of none = only_lane
lane_of (some l) = l

nothing_registered : (fd : ℕ) → registered fd unpolled.trace ≡ none
unfolding registered
nothing_registered fd = refl

sockets-Different : Different unpolled.state.host_sock unpolled.state.lanes
sockets-Different = record {
  apart = λ j l e q. absurd (omega (arith, q, sock j, ap (λ o. (lane_of o).agent_sock) e));
  distinct = λ j m l l' e e' other q. absurd (other (first j l e ∙ sym (first m l' e')));
}
  where
    sock : (j : ℕ) → (lane_of (get_elem? unpolled.state.lanes j)).agent_sock ≡ 21
    sock zero = refl
    sock (suc j) = refl

    first : (j : ℕ) (l : Lane) → get_elem? unpolled.state.lanes j ≡ some l → j ≡ 0
    first zero l e = refl
    first (suc j) l e = cc

abbrev comes_in : List (Wait × Pick)
comes_in =
    (
      ready (record { source = agent_side 0; input = true; output = false; error = false }),
      pick_none,
    )
    ∷ []

abbrev world_of :
    Outcome (World (streaming 21) (Client (streaming 21).Table)) (Unit {0})
    → World (streaming 21) (Client (streaming 21).Table)
world_of (ret a w) = w
world_of o = unpolled

abbrev in_and_sent : World (streaming 21) (Client (streaming 21).Table)
in_and_sent = world_of (and_then (configure_poll slot unpolled) (λ _. poll_data_transfer comes_in))

arrives :
    and_then (configure_poll slot unpolled) (λ _. poll_data_transfer comes_in) ≡ ret tt in_and_sent
unfolding configure_poll new_lanes new_slots malloc poll_lanes poll_data_transfer transfer_turn
    finished_at all_marked any_in_use slot_in_use handle dispatch read_agent_send_host read_from
    begin_packet get_free_packet_index first_free take_slot read_header header_answered header_done
    header_ended read_payload payload_answered payload_ended packet_arrived sort_packet
    send_data_host deliver send_packet send_answered packet_gone packet_ended send_found watch_agent
    epoll_ctl send recv slot_at put_slot slot_count find remove transmit receive_from keep
    network_bytes bytes_of word_of ntohl unwatch_agent
arrives = refl

transfer-Mirror_example : Mirror in_and_sent
transfer-Mirror_example =
    transfer-Mirror slot comes_in unpolled in_and_sent nothing_registered sockets-Different arrives

-- The transfer that has just been set up is not over.
finished_at-Done_example :
    Ensures
      (λ b w'. ((b ≡ true) × Done unpolled) ⊎ ((b ≡ false) × (¬ Done unpolled)))
      (λ w'. ⊥)
      (finished_at in_only unpolled)
finished_at-Done_example = finished_at-Done unpolled (open_poll refl)

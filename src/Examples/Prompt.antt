-- ===== src/Examples/Prompt.antt =====
-- A machine that takes whatever is sent, and a run of `send_data_host` (network.c) on it.
use sosagent.Base.{ℕ, ◌<◌, ◌≡◌, refl, ap, true, [], ◌∷◌, length, arith}
use sosagent.System.{sent, took, Env}
use sosagent.System.Laws.{IsPosix, IsTable}
use sosagent.System.Outcome.{Ensures}
use sosagent.System.Calls.{World, stream}
use sosagent.Client.{out_only, success, Client}
use sosagent.Deliver.{send_data_host}
use sosagent.Deliver.Order.{first_payloads, InOrder, Idle, Waiting}
use sosagent.Deliver.Prompt.{TakesAll, send_data_host-prompt}
use sosagent.Examples.Machine.{find, count_of, machine, machine-IsPosix, machine-IsTable}
use sosagent.Examples.Transfers.{payload, state, all_filed, first_held, first-Apart}

abbrev taking : Env
taking = record machine { send_call = λ k fd bytes. (took (length bytes), k) }

taking-TakesAll : TakesAll taking
taking-TakesAll k fd bytes = refl

taking-IsPosix : IsPosix taking
unfolding count_of
taking-IsPosix = record {
  recv_bound = machine-IsPosix.recv_bound;
  send_bound = λ k fd bytes n e. omega (arith, ap count_of e);
  send_progress = λ k fd bytes n e pos. omega (arith, ap count_of e, pos);
}

taking-IsTable : IsTable taking
taking-IsTable = record {
  find_none = machine-IsTable.find_none;
  find-add_self = machine-IsTable.find-add_self;
  find-add_ne = machine-IsTable.find-add_ne;
  find-del_self = machine-IsTable.find-del_self;
  find-del_ne = machine-IsTable.find-del_ne;
}

-- One byte of packet 0 is out, and packet 1 waits behind it.
abbrev one_out : World taking (Client taking.Table)
one_out = record {
  kernel = record { pieces = []; rooms = [] };
  state = state 1 out_only;
  trace = sent 11 (7 ∷ []) ∷ [];
}

one_waits : Waiting payload 0 one_out
unfolding first_payloads find stream first_held
one_waits = record {
  count = 1;
  sending = record {
    next = refl;
    out = refl;
    filed = all_filed 1;
    at_slot = first_held 1;
    partial = omega arith;
    apart = first-Apart;
    absent = refl;
  };
  marked = refl;
  wanted = refl;
}

send_data_host-prompt_example :
    Ensures
      (λ r w. (r ≡ success) × (k : ℕ) × (0 < k) × Idle payload k w)
      (InOrder payload)
      (send_data_host true 0 one_out)
send_data_host-prompt_example =
    send_data_host-prompt taking-TakesAll payload taking-IsTable taking-IsPosix 0 one_out one_waits

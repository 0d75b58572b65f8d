-- ===== src/Agent/Options.antt =====
-- `get_arguments` of OriginalAgentCodeC/arguments.c: the options, over what `getopt_long` hands over.
use sosagent.Base.{ℕ, ◌%◌, ◌^◌, ltb, if◌then◌else◌, true, false, List, [], ◌∷◌, length}
use sosagent.System.Outcome.{Outcome, ret, exited, fault, M, and_then}
use sosagent.Agent.Net.{no_protocol, tcp, sctp, Options}
use sosagent.Agent.Requests.{same, address_room}

-- One option, with its argument: `atoi` has been applied to numbers.
pub data Argument : Type 0 where
  verbose connections : ℕ → Argument
  non_of logging : Argument
  protocol bind_ip : List ℕ → Argument
  unknown : Argument

-- "tcp" and "sctp".
abbrev pub tcp_text : List ℕ
tcp_text = 116 ∷ 99 ∷ 112 ∷ []

abbrev pub sctp_text : List ℕ
sctp_text = 115 ∷ 99 ∷ 116 ∷ 112 ∷ []

-- `memset(options, 0, …)`.
abbrev pub no_options : Options
no_options = record {
  verbose_level = 0;
  num_parallel_connections = 0;
  non_of = false;
  logging = false;
  protocol = no_protocol;
  bind_ip = [];
}

unfoldable pub take_argument : Argument → Options → Outcome Options (Unit {0})
unfolding same
take_argument (verbose n) o = ret tt (record o { verbose_level = n % 2 ^ 8 })
take_argument (connections n) o = ret tt (record o { num_parallel_connections = n })
take_argument non_of o = ret tt (record o { non_of = true })
take_argument logging o = ret tt (record o { logging = true })
take_argument (protocol text) o =
    if same text tcp_text
    then ret tt (record o { protocol = tcp })
    else if same text sctp_text
    then ret tt (record o { protocol = sctp })
    else exited o
take_argument (bind_ip text) o =
    if ltb (length text) address_room then ret tt (record o { bind_ip = text }) else fault
take_argument unknown o = exited o

unfoldable pub take_arguments : List Argument → M Options (Unit {0})
unfolding take_argument
take_arguments [] o = ret tt o
take_arguments (a ∷ rest) o = and_then (take_argument a o) (λ _. take_arguments rest)

unfoldable pub get_arguments : List Argument → Outcome Options (Unit {0})
unfolding take_arguments
get_arguments args = take_arguments args no_options

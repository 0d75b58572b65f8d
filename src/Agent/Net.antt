-- ===== src/Agent/Net.antt =====
-- The state of an agent (`agent_t` of datatypes.h) and what it asks of the machine while clients are
-- being connected (network.c, controller.c, poll.c, discovery.c): sockets, the clock, ids, `fork`,
-- the parsing of texts by libc, and the hash tables of uthash whose key is the first bytes of an id.
use sosagent.Base.{ℕ, Bool, true, false, List, Option, none, some, get_elem?, set, if◌then◌else◌}
use sosagent.System.{Errno, Env}
use sosagent.System.Outcome.{Outcome, ret, exited, fault, hung, M, check, exit, skip, ◌>>=◌}
use sosagent.System.Calls.{World, get, put}
use sosagent.Agent.{Kind, Request, Session}

-- What `fork` comes back with: -1, 0, or the number of the child.
pub data Fork : Type 0 where
  fork_failed in_child in_parent : Fork

-- What the three calls of `sscanf` in `get_controller_message` find in a message: the two words at
-- its beginning, and the fields of either kind of request.
pub record ClientFields : Type 0 where
  pub source_ip : List ℕ
  pub source_port : ℕ
  pub agent_ip : List ℕ
  pub allowed_connections : ℕ
  pub buffer_size : ℕ
  pub queue_size : ℕ

pub record AgentFields : Type 0 where
  pub agent_ip : List ℕ
  pub agent_port : ℕ
  pub allowed_connections : ℕ
  pub buffer_size : ℕ
  pub queue_size : ℕ

-- The machine. `accept` hands over the socket and the peer's address and port; a call with a
-- Boolean answer says whether it failed; the sizes are those of the C structs. An index maps the key
-- of an id to a position, by `index_find`, and `index_items` are its positions by `hh.next`.
-- `request_in_memory` is the struct that stands in the bytes which `malloc` hands over.
pub record Net : Type 1 where
  pub env : Env
  pub client_size : ℕ
  pub event_info_size : ℕ
  pub request_size : ℕ
  pub accept_call : env.Kernel → ℕ → Option (ℕ × (List ℕ × ℕ)) × env.Kernel
  pub socket_call : env.Kernel → Option ℕ × env.Kernel
  pub bind_call : env.Kernel → ℕ → List ℕ → ℕ → Bool × env.Kernel
  pub reuse_call : env.Kernel → ℕ → Bool × env.Kernel
  pub listen_call : env.Kernel → ℕ → Bool × env.Kernel
  pub nonblocking_call : env.Kernel → ℕ → Bool × env.Kernel
  pub connect_call : env.Kernel → ℕ → List ℕ → ℕ → Option Errno × env.Kernel
  pub so_error : env.Kernel → ℕ → Bool × env.Kernel
  pub epoll_create_call : env.Kernel → Bool × env.Kernel
  pub now_call : env.Kernel → ℕ × env.Kernel
  pub uuid_generate_call : env.Kernel → List ℕ × env.Kernel
  pub fork_call : env.Kernel → Fork × env.Kernel
  pub recvfrom_call : env.Kernel → ℕ → Option (List ℕ) × env.Kernel
  pub sendto_call : env.Kernel → ℕ → Bool × env.Kernel
  pub getaddrinfo_call : env.Kernel → List ℕ → Option (List (List ℕ)) × env.Kernel
  pub request_in_memory : List ℕ → Request
  pub scan_words : List ℕ → List ℕ × List ℕ
  pub uuid_parse : List ℕ → Option (List ℕ)
  pub kind_of : List ℕ → Kind
  pub scan_client : List ℕ → ClientFields
  pub scan_agent : List ℕ → AgentFields
  pub Index : Type 0
  pub no_items : Index
  pub index_find : Index → List ℕ → Option ℕ
  pub index_add : Index → List ℕ → ℕ → Index
  pub index_del : Index → ℕ → Index
  pub index_items : Index → List ℕ

-- `protocol`: 0, TCP or SCTP.
pub data Protocol : Type 0 where
  no_protocol tcp sctp : Protocol

-- `options_t`.
pub record Options : Type 0 where
  pub verbose_level : ℕ
  pub num_parallel_connections : ℕ
  pub non_of : Bool
  pub logging : Bool
  pub protocol : Protocol
  pub bind_ip : List ℕ

-- `agent_t`. The clients and the requests in memory are lists, and a pointer to one is its position;
-- the two hash tables are indices into them. EMPTY in the pool is `none`.
pub record Agent (Index : Type 0) : Type 0 where
  pub clients_hashes : Index
  pub clients : List Session
  pub requests : Index
  pub request_store : List Request
  pub options : Options
  pub host_listen_sock : ℕ
  pub agent_listen_sock : List ℕ
  pub controller_sock : ℕ
  pub discovery_sock : ℕ
  pub agent_fd_pool : List (Option ℕ)

module _ (net : Net) where
  -- A run of the agent's code.
  abbrev pub Run : Type 0 → Type 0
  Run A = M (World net.env (Agent net.Index)) A

  -- A call that is not recorded.
  abbrev pub ask : {A : Type 0} → (net.env.Kernel → A × net.env.Kernel) → Run A
  ask f w = let (r, k) = f w.kernel in ret r (record w { kernel = k })

  -- A call after whose failure the code exits.
  abbrev pub must : (net.env.Kernel → Bool × net.env.Kernel) → Run (Unit {0})
  must f = do failed ← ask f; if failed then exit else skip

  -- `calloc` and `malloc`, where only their success matters.
  abbrev pub allocates : ℕ → net.env.Kernel → Bool × net.env.Kernel
  allocates n k = (is_some (net.env.malloc_call k n).0, (net.env.malloc_call k n).1)
    where
      is_some : Option (List ℕ) → Bool
      is_some none = false
      is_some (some b) = true

  -- A client, and code that works on one.
  abbrev pub client : ℕ → Run Session
  client n = do a ← get; check (get_elem? a.clients n)

  abbrev pub set_client : ℕ → Session → Run (Unit {0})
  set_client n s = do a ← get; put (record a { clients = set a.clients n s })

  unfoldable pub back :
      {A : Type 0}
      → ℕ
      → Agent net.Index
      → Outcome (World net.env Session) A
      → Outcome (World net.env (Agent net.Index)) A
  back n a (ret r w) = ret r (record {
    kernel = w.kernel;
    state = record a { clients = set a.clients n w.state };
    trace = w.trace;
  })
  back n a (exited w) = exited (record {
    kernel = w.kernel;
    state = record a { clients = set a.clients n w.state };
    trace = w.trace;
  })
  back n a fault = fault
  back n a hung = hung

  unfoldable pub on_client : {A : Type 0} → ℕ → M (World net.env Session) A → Run A
  unfolding back
  on_client n m = do
    s ← client n
    λ w. back n w.state (m (record { kernel = w.kernel; state = s; trace = w.trace }))

-- ===== src/System.antt =====
-- The machine below the agent: what a run of the code can come to, the system calls that
-- OriginalAgentCodeC/network.c makes, and the hash table of OriginalAgentCodeC/uthash that it calls.
pub mod Outcome
pub mod Calls
pub mod Laws
pub mod Rules
pub mod Ends
pub mod Partial
use sosagent.Base.{ℕ, Bool, List, Option}
use sosagent.Wire.{ByteOrder}

-- `errno`, as far as the code tells its values apart.
pub data Errno : Type 0 where
  eagain eshutdown econnreset epipe einprogress other_errno : Errno

-- What `recv` and `send` come back with: -1 is a failure with its `errno`.
pub data Received : Type 0 where
  got : List ℕ → Received
  recv_failed : Errno → Received

pub data Sent : Type 0 where
  took : ℕ → Sent
  send_failed : Errno → Sent

-- The epoll instances: `client_event_pool`, `event_poll_out_agent` and `event_poll_out_host` of a
-- transfer, and the agent's `event_pool`.
pub data Pool : Type 0 where
  client_event_pool event_poll_out_agent event_poll_out_host event_pool : Pool

-- EPOLL_CTL_ADD, EPOLL_CTL_MOD and EPOLL_CTL_DEL with the event mask that they hand over.
pub record Events : Type 0 where
  pub epollin : Bool
  pub epollout : Bool

pub data Ctl : Type 0 where
  add modify : Events → Ctl
  delete : Ctl

-- One entry of the record of calls that a run has made.
pub data Action : Type 0 where
  sent : ℕ → List ℕ → Action
  received : ℕ → List ℕ → Action
  control : Pool → Ctl → ℕ → Action
  closed_fd : ℕ → Action

-- The machine and the hash table, as parameters: the kernel's own state is unknown, and its answers
-- are functions of it. A table finds a slot, given by its lane and its place there, by the id.
pub record Env : Type 1 where
  pub order : ByteOrder
  pub Kernel : Type 0
  pub recv_call : Kernel → ℕ → ℕ → Received × Kernel
  pub send_call : Kernel → ℕ → List ℕ → Sent × Kernel
  pub ctl_call : Kernel → Pool → Ctl → ℕ → Bool × Kernel
  pub malloc_call : Kernel → ℕ → Option (List ℕ) × Kernel
  pub Table : Type 0
  pub no_entries : Table
  pub hash_find : Table → ℕ → Option (ℕ × ℕ)
  pub hash_add : Table → ℕ → ℕ × ℕ → Table
  pub hash_del : Table → ℕ → Table

-- ===== src/Send/Frames.antt =====
-- `read_host_send_agent` as a whole (network.c): what goes out on the connection is the frame of
-- what came in from the host.
use sosagent.Base.{
  ℕ, ◌+◌, ◌-◌, ◌%◌, ◌^◌, ◌≤◌, ◌<◌, ◌≡◌, ◌≢◌, ◌⊎◌, List, [], some, length, get_elem?,
}
use sosagent.Wire.{frame}
use sosagent.System.{Received, got, Env}
use sosagent.System.Laws.{IsPosix}
use sosagent.System.Calls.{World, stream}
use sosagent.Client.{Lane, Client, Status}
use sosagent.Send.Flight.{Begun, Left}

module _ {env : Env} (posix : IsPosix env) where
  -- A connection with no packet under way, and a buffer of the size that was asked for.
  pub record Ready (a : ℕ) (l : Lane) (w : World env (Client env.Table)) : Type 0 where
    pub at : get_elem? w.state.lanes a ≡ some l
    pub free : l.packet.host_packet_size ≡ 0
    pub sized : length l.packet.serialized_data ≡ w.state.buffer_size
    pub room : 8 ≤ w.state.buffer_size
    pub bounded : w.state.buffer_size < 2 ^ 31

  -- An answer of `recv` with no byte in it.
  abbrev pub IsEmpty : Received → Type 0
  IsEmpty r = (bytes : List ℕ) → r ≡ got bytes → bytes ≡ []

  -- What the answer `r` of the host brings about on the connection's socket: nothing if it has no
  -- byte, and else the frame of its bytes, under the current sequence number.
  abbrev pub Framed :
      (a : ℕ) (l : Lane) (w : World env (Client env.Table)) (r : Received)
      → Status
      → World env (Client env.Table)
      → Type 0
  Framed a l w r st w' =
      (IsEmpty r × (stream l.agent_sock w'.trace ≡ stream l.agent_sock w.trace))
      ⊎ ((bytes : List ℕ) × (r ≡ got bytes)
          × (bytes ≢ [])
          × Left (stream l.agent_sock w.trace) (frame env.order w.state.send_seq bytes) l.agent_sock
              a st w')

  -- What has happened on the connection's socket where the code exits.
  abbrev pub Halted :
      (a : ℕ) (l : Lane) (w : World env (Client env.Table)) (r : Received)
      → World env (Client env.Table)
      → Type 0
  Halted a l w r w' =
      (stream l.agent_sock w'.trace ≡ stream l.agent_sock w.trace)
      ⊎ ((bytes : List ℕ) × (r ≡ got bytes)
          × Begun (stream l.agent_sock w.trace) (frame env.order w.state.send_seq bytes)
              l.agent_sock a w')

  -- What the host's socket answers.
  abbrev pub answer_of : World env (Client env.Table) → Received
  answer_of w =
      (env.recv_call w.kernel w.state.host_sock ((w.state.buffer_size + 2 ^ 64 - 8) % 2 ^ 64)).0

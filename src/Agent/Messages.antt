-- ===== src/Agent/Messages.antt =====
-- `get_controller_message` of OriginalAgentCodeC/controller.c: a request comes in from the controller.
use sosagent.Base.{ℕ, ltb, if◌then◌else◌, List, [], ◌∷◌, ◌++◌, Option, none, some, length, drop}
use sosagent.System.Outcome.{ret, skip, exit, check, ◌>>=◌}
use sosagent.System.Calls.{get, put}
use sosagent.Agent.{Kind, client_kind, agent_kind, other_kind, Request}
use sosagent.Agent.Net.{Net, Run, ask}

-- MAX_BUFFER, the arrays `type`, `source_ip` and `agent_ip` of a request, and `uuid_temp`.
abbrev pub max_buffer : ℕ
max_buffer = 1024

abbrev pub text_room : ℕ
text_room = 80

abbrev pub uuid_room : ℕ
uuid_room = 36

-- A text with the byte that ends it is copied into an array.
abbrev pub fits : List ℕ → ℕ → Option (Unit {0})
fits text room = if ltb (length text) room then some tt else none

module _ (net : Net) where
  -- The fields of a request of either kind, from the text behind the id.
  unfoldable pub read_fields : Kind → List ℕ → Request → Run net Request
  read_fields client_kind text r = do
    let f = net.scan_client (drop 43 text)
    _ ← check (fits f.source_ip text_room)
    _ ← check (fits f.agent_ip text_room)
    λ w.
        ret
          (record r {
            source_ip = f.source_ip;
            source_port = f.source_port;
            agent_ip = f.agent_ip;
            allowed_connections = f.allowed_connections;
            buffer_size = f.buffer_size;
            queue_size = f.queue_size;
          })
          w
  read_fields agent_kind text r = do
    let f = net.scan_agent (drop 42 text)
    _ ← check (fits f.agent_ip text_room)
    λ w.
        ret
          (record r {
            agent_ip = f.agent_ip;
            agent_port = f.agent_port;
            allowed_connections = f.allowed_connections;
            buffer_size = f.buffer_size;
            queue_size = f.queue_size;
          })
          w
  read_fields (other_kind t) text r = λ w. ret r w

  -- Where the id cannot be parsed the field is as `malloc` left it.
  unfoldable pub with_id : Option (List ℕ) → Request → Request
  with_id none r = r
  with_id (some id) r = record r { id = id }

  -- `HASH_ADD_INT`.
  unfoldable pub add_request : Request → Run net (Unit {0})
  add_request r = do
    a ← get
    put (record a {
      request_store = a.request_store ++ (r ∷ []);
      requests = net.index_add a.requests r.id (length a.request_store);
    })

  unfoldable pub message_received : Option (List ℕ) → Request → Run net (Unit {0})
  unfolding read_fields with_id add_request
  message_received none r = exit
  message_received (some text) r = do
    _ ← check (fits text max_buffer)
    let words = net.scan_words text
    _ ← check (fits words.0 text_room)
    _ ← check (fits words.1 uuid_room)
    let kind = net.kind_of words.0
    filled ← read_fields kind text (with_id (net.uuid_parse words.1) (record r { kind = kind }))
    add_request filled

  unfoldable pub request_allocated : Option (List ℕ) → Run net (Unit {0})
  unfolding message_received
  request_allocated none = skip
  request_allocated (some bytes) = do
    a ← get
    r ← ask net (λ k. net.recvfrom_call k a.controller_sock)
    message_received r (net.request_in_memory bytes)

  unfoldable pub get_controller_message : Run net (Unit {0})
  unfolding request_allocated
  get_controller_message = do
    bytes ← ask net (λ k. net.env.malloc_call k net.request_size)
    request_allocated bytes

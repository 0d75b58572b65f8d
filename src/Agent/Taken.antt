-- ===== src/Agent/Taken.antt =====
-- `get_controller_message` (controller.c): the texts of a message are copied into arrays of the
-- request and of the function.
use sosagent.Base.{
  ℕ, ◌<◌, ◌≡◌, refl, ap, ◌∙◌, ltb, ltb→lt, List, [], ◌∷◌, ◌++◌, Option, none, some, length, drop,
  arith, false,
}
use sosagent.System.Outcome.{ret}
use sosagent.System.Calls.{World}
use sosagent.System.Ends.{
  Ends, comes_back, gives_up, Ends-and_then, Ends-map, Ends-ret, Ends-if_in_bounds,
}
use sosagent.Agent.{Kind, client_kind, agent_kind, other_kind, Request}
use sosagent.Agent.Net.{Net, Agent}
use sosagent.Agent.Messages.{
  max_buffer, text_room, uuid_room, read_fields, with_id, add_request, message_received,
  request_allocated, get_controller_message,
}

module _ (net : Net) where
  -- The addresses of a request of a kind, each with the byte that ends it, fit into their arrays.
  abbrev pub AddressesFit : Kind → List ℕ → Type 0
  AddressesFit client_kind text =
      (length (net.scan_client (drop 43 text)).source_ip < text_room)
      × (length (net.scan_client (drop 43 text)).agent_ip < text_room)
  AddressesFit agent_kind text = length (net.scan_agent (drop 42 text)).agent_ip < text_room
  AddressesFit (other_kind t) text = Unit {0}

  -- All texts of a message fit into their arrays.
  pub record TextsFit (text : List ℕ) : Type 0 where
    pub whole : length text < max_buffer
    pub kind : length (net.scan_words text).0 < text_room
    pub id : length (net.scan_words text).1 < uuid_room
    pub addresses : AddressesFit (net.kind_of (net.scan_words text).0) text

  too_long : {m n : ℕ} → ltb m n ≡ false → m < n → ⊥
  too_long q f = ground arith

  with_id-kind : (id : Option (List ℕ)) (r : Request) → (with_id net id r).kind ≡ r.kind
  unfolding with_id
  with_id-kind none r = refl
  with_id-kind (some id) r = refl

  with_id-id :
      (id : Option (List ℕ)) (r : Request) (k : Kind)
      → (with_id net id (record r { kind = k })).id ≡ (with_id net id r).id
  unfolding with_id
  with_id-id none r k = refl
  with_id-id (some id) r k = refl

  -- The datagram that `get_controller_message` receives.
  abbrev pub message : World net.env (Agent net.Index) → Option (List ℕ)
  message w =
      (net.recvfrom_call (net.env.malloc_call w.kernel net.request_size).1
        w.state.controller_sock).0

  -- The request of a message is behind all others, found under its id; its id is the text's, or as
  -- it stood in memory if the text is not one of an id.
  pub record Added (fresh : Request) (a : Agent net.Index) (text : List ℕ) (a' : Agent net.Index)
      : Type 0 where
    pub request : Request
    pub stored : a' ≡ record a {
      request_store = a.request_store ++ (request ∷ []);
      requests = net.index_add a.requests request.id (length a.request_store);
    }
    pub kind : request.kind ≡ net.kind_of (net.scan_words text).0
    pub id : request.id ≡ (with_id net (net.uuid_parse (net.scan_words text).1) fresh).id
    pub fits : TextsFit text

  -- There was no memory, or the message's request is added, in the memory that `malloc` handed over.
  pub data Taken (w w' : World net.env (Agent net.Index)) : Type 0 where
    no_memory : w'.state ≡ w.state → Taken w w'
    taken :
        (bytes text : List ℕ)
        → (net.env.malloc_call w.kernel net.request_size).0 ≡ some bytes
        → message w ≡ some text
        → Added (net.request_in_memory bytes) w.state text w'.state
        → Taken w w'

  -- What is added has the id that stood in memory.
  pub data UnsetId (w w' : World net.env (Agent net.Index)) : Type 0 where
    nothing_added : w'.state ≡ w.state → UnsetId w w'
    added :
        (bytes : List ℕ) (r : Request)
        → (net.env.malloc_call w.kernel net.request_size).0 ≡ some bytes
        → w'.state.request_store ≡ w.state.request_store ++ (r ∷ [])
        → r.id ≡ (net.request_in_memory bytes).id
        → UnsetId w w'

  -- A message has come in of which a text does not fit.
  pub record Overrun (w : World net.env (Agent net.Index)) : Type 0 where
    pub text : List ℕ
    pub come_in : message w ≡ some text
    pub too_large : ¬ TextsFit text

  read_fields_lem :
      (k : Kind) (text : List ℕ) (r : Request) (w : World net.env (Agent net.Index))
      → Ends
          (λ (r' : Request) (w' : World net.env (Agent net.Index)).
            (w' ≡ w) × ((r'.kind ≡ r.kind) × ((r'.id ≡ r.id) × AddressesFit k text)))
          (λ w'. w'.state ≡ w.state)
          (¬ AddressesFit k text)
          (read_fields net k text r w)
  unfolding read_fields
  read_fields_lem client_kind text r w =
      Ends-if_in_bounds (ltb _ text_room) tt w _ (λ q f. too_long q f.0)
        (λ q.
          Ends-if_in_bounds (ltb _ text_room) tt w _ (λ q' f. too_long q' f.1)
            (λ q'. comes_back (refl, (refl, (refl, (ltb→lt _ _ q, ltb→lt _ _ q'))))))
  read_fields_lem agent_kind text r w =
      Ends-if_in_bounds (ltb _ text_room) tt w _ (λ q f. too_long q f)
        (λ q. comes_back (refl, (refl, (refl, ltb→lt _ _ q))))
  read_fields_lem (other_kind t) text r w = comes_back (refl, (refl, (refl, tt)))

  -- The end of `get_controller_message` for a message.
  message_received-Added :
      (text : List ℕ) (r : Request) (w : World net.env (Agent net.Index))
      → Ends
          (λ _ w'. Added r w.state text w'.state)
          (λ w'. w'.state ≡ w.state)
          (¬ TextsFit text)
          (message_received net (some text) r w)
  unfolding message_received add_request
  message_received-Added text r w =
      Ends-if_in_bounds (ltb _ max_buffer) tt w _ (λ q f. too_long q f.whole)
        (λ q.
          Ends-if_in_bounds (ltb _ text_room) tt w _ (λ q' f. too_long q' f.kind)
            (λ q'.
              Ends-if_in_bounds (ltb _ uuid_room) tt w _ (λ q'' f. too_long q'' f.id)
                (λ q''.
                  Ends-and_then _
                    (Ends-map (read_fields_lem k text r' w) (λ _ _ h. h) (λ n f. n f.addresses))
                    (λ filled w' h. comes_back (record {
                      request = filled;
                      stored =
                          ap
                            (λ (v : World net.env (Agent net.Index)). record (v.state) {
                              request_store = v.state.request_store ++ (filled ∷ []);
                              requests =
                                  net.index_add v.state.requests filled.id
                                    (length v.state.request_store);
                            })
                            h.0;
                      kind = h.1.0 ∙ with_id-kind (net.uuid_parse words.1) (record r { kind = k });
                      id = h.1.1.0 ∙ with_id-id (net.uuid_parse words.1) r k;
                      fits = record {
                        whole = ltb→lt _ _ q;
                        kind = ltb→lt _ _ q';
                        id = ltb→lt _ _ q'';
                        addresses = h.1.1.1;
                      };
                    })))))
    where
      words : List ℕ × List ℕ
      words = net.scan_words text

      k : Kind
      k = net.kind_of words.0

      r' : Request
      r' = with_id net (net.uuid_parse words.1) (record r { kind = k })

  -- A message that is received into the request.
  request_allocated-Taken :
      (w₀ : World net.env (Agent net.Index)) (m : Option (List ℕ))
      → (net.env.malloc_call w₀.kernel net.request_size).0 ≡ m
      → Ends
          (λ _ w'. Taken w₀ w')
          (λ w'. w'.state ≡ w₀.state)
          (Overrun w₀)
          (request_allocated net m
            (record w₀ { kernel = (net.env.malloc_call w₀.kernel net.request_size).1 }))
  unfolding request_allocated message_received
  request_allocated-Taken w₀ none e = comes_back (no_memory refl)
  request_allocated-Taken w₀ (some bytes) e = received (message w₀) refl
    where
      after_recvfrom : World net.env (Agent net.Index)
      after_recvfrom = record w₀ {
        kernel =
            (net.recvfrom_call (net.env.malloc_call w₀.kernel net.request_size).1
              w₀.state.controller_sock).1;
      }

      received :
          (r : Option (List ℕ))
          → message w₀ ≡ r
          → Ends
              (λ _ w'. Taken w₀ w')
              (λ w'. w'.state ≡ w₀.state)
              (Overrun w₀)
              (message_received net r (net.request_in_memory bytes) after_recvfrom)
      received none e' = gives_up refl
      received (some text) e' =
          Ends-map (message_received-Added text (net.request_in_memory bytes) after_recvfrom)
            (λ _ w' h. taken bytes text e e' h)
            (λ n. record { text = text; come_in = e'; too_large = n })

  -- `get_controller_message` comes to an end. It comes back with the state as it was, if there is no
  -- memory, or with the message's request behind all others and in the table under its id, and this
  -- only if every text of the message, the 36 characters of an id included, fits into its array; it
  -- exits with the state as it was; or it writes outside an array, and only after a message of
  -- which some text does not fit.
  pub get_controller_message-Taken :
      (w : World net.env (Agent net.Index))
      → Ends
          (λ _ w'. Taken w w')
          (λ w'. w'.state ≡ w.state)
          (Overrun w)
          (get_controller_message net w)
  unfolding get_controller_message
  get_controller_message-Taken w = request_allocated-Taken w _ refl

  -- What `uuid_parse` is documented to take: texts of 36 characters.
  abbrev pub IsUuidParser : Type 0
  IsUuidParser = (text id : List ℕ) → net.uuid_parse text ≡ some id → length text ≡ 36

  -- With a `uuid_parse` that takes texts of 36 characters only, every request that
  -- `get_controller_message` adds has the id that stood in the memory from `malloc`: the id of the
  -- message is never taken.
  pub get_controller_message-UnsetId :
      IsUuidParser
      → (w w' : World net.env (Agent net.Index)) → get_controller_message net w ≡ ret tt w'
      → UnsetId w w'
  unfolding with_id
  get_controller_message-UnsetId parser w w' e =
      of_taken (Ends-ret (get_controller_message-Taken w) e)
    where
      unset :
          (id : Option (List ℕ)) (text : List ℕ) (r : Request)
          → net.uuid_parse text ≡ id
          → length text < uuid_room
          → (with_id net id r).id ≡ r.id
      unset none text r q short = refl
      unset (some id) text r q short = absurd (omega (arith, parser text id q))

      of_taken : Taken w w' → UnsetId w w'
      of_taken (no_memory q) = nothing_added q
      of_taken (taken bytes text q q' h) =
          added bytes h.request q (ap (λ (a : Agent net.Index). a.request_store) h.stored)
            (h.id ∙ unset _ (net.scan_words text).1 (net.request_in_memory bytes) refl h.fits.id)

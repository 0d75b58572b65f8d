-- ===== src/Agent/Found.antt =====
-- What `check_for_transfer_request` of OriginalAgentCodeC/controller.c finds, by the fields of the
-- requests and of the client.
use sosagent.Base.{
  ℕ, ◌<◌, ◌≤◌, ==_iff, ◌≡◌, refl, ap, sym, ◌∙◌, Bool, true, false, ◌&&◌, List, [], ◌∷◌, ◌++◌, some,
  length, get_elem?,
}
use sosagent.Agent.{Kind, client_kind, agent_kind, other_kind, Request, Session}
use sosagent.Agent.Requests.{
  same, same_kind, matches, answers, address_room, Search, found, not_found, overflow,
  check_for_transfer_request, Told, taken, nothing, too_long, First, adopt,
  check_for_transfer_request-Told,
}

-- `r` is a request of the type for the client: one of a host by the address and the port the host
-- came from, one of an agent by the client's id.
pub data IsFor (s : Session) (r : Request) : Kind → Type 0 where
  by_address :
      r.kind ≡ client_kind
      → r.source_ip ≡ s.source_ip
      → r.source_port ≡ s.source_port
      → IsFor s r client_kind
  by_id : r.kind ≡ agent_kind → s.id ≡ r.id → IsFor s r agent_kind

-- The port that the client has afterwards: a host's request names none.
abbrev pub port_by : Kind → Session → Request → ℕ
port_by client_kind s r = s.agent_port
port_by k s r = r.agent_port

-- `r` is the first request for the client.
pub record Earliest (k : Kind) (s : Session) (rs : List Request) (r : Request) : Type 0 where
  pub before : List Request
  pub after : List Request
  pub place : rs ≡ before ++ r ∷ after
  pub fitting : IsFor s r k
  pub none_before : (i : ℕ) (q : Request) → get_elem? before i ≡ some q → ¬ IsFor s q k

-- What each result says of the requests.
pub data Found (k : Kind) (s : Session) (rs : List Request) : Search → Type 0 where
  for_client :
      {r : Request} {t : Session}
      → Earliest k s rs r
      → length r.agent_ip < address_room
      → t ≡ record s {
        agent_ip = r.agent_ip;
        agent_port = port_by k s r;
        allowed_connections = r.allowed_connections;
        uuid = r.id;
        transfer_request = some r;
      }
      → Found k s rs (found t)
  for_none :
      ((i : ℕ) (q : Request) → get_elem? rs i ≡ some q → ¬ IsFor s q k) → Found k s rs not_found
  beyond :
      {r : Request} → Earliest k s rs r → address_room ≤ length r.agent_ip → Found k s rs overflow

both : {a b : Bool} → (a && b) ≡ true → (a ≡ true) × (b ≡ true)
both {a = true} e = (refl, e)
both {a = false} e = cc

same-eq : (xs ys : List ℕ) → same xs ys ≡ true → xs ≡ ys
unfolding same
same-eq [] [] e = refl
same-eq (a ∷ xs) (b ∷ ys) e =
    let parts = both e in
    ap (λ n. n ∷ xs) ((==_iff a b).0 parts.0) ∙ ap (λ l. b ∷ l) (same-eq xs ys parts.1)
same-eq [] (b ∷ ys) e = cc
same-eq (a ∷ xs) [] e = cc

same_refl : (xs : List ℕ) → same xs xs ≡ true
unfolding same
same_refl [] = refl
same_refl (a ∷ xs) = rw ((==_iff a a).1 refl) (same_refl xs)

same_kind-client : (q : Kind) → same_kind client_kind q ≡ true → q ≡ client_kind
unfolding same_kind
same_kind-client client_kind e = refl
same_kind-client agent_kind e = cc
same_kind-client (other_kind t) e = cc

same_kind-agent : (q : Kind) → same_kind agent_kind q ≡ true → q ≡ agent_kind
unfolding same_kind
same_kind-agent client_kind e = cc
same_kind-agent agent_kind e = refl
same_kind-agent (other_kind t) e = cc

-- The code's tests accept the requests for the client, and no others.
answers-IsFor : (k : Kind) (s : Session) (r : Request) → answers k s r ≡ true → IsFor s r k
unfolding answers matches
answers-IsFor client_kind s r e =
    let parts = both e in
    let own = both parts.1 in
    by_address (same_kind-client r.kind parts.0) (same-eq _ _ own.0) ((==_iff _ _).0 own.1)
answers-IsFor agent_kind s r e =
    let parts = both e in by_id (same_kind-agent r.kind parts.0) (same-eq _ _ parts.1)
answers-IsFor (other_kind t) s r e = absurd (clash (both e).1)
  where
    clash : ¬ (false ≡ true)
    clash q = cc

IsFor-answers : (k : Kind) (s : Session) (r : Request) → IsFor s r k → answers k s r ≡ true
unfolding answers matches same_kind
IsFor-answers _ s r (by_address kind ip port) =
    rw (kind, ip, port, same_refl s.source_ip, (==_iff s.source_port s.source_port).1 refl) refl
IsFor-answers _ s r (by_id kind id) = rw (kind, id, same_refl r.id) refl

refused : (k : Kind) (s : Session) (q : Request) → answers k s q ≡ false → ¬ IsFor s q k
refused k s q e f = clash (sym e ∙ IsFor-answers k s q f)
  where
    clash : ¬ (false ≡ true)
    clash z = cc

adopted :
    (k : Kind) (s : Session) (r : Request)
    → IsFor s r k
    → adopt k s r ≡ record s {
      agent_ip = r.agent_ip;
      agent_port = port_by k s r;
      allowed_connections = r.allowed_connections;
      uuid = r.id;
      transfer_request = some r;
    }
unfolding adopt
adopted _ s r (by_address kind ip port) = refl
adopted _ s r (by_id kind id) = refl

module _ (k : Kind) (s : Session) (rs : List Request) where
  First-Earliest : (r : Request) → First k s rs r → Earliest k s rs r
  First-Earliest r f = record {
    before = f.before;
    after = f.after;
    place = f.place;
    fitting = answers-IsFor k s r f.fitting;
    none_before = λ i q e. refused k s q (f.none_before i q e);
  }

  Told-Found : (res : Search) → Told k s rs res → Found k s rs res
  Told-Found _ (taken {r} f fits) =
      let e = First-Earliest r f in for_client e fits (adopted k s r e.fitting)
  Told-Found _ (nothing none_here) = for_none (λ i q e. refused k s q (none_here i q e))
  Told-Found _ (too_long {r} f long) = beyond (First-Earliest r f) long

-- Whatever the requests, the client and the type. TRUE: the client has the address, the number of
-- allowed connections and the id of the first request that is for it, and of an agent's request the
-- port, keeps that request, and is otherwise as it was; the address had room. FALSE: no request of
-- that type is for it. A copy beyond the buffer: the address of the first request that is for it has
-- INET6_ADDRSTRLEN bytes or more. A host's request is for the client if it names the address and the
-- port that the client's host came from, an agent's if it names the client's id.
pub check_for_transfer_request-Found :
    (rs : List Request) (s : Session) (k : Kind) → Found k s rs (check_for_transfer_request rs s k)
check_for_transfer_request-Found rs s k =
    Told-Found k s rs _ (check_for_transfer_request-Told rs s k)

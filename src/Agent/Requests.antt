-- ===== src/Agent/Requests.antt =====
-- `check_for_transfer_request` of OriginalAgentCodeC/controller.c: the first request that is for a
-- client.
use sosagent.Base.{
  ℕ, ◌<◌, ltb, ◌==◌, ◌≡◌, refl, ap, if◌then◌else◌, Bool, true, false, ◌&&◌, Bool-cases, List, [],
  ◌∷◌, ◌++◌, Option, none, some, length, zero, suc, get_elem?, subst, ◌≤◌, inl, inr, arith,
}
use sosagent.Agent.{Kind, client_kind, agent_kind, other_kind, Request, Session}

-- `strcmp` and `uuid_compare`, as tests for equality.
unfoldable pub same : List ℕ → List ℕ → Bool
same [] [] = true
same (a ∷ xs) (b ∷ ys) = (a == b) && same xs ys
same [] (b ∷ ys) = false
same (a ∷ xs) [] = false

unfoldable pub same_kind : Kind → Kind → Bool
unfolding same
same_kind client_kind client_kind = true
same_kind agent_kind agent_kind = true
same_kind (other_kind a) (other_kind b) = same a b
same_kind a b = false

-- INET6_ADDRSTRLEN: the room for an address in `client_t`, with the byte that ends it.
abbrev pub address_room : ℕ
address_room = 46

-- What the search comes to: TRUE with the client as it is then, FALSE, or a copy of an address that
-- leaves its buffer.
pub data Search : Type 0 where
  found : Session → Search
  not_found overflow : Search

-- Whether a request is for the client, and what the client takes from it.
unfoldable pub matches : Kind → Session → Request → Bool
unfolding same
matches client_kind s r = same r.source_ip s.source_ip && (r.source_port == s.source_port)
matches agent_kind s r = same s.id r.id
matches (other_kind t) s r = false

unfoldable pub adopt : Kind → Session → Request → Session
adopt client_kind s r = record s {
  agent_ip = r.agent_ip;
  allowed_connections = r.allowed_connections;
  uuid = r.id;
  transfer_request = some r;
}
adopt k s r = record s {
  agent_ip = r.agent_ip;
  agent_port = r.agent_port;
  allowed_connections = r.allowed_connections;
  uuid = r.id;
  transfer_request = some r;
}

-- A request of the right type: `again` goes on with the next one. An unknown type ends the search.
unfoldable pub look_at : Kind → Session → Request → Search → Search
unfolding matches adopt
look_at (other_kind t) s r again = not_found
look_at k s r again =
    if matches k s r
    then (if ltb (length r.agent_ip) address_room then found (adopt k s r) else overflow)
    else again

-- The loop over the requests, in the order of `hh.next`.
unfoldable pub check_for_transfer_request : List Request → Session → Kind → Search
unfolding same_kind look_at
check_for_transfer_request [] s k = not_found
check_for_transfer_request (r ∷ rs) s k =
    let again = check_for_transfer_request rs s k in
    if same_kind k r.kind then look_at k s r again else again

-- Whether a request is of the type asked for and for the client.
unfoldable pub answers : Kind → Session → Request → Bool
unfolding same_kind matches
answers k s r = same_kind k r.kind && matches k s r

-- `r` is the first request that is for the client.
pub record First (k : Kind) (s : Session) (rs : List Request) (r : Request) : Type 0 where
  pub before : List Request
  pub after : List Request
  pub place : rs ≡ before ++ r ∷ after
  pub fitting : answers k s r ≡ true
  pub none_before : (i : ℕ) (q : Request) → get_elem? before i ≡ some q → answers k s q ≡ false

-- What each result of the search says of the requests.
pub data Told (k : Kind) (s : Session) (rs : List Request) : Search → Type 0 where
  taken :
      {r : Request}
      → First k s rs r
      → length r.agent_ip < address_room
      → Told k s rs (found (adopt k s r))
  nothing :
      ((i : ℕ) (q : Request) → get_elem? rs i ≡ some q → answers k s q ≡ false)
      → Told k s rs not_found
  too_long :
      {r : Request} → First k s rs r → address_room ≤ length r.agent_ip → Told k s rs overflow

abbrev chosen_of : Request → Option Request → Request
chosen_of r none = r
chosen_of r (some q) = q

module _ (k : Kind) (s : Session) where
  none_here :
      (r : Request) (rs : List Request)
      → answers k s r ≡ false
      → ((i : ℕ) (q : Request) → get_elem? rs i ≡ some q → answers k s q ≡ false)
      → (i : ℕ) (q : Request) → get_elem? (r ∷ rs) i ≡ some q
      → answers k s q ≡ false
  none_here r rs differs rest zero q e =
      subst (λ x. answers k s x ≡ false) (ap (chosen_of r) e) differs
  none_here r rs differs rest (suc i) q e = rest i q e

  First-later :
      (r q : Request) (rs : List Request)
      → answers k s r ≡ false
      → First k s rs q
      → First k s (r ∷ rs) q
  First-later r q rs differs f = record {
    before = r ∷ f.before;
    after = f.after;
    place = ap (λ xs. r ∷ xs) f.place;
    fitting = f.fitting;
    none_before = none_here r f.before differs f.none_before;
  }

  First-head : (r : Request) (rs : List Request) → answers k s r ≡ true → First k s (r ∷ rs) r
  First-head r rs suits = record {
    before = [];
    after = rs;
    place = refl;
    fitting = suits;
    none_before = λ i q e. cc;
  }

  Told-later :
      (r : Request) (rs : List Request) (res : Search)
      → answers k s r ≡ false
      → Told k s rs res
      → Told k s (r ∷ rs) res
  Told-later r rs _ differs (taken {r = q} f fits) = taken (First-later r q rs differs f) fits
  Told-later r rs _ differs (nothing rest) = nothing (none_here r rs differs rest)
  Told-later r rs _ differs (too_long {r = q} f long) = too_long (First-later r q rs differs f) long

  -- A request that is for the client ends the search.
  Told-head :
      (r : Request) (rs : List Request)
      → answers k s r ≡ true
      → Told k s
          (r ∷ rs)
          (if ltb (length r.agent_ip) address_room then found (adopt k s r) else overflow)
  Told-head r rs suits = elim (Bool-cases (ltb (length r.agent_ip) address_room)) [
    | inl q ↦ rw q (taken (First-head r rs suits) (ground arith))
    | inr q ↦ rw q (too_long (First-head r rs suits) (ground arith))
  ]

answers_other : (t : List ℕ) (s : Session) (r : Request) → answers (other_kind t) s r ≡ false
unfolding answers matches
answers_other t s r = elim (Bool-cases (same_kind (other_kind t) r.kind)) [
  | inl q ↦ rw q refl
  | inr q ↦ rw q refl
]

Told-look_at :
    (k : Kind) (s : Session) (r : Request) (rs : List Request) (res : Search)
    → same_kind k r.kind ≡ true
    → Told k s rs res
    → Told k s (r ∷ rs) (look_at k s r res)
unfolding look_at answers
Told-look_at (other_kind t) s r rs res same told = nothing (λ i q e. answers_other t s q)
Told-look_at client_kind s r rs res same told = elim (Bool-cases (matches client_kind s r)) [
  | inl q ↦ rw q (Told-head client_kind s r rs (rw (same, q) refl))
  | inr q ↦ rw q (Told-later client_kind s r rs res (rw (same, q) refl) told)
]
Told-look_at agent_kind s r rs res same told = elim (Bool-cases (matches agent_kind s r)) [
  | inl q ↦ rw q (Told-head agent_kind s r rs (rw (same, q) refl))
  | inr q ↦ rw q (Told-later agent_kind s r rs res (rw (same, q) refl) told)
]

-- Whatever the requests, the client and the type: TRUE means that the client took over what the
-- first request of that type for it says, and the address had room; FALSE means that no request of
-- that type is for it; and an address leaves its buffer only if the first such request has one of
-- INET6_ADDRSTRLEN bytes or more.
pub check_for_transfer_request-Told :
    (rs : List Request) (s : Session) (k : Kind) → Told k s rs (check_for_transfer_request rs s k)
unfolding check_for_transfer_request answers
check_for_transfer_request-Told [] s k = nothing (λ i q e. cc)
check_for_transfer_request-Told (r ∷ rs) s k = elim (Bool-cases (same_kind k r.kind)) [
  | inl q ↦ rw q (Told-look_at k s r rs _ q (check_for_transfer_request-Told rs s k))
  | inr q ↦ rw q (Told-later k s r rs _ (rw q refl) (check_for_transfer_request-Told rs s k))
]

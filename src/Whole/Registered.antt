-- ===== src/Whole/Registered.antt =====
-- What is registered in `client_event_pool` (poll.c, network.c) after the calls that were made, and what
-- the marks of the sockets say.
use sosagent.Base.{
  ℕ, ◌==◌, ◌≡◌, ◌≢◌, refl, ap, if◌then◌else◌, List, [], ◌∷◌, Option, none, some, ==_iff,
}
use sosagent.System.{
  Action, Received, got, recv_failed, Sent, took, send_failed, Events, Pool, client_event_pool, Ctl,
  add, modify, delete, sent, received, control, closed_fd,
}
use sosagent.System.Calls.{recv_log, send_log}
use sosagent.Client.{Poll, off, in_only, out_only, in_and_out, closed}
use sosagent.Deliver.{readable, writable, both_ways}
use sosagent.Receive.Tcp.{unequal}

-- What a call leaves registered.
abbrev pub asked : Ctl → Option Events
asked (add m) = some m
asked (modify m) = some m
asked delete = none

abbrev pub applied : Pool → Ctl → Option Events → Option Events
applied client_event_pool c before = asked c
applied p c before = before

-- What a descriptor is waited for in `client_event_pool` after the given calls; a descriptor that is
-- closed leaves it.
unfoldable pub registered : ℕ → List Action → Option Events
registered fd [] = none
registered fd (sent to bytes ∷ t) = registered fd t
registered fd (received from bytes ∷ t) = registered fd t
registered fd (control p c on ∷ t) =
    let before = registered fd t in if on == fd then applied p c before else before
registered fd (closed_fd on ∷ t) = let before = registered fd t in if on == fd then none else before

-- What a mark says.
abbrev pub mask_of : Poll → Option Events
mask_of in_only = some readable
mask_of out_only = some writable
mask_of in_and_out = some both_ways
mask_of off = none
mask_of closed = none

pub registered-recv_log :
    (fd from : ℕ) (r : Received) (t : List Action)
    → registered fd (recv_log from r t) ≡ registered fd t
unfolding registered
registered-recv_log fd from (got bytes) t = refl
registered-recv_log fd from (recv_failed e) t = refl

pub registered-send_log :
    (fd to : ℕ) (bytes : List ℕ) (r : Sent) (t : List Action)
    → registered fd (send_log to bytes r t) ≡ registered fd t
unfolding registered
registered-send_log fd to bytes (took n) t = refl
registered-send_log fd to bytes (send_failed e) t = refl

pub registered-control :
    (fd : ℕ) (c : Ctl) (t : List Action)
    → registered fd (control client_event_pool c fd ∷ t) ≡ asked c
unfolding registered
registered-control fd c t = ap (λ b. if b then asked c else registered fd t) ((==_iff fd fd).1 refl)

pub registered-control_other :
    (fd on : ℕ) (c : Ctl) (t : List Action)
    → on ≢ fd
    → registered fd (control client_event_pool c on ∷ t) ≡ registered fd t
unfolding registered
registered-control_other fd on c t other =
    ap (λ b. if b then asked c else registered fd t) (unequal on fd other)

pub registered-closed : (fd : ℕ) (t : List Action) → registered fd (closed_fd fd ∷ t) ≡ none
unfolding registered
registered-closed fd t = ap (λ b. if b then none else registered fd t) ((==_iff fd fd).1 refl)

pub registered-closed_other :
    (fd on : ℕ) (t : List Action) → on ≢ fd → registered fd (closed_fd on ∷ t) ≡ registered fd t
unfolding registered
registered-closed_other fd on t other =
    ap (λ b. if b then none else registered fd t) (unequal on fd other)

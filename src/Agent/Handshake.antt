-- ===== src/Agent/Handshake.antt =====
-- `send_uuid` and `get_uuid` of OriginalAgentCodeC/network.c.
use sosagent.Base.{
  ℕ, zero, suc, ◌+◌, ◌-◌, ◌*◌, ◌%◌, ◌^◌, ◌≤◌, ◌<◌, ◌≡◌, refl, ap, sym, ◌∙◌, ◌==◌, if◌then◌else◌,
  true, false, leb, append-nil, length-append, length-drop, List, [], ◌∷◌, ◌++◌, none, some, length,
  drop, arith,
}
use sosagent.System.{eagain, Received, got, recv_failed, Sent, took, send_failed, Env}
use sosagent.System.Outcome.{M, ret, fault, exit, pure, stuck, check, ◌>>=◌}
use sosagent.System.Calls.{World, recv, send, recv_log}
use sosagent.Client.Access.{slice, overwrite}

module _ {env : Env} {S : Type 0} where
  -- `sent_bytes` is a `uint8_t`; a failed `send` is tried again at EAGAIN.
  unfoldable pub send_uuid_answered :
      Sent → ℕ → (ℕ → M (World env S) (Unit {0})) → M (World env S) (Unit {0})
  send_uuid_answered (send_failed eagain) count again = if count == 16 then pure tt else again count
  send_uuid_answered (send_failed e) count again = exit
  send_uuid_answered (took n) count again =
      if (count + n) % 2 ^ 8 == 16 then pure tt else again ((count + n) % 2 ^ 8)

  unfoldable pub send_uuid : ℕ → ℕ → List ℕ → ℕ → M (World env S) (Unit {0})
  unfolding send_uuid_answered
  send_uuid zero fd uuid count = stuck
  send_uuid (suc fuel) fd uuid count = do
    bytes ← check (slice uuid count ((16 + 2 ^ 64 - count) % 2 ^ 64))
    r ← send fd bytes
    send_uuid_answered r count (send_uuid fuel fd uuid)

  -- `uuid + recv_bytes`: `uuid` points to whole ids, so each byte that came in moves the place of
  -- the next ones by 16.
  unfoldable pub get_uuid_answered :
      Received → List ℕ → ℕ → (List ℕ → ℕ → M (World env S) (List ℕ)) → M (World env S) (List ℕ)
  get_uuid_answered (recv_failed eagain) uuid count again =
      if count == 16 then pure uuid else again uuid count
  get_uuid_answered (recv_failed e) uuid count again = exit
  get_uuid_answered (got []) uuid count again = if count == 16 then pure uuid else again uuid count
  get_uuid_answered (got (b ∷ bs)) uuid count again = do
    filled ← check (overwrite uuid (16 * count) (b ∷ bs))
    let total = (count + length (b ∷ bs)) % 2 ^ 8
    if total == 16 then pure filled else again filled total

  unfoldable pub get_uuid : ℕ → ℕ → List ℕ → ℕ → M (World env S) (List ℕ)
  unfolding get_uuid_answered
  get_uuid zero fd uuid count = stuck
  get_uuid (suc fuel) fd uuid count = do
    r ← recv fd ((16 + 2 ^ 64 - count) % 2 ^ 64)
    get_uuid_answered r uuid count (get_uuid fuel fd)

at_most : (a b : ℕ) → a ≤ b → leb a b ≡ true
at_most a b h = ground arith

not_at_most : (a b : ℕ) → b < a → leb a b ≡ false
not_at_most a b h = ground arith

drop_nil : {A : Type 0} (n : ℕ) → drop {A = A} n [] ≡ []
drop_nil zero = refl
drop_nil (suc n) = refl

drop_all : {A : Type 0} (xs : List A) (n : ℕ) → length xs ≤ n → drop n xs ≡ []
drop_all [] n h = drop_nil n
drop_all (x ∷ xs) zero h = absurd (omega arith)
drop_all (x ∷ xs) (suc n) h = drop_all xs n (omega arith)

-- A write over the whole of a buffer, and one that leaves it.
overwrite_all : (old new : List ℕ) → length old ≡ length new → overwrite old 0 new ≡ some new
overwrite_all old new h =
    rw (at_most (0 + length new) (length old) (omega arith)) (
      ap some (ap (λ xs. new ++ xs) (drop_all old (0 + length new) (omega arith)) ∙ append-nil new))

overwrite_outside :
    (old : List ℕ) (off : ℕ) (new : List ℕ)
    → length old < off + length new
    → overwrite old off new ≡ none
overwrite_outside old off new h = rw (not_at_most (off + length new) (length old) h) refl

-- The counter of a byte, and the `size_t` that is left to read.
small : (n : ℕ) → n < 16 → (0 + n) % 2 ^ 8 ≡ n
small n h = omega arith

plain : (n : ℕ) → 0 + n ≡ n
plain n = omega arith

apart : (n : ℕ) → n < 16 → (n == 16) ≡ false
apart n h = ground arith

to_read : (n : ℕ) → n < 16 → (16 + 2 ^ 64 - n) % 2 ^ 64 ≡ 16 - n
to_read n h = omega arith

length_filled :
    (new old : List ℕ)
    → length new < 16
    → length old ≡ 16
    → length (new ++ drop (length new) old) ≡ 16
length_filled new old h e =
    length-append new (drop (length new) old) ∙ total (length-drop (length new) old)
  where
    total :
        length (drop (length new) old) ≡ length old - length new
        → length new + length (drop (length new) old) ≡ 16
    total d = omega arith

module _ {env : Env} {S : Type 0} where
  answered_whole :
      (uuid bytes : List ℕ) (again : List ℕ → ℕ → M (World env S) (List ℕ)) (w : World env S)
      → length uuid ≡ 16
      → length bytes ≡ 16
      → get_uuid_answered (got bytes) uuid 0 again w ≡ ret bytes w
  unfolding get_uuid_answered
  answered_whole uuid [] again w hu hb = absurd (omega arith)
  answered_whole uuid (b ∷ bs) again w hu hb =
      rw (overwrite_all uuid (b ∷ bs) (hu ∙ sym hb), hb) refl

  -- The first piece fits, and the next one is put 16 bytes further for each byte of it.
  answered_part :
      (uuid bytes : List ℕ) (again : List ℕ → ℕ → M (World env S) (List ℕ)) (w : World env S)
      → 0 < length bytes
      → length bytes < 16
      → length uuid ≡ 16
      → get_uuid_answered (got bytes) uuid 0 again w
        ≡ again (bytes ++ drop (length bytes) uuid) (length bytes) w
  unfolding get_uuid_answered
  answered_part uuid [] again w h h' hu = absurd (omega arith)
  answered_part uuid (b ∷ bs) again w h h' hu =
      rw
        (
          at_most (0 + length (b ∷ bs)) (length uuid) (omega arith),
          small (length (b ∷ bs)) h',
          apart (length (b ∷ bs)) h',
        )
        (ap (λ n. again (b ∷ (bs ++ drop n uuid)) (suc (length bs)) w) (plain (suc (length bs))))

  answered_outside :
      (uuid bytes : List ℕ) (count : ℕ) (again : List ℕ → ℕ → M (World env S) (List ℕ))
      (w : World env S)
      → 0 < count
      → 0 < length bytes
      → length uuid ≡ 16
      → get_uuid_answered (got bytes) uuid count again w ≡ fault
  unfolding get_uuid_answered
  answered_outside uuid [] count again w h h' hu = absurd (omega arith)
  answered_outside uuid (b ∷ bs) count again w h h' hu =
      rw (overwrite_outside uuid (16 * count) (b ∷ bs) (omega arith)) refl

  get_uuid_turn :
      (fuel fd : ℕ) (uuid : List ℕ) (count len : ℕ) (r : Received) (k : env.Kernel)
      (w : World env S)
      → (16 + 2 ^ 64 - count) % 2 ^ 64 ≡ len
      → env.recv_call w.kernel fd len ≡ (r, k)
      → get_uuid (suc fuel) fd uuid count w
        ≡ get_uuid_answered r uuid count
            (get_uuid fuel fd)
            (record w { kernel = k; trace = recv_log fd r w.trace })
  unfolding get_uuid recv
  get_uuid_turn fuel fd uuid count len r k w h e = rw (h, e) refl

  -- Where one `recv` hands over 16 bytes, `get_uuid` returns them, whatever stood in the buffer.
  pub get_uuid_whole :
      (fuel fd : ℕ) (uuid bytes : List ℕ) (k : env.Kernel) (w : World env S)
      → length uuid ≡ 16
      → length bytes ≡ 16
      → env.recv_call w.kernel fd 16 ≡ (got bytes, k)
      → get_uuid (suc fuel) fd uuid 0 w
        ≡ ret bytes (record w { kernel = k; trace = recv_log fd (got bytes) w.trace })
  get_uuid_whole fuel fd uuid bytes k w hu hb e =
      get_uuid_turn fuel fd uuid 0 16 (got bytes) k w refl e ∙ answered_whole uuid bytes _ _ hu hb

  -- Where the first `recv` hands over a part of the 16 bytes and the second at least one more,
  -- `get_uuid` writes outside its buffer.
  pub get_uuid_split :
      (fuel fd : ℕ) (uuid first second : List ℕ) (k l : env.Kernel) (w : World env S)
      → length uuid ≡ 16
      → 0 < length first
      → length first < 16
      → 0 < length second
      → env.recv_call w.kernel fd 16 ≡ (got first, k)
      → env.recv_call k fd (16 - length first) ≡ (got second, l)
      → get_uuid (suc (suc fuel)) fd uuid 0 w ≡ fault
  get_uuid_split fuel fd uuid first second k l w hu h1 h2 h3 e f =
      get_uuid_turn (suc fuel) fd uuid 0 16 (got first) k w refl e
      ∙ answered_part uuid first _ _ h1 h2 hu
      ∙ get_uuid_turn fuel fd (first ++ drop (length first) uuid) (length first) (16 - length first)
          (got second) l _ (to_read (length first) h2) f
      ∙ answered_outside _ second (length first) _ _ h1 h3 (length_filled first uuid h2 hu)

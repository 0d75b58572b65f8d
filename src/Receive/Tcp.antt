-- ===== src/Receive/Tcp.antt =====
-- What the code relies on of a parallel connection (`read_agent_send_host`, network.c): TCP hands the
-- bytes over in the order in which the other agent sent them.
use sosagent.Base.{
  ℕ, ◌==◌, ◌≡◌, ◌≢◌, refl, ap, sym, ◌∙◌, false, if◌then◌else◌, List, [], ◌∷◌, ◌++◌, append_assoc,
  append-nil, length, take, take_front, arith,
}
use native.Mathlib.Decide.{ℕ_discrete}
use sosagent.System.{Env, Pool, Ctl, Action, Received, got, recv_failed}
use sosagent.System.Calls.{incoming, recv_log}
use sosagent.Receive.Gather.{bytes_in, incoming-recv_log, Upkeep}

-- `pending k fd` are the bytes that are still to come in from `fd`: a `recv` takes its bytes from the
-- front of them, and no other call has a part in them.
pub record IsTcp (env : Env) (pending : env.Kernel → ℕ → List ℕ) : Type 0 where
  pub recv_in_order :
      (k : env.Kernel) (fd len : ℕ)
      → bytes_in (env.recv_call k fd len).0 ++ pending (env.recv_call k fd len).1 fd ≡ pending k fd
  pub recv_other :
      (k : env.Kernel) (fd len other : ℕ)
      → fd ≢ other
      → pending (env.recv_call k fd len).1 other ≡ pending k other
  pub send_pending :
      (k : env.Kernel) (to fd : ℕ) (bytes : List ℕ)
      → pending (env.send_call k to bytes).1 fd ≡ pending k fd
  pub ctl_pending :
      (k : env.Kernel) (pool : Pool) (c : Ctl) (on fd : ℕ)
      → pending (env.ctl_call k pool c on).1 fd ≡ pending k fd

pub unequal : (n m : ℕ) → n ≢ m → (n == m) ≡ false
unequal n m h = ground arith

pub incoming-other :
    (fd from : ℕ) (r : Received) (t : List Action)
    → from ≢ fd
    → incoming fd (recv_log from r t) ≡ incoming fd t
unfolding incoming
incoming-other fd from (got bytes) t other =
    ap (λ b. incoming fd t ++ (if b then bytes else [])) (unequal from fd other) ∙ append-nil _
incoming-other fd from (recv_failed e) t other = refl

-- What has come in from a socket and what is still to come are a given stream.
abbrev pub Coming :
    (env : Env) → (env.Kernel → ℕ → List ℕ) → ℕ → List ℕ → env.Kernel → List Action → Type 0
Coming env pending fd all k t = incoming fd t ++ pending k fd ≡ all

pub Coming-Upkeep :
    {env : Env} (pending : env.Kernel → ℕ → List ℕ) (fd : ℕ) (all : List ℕ)
    → IsTcp env pending
    → Upkeep env (Coming env pending fd all)
unfolding incoming
Coming-Upkeep {env = env} pending fd all tcp = record {
  on_recv = λ k t from len h. elim (ℕ_discrete from fd) [
    | yes same ↦ rw same (came k t len h)
    | no other ↦
        ap (λ b. b ++ pending (env.recv_call k from len).1 fd)
          (incoming-other fd from (env.recv_call k from len).0 t other)
        ∙ ap (λ b. incoming fd t ++ b) (tcp.recv_other k from len fd other)
        ∙ h
  ];
  on_ctl = λ k t pool c on h. ap (λ b. incoming fd t ++ b) (tcp.ctl_pending k pool c on fd) ∙ h;
  on_close = λ k t on h. h;
}
  where
    came :
        (k : env.Kernel) (t : List Action) (len : ℕ)
        → Coming env pending fd all k t
        → Coming env pending fd all
            (env.recv_call k fd len).1
            (recv_log fd (env.recv_call k fd len).0 t)
    came k t len h =
        ap (λ b. b ++ pending (env.recv_call k fd len).1 fd)
          (incoming-recv_log fd (env.recv_call k fd len).0 t)
        ∙ append_assoc (incoming fd t) _ _
        ∙ ap (λ b. incoming fd t ++ b) (tcp.recv_in_order k fd len)
        ∙ h

drop-same : (before xs ys : List ℕ) → before ++ xs ≡ before ++ ys → xs ≡ ys
drop-same [] xs ys e = e
drop-same (b ∷ before) xs ys e = drop-same before xs ys (ap (λ l. tail l) e)
  where
    tail : List ℕ → List ℕ
    tail [] = []
    tail (x ∷ l) = l

-- Of a stream whose beginning is known, what has come in behind it is the front of what follows.
pub come_in :
    (before bytes rest got_in now left : List ℕ)
    → now ++ left ≡ before ++ (bytes ++ rest)
    → now ≡ before ++ got_in
    → length got_in ≡ length bytes
    → got_in ≡ bytes
come_in before bytes rest got_in now left coming e same_length =
    sym (take_front (length bytes) got_in left same_length)
    ∙ ap (take (length bytes)) (
        drop-same before (got_in ++ left) (bytes ++ rest)
          (sym (append_assoc before got_in left) ∙ sym (ap (λ b. b ++ left) e) ∙ coming))
    ∙ take_front (length bytes) bytes rest refl

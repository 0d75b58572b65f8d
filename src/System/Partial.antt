-- ===== src/System/Partial.antt =====
-- What holds of a run if it comes back or exits, whether or not undefined behaviour is ruled out: for
-- invariants, which go with a proof that the run ends (`Ensures`).
use sosagent.Base.{ℕ, ◌≡◌, refl, Bool, true, false, if◌then◌else◌, List, ◌∷◌, Option, none, some}
use sosagent.System.{Received, Sent, Pool, Ctl, closed_fd, Env}
use sosagent.System.Outcome.{
  Outcome, ret, exited, fault, hung, M, check, and_then, Ensures, returns, exits,
}
use sosagent.System.Calls.{World, recv_log, send_log, recv, send, epoll_ctl, close}
use sosagent.System.Rules.{after}

-- The state meets the condition for the way in which the run has ended.
pub data Post {S A : Type 0} (P : A → S → Type 0) (E : S → Type 0) : Outcome S A → Type 0 where
  came_back : {a : A} {s : S} → P a s → Post P E (ret a s)
  gave_up : {s : S} → E s → Post P E (exited s)
  faulted : Post P E fault
  endless : Post P E hung

module _ {S : Type 0} {E : S → Type 0} where
  pub Post-and_then :
      {A B : Type 0} {P : A → S → Type 0} {Q : B → S → Type 0} (o : Outcome S A) (f : A → M S B)
      → Post P E o
      → ((a : A) (s : S) → P a s → Post Q E (f a s))
      → Post Q E (and_then o f)
  Post-and_then _ f (came_back {a} {s} p) k = k a s p
  Post-and_then _ f (gave_up e) k = gave_up e
  Post-and_then _ f faulted k = faulted
  Post-and_then _ f endless k = endless

  pub Post-mono :
      {A : Type 0} {P Q : A → S → Type 0} {F : S → Type 0} (o : Outcome S A)
      → Post P E o
      → ((a : A) (s : S) → P a s → Q a s)
      → ((s : S) → E s → F s)
      → Post Q F o
  Post-mono _ (came_back {a} {s} p) k e = came_back (k a s p)
  Post-mono _ (gave_up {s} q) k e = gave_up (e s q)
  Post-mono _ faulted k e = faulted
  Post-mono _ endless k e = endless

  pub Post-check :
      {A B : Type 0} {Q : B → S → Type 0} (o : Option A) (s : S) (f : A → M S B)
      → ((a : A) → o ≡ some a → Post Q E (f a s))
      → Post Q E (and_then (check o s) f)
  Post-check none s f k = faulted
  Post-check (some a) s f k = k a refl

  -- A step that is itself a chain of steps.
  pub Post-in_chain :
      {A B C : Type 0} {Q : C → S → Type 0} (o : Outcome S A) (g : A → M S B) (f : B → M S C)
      → Post Q E (and_then o (λ a s. and_then (g a s) f))
      → Post Q E (and_then (and_then o g) f)
  Post-in_chain (ret a s) g f h = h
  Post-in_chain (exited s) g f h = h
  Post-in_chain fault g f h = faulted
  Post-in_chain hung g f h = endless

  pub Post-if :
      {A : Type 0} {Q : A → S → Type 0} (b : Bool) (f g : M S A) (s : S)
      → (b ≡ true → Post Q E (f s))
      → (b ≡ false → Post Q E (g s))
      → Post Q E ((if b then f else g) s)
  Post-if true f g s on_true on_false = on_true refl
  Post-if false f g s on_true on_false = on_false refl

  -- A run that ends, and of which a condition holds besides.
  pub Ensures-Post :
      {A : Type 0} {P Q : A → S → Type 0} {F : S → Type 0} {o : Outcome S A}
      → Ensures P F o
      → Post Q E o
      → Ensures (λ a s. P a s × Q a s) (λ s. F s × E s) o
  Ensures-Post (returns p) (came_back q) = returns (p, q)
  Ensures-Post (exits e) (gave_up q) = exits (e, q)

pub Post-Ensures :
    {S A : Type 0} {P : A → S → Type 0} {E : S → Type 0} {o : Outcome S A}
    → Ensures P E o
    → Post P E o
Post-Ensures (returns p) = came_back p
Post-Ensures (exits e) = gave_up e

module _ {env : Env} {S B : Type 0} {Q : B → World env S → Type 0} {E : World env S → Type 0} where
  pub Post-epoll_ctl :
      (pool : Pool) (c : Ctl) (fd : ℕ) (w : World env S) (f : Unit {0} → M (World env S) B)
      → E (after w pool c fd)
      → Post Q E (f tt (after w pool c fd))
      → Post Q E (and_then (epoll_ctl pool c fd w) f)
  unfolding epoll_ctl
  Post-epoll_ctl pool c fd w f failed ok =
      elim (env.ctl_call w.kernel pool c fd).0
        as (λ b.
          Post Q E
            (and_then (if b then exited (after w pool c fd) else ret tt (after w pool c fd)) f)) [
              | true ↦ gave_up failed
              | false ↦ ok
            ]

  pub Post-recv :
      (fd len : ℕ) (w : World env S) (f : Received → M (World env S) B)
      → Post Q E (
          f (env.recv_call w.kernel fd len).0 (record w {
            kernel = (env.recv_call w.kernel fd len).1;
            trace = recv_log fd (env.recv_call w.kernel fd len).0 w.trace;
          }))
      → Post Q E (and_then (recv fd len w) f)
  unfolding recv
  Post-recv fd len w f h = h

  pub Post-send :
      (fd : ℕ) (bytes : List ℕ) (w : World env S) (f : Sent → M (World env S) B)
      → Post Q E (
          f (env.send_call w.kernel fd bytes).0 (record w {
            kernel = (env.send_call w.kernel fd bytes).1;
            trace = send_log fd bytes (env.send_call w.kernel fd bytes).0 w.trace;
          }))
      → Post Q E (and_then (send fd bytes w) f)
  unfolding send
  Post-send fd bytes w f h = h

  pub Post-close :
      (fd : ℕ) (w : World env S) (f : Unit {0} → M (World env S) B)
      → Post Q E (f tt (record w { trace = closed_fd fd ∷ w.trace }))
      → Post Q E (and_then (close fd w) f)
  unfolding close
  Post-close fd w f h = h

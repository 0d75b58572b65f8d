-- ===== src/System/Ends.antt =====
-- How a run ends where undefined behaviour is not ruled out: the conditions under which it comes back,
-- exits and is undefined. A run that ends does not loop for ever.
use sosagent.Base.{
  ℕ, subst, ◌≡◌, Bool, true, false, if◌then◌else◌, none, some, ◌∷◌, inl, inr, Bool-cases,
}
use sosagent.System.{Pool, Ctl, control, Env}
use sosagent.System.Outcome.{Outcome, ret, exited, fault, M, check, exit, skip, and_then}
use sosagent.System.Calls.{World, epoll_ctl}
use sosagent.System.Rules.{after}

pub data Ends {S A : Type 0} (P : A → S → Type 0) (E : S → Type 0) (F : Type 0)
    : Outcome S A → Type 0 where
  comes_back : {a : A} {s : S} → P a s → Ends P E F (ret a s)
  gives_up : {s : S} → E s → Ends P E F (exited s)
  undefined : F → Ends P E F fault

module _ {S : Type 0} {E : S → Type 0} {F : Type 0} where
  pub Ends-and_then :
      {A B : Type 0} {P : A → S → Type 0} {Q : B → S → Type 0} {o : Outcome S A} (f : A → M S B)
      → Ends P E F o
      → ((a : A) (s : S) → P a s → Ends Q E F (f a s))
      → Ends Q E F (and_then o f)
  Ends-and_then f (comes_back {a} {s} p) k = k a s p
  Ends-and_then f (gives_up e) k = gives_up e
  Ends-and_then f (undefined n) k = undefined n

  pub Ends-map :
      {A : Type 0} {P Q : A → S → Type 0} {G : Type 0} {o : Outcome S A}
      → Ends P E F o
      → ((a : A) (s : S) → P a s → Q a s)
      → (F → G)
      → Ends Q E G o
  Ends-map (comes_back {a} {s} p) k n = comes_back (k a s p)
  Ends-map (gives_up e) k n = gives_up e
  Ends-map (undefined u) k n = undefined (n u)

  -- A run that comes back.
  pub Ends-ret :
      {A : Type 0} {P : A → S → Type 0} {o : Outcome S A} {a : A} {s : S}
      → Ends P E F o
      → o ≡ ret a s
      → P a s
  Ends-ret {A = A} {P = P} {a = a} {s = s} h e = of_ret (subst (λ o. Ends P E F o) e h)
    where
      of_ret : Ends P E F (ret a s) → P a s
      of_ret (comes_back p) = p

  -- A test after which the code exits.
  pub Ends-unless_failed :
      {B : Type 0} {P : B → S → Type 0} (failed : Bool) (s : S) (f : Unit {0} → M S B)
      → E s
      → Ends P E F (f tt s)
      → Ends P E F (and_then ((if failed then exit else skip) s) f)
  Ends-unless_failed true s f e go = gives_up e
  Ends-unless_failed false s f e go = go

  -- An access to an array, by the test for its bounds.
  pub Ends-if_in_bounds :
      {A B : Type 0} {P : B → S → Type 0} (b : Bool) (a : A) (s : S) (f : A → M S B)
      → (b ≡ false → F)
      → (b ≡ true → Ends P E F (f a s))
      → Ends P E F (and_then (check (if b then some a else none) s) f)
  Ends-if_in_bounds b a s f out go = elim (Bool-cases b) [
    | inl q ↦ rw q (go q)
    | inr q ↦ rw q (undefined (out q))
  ]

pub Ends-epoll_ctl_exactly :
    {env : Env} {S B : Type 0} {P : B → World env S → Type 0} {E : World env S → Type 0}
    {F : Type 0} (pool : Pool) (c : Ctl) (fd : ℕ) (w : World env S)
    (f : Unit {0} → M (World env S) B)
    → E (after w pool c fd)
    → Ends P E F (f tt (after w pool c fd))
    → Ends P E F (and_then (epoll_ctl pool c fd w) f)
unfolding epoll_ctl
Ends-epoll_ctl_exactly {env = env} {P = P} {E = E} {F = F} pool c fd w f failed ok =
    elim (env.ctl_call w.kernel pool c fd).0
      as (λ b.
        Ends P E F
          (and_then (if b then exited (after w pool c fd) else ret tt (after w pool c fd)) f)) [
            | true ↦ gives_up failed
            | false ↦ ok
          ]

-- The same whatever the machine is like afterwards.
pub Ends-epoll_ctl :
    {env : Env} {S B : Type 0} {P : B → World env S → Type 0} {E : World env S → Type 0}
    {F : Type 0} (pool : Pool) (c : Ctl) (fd : ℕ) (w : World env S)
    (f : Unit {0} → M (World env S) B)
    → ((k : env.Kernel) → E (record w { kernel = k; trace = control pool c fd ∷ w.trace }))
    → ((k : env.Kernel)
        → Ends P E F (f tt (record w { kernel = k; trace = control pool c fd ∷ w.trace })))
    → Ends P E F (and_then (epoll_ctl pool c fd w) f)
Ends-epoll_ctl {env = env} pool c fd w f failed ok =
    Ends-epoll_ctl_exactly pool c fd w f (failed (env.ctl_call w.kernel pool c fd).1)
      (ok (env.ctl_call w.kernel pool c fd).1)

-- The same where the run ends with the call.
pub Ends-last_epoll_ctl :
    {env : Env} {S : Type 0} {P : Unit {0} → World env S → Type 0} {E : World env S → Type 0}
    {F : Type 0} (pool : Pool) (c : Ctl) (fd : ℕ) (w : World env S)
    → ((k : env.Kernel) → E (record w { kernel = k; trace = control pool c fd ∷ w.trace }))
    → ((k : env.Kernel) → P tt (record w { kernel = k; trace = control pool c fd ∷ w.trace }))
    → Ends P E F (epoll_ctl pool c fd w)
unfolding epoll_ctl
Ends-last_epoll_ctl {env = env} {P = P} {E = E} {F = F} pool c fd w failed ok =
    elim (env.ctl_call w.kernel pool c fd).0
      as (λ b. Ends P E F (if b then exited (after w pool c fd) else ret tt (after w pool c fd))) [
        | true ↦ gives_up (failed (env.ctl_call w.kernel pool c fd).1)
        | false ↦ comes_back (ok (env.ctl_call w.kernel pool c fd).1)
      ]

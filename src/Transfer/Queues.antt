-- ===== src/Transfer/Queues.antt =====
-- The queues of slots that `configure_poll` allocates (network.c).
use sosagent.Base.{
  ℕ, zero, suc, ◌≡◌, refl, ap, sym, ◌∙◌, Bool, false, List, [], ◌∷◌, Option, none, some, length,
  get_elem?,
}
use sosagent.System.{Env}
use sosagent.System.Outcome.{Outcome, ret, exited, M, Ensures, exits, and_then, in_chain}
use sosagent.System.Calls.{World}
use sosagent.Client.{Slot, Client}
use sosagent.Transfer.Setup.{malloc, new_slots}

-- A queue of `n` slots, all free.
pub record Free (n : ℕ) (slots : List Slot) : Type 0 where
  pub count : length slots ≡ n
  pub unused : (j : ℕ) (s : Slot) → get_elem? slots j ≡ some s → s.in_use ≡ false

abbrev used_of : Option Slot → Bool
used_of none = false
used_of (some t) = t.in_use

Free-cons :
    (n : ℕ) (s : Slot) (slots : List Slot)
    → s.in_use ≡ false
    → Free n slots
    → Free (suc n) (s ∷ slots)
Free-cons n s slots q f = record { count = ap (λ m. suc m) f.count; unused = unused }
  where
    unused : (j : ℕ) (t : Slot) → get_elem? (s ∷ slots) j ≡ some t → t.in_use ≡ false
    unused zero t e = sym (ap used_of e) ∙ q
    unused (suc j) t e = f.unused j t e

module _ {env : Env} {B : Type 0} {P : B → World env (Client env.Table) → Type 0}
    {E : World env (Client env.Table) → Type 0} where
  pub after_malloc :
      (n : ℕ) (w : World env (Client env.Table)) (f : List ℕ → M (World env (Client env.Table)) B)
      → ((k : env.Kernel) → E (record w { kernel = k }))
      → ((bytes : List ℕ) (k : env.Kernel) → Ensures P E (f bytes (record w { kernel = k })))
      → Ensures P E (and_then (malloc n w) f)
  unfolding malloc
  after_malloc n w f failed ok = by_answer (env.malloc_call w.kernel n).0
    where
      k : env.Kernel
      k = (env.malloc_call w.kernel n).1

      by_answer :
          (r : Option (List ℕ))
          → Ensures P E (
              and_then
                (elim r as (λ _. Outcome (World env (Client env.Table)) (List ℕ)) [
                  | none ↦ exited (record w { kernel = k })
                  | some bytes ↦ ret bytes (record w { kernel = k })
                ])
                f)
      by_answer none = exits (failed k)
      by_answer (some bytes) = ok bytes k

module _ {env : Env} {B : Type 0} {P : B → World env (Client env.Table) → Type 0}
    {E : World env (Client env.Table) → Type 0} (junk : Slot) (size : ℕ) where
  pub after_new_slots :
      (n : ℕ) (w : World env (Client env.Table))
      (f : List Slot → M (World env (Client env.Table)) B)
      → ((k : env.Kernel) → E (record w { kernel = k }))
      → ((slots : List Slot) (k : env.Kernel)
          → Free n slots
          → Ensures P E (f slots (record w { kernel = k })))
      → Ensures P E (and_then (new_slots junk n size w) f)
  unfolding new_slots
  after_new_slots zero w f failed ok =
      ok [] w.kernel (record { count = refl; unused = λ j t e. cc })
  after_new_slots (suc n) w f failed ok = in_chain (malloc size w) _ f (
      after_malloc size w _ failed (λ bytes k.
        in_chain (new_slots junk n size (record w { kernel = k })) _ f (
          after_new_slots n (record w { kernel = k }) _ failed
            (λ slots k' free. ok _ k' (Free-cons n _ slots refl free)))))

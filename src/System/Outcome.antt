-- ===== src/System/Outcome.antt =====
-- Runs of C code over a state: a value, `exit`, undefined behaviour (an access out of bounds), or a
-- loop that is still turning when its fuel is used up.
use sosagent.Base.{Option, none, some}

pub data Outcome (S A : Type 0) : Type 0 where
  ret : A → S → Outcome S A
  exited : S → Outcome S A
  fault : Outcome S A
  hung : Outcome S A

abbrev pub M : Type 0 → Type 0 → Type 0
M S A = S → Outcome S A

abbrev pub pure : {S A : Type 0} → A → M S A
pure a s = ret a s

abbrev pub and_then : {S A B : Type 0} → Outcome S A → (A → M S B) → Outcome S B
and_then (ret a s) f = f a s
and_then (exited s) f = exited s
and_then fault f = fault
and_then hung f = hung

infixl 5 ◌>>=◌ ◌>>◌
abbrev pub ◌>>=◌ : {S A B : Type 0} → M S A → (A → M S B) → M S B
◌>>=◌ m f s = and_then (m s) f

abbrev pub ◌>>◌ : {S B : Type 0} → M S (Unit {0}) → M S B → M S B
◌>>◌ m k s = and_then (m s) (λ _. k)

abbrev pub exit : {S A : Type 0} → M S A
exit s = exited s

-- An access out of bounds is undefined.
abbrev pub check : {S A : Type 0} → Option A → M S A
check none s = fault
check (some a) s = ret a s

-- Out of fuel.
abbrev pub stuck : {S A : Type 0} → M S A
stuck s = hung

abbrev pub skip : {S : Type 0} → M S (Unit {0})
skip s = ret tt s

-- The run ends, and in a state that meets the condition for its way of ending; it has no undefined
-- behaviour and does not loop for ever.
pub data Ensures {S A : Type 0} (P : A → S → Type 0) (E : S → Type 0) : Outcome S A → Type 0 where
  returns : {a : A} {s : S} → P a s → Ensures P E (ret a s)
  exits : {s : S} → E s → Ensures P E (exited s)

module _ {S A B : Type 0} {P : A → S → Type 0} {Q : B → S → Type 0} {E : S → Type 0} where
  pub Ensures-and_then :
      {o : Outcome S A} (f : A → M S B)
      → Ensures P E o
      → ((a : A) (s : S) → P a s → Ensures Q E (f a s))
      → Ensures Q E (and_then o f)
  Ensures-and_then f (returns {a} {s} p) k = k a s p
  Ensures-and_then f (exits e) k = exits e

pub Ensures-mono :
    {S A : Type 0} {P Q : A → S → Type 0} {E F : S → Type 0} {o : Outcome S A}
    → Ensures P E o
    → ((a : A) (s : S) → P a s → Q a s)
    → ((s : S) → E s → F s)
    → Ensures Q F o
Ensures-mono (returns {a} {s} p) k e = returns (k a s p)
Ensures-mono (exits {s} p) k e = exits (e s p)

-- A step that is itself a chain of steps.
pub in_chain :
    {S A B C : Type 0} {P : C → S → Type 0} {E : S → Type 0} (o : Outcome S A) (g : A → M S B)
    (f : B → M S C)
    → Ensures P E (and_then o (λ a s. and_then (g a s) f))
    → Ensures P E (and_then (and_then o g) f)
in_chain (ret a s) g f h = h
in_chain (exited s) g f h = h
in_chain fault g f h = h
in_chain hung g f h = h

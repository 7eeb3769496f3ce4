-- ===== src/Prelude/Monad.antt =====
-- A method call of a service: it reads and writes a state, and returns or throws. The state comes
-- back after a throw too, since what was written before it stays written.
use mathlib.Core.Bool.{Bool}
use mathlib.Core.Path.{◌≡◌, refl}
use mathlib.Core.Logic.{◌⊎◌, inl, inr}
use mathlib.Core.Option.{Option, none, some}
use ai_planner.Prelude.Tests.{if◌then◌else◌}

pub data Result (E A : Type 0) : Type 0 where
  ok : A → Result E A
  err : E → Result E A

abbrev pub Action : Type 0 → Type 0 → Type 0 → Type 0
Action E S A = S → Result E A × S

module _ {E S A : Type 0} where
  abbrev pub pure : A → Action E S A
  pure a s = (ok a, s)

  abbrev pub throw : E → Action E S A
  throw e s = (err e, s)

  abbrev pub gets : (S → A) → Action E S A
  gets f s = (ok (f s), s)

  -- `if (!o) throw e`, and `o` from there on
  abbrev pub or_throw : Option A → E → Action E S A
  or_throw none e = throw e
  or_throw (some a) e = pure a

abbrev pub modify : {E S : Type 0} → (S → S) → Action E S (Unit {0})
modify f s = (ok tt, f s)

-- `if (c) throw e`
abbrev pub throw_if : {E S : Type 0} → Bool → E → Action E S (Unit {0})
throw_if c e s = (if c then err e else ok tt, s)

infixl 5 ◌>>=◌ ◌>>◌
abbrev pub ◌>>=◌ : {E S A B : Type 0} → Action E S A → (A → Action E S B) → Action E S B
◌>>=◌ m f s = let (r, s') = m s in elim r [ ok a ↦ f a s' | err e ↦ (err e, s') ]

abbrev pub ◌>>◌ : {E S A B : Type 0} → Action E S A → Action E S B → Action E S B
m >> k = m >>= λ _. k

pub Result-cases :
    {E A : Type 0} (r : Result E A) → ((a : A) × (r ≡ ok a)) ⊎ ((e : E) × (r ≡ err e))
Result-cases (ok a) = inl (a, refl)
Result-cases (err e) = inr (e, refl)

-- What holds of the state after a call and what follows it: after a throw, and after each answer.
pub >>=-post :
    {E S A B : Type 0} (P : S → Type 0) (m : Action E S A) (f : A → Action E S B) (s : S)
    → ((e : E) → (m s).0 ≡ err e → P (m s).1)
    → ((a : A) → (m s).0 ≡ ok a → P (f a (m s).1).1)
    → P ((m >>= f) s).1
>>=-post P m f s thrown answered = elim (Result-cases (m s).0) [
  | inl (a, e) ↦ rw (e, ◌>>=◌) (answered a e)
  | inr (x, e) ↦ rw (e, ◌>>=◌) (thrown x e)
]

-- What holds of the answer and the state of a call and what follows it.
pub >>=-both :
    {E S A B : Type 0} (Q : Result E B × S → Type 0) (m : Action E S A) (f : A → Action E S B)
    (s : S)
    → ((e : E) → (m s).0 ≡ err e → Q (err e, (m s).1))
    → ((a : A) → (m s).0 ≡ ok a → Q (f a (m s).1))
    → Q ((m >>= f) s)
>>=-both Q m f s thrown answered = elim (Result-cases (m s).0) [
  | inl (a, e) ↦ rw (e, ◌>>=◌) (answered a e)
  | inr (x, e) ↦ rw (e, ◌>>=◌) (thrown x e)
]

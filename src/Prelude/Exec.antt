-- ===== src/Prelude/Exec.antt =====
-- A request handler over a database session: it returns a value or raises, and the session comes
-- back either way, since what was written before a raise stays written until a rollback.
use mathlib.Core.Bool.{Bool}
use mathlib.Core.Option.{Option, none, some}
use mathlib.Core.Path.{◌≡◌, refl}
use aegisclaims_ai.Prelude.Tests.{if◌then◌else◌}

pub data Result (E A : Type 0) : Type 0 where
  ok : A → Result E A
  err : E → Result E A

-- `E` is the type of exceptions and `S` that of sessions.
abbrev pub Exec : Type 0 → Type 0 → Type 0 → Type 0
Exec E S A = S → Result E A × S

module _ {E S A : Type 0} where
  abbrev pub pure : A → Exec E S A
  pure a s = (ok a, s)

  abbrev pub raise : E → Exec E S A
  raise e s = (err e, s)

  abbrev pub gets : (S → A) → Exec E S A
  gets f s = (ok (f s), s)

  abbrev pub or_raise : Option A → E → Exec E S A
  or_raise none e = raise e
  or_raise (some a) e = pure a

module _ {E S : Type 0} where
  abbrev pub modify : (S → S) → Exec E S (Unit {0})
  modify f s = (ok tt, f s)

  abbrev pub raise_if : Bool → E → Exec E S (Unit {0})
  raise_if c e s = (if c then err e else ok tt, s)

module _ {E S A B : Type 0} where
  -- What follows a call: it goes on with the value, or an exception passes through.
  abbrev pub continue : Result E A → (A → Exec E S B) → Exec E S B
  continue (ok a) f s = f a s
  continue (err e) f s = (err e, s)

  infixl 5 ◌>>=◌ ◌>>◌
  abbrev pub ◌>>=◌ : Exec E S A → (A → Exec E S B) → Exec E S B
  ◌>>=◌ m f s = continue (m s).0 f (m s).1

  abbrev pub ◌>>◌ : Exec E S A → Exec E S B → Exec E S B
  m >> k = m >>= λ _. k

pub err≢ok : {E A : Type 0} {e : E} {a : A} → err e ≡ ok a → ⊥
err≢ok h = cc

pub ok-injective : {E A : Type 0} (a b : A) → (let x : Result E A = ok a in x ≡ ok b) → a ≡ b
ok-injective a b h = cc

-- What follows a call keeps the session, if each of its continuations does.
pub continue-session :
    {E S A B : Type 0} (x : Result E A × S) (f : A → Exec E S B)
    → ((a : A) (s : S) → (f a s).1 ≡ s)
    → (continue x.0 f x.1).1 ≡ x.1
continue-session (ok a, s) f h = h a s
continue-session (err e, s) f h = refl

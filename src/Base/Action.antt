-- ===== src/Base/Action.antt =====
-- A call on a store: from the store to a value and the store as it then is, or an error and the same.
-- Each statement of these stores commits by itself.
use mathlib.Core.Bool.{Bool, true, false}
use mathlib.Core.Option.{Option, none, some}
use mathlib.Core.Path.{◌≡◌, refl}

pub data Outcome (E S A : Type 0) : Type 0 where
  ok : A → S → Outcome E S A
  err : E → S → Outcome E S A

abbrev pub Action : Type 0 → Type 0 → Type 0 → Type 0
Action E S A = S → Outcome E S A

module _ {E S A B : Type 0} where
  abbrev pub bind_outcome : Outcome E S A → (A → Action E S B) → Outcome E S B
  bind_outcome (ok a s) f = f a s
  bind_outcome (err e s) f = err e s

  infixl 5 ◌>>=◌
  abbrev pub ◌>>=◌ : Action E S A → (A → Action E S B) → Action E S B
  ◌>>=◌ m f s = bind_outcome (m s) f

module _ {E S B : Type 0} where
  infixl 5 ◌>>◌
  abbrev pub ◌>>◌ : Action E S (Unit {0}) → Action E S B → Action E S B
  ◌>>◌ m k s = bind_outcome (m s) (λ _. k)

module _ {E S : Type 0} where
  abbrev pub pure : {A : Type 0} → A → Action E S A
  pure a s = ok a s

  abbrev pub raise : {A : Type 0} → E → Action E S A
  raise e s = err e s

  abbrev pub raise_if : Bool → E → Action E S (Unit {0})
  raise_if true e s = err e s
  raise_if false e s = ok tt s

  abbrev pub gets : {A : Type 0} → (S → A) → Action E S A
  gets f s = ok (f s) s

  abbrev pub modify : (S → S) → Action E S (Unit {0})
  modify f s = ok tt (f s)

  -- The row that a query found, or the error that stands for pgx.ErrNoRows.
  abbrev pub or_raise : {A : Type 0} → Option A → E → Action E S A
  or_raise none e s = err e s
  or_raise (some a) e s = ok a s

  pub after_check :
      {A : Type 0} (b : Bool) (e : E) (k : Action E S A) {a : A} {s s' : S}
      → (raise_if b e >> k) s ≡ ok a s'
      → (b ≡ false) × (k s ≡ ok a s')
  after_check true e k h = cc
  after_check false e k h = (refl, h)

  pub ok_injective :
      {A : Type 0} {a b : A} {s t : S}
      → ◌≡◌ {A = Outcome E S A} (ok a s) (ok b t)
      → (a ≡ b) × (s ≡ t)
  ok_injective {A} {a} {b} {s} {t} h = (cc, cc)

  pub or_raise-eq_ok :
      {A : Type 0} (found : Option A) (e : E) (a : A) (s s' : S)
      → or_raise found e s ≡ ok a s'
      → (found ≡ some a) × (s ≡ s')
  or_raise-eq_ok none e a s s' h = cc
  or_raise-eq_ok (some b) e a s s' h = (cc, cc)

-- Inversion of a successful bind, for proofs where the parts stay shut.
pub >>=-eq-ok :
    {E S A B : Type 0} (m : Action E S A) (f : A → Action E S B) {b : B} {s s' : S}
    → (m >>= f) s ≡ ok b s'
    → (a : A) × (t : S) × (m s ≡ ok a t) × (f a t ≡ ok b s')
>>=-eq-ok {E} {S} {A} {B} m f {b} {s} {s'} h = split (m s) refl h
  where
    split :
        (r : Outcome E S A)
        → m s ≡ r
        → bind_outcome r f ≡ ok b s'
        → (a : A) × (t : S) × (m s ≡ ok a t) × (f a t ≡ ok b s')
    split (ok a t) e h' = (a, t, e, h')
    split (err x t) e h' = cc

abbrev pub state_of : {E S A : Type 0} → Outcome E S A → S
state_of (ok a s) = s
state_of (err e s) = s

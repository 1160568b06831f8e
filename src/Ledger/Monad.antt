-- ===== src/Ledger/Monad.antt =====
-- A call of the ledger runs in a transaction: it returns a value and the new tables, or an error
-- and the tables as far as it got, which the caller must roll back.
use convert_usdt_from_trc.Base.{Bool, true, false, Option, none, some, ◌≡◌, refl, arith}
use convert_usdt_from_trc.Base.Result.{Result}
use convert_usdt_from_trc.Money
use convert_usdt_from_trc.Ledger.Rows.{World, Error, money}

pub data Outcome (A : Type 0) : Type 0 where
  ok : A → World → Outcome A
  err : Error → World → Outcome A

abbrev pub M : Type 0 → Type 0
M A = World → Outcome A

abbrev pub bind_outcome : {A B : Type 0} → Outcome A → (A → M B) → Outcome B
bind_outcome (ok a w) f = f a w
bind_outcome (err e w) f = err e w

infixl 5 ◌>>=◌ ◌>>◌
abbrev pub ◌>>=◌ : {A B : Type 0} → M A → (A → M B) → M B
◌>>=◌ m f w = bind_outcome (m w) f

abbrev pub ◌>>◌ : {B : Type 0} → M (Unit {0}) → M B → M B
◌>>◌ m k w = bind_outcome (m w) (λ _. k)

abbrev pub pure : {A : Type 0} → A → M A
pure a w = ok a w

abbrev pub raise : {A : Type 0} → Error → M A
raise e w = err e w

abbrev pub raise_if : Bool → Error → M (Unit {0})
raise_if true e w = err e w
raise_if false e w = ok tt w

abbrev pub gets : {A : Type 0} → (World → A) → M A
gets f w = ok (f w) w

abbrev pub modify : (World → World) → M (Unit {0})
modify f w = ok tt (f w)

-- The row that a query found, or the error that stands for pgx.ErrNoRows.
abbrev pub or_raise : {A : Type 0} → Option A → Error → M A
or_raise none e w = err e w
or_raise (some a) e w = ok a w

-- An error of package money.
abbrev pub lift_money : {A : Type 0} → Result Money.Error A → M A
lift_money (Result.ok a) w = ok a w
lift_money (Result.err e) w = err (money e) w

-- The caller's commit, or its rollback: what the process keeps in memory is not rolled back.
unfoldable pub in_tx : {A : Type 0} → M A → M A
in_tx m w = elim (m w) [
  | ok a w' ↦ ok a w'
  | err e w' ↦ err e (record w { halt_cache = w'.halt_cache })
]

-- Inversion of a successful bind, for proofs where the parts stay shut.
pub >>=-eq-ok :
    {A B : Type 0} (m : M A) (f : A → M B) {b : B} {w w' : World}
    → (m >>= f) w ≡ ok b w'
    → (a : A) × (v : World) × (m w ≡ ok a v) × (f a v ≡ ok b w')
>>=-eq-ok {A} {B} m f {b} {w} {w'} h = split (m w) refl h
  where
    split :
        (r : Outcome A)
        → m w ≡ r
        → bind_outcome r f ≡ ok b w'
        → (a : A) × (v : World) × (m w ≡ ok a v) × (f a v ≡ ok b w')
    split (ok a v) e h' = (a, v, e, h')
    split (err x v) e h' = cc

pub raise_if-eq-ok :
    (b : Bool) (e : Error) {u : Unit {0}} {w w' : World}
    → raise_if b e w ≡ ok u w'
    → (b ≡ false) × (w ≡ w')
raise_if-eq-ok true e h = cc
raise_if-eq-ok false e h = ground arith

pub ok_injective : {A : Type 0} {a b : A} {w w' : World} → ok a w ≡ ok b w' → (a ≡ b) × (w ≡ w')
ok_injective {A} {a} {b} {w} {w'} h = (cc, cc)

-- A check that lets the call go on has not failed, and the rest runs on the same tables.
pub after_check :
    {A : Type 0} (b : Bool) (e : Error) (k : M A) {a : A} {w w' : World}
    → (raise_if b e >> k) w ≡ ok a w'
    → (b ≡ false) × (k w ≡ ok a w')
after_check true e k h = cc
after_check false e k h = (refl, h)

pub or_raise-eq-ok :
    {A : Type 0} (found : Option A) (e : Error) (a : A) (w w' : World)
    → or_raise found e w ≡ ok a w'
    → (found ≡ some a) × (w ≡ w')
or_raise-eq-ok none e a w w' h = cc
or_raise-eq-ok (some b) e a w w' h = (cc, cc)

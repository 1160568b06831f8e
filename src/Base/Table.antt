-- ===== src/Base/Table.antt =====
-- Tables of rows: what the SQL statements of the sources do with them.
use convert_usdt_from_trc.Base.Tests.{leb, if◌then◌else◌, Bool-cases}
use convert_usdt_from_trc.Base.Int.{ℤ, pos, ◌+ℤ◌, +ℤ_assoc, zero_+ℤ, +ℤ_left_comm}
use Prim.Native.Nat.{ℕ, ◌≤◌}
use mathlib.Core.Path.{◌≡◌, refl, ap, ◌∙◌, sym, subst}
use mathlib.Core.Bool.{Bool, true, false, ◌&&◌}
use mathlib.Core.Logic.{inl, inr}
use native.Mathlib.Omega.{arith}
use mathlib.Core.Option.{Option, none, some}
use mathlib.Core.List.{List, [], ◌∷◌, ◌++◌, map}

module _ {ℓ} {A : Type ℓ} where
  -- `SELECT … WHERE p` of a single row.
  abbrev pub find : (A → Bool) → List A → Option A
  find p [] = none
  find p (x ∷ xs) = if p x then some x else find p xs

  -- `SELECT EXISTS (SELECT 1 … WHERE p)`.
  abbrev pub exists : (A → Bool) → List A → Bool
  exists p [] = false
  exists p (x ∷ xs) = if p x then true else exists p xs

  -- `SELECT … WHERE p`.
  abbrev pub select : (A → Bool) → List A → List A
  select p [] = []
  select p (x ∷ xs) = let rest = select p xs in if p x then x ∷ rest else rest

  -- `UPDATE … SET f WHERE p`.
  abbrev pub update : (A → Bool) → (A → A) → List A → List A
  update p f [] = []
  update p f (x ∷ xs) = (if p x then f x else x) ∷ update p f xs

  -- `SELECT SUM(v) … WHERE p`, 0 where no row is left.
  abbrev pub sum_where : (A → Bool) → (A → ℤ) → List A → ℤ
  sum_where p v [] = pos 0
  sum_where p v (x ∷ xs) = (if p x then v x else pos 0) +ℤ sum_where p v xs

  -- `ORDER BY key`, and Go's `sort.Slice` by a key.
  abbrev pub insert_by : (A → ℕ) → A → List A → List A
  insert_by key x [] = x ∷ []
  insert_by key x (y ∷ ys) =
      let rest = insert_by key x ys in if leb (key x) (key y) then x ∷ y ∷ ys else y ∷ rest

  unfoldable pub order_by : (A → ℕ) → List A → List A
  order_by key [] = []
  order_by key (x ∷ xs) = insert_by key x (order_by key xs)

  abbrev pub IsAscending : (A → ℕ) → List A → Type 0
  IsAscending key [] = Unit
  IsAscending key (x ∷ []) = Unit
  IsAscending key (x ∷ y ∷ ys) = (key x ≤ key y) × IsAscending key (y ∷ ys)

  pub sum_where-append :
      (p : A → Bool) (v : A → ℤ) (xs ys : List A)
      → sum_where p v (xs ++ ys) ≡ sum_where p v xs +ℤ sum_where p v ys
  sum_where-append p v [] ys = sym (zero_+ℤ _)
  sum_where-append p v (x ∷ xs) ys =
      ap (λ t. (if p x then v x else pos 0) +ℤ t) (sum_where-append p v xs ys)
      ∙ sym (+ℤ_assoc (if p x then v x else pos 0) (sum_where p v xs) (sum_where p v ys))

  -- The sum of a batch does not depend on its order.
  sum_where-insert_by :
      (p : A → Bool) (v : A → ℤ) (key : A → ℕ) (x : A) (xs : List A)
      → sum_where p v (insert_by key x xs) ≡ sum_where p v (x ∷ xs)
  sum_where-insert_by p v key x [] = refl
  sum_where-insert_by p v key x (y ∷ ys) = elim (Bool-cases (leb (key x) (key y))) [
    | inl le ↦ rw le
    | inr gt ↦ rw gt (
        ap (λ t. (if p y then v y else pos 0) +ℤ t) (sum_where-insert_by p v key x ys)
        ∙ +ℤ_left_comm (if p y then v y else pos 0) (if p x then v x else pos 0) (sum_where p v ys))
  ]

  pub sum_where-order_by :
      (p : A → Bool) (v : A → ℤ) (key : A → ℕ) (xs : List A)
      → sum_where p v (order_by key xs) ≡ sum_where p v xs
  unfolding order_by
  sum_where-order_by p v key [] = refl
  sum_where-order_by p v key (x ∷ xs) =
      sum_where-insert_by p v key x (order_by key xs)
      ∙ ap (λ t. (if p x then v x else pos 0) +ℤ t) (sum_where-order_by p v key xs)

  -- A test that does not look at the row is made once.
  pub sum_where-const_and :
      (b : Bool) (q : A → Bool) (v : A → ℤ) (xs : List A)
      → sum_where (λ x. b && q x) v xs ≡ (if b then sum_where q v xs else pos 0)
  unfolding ◌+ℤ◌
  sum_where-const_and true q v xs = refl
  sum_where-const_and false q v [] = refl
  sum_where-const_and false q v (x ∷ xs) = ap (λ t. pos 0 +ℤ t) (sum_where-const_and false q v xs)

  insert_by-IsAscending :
      (key : A → ℕ) (x : A) (xs : List A)
      → IsAscending key xs
      → IsAscending key (insert_by key x xs)
  insert_by-IsAscending key x [] h = tt
  insert_by-IsAscending key x (y ∷ []) h = ground arith
  insert_by-IsAscending key x (y ∷ z ∷ zs) h = ground (arith, insert_by-IsAscending key x (z ∷ zs))

  -- What is sorted by a key ascends in it.
  pub order_by-IsAscending : (key : A → ℕ) (xs : List A) → IsAscending key (order_by key xs)
  unfolding order_by
  order_by-IsAscending key [] = tt
  order_by-IsAscending key (x ∷ xs) =
      insert_by-IsAscending key x (order_by key xs) (order_by-IsAscending key xs)

  -- A sum over the rows that a query selects.
  pub sum_where-select :
      (p s : A → Bool) (v : A → ℤ) (xs : List A)
      → sum_where p v (select s xs) ≡ sum_where (λ x. s x && p x) v xs
  sum_where-select p s v [] = refl
  sum_where-select p s v (x ∷ xs) = elim (Bool-cases (s x)) [
    | inl kept ↦ rw kept (ap (λ t. (if p x then v x else pos 0) +ℤ t) (sum_where-select p s v xs))
    | inr dropped ↦ rw dropped (sum_where-select p s v xs ∙ sym (zero_+ℤ _))
  ]

module _ {ℓ κ} {A : Type ℓ} {B : Type κ} where
  pub sum_where-map :
      (p : B → Bool) (v : B → ℤ) (f : A → B) (xs : List A)
      → sum_where p v (map f xs) ≡ sum_where (λ x. p (f x)) (λ x. v (f x)) xs
  sum_where-map p v f [] = refl
  sum_where-map p v f (x ∷ xs) =
      ap (λ t. (if p (f x) then v (f x) else pos 0) +ℤ t) (sum_where-map p v f xs)

module _ {ℓ} {A : Type ℓ} where
  -- An UPDATE that selects no row changes nothing.
  pub update-none :
      (p : A → Bool) (f : A → A) (xs : List A) → exists p xs ≡ false → update p f xs ≡ xs
  update-none p f [] h = refl
  update-none p f (x ∷ xs) h = elim (Bool-cases (p x)) [
    | inl hit ↦ let clash = rw hit at h in cc
    | inr miss ↦ rw miss (ap (λ t. x ∷ t) (update-none p f xs (rw miss at h)))
  ]

  -- The row that a query finds satisfies its test.
  pub find-true : (p : A → Bool) (xs : List A) (x : A) → find p xs ≡ some x → p x ≡ true
  find-true p [] x h = cc
  find-true p (y ∷ ys) x h = ground (arith, find-true p ys x)

  pub exists-find :
      (p : A → Bool) (xs : List A) → exists p xs ≡ true → (x : A) × (find p xs ≡ some x)
  exists-find p [] h = cc
  exists-find p (y ∷ ys) h = elim (Bool-cases (p y)) [
    | inl hit ↦ (y, rw hit refl)
    | inr miss ↦ let (x, found) = exists-find p ys (rw miss at h) in (x, rw miss found)
  ]

  pub find-exists : (p : A → Bool) (xs : List A) (x : A) → find p xs ≡ some x → exists p xs ≡ true
  find-exists p [] x h = cc
  find-exists p (y ∷ ys) x h = ground (arith, find-exists p ys x)

  -- What an UPDATE leaves of the row that a query finds, where it does not change what the query tests.
  pub find-update :
      (q p : A → Bool) (f : A → A) (xs : List A) (x : A)
      → ((y : A) → p y ≡ true → q (f y) ≡ q y)
      → find q xs ≡ some x
      → find q (update p f xs) ≡ some (if p x then f x else x)
  find-update q p f [] x keep h = cc
  find-update q p f (y ∷ ys) x keep h = elim (Bool-cases (p y)) [
    | inl hit ↦ let same = keep y hit in ground (arith, find-update q p f ys x keep)
    | inr miss ↦ ground (arith, find-update q p f ys x keep)
  ]

  pub find-none : (p : A → Bool) (xs : List A) → find p xs ≡ none → exists p xs ≡ false
  find-none p [] h = refl
  find-none p (y ∷ ys) h = ground (arith, find-none p ys)

  pub find-exists_and :
      (p q : A → Bool) (xs : List A) (x : A)
      → find p xs ≡ some x
      → q x ≡ true
      → exists (λ y. p y && q y) xs ≡ true
  find-exists_and p q [] x h k = cc
  find-exists_and p q (y ∷ ys) x h k = elim (Bool-cases (p y)) [
    | inl hit ↦
        let here = rw hit at h in
        let same : y ≡ x = cc in
        let good = subst (λ z. q z ≡ true) (sym same) k in rw hit (rw good refl)
    | inr miss ↦ rw miss (find-exists_and p q ys x (let rest = rw miss at h in rest) k)
  ]

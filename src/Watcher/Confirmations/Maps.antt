-- ===== src/Watcher/Confirmations/Maps.antt =====
-- The keys and the maps of depositwatcher/internal/finality/async.go.
use convert_usdt_from_trc.Base.{
  ◌≡◌, refl, ap, Bool, true, false, List, [], ◌∷◌, arith, Bool-cases, inl, inr, All, ==_iff,
}
use convert_usdt_from_trc.Base.Int.{
  ℤ, is_zero, ◌-ℤ◌, is_zero_eq, pos_part, neg_part, -ℤ_parts, eq_of_parts,
}
use convert_usdt_from_trc.Base.Table.{exists}
use convert_usdt_from_trc.Base.Text.{String, str_eq, eq_iff}
use convert_usdt_from_trc.Watcher.Confirmations.{
  HashKey, FactsKey, hash_eq, facts_eq, delete, another,
}

pub hash_eq-eq : (a b : HashKey) → hash_eq a b ≡ true → a ≡ b
hash_eq-eq a b h =
    let n : a.height ≡ b.height = (==_iff a.height b.height).0 (ground (arith, h)) in
    let t : a.block_hash ≡ b.block_hash =
      (eq_iff a.block_hash b.block_hash).0 (ground (arith, h)) in
    λ x. record { height = n x; block_hash = t x }

zero_diff_eq : (a b : ℤ) → is_zero (a -ℤ b) ≡ true → a ≡ b
zero_diff_eq a b h =
    let z = is_zero_eq (a -ℤ b) h in
    let p = ap pos_part z in
    let n = ap neg_part z in let k = -ℤ_parts a b in eq_of_parts a b (omega arith)

pub facts_eq-eq : (a b : FactsKey) → facts_eq a b ≡ true → a ≡ b
facts_eq-eq a b h =
    let s : a.hash ≡ b.hash = hash_eq-eq a.hash b.hash (ground (arith, h)) in
    let o : a.order_id ≡ b.order_id = (==_iff a.order_id b.order_id).0 (ground (arith, h)) in
    let u : a.amount ≡ b.amount = zero_diff_eq a.amount b.amount (ground (arith, h)) in
    λ x. record { hash = s x; order_id = o x; amount = u x }

module _ {V : Type 0} where
  -- No provider is in a map twice.
  abbrev pub DistinctNames : List (String × V) → Type 0
  DistinctNames [] = Unit
  DistinctNames (e ∷ es) = (exists (λ x. str_eq x.0 e.0) es ≡ false) × DistinctNames es

  absent-delete :
      (n name : String) (m : List (String × V))
      → exists (λ x. str_eq x.0 n) m ≡ false
      → exists (λ x. str_eq x.0 n) (delete name m) ≡ false
  absent-delete n name [] h = refl
  absent-delete n name (e ∷ es) h = ground (arith, absent-delete n name es)

  pub deleted :
      (name : String) (m : List (String × V))
      → exists (λ x. str_eq x.0 name) (delete name m) ≡ false
  deleted name [] = refl
  deleted name (e ∷ es) = elim (Bool-cases (str_eq e.0 name)) [
    | inl same ↦ rw same (deleted name es)
    | inr other ↦ rw other (rw other (deleted name es))
  ]

  pub delete-DistinctNames :
      (name : String) (m : List (String × V)) → DistinctNames m → DistinctNames (delete name m)
  delete-DistinctNames name [] d = tt
  delete-DistinctNames name (e ∷ es) d = elim (Bool-cases (str_eq e.0 name)) [
    | inl same ↦ rw same (delete-DistinctNames name es d.1)
    | inr other ↦ rw other (absent-delete e.0 name es d.0, delete-DistinctNames name es d.1)
  ]

  -- What holds of the other providers' entries holds of all that stay.
  pub All-delete :
      (name : String) (P Q : String × V → Type 0) (m : List (String × V))
      → ((e : String × V) → str_eq e.0 name ≡ false → P e → Q e)
      → All P m
      → All Q (delete name m)
  All-delete name P Q [] f a = tt
  All-delete name P Q (e ∷ es) f a = elim (Bool-cases (str_eq e.0 name)) [
    | inl same ↦ rw same (All-delete name P Q es f a.1)
    | inr other ↦ rw other (f e other a.0, All-delete name P Q es f a.1)
  ]

  pub agreeing :
      (name : String) (differs : V → Bool) (m : List (String × V))
      → another name differs m ≡ false
      → All (λ e. differs e.1 ≡ false) (delete name m)
  agreeing name differs [] h = tt
  agreeing name differs (e ∷ es) h = elim (Bool-cases (str_eq e.0 name)) [
    | inl same ↦ rw same (agreeing name differs es (let k = rw same at h in k))
    | inr other ↦ elim (Bool-cases (differs e.1)) [
      | inl off ↦ let k = rw other at h in let bad = rw off at k in cc
      | inr on ↦ rw other (on, agreeing name differs es (let k = rw other at h in rw on at k))
    ]
  ]

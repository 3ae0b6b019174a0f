-- ===== src/Common/JsMap/Every.antt =====
-- What holds of every entry of a map, operation by operation.
use code_harbor.Common.{
  Bool, Bool-cases, Eq, [], arith, false, inl, inr, length, ltb, nat_eq, some, string_eq, subst,
  suc, sym, zero, ℕ, ◌==◌, ◌∷◌, ◌≡◌,
}
use code_harbor.Common.JsMap.{JsMap, delete, delete_oldest, delete_where, evict, get, set, shrink}

-- What holds of every entry.
module _ {ℓ κ μ} {K : Type ℓ} {V : Type κ} ⦃e : Eq K⦄ (P : K → V → Type μ) where
  abbrev pub Every : JsMap K V → Type μ
  Every [] = Unit
  Every ((k, v) ∷ m) = P k v × Every m

  pub Every-get : (m : JsMap K V) (k : K) (v : V) → Every m → get m k ≡ some v → P k v
  unfolding get
  Every-get [] k v h g = cc
  Every-get ((j, w) ∷ m) k v (p, h) g = elim (Bool-cases (j == k)) [
    | inl same ↦
        let e' : w ≡ v = ground (arith, rw same at g) in
        subst (λ x. P x v) ((e.beq_iff j k).0 same) (subst (P j) e' p)
    | inr other ↦ Every-get m k v h (ground arith)
  ]

  pub Every-set : (m : JsMap K V) (k : K) (v : V) → Every m → P k v → Every (set m k v)
  unfolding set
  Every-set [] k v h p = (p, tt)
  Every-set ((j, w) ∷ m) k v (q, h) p = elim (Bool-cases (j == k)) [
    | inl same ↦ rw same (subst (λ x. P x v) (sym ((e.beq_iff j k).0 same)) p, h)
    | inr other ↦ rw other (q, Every-set m k v h p)
  ]

  pub Every-delete : (m : JsMap K V) (k : K) → Every m → Every (delete m k)
  unfolding delete
  Every-delete [] k h = tt
  Every-delete ((j, w) ∷ m) k (q, h) = elim (Bool-cases (j == k)) [
    | inl same ↦ rw same (Every-delete m k h)
    | inr other ↦ rw other (q, Every-delete m k h)
  ]

  pub Every-delete_oldest : (m : JsMap K V) → Every m → Every (delete_oldest m)
  unfolding delete_oldest
  Every-delete_oldest [] h = tt
  Every-delete_oldest ((j, w) ∷ m) h = Every-delete ((j, w) ∷ m) j h

  pub Every-delete_where : (p : K → V → Bool) (m : JsMap K V) → Every m → Every (delete_where p m)
  unfolding delete_where
  Every-delete_where p [] h = tt
  Every-delete_where p ((j, w) ∷ m) (q, h) = elim (Bool-cases (p j w)) [
    | inl gone ↦ rw gone (Every-delete_where p m h)
    | inr kept ↦ rw kept (q, Every-delete_where p m h)
  ]

  Every-evict : (fuel max : ℕ) (m : JsMap K V) → Every m → Every (evict fuel max m)
  unfolding evict
  Every-evict zero max m h = h
  Every-evict (suc fuel) max [] h = tt
  Every-evict (suc fuel) max ((j, w) ∷ m) (q, h) = elim (Bool-cases (ltb max (suc (length m)))) [
    | inl over ↦ rw over (Every-evict fuel max (delete m j) (Every-delete m j h))
    | inr within ↦ rw within (q, h)
  ]

  pub Every-shrink : (max : ℕ) (m : JsMap K V) → Every m → Every (shrink max m)
  unfolding shrink
  Every-shrink max m h = Every-evict (length m) max m h

-- What a deletion by a test leaves does not pass the test.
pub Every-delete_where_self {ℓ κ} :
    {K : Type ℓ} {V : Type κ} ⦃e : Eq K⦄ (p : K → V → Bool) (m : JsMap K V)
    → Every (λ k v. p k v ≡ false) (delete_where p m)
unfolding delete_where
Every-delete_where_self p [] = tt
Every-delete_where_self p ((j, w) ∷ m) = elim (Bool-cases (p j w)) [
  | inl gone ↦ rw gone (Every-delete_where_self p m)
  | inr kept ↦ rw kept (kept, Every-delete_where_self p m)
]

-- ===== src/Common/JsMap.antt =====
-- The Map and Set objects of JavaScript: entries in order of insertion, each key once.
pub mod Distinct
pub mod Every
use code_harbor.Common.{
  ==_refl, Bool, Eq, List, Option, [], arith, if◌then◌else◌, is_some, length, ltb, nat_eq, none,
  refl, some, string_eq, suc, zero, ℕ, ◌==◌, ◌∷◌, ◌≡◌, ◌≤◌,
}

abbrev pub JsMap {ℓ κ} : Type ℓ → Type κ → Type (ℓ ⊔ κ)
JsMap K V = List (K × V)

abbrev pub JsSet {ℓ} : Type ℓ → Type ℓ
JsSet K = JsMap K (Unit {0})

module _ {ℓ κ} {K : Type ℓ} {V : Type κ} ⦃e : Eq K⦄ where
  unfoldable pub get : JsMap K V → K → Option V
  get [] k = none
  get ((j, v) ∷ m) k = if j == k then some v else get m k

  unfoldable pub has : JsMap K V → K → Bool
  has m k = is_some (get m k)

  -- A key that is there keeps its place.
  unfoldable pub set : JsMap K V → K → V → JsMap K V
  set [] k v = (k, v) ∷ []
  set ((j, w) ∷ m) k v = if j == k then (j, v) ∷ m else (j, w) ∷ set m k v

  unfoldable pub delete : JsMap K V → K → JsMap K V
  delete [] k = []
  delete ((j, w) ∷ m) k = let rest = delete m k in if j == k then rest else (j, w) ∷ rest

  -- `for (const [k, v] of m) if (p(k, v)) m.delete(k)`: to delete the entry that the iteration
  -- stands at does not disturb it.
  unfoldable pub delete_where : (K → V → Bool) → JsMap K V → JsMap K V
  delete_where p [] = []
  delete_where p ((j, w) ∷ m) = let rest = delete_where p m in if p j w then rest else (j, w) ∷ rest

  -- `while (m.size > max) m.delete(m.keys().next().value)`, on fuel.
  unfoldable pub evict : ℕ → ℕ → JsMap K V → JsMap K V
  evict zero max m = m
  evict (suc fuel) max [] = []
  evict (suc fuel) max ((j, w) ∷ m) =
      let rest = evict fuel max (delete m j) in
      if ltb max (suc (length m)) then rest else (j, w) ∷ m

  unfoldable pub shrink : ℕ → JsMap K V → JsMap K V
  unfolding evict delete
  shrink max m = evict (length m) max m

  -- `m.delete(m.keys().next().value)`, where there is a first key.
  unfoldable pub delete_oldest : JsMap K V → JsMap K V
  unfolding delete
  delete_oldest [] = []
  delete_oldest ((j, w) ∷ m) = delete ((j, w) ∷ m) j

  pub get-set :
      (m : JsMap K V) (k j : K) (v : V) → get (set m k v) j ≡ (if k == j then some v else get m j)
  unfolding get set
  get-set [] k j v = refl
  get-set ((i, w) ∷ m) k j v =
      ground (arith, get-set m k j v, e.beq_iff i k, e.beq_iff i j, e.beq_iff k j)

  pub get-delete :
      (m : JsMap K V) (k j : K) → get (delete m k) j ≡ (if k == j then none else get m j)
  unfolding get delete
  get-delete [] k j = ground arith
  get-delete ((i, w) ∷ m) k j =
      ground (arith, get-delete m k j, e.beq_iff i k, e.beq_iff i j, e.beq_iff k j)

  pub length-delete-le : (m : JsMap K V) (k : K) → length (delete m k) ≤ length m
  unfolding delete
  length-delete-le [] k = omega arith
  length-delete-le ((j, w) ∷ m) k = ground (arith, length-delete-le m k)

  pub length-delete_where-le :
      (p : K → V → Bool) (m : JsMap K V) → length (delete_where p m) ≤ length m
  unfolding delete_where
  length-delete_where-le p [] = omega arith
  length-delete_where-le p ((j, w) ∷ m) = ground (arith, length-delete_where-le p m)

  pub length-set-le : (m : JsMap K V) (k : K) (v : V) → length (set m k v) ≤ suc (length m)
  unfolding set
  length-set-le [] k v = omega arith
  length-set-le ((j, w) ∷ m) k v = ground (arith, length-set-le m k v)

  length-evict : (fuel max : ℕ) (m : JsMap K V) → length m ≤ fuel → length (evict fuel max m) ≤ max
  unfolding evict
  length-evict zero max [] h = omega arith
  length-evict zero max (x ∷ m) h = absurd (omega arith)
  length-evict (suc fuel) max [] h = omega arith
  length-evict (suc fuel) max ((j, w) ∷ m) h =
      ground (arith, length-evict fuel max (delete m j), length-delete-le m j)

  -- The loop ends with at most `max` entries.
  pub length-shrink-le : (max : ℕ) (m : JsMap K V) → length (shrink max m) ≤ max
  unfolding shrink
  length-shrink-le max m = length-evict (length m) max m (omega arith)

  evict_of_short : (fuel max : ℕ) (m : JsMap K V) → length m ≤ max → evict fuel max m ≡ m
  unfolding evict
  evict_of_short zero max m h = refl
  evict_of_short (suc fuel) max [] h = refl
  evict_of_short (suc fuel) max ((j, w) ∷ m) h = ground arith

  -- It does nothing to a map that is within the bound.
  pub shrink_of_short : (max : ℕ) (m : JsMap K V) → length m ≤ max → shrink max m ≡ m
  unfolding shrink
  shrink_of_short max m h = evict_of_short (length m) max m h

  pub length-delete_oldest :
      (m : JsMap K V) (n : ℕ) → length m ≤ suc n → length (delete_oldest m) ≤ n
  unfolding delete_oldest
  length-delete_oldest [] n h = omega arith
  length-delete_oldest ((j, w) ∷ m) n h = ground (arith, length-delete-le m j, ==_refl j)

  pub length-delete-lt :
      (m : JsMap K V) (k : K) (v : V) → get m k ≡ some v → suc (length (delete m k)) ≤ length m
  unfolding get delete
  length-delete-lt [] k v h = cc
  length-delete-lt ((j, w) ∷ m) k v h = ground (arith, length-delete-lt m k v, length-delete-le m k)

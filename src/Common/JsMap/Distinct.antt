-- ===== src/Common/JsMap/Distinct.antt =====
-- Maps that hold each key once, as those of JavaScript do, and what a deletion leaves of them.
use code_harbor.Common.{
  ==_refl, Bool, Bool-cases, Eq, [], ap, arith, drop, drop-append, drop-nil, false, if◌then◌else◌,
  inl, inr, last_n, length, length-append, ltb, nat_eq, none, refl, some, string_eq, suc, sym, true,
  zero, ℕ, ◌++◌, ◌-◌, ◌<◌, ◌==◌, ◌∙◌, ◌∷◌, ◌≡◌, ◌≤◌,
}
use code_harbor.Common.JsMap.{
  JsMap, delete, delete_oldest, delete_where, evict, get, get-delete, get-set, has, set, shrink,
}

module _ {ℓ κ} {K : Type ℓ} {V : Type κ} ⦃e : Eq K⦄ where
  -- Each key once.
  abbrev pub HasDistinctKeys : JsMap K V → Type 0
  HasDistinctKeys [] = Unit
  HasDistinctKeys ((k, v) ∷ m) = (has m k ≡ false) × HasDistinctKeys m

  pub has-set :
      (m : JsMap K V) (k j : K) (v : V) → has (set m k v) j ≡ (if k == j then true else has m j)
  unfolding has
  has-set m k j v = ground (arith, get-set m k j v)

  pub has-delete :
      (m : JsMap K V) (k j : K) → has (delete m k) j ≡ (if k == j then false else has m j)
  unfolding has
  has-delete m k j = ground (arith, get-delete m k j)

  pub set-HasDistinctKeys :
      (m : JsMap K V) (k : K) (v : V) → HasDistinctKeys m → HasDistinctKeys (set m k v)
  unfolding set has get
  set-HasDistinctKeys [] k v h = (refl, tt)
  set-HasDistinctKeys ((j, w) ∷ m) k v (new, h) =
      ground (arith, set-HasDistinctKeys m k v h, has-set m k j v, e.beq_iff j k, e.beq_iff k j)

  pub delete-HasDistinctKeys :
      (m : JsMap K V) (k : K) → HasDistinctKeys m → HasDistinctKeys (delete m k)
  unfolding delete
  delete-HasDistinctKeys [] k h = tt
  delete-HasDistinctKeys ((j, w) ∷ m) k (new, h) =
      ground (arith, delete-HasDistinctKeys m k h, has-delete m k j)

  pub get-delete_where-none :
      (p : K → V → Bool) (m : JsMap K V) (k : K) → get m k ≡ none → get (delete_where p m) k ≡ none
  unfolding get delete_where
  get-delete_where-none p [] k g = refl
  get-delete_where-none p ((j, w) ∷ m) k g = ground (arith, get-delete_where-none p m k)

  pub delete_oldest-HasDistinctKeys :
      (m : JsMap K V) → HasDistinctKeys m → HasDistinctKeys (delete_oldest m)
  unfolding delete_oldest
  delete_oldest-HasDistinctKeys [] h = tt
  delete_oldest-HasDistinctKeys ((j, w) ∷ m) h = delete-HasDistinctKeys ((j, w) ∷ m) j h

  has-delete_where_none :
      (p : K → V → Bool) (m : JsMap K V) (k : K)
      → has m k ≡ false
      → has (delete_where p m) k ≡ false
  unfolding has
  has-delete_where_none p m k h = ground (arith, get-delete_where-none p m k)

  -- What is deleted and what stays, entry by entry.
  pub get-delete_where :
      (p : K → V → Bool) (m : JsMap K V) (k : K) (v : V)
      → HasDistinctKeys m
      → get m k ≡ some v
      → get (delete_where p m) k ≡ (if p k v then none else some v)
  unfolding get has delete_where
  get-delete_where p [] k v h g = cc
  get-delete_where p ((j, w) ∷ m) k v (new, h) g = ground (
    arith,
    get-delete_where p m k v h,
    get-delete_where-none p m k,
    get-delete_where-none p m j,
    e.beq_iff j k,
  )

  pub get-delete_where-eq-some :
      (p : K → V → Bool) (m : JsMap K V) (k : K) (v : V)
      → get (delete_where p m) k ≡ some v
      → HasDistinctKeys m
      → get m k ≡ some v
  unfolding get has delete_where
  get-delete_where-eq-some p [] k v g h = cc
  get-delete_where-eq-some p ((j, w) ∷ m) k v g (new, h) =
      ground (arith, get-delete_where-eq-some p m k v, get-delete_where-none p m j, e.beq_iff j k)

  pub delete_where-HasDistinctKeys :
      (p : K → V → Bool) (m : JsMap K V) → HasDistinctKeys m → HasDistinctKeys (delete_where p m)
  unfolding has delete_where
  delete_where-HasDistinctKeys p [] h = tt
  delete_where-HasDistinctKeys p ((j, w) ∷ m) (new, h) =
      ground (arith, delete_where-HasDistinctKeys p m h, get-delete_where-none p m j)

  pub delete_absent : (m : JsMap K V) (k : K) → has m k ≡ false → delete m k ≡ m
  unfolding has get delete
  delete_absent [] k h = refl
  delete_absent ((j, w) ∷ m) k h = ground (arith, delete_absent m k)

  pub drop-HasDistinctKeys :
      (n : ℕ) (m : JsMap K V) → HasDistinctKeys m → HasDistinctKeys (drop n m)
  drop-HasDistinctKeys zero m h = h
  drop-HasDistinctKeys (suc n) [] h = tt
  drop-HasDistinctKeys (suc n) (x ∷ m) (new, h) = drop-HasDistinctKeys n m h

  evict-eq-drop :
      (fuel max : ℕ) (m : JsMap K V)
      → HasDistinctKeys m
      → length m ≤ fuel
      → evict fuel max m ≡ drop (length m - max) m
  unfolding evict
  evict-eq-drop zero max [] h b = sym (drop-nil (0 - max))
  evict-eq-drop zero max (x ∷ m) h b = absurd (omega arith)
  evict-eq-drop (suc fuel) max [] h b = sym (drop-nil (0 - max))
  evict-eq-drop (suc fuel) max ((j, w) ∷ m) (new, h) b =
      elim (Bool-cases (ltb max (suc (length m)))) [
        | inl over ↦
            let e : suc (length m) - max ≡ suc (length m - max) = ground arith in
            rw (over, e, delete_absent m j new) (evict-eq-drop fuel max m h (omega arith))
        | inr within ↦ let e : suc (length m) - max ≡ 0 = ground arith in rw (within, e)
      ]

  -- The oldest entries go, and the newest `max` stay.
  pub shrink-eq-last_n : (max : ℕ) (m : JsMap K V) → HasDistinctKeys m → shrink max m ≡ last_n max m
  unfolding shrink
  shrink-eq-last_n max m h = evict-eq-drop (length m) max m h (omega arith)

  pub shrink-HasDistinctKeys :
      (max : ℕ) (m : JsMap K V) → HasDistinctKeys m → HasDistinctKeys (shrink max m)
  shrink-HasDistinctKeys max m h =
      rw (shrink-eq-last_n max m h) (drop-HasDistinctKeys (length m - max) m h)

  pub get-delete_oldest-none :
      (m : JsMap K V) (k : K) → get m k ≡ none → get (delete_oldest m) k ≡ none
  unfolding delete_oldest get
  get-delete_oldest-none [] k h = refl
  get-delete_oldest-none ((j, w) ∷ m) k h = ground (arith, get-delete ((j, w) ∷ m) j k)

  get-evict-none :
      (fuel max : ℕ) (m : JsMap K V) (k : K) → get m k ≡ none → get (evict fuel max m) k ≡ none
  unfolding evict get
  get-evict-none zero max m k h = h
  get-evict-none (suc fuel) max [] k h = refl
  get-evict-none (suc fuel) max ((j, w) ∷ m) k h =
      ground (arith, get-evict-none fuel max (delete m j) k, get-delete m j k)

  pub get-shrink-none :
      (max : ℕ) (m : JsMap K V) (k : K) → get m k ≡ none → get (shrink max m) k ≡ none
  unfolding shrink
  get-shrink-none max m k h = get-evict-none (length m) max m k h

  set_absent : (m : JsMap K V) (k : K) (v : V) → has m k ≡ false → set m k v ≡ m ++ (k, v) ∷ []
  unfolding has get set
  set_absent [] k v h = refl
  set_absent ((j, w) ∷ m) k v h = ground (arith, set_absent m k v)

  get-drop-none : (n : ℕ) (m : JsMap K V) (k : K) → get m k ≡ none → get (drop n m) k ≡ none
  unfolding get
  get-drop-none zero m k h = h
  get-drop-none (suc n) [] k h = refl
  get-drop-none (suc n) ((j, w) ∷ m) k h = get-drop-none n m k (ground arith)

  get-concat : (m : JsMap K V) (k : K) (v : V) → get m k ≡ none → get (m ++ (k, v) ∷ []) k ≡ some v
  unfolding get
  get-concat [] k v h = rw (==_refl k)
  get-concat ((j, w) ∷ m) k v h = ground (arith, get-concat m k v)

  -- An entry that was put in last is not among those that go.
  pub get-shrink-set_new :
      (max : ℕ) (m : JsMap K V) (k : K) (v : V)
      → HasDistinctKeys m
      → has m k ≡ false
      → 0 < max
      → get (shrink max (set m k v)) k ≡ some v
  unfolding has
  get-shrink-set_new max m k v d h p =
      let absent : get m k ≡ none = ground arith in
      let n = length (m ++ (k, v) ∷ []) - max in
      let le : n ≤ length m = omega (arith, length-append m ((k, v) ∷ [])) in
      rw
        (
          shrink-eq-last_n max (set m k v) (set-HasDistinctKeys m k v d),
          set_absent m k v h,
          drop-append n m ((k, v) ∷ []) le,
        )
        (get-concat (drop n m) k v (get-drop-none n m k absent))

  delete_where_concat :
      (p : K → V → Bool) (m : JsMap K V) (k : K) (v : V)
      → p k v ≡ false
      → delete_where p (m ++ (k, v) ∷ []) ≡ delete_where p m ++ (k, v) ∷ []
  unfolding delete_where
  delete_where_concat p [] k v h = rw h
  delete_where_concat p ((j, w) ∷ m) k v h = ground (arith, delete_where_concat p m k v h)

  -- An entry that was put in last outlives a pruning that does not concern it.
  pub get-shrink-delete_where_new :
      (p : K → V → Bool) (max : ℕ) (m : JsMap K V) (k : K) (v : V)
      → HasDistinctKeys m
      → has m k ≡ false
      → p k v ≡ false
      → 0 < max
      → get (shrink max (delete_where p (set m k v))) k ≡ some v
  get-shrink-delete_where_new p max m k v d h keep' pos =
      let absent : has (delete_where p m) k ≡ false = has-delete_where_none p m k h in
      let e : delete_where p (set m k v) ≡ set (delete_where p m) k v =
        ap (delete_where p) (set_absent m k v h)
        ∙ delete_where_concat p m k v keep'
        ∙ sym (set_absent (delete_where p m) k v absent) in
      rw e (
        get-shrink-set_new max (delete_where p m) k v (delete_where-HasDistinctKeys p m d) absent
          pos)

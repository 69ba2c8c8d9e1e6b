-- ===== src/Std/HashMap.antt =====
-- `HashMap` as an association list with unique keys. The order of the list stands for the order of
-- iteration, which the program leaves open.
use hush_rs.Base.{
  ◌≡◌, refl, inl, inr, Bool, true, false, List, [], ◌∷◌, Option, none, some, if◌then◌else◌,
  Bool-cases, arith,
}
use hush_rs.Std.Eq.{Eq}

abbrev pub HashMap {ℓ κ} : Type ℓ → Type κ → Type (ℓ ⊔ κ)
HashMap K V = List (K × V)

module _ {ℓ} {K : Type ℓ} ⦃e : Eq K⦄ where
  pub beq_self : (k : K) → e.beq k k ≡ true
  beq_self k = (e.beq_iff k k).1 refl

  beq_false : (a b : K) → e.beq a b ≡ false → e.beq b a ≡ false
  beq_false a b h = ground (arith, e.beq_iff a b, e.beq_iff b a)

module _ {κ} {V : Type κ} where
  -- What `retain` keeps, where the test does not look at the key.
  abbrev pub keep_if : (V → Bool) → Option V → Option V
  keep_if p none = none
  keep_if p (some v) = if p v then some v else none

module _ {ℓ κ} {K : Type ℓ} {V : Type κ} where
  -- `retain`
  unfoldable pub retain : (K → V → Bool) → HashMap K V → HashMap K V
  retain p [] = []
  retain p ((k, v) ∷ m) = if p k v then (k, v) ∷ retain p m else retain p m

  -- `keys`
  unfoldable pub keys : HashMap K V → List K
  keys [] = []
  keys ((k, v) ∷ m) = k ∷ keys m

module _ {ℓ κ} {K : Type ℓ} {V : Type κ} ⦃e : Eq K⦄ where
  -- `get`
  unfoldable pub get : K → HashMap K V → Option V
  get key [] = none
  get key ((k, v) ∷ m) = if e.beq k key then some v else get key m

  -- `contains_key`
  unfoldable pub contains_key : K → HashMap K V → Bool
  contains_key key [] = false
  contains_key key ((k, v) ∷ m) = if e.beq k key then true else contains_key key m

  -- `insert`
  unfoldable pub insert : K → V → HashMap K V → HashMap K V
  insert key v [] = (key, v) ∷ []
  insert key v ((k, w) ∷ m) = if e.beq k key then (key, v) ∷ m else (k, w) ∷ insert key v m

  -- `remove`
  unfoldable pub remove : K → HashMap K V → HashMap K V
  remove key [] = []
  remove key ((k, w) ∷ m) = if e.beq k key then remove key m else (k, w) ∷ remove key m

  pub get-insert :
      (key j : K) (v : V) (m : HashMap K V)
      → get j (insert key v m) ≡ (if e.beq key j then some v else get j m)
  unfolding get insert
  get-insert key j v [] = refl
  get-insert key j v ((k, w) ∷ m) =
      ground (arith, e.beq_iff k key, e.beq_iff k j, e.beq_iff key j, get-insert key j v m)

  pub contains_key-insert :
      (key : K) (v : V) (m : HashMap K V) → contains_key key (insert key v m) ≡ true
  unfolding contains_key insert
  contains_key-insert key v [] = rw (beq_self key)
  contains_key-insert key v ((k, w) ∷ m) = ground (arith, beq_self key, contains_key-insert key v m)

  pub contains_key-remove : (key : K) (m : HashMap K V) → contains_key key (remove key m) ≡ false
  unfolding contains_key remove
  contains_key-remove key [] = refl
  contains_key-remove key ((k, w) ∷ m) = ground (arith, contains_key-remove key m)

  pub contains_key-get : (key : K) (m : HashMap K V) → get key m ≡ none → contains_key key m ≡ false
  unfolding contains_key get
  contains_key-get key [] h = refl
  contains_key-get key ((k, w) ∷ m) h = ground (arith, contains_key-get key m)

  pub get-remove :
      (key j : K) (m : HashMap K V) → get j (remove key m) ≡ (if e.beq key j then none else get j m)
  unfolding get remove
  get-remove key j [] = ground arith
  get-remove key j ((k, w) ∷ m) =
      ground (arith, e.beq_iff k key, e.beq_iff k j, e.beq_iff key j, get-remove key j m)

  abbrev pub IsAbsent : K → HashMap K V → Type 0
  IsAbsent key [] = Unit
  IsAbsent key ((k, v) ∷ m) = (e.beq k key ≡ false) × IsAbsent key m

  -- No key has two entries.
  abbrev pub IsUnique : HashMap K V → Type 0
  IsUnique [] = Unit
  IsUnique ((k, v) ∷ m) = IsAbsent k m × IsUnique m

  pub get-IsAbsent : (key : K) (m : HashMap K V) → IsAbsent key m → get key m ≡ none
  unfolding get
  get-IsAbsent key [] h = refl
  get-IsAbsent key ((k, v) ∷ m) h = rw h.0 (get-IsAbsent key m h.1)

  pub retain-IsAbsent :
      (p : K → V → Bool) (key : K) (m : HashMap K V) → IsAbsent key m → IsAbsent key (retain p m)
  unfolding retain
  retain-IsAbsent p key [] h = tt
  retain-IsAbsent p key ((k, v) ∷ m) h = elim (Bool-cases (p k v)) [
    | inl t ↦ rw t (h.0, retain-IsAbsent p key m h.1)
    | inr f ↦ rw f (retain-IsAbsent p key m h.1)
  ]

  pub retain-IsUnique : (p : K → V → Bool) (m : HashMap K V) → IsUnique m → IsUnique (retain p m)
  unfolding retain
  retain-IsUnique p [] h = tt
  retain-IsUnique p ((k, v) ∷ m) h = elim (Bool-cases (p k v)) [
    | inl t ↦ rw t (retain-IsAbsent p k m h.0, retain-IsUnique p m h.1)
    | inr f ↦ rw f (retain-IsUnique p m h.1)
  ]

  pub insert-IsAbsent :
      (j key : K) (v : V) (m : HashMap K V)
      → e.beq key j ≡ false
      → IsAbsent j m
      → IsAbsent j (insert key v m)
  unfolding insert
  insert-IsAbsent j key v [] ne h = (ne, tt)
  insert-IsAbsent j key v ((k, w) ∷ m) ne h = elim (Bool-cases (e.beq k key)) [
    | inl t ↦ rw t (ne, h.1)
    | inr f ↦ rw f (h.0, insert-IsAbsent j key v m ne h.1)
  ]

  pub insert-IsUnique : (key : K) (v : V) (m : HashMap K V) → IsUnique m → IsUnique (insert key v m)
  unfolding insert
  insert-IsUnique key v [] h = (tt, tt)
  insert-IsUnique key v ((k, w) ∷ m) h = elim (Bool-cases (e.beq k key)) [
    | inl t ↦ let same : k ≡ key = (e.beq_iff k key).0 t in rw t (rw same at h)
    | inr f ↦ rw f (insert-IsAbsent k key v m (beq_false k key f) h.0, insert-IsUnique key v m h.1)
  ]

  pub remove-IsAbsent : (j key : K) (m : HashMap K V) → IsAbsent j m → IsAbsent j (remove key m)
  unfolding remove
  remove-IsAbsent j key [] h = tt
  remove-IsAbsent j key ((k, w) ∷ m) h = elim (Bool-cases (e.beq k key)) [
    | inl t ↦ rw t (remove-IsAbsent j key m h.1)
    | inr f ↦ rw f (h.0, remove-IsAbsent j key m h.1)
  ]

  pub remove-IsUnique : (key : K) (m : HashMap K V) → IsUnique m → IsUnique (remove key m)
  unfolding remove
  remove-IsUnique key [] h = tt
  remove-IsUnique key ((k, w) ∷ m) h = elim (Bool-cases (e.beq k key)) [
    | inl t ↦ rw t (remove-IsUnique key m h.1)
    | inr f ↦ rw f (remove-IsAbsent k key m h.0, remove-IsUnique key m h.1)
  ]

  pub get-retain :
      (p : V → Bool) (key : K) (m : HashMap K V)
      → IsUnique m
      → get key (retain (λ _. p) m) ≡ keep_if p (get key m)
  unfolding get retain
  get-retain p key [] h = refl
  get-retain p key ((k, v) ∷ m) h = elim (Bool-cases (e.beq k key)) [
    | inl t ↦
        let same : k ≡ key = (e.beq_iff k key).0 t in
        let gone =
          get-IsAbsent key (retain (λ _. p) m) (retain-IsAbsent (λ _. p) key m (rw same at h.0)) in
        elim (Bool-cases (p v)) [ inl y ↦ rw (y, t, y) | inr n ↦ rw (n, t, n) gone ]
    | inr f ↦ elim (Bool-cases (p v)) [
      | inl y ↦ rw (y, f) (get-retain p key m h.1)
      | inr n ↦ rw (n, f) (get-retain p key m h.1)
    ]
  ]

-- ===== src/Assoc/Distinct.antt =====
-- One entry for each key, and a property of every entry: both are kept by the operations.
use pass_ctrl.Prelude.{
  String, ◌≡◌, ◌≢◌, refl, Bool, [], ◌∷◌, arith, ◌==◌, eq_iff, inl, inr, Bool-cases, some, All,
}
use pass_ctrl.Assoc.{Assoc, get, put, remove, remove_where}

module _ {ℓ} {V : Type ℓ} where
  -- No entry of the map has the key.
  abbrev pub IsFree : String → Assoc V → Type 0
  IsFree k [] = Unit
  IsFree k ((j, v) ∷ m) = (j ≢ k) × IsFree k m

  abbrev pub HasDistinctKeys : Assoc V → Type 0
  HasDistinctKeys [] = Unit
  HasDistinctKeys ((k, v) ∷ m) = IsFree k m × HasDistinctKeys m

  IsFree-put : (k j : String) (v : V) (m : Assoc V) → j ≢ k → IsFree k m → IsFree k (put j v m)
  unfolding put
  IsFree-put k j v [] ne h = (ne, tt)
  IsFree-put k j v ((i, w) ∷ m) ne h = elim (Bool-cases (i == j)) [
    | inl e ↦ rw e (ne, h.1)
    | inr e ↦ rw e (h.0, IsFree-put k j v m ne h.1)
  ]

  pub put-HasDistinctKeys :
      (k : String) (v : V) (m : Assoc V) → HasDistinctKeys m → HasDistinctKeys (put k v m)
  unfolding put
  put-HasDistinctKeys k v [] h = (tt, tt)
  put-HasDistinctKeys k v ((i, w) ∷ m) h = elim (Bool-cases (i == k)) [
    | inl e ↦ rw e (rw (← (eq_iff i k).0 e) h)
    | inr e ↦
        rw e
          (IsFree-put i k v m (λ p. ground (arith, eq_iff i k)) h.0, put-HasDistinctKeys k v m h.1)
  ]

  IsFree-remove_where :
      (p : String → Bool) (k : String) (m : Assoc V) → IsFree k m → IsFree k (remove_where p m)
  unfolding remove_where
  IsFree-remove_where p k [] h = tt
  IsFree-remove_where p k ((i, w) ∷ m) h = elim (Bool-cases (p i)) [
    | inl e ↦ rw e (IsFree-remove_where p k m h.1)
    | inr e ↦ rw e (h.0, IsFree-remove_where p k m h.1)
  ]

  pub remove_where-HasDistinctKeys :
      (p : String → Bool) (m : Assoc V) → HasDistinctKeys m → HasDistinctKeys (remove_where p m)
  unfolding remove_where
  remove_where-HasDistinctKeys p [] h = tt
  remove_where-HasDistinctKeys p ((i, w) ∷ m) h = elim (Bool-cases (p i)) [
    | inl e ↦ rw e (remove_where-HasDistinctKeys p m h.1)
    | inr e ↦ rw e (IsFree-remove_where p i m h.0, remove_where-HasDistinctKeys p m h.1)
  ]

  pub remove-remove_where : (k : String) (m : Assoc V) → remove k m ≡ remove_where (λ j. j == k) m
  unfolding remove remove_where
  remove-remove_where k [] = refl
  remove-remove_where k ((j, v) ∷ m) = rw (remove-remove_where k m)

  pub remove-HasDistinctKeys :
      (k : String) (m : Assoc V) → HasDistinctKeys m → HasDistinctKeys (remove k m)
  remove-HasDistinctKeys k m h =
      rw (remove-remove_where k m) (remove_where-HasDistinctKeys (λ j. j == k) m h)

module _ {ℓ κ} {V : Type ℓ} (P : String × V → Type κ) where
  pub put-All : (k : String) (v : V) (m : Assoc V) → P (k, v) → All P m → All P (put k v m)
  unfolding put
  put-All k v [] p h = (p, tt)
  put-All k v ((i, w) ∷ m) p h = elim (Bool-cases (i == k)) [
    | inl e ↦ rw e (p, h.1)
    | inr e ↦ rw e (h.0, put-All k v m p h.1)
  ]

  pub remove_where-All : (p : String → Bool) (m : Assoc V) → All P m → All P (remove_where p m)
  unfolding remove_where
  remove_where-All p [] h = tt
  remove_where-All p ((i, w) ∷ m) h = elim (Bool-cases (p i)) [
    | inl e ↦ rw e (remove_where-All p m h.1)
    | inr e ↦ rw e (h.0, remove_where-All p m h.1)
  ]

  pub remove-All : (k : String) (m : Assoc V) → All P m → All P (remove k m)
  remove-All k m h = rw (remove-remove_where k m) (remove_where-All (λ j. j == k) m h)

  pub All-get : (k : String) (m : Assoc V) {v : V} → get k m ≡ some v → All P m → P (k, v)
  unfolding get
  All-get k [] e h = cc
  All-get k ((j, w) ∷ m) {v} e h = elim (Bool-cases (j == k)) [
    | inl q ↦ let same : w ≡ v = ground arith in rw (← same, ← (eq_iff j k).0 q) h.0
    | inr q ↦ All-get k m (ground arith) h.1
  ]

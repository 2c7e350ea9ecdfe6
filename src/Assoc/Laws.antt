-- ===== src/Assoc/Laws.antt =====
-- Reading a map after each operation on it.
use pass_ctrl.Prelude.{
  String, ◌≡◌, refl, Bool, none, some, [], ◌∷◌, arith, ◌==◌, eq_iff, if◌then◌else◌, inl, inr,
  Bool-cases, ap,
}
use pass_ctrl.Assoc.{Assoc, get, put, remove, remove_where}

module _ {ℓ} {V : Type ℓ} where
  pub get-put :
      (k j : String) (v : V) (m : Assoc V)
      → get j (put k v m) ≡ (if k == j then some v else get j m)
  unfolding get put
  get-put k j v [] = refl
  get-put k j v ((i, w) ∷ m) = ground (arith, eq_iff k j, eq_iff i k, eq_iff i j, get-put k j v m)

  pub get-remove :
      (k j : String) (m : Assoc V) → get j (remove k m) ≡ (if k == j then none else get j m)
  unfolding get remove
  get-remove k j [] = ground arith
  get-remove k j ((i, v) ∷ m) = ground (arith, get-remove k j m, eq_iff i k, eq_iff i j, eq_iff k j)

  pub get-remove_where :
      (p : String → Bool) (j : String) (m : Assoc V)
      → get j (remove_where p m) ≡ (if p j then none else get j m)
  unfolding get remove_where
  get-remove_where p j [] = ground arith
  get-remove_where p j ((i, v) ∷ m) = elim (Bool-cases (i == j)) [
    | inl e ↦ ground (arith, get-remove_where p j m, ap p ((eq_iff i j).0 e))
    | inr e ↦ ground (arith, get-remove_where p j m)
  ]

  pub get-put_self : (k : String) (v : V) (m : Assoc V) → get k (put k v m) ≡ some v
  get-put_self k v m = ground (arith, get-put k k v m, eq_iff k k)

pub ruleset assoc_laws = (get-put, get-remove, get-remove_where)

-- ===== src/Assoc.antt =====
-- Go maps with string keys, as association lists with one entry for each key. A map that is read
-- without an entry gives `none`; the program's maps are never distinguished from nil but by length.
pub mod Laws
pub mod Distinct
use pass_ctrl.Prelude.{
  ℕ, String, Bool, Option, none, some, List, [], ◌∷◌, ◌==◌, if◌then◌else◌, map, is_some,
}

abbrev pub Assoc {ℓ} : Type ℓ → Type ℓ
Assoc V = List (String × V)

module _ {ℓ} {V : Type ℓ} where
  -- m[k], with whether it is there
  unfoldable pub get : String → Assoc V → Option V
  get k [] = none
  get k ((j, v) ∷ m) = if j == k then some v else get k m

  -- m[k] = v
  unfoldable pub put : String → V → Assoc V → Assoc V
  put k v [] = (k, v) ∷ []
  put k v ((j, w) ∷ m) = if j == k then (k, v) ∷ m else (j, w) ∷ put k v m

  -- delete(m, k)
  unfoldable pub remove : String → Assoc V → Assoc V
  remove k [] = []
  remove k ((j, v) ∷ m) = let rest = remove k m in if j == k then rest else (j, v) ∷ rest

  unfoldable pub has : String → Assoc V → Bool
  unfolding get
  has k m = is_some (get k m)

  -- for k, v := range from { to[k] = v }
  unfoldable pub put_all : Assoc V → Assoc V → Assoc V
  unfolding put
  put_all [] to = to
  put_all ((k, v) ∷ m) to = put_all m (put k v to)

  -- delete of every key with a property
  unfoldable pub remove_where : (String → Bool) → Assoc V → Assoc V
  remove_where p [] = []
  remove_where p ((j, v) ∷ m) = let rest = remove_where p m in if p j then rest else (j, v) ∷ rest

  abbrev pub keys : Assoc V → List String
  keys [] = []
  keys ((k, v) ∷ m) = k ∷ keys m

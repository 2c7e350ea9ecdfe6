-- ===== src/Cache/Descriptor/Excluded.antt =====
-- Headers that are kept out of the hash of a backend request.
use pass_ctrl.Prelude.{
  ◌≡◌, refl, String, Bool, true, false, not, Any, eq_iff, List, [], ◌∷◌, arith, Bool-cases, inl,
  inr, All, map, filter,
}
use pass_ctrl.Text.{◌+s◌, to_lower, sort_strings, insert_sorted}
use pass_ctrl.Assoc.{Assoc, get, keys, remove_where}
use pass_ctrl.Assoc.Laws.{get-remove_where}
use pass_ctrl.Cache.Descriptor.{BackendDescriptor, text_or_empty, is_excluded, canonical, hash}

-- A name that is on the list, in any letter case.
abbrev pub IsListed : List String → String → Type 0
IsListed exclude name = Any (λ listed. to_lower listed ≡ to_lower name) exclude

is_excluded-IsListed :
    (exclude : List String) (name : String)
    → IsListed exclude name
    → is_excluded exclude name ≡ true
unfolding is_excluded
is_excluded-IsListed [] name h = absurd h
is_excluded-IsListed (e ∷ exclude) name (inl same) =
    let equal = (eq_iff (to_lower e) (to_lower name)).1 same in ground arith
is_excluded-IsListed (e ∷ exclude) name (inr there) =
    let rest = is_excluded-IsListed exclude name there in ground arith

-- `q` drops all that `p` drops.
module _ (p q : String → Bool) (drops : (k : String) → p k ≡ true → q k ≡ true) where
  filter-keys-remove_where :
      (m : Assoc String)
      → filter (λ k. not (q k)) (keys (remove_where p m)) ≡ filter (λ k. not (q k)) (keys m)
  unfolding remove_where
  filter-keys-remove_where [] = refl
  filter-keys-remove_where ((k, v) ∷ m) = ground (arith, filter-keys-remove_where m, drops k)

  kept : (k : String) → q k ≡ false → p k ≡ false
  kept k h = elim (Bool-cases (p k)) [ inl e ↦ (let dropped = drops k e in cc) | inr e ↦ e ]

  lines-remove_where :
      (m : Assoc String) (ks : List String)
      → All (λ k. q k ≡ false) ks
      → map (λ k. k +s ":" +s text_or_empty (get k (remove_where p m))) ks
        ≡ map (λ k. k +s ":" +s text_or_empty (get k m)) ks
  lines-remove_where m [] h = refl
  lines-remove_where m (k ∷ ks) h =
      rw (get-remove_where p k m, kept k h.0, lines-remove_where m ks h.1)

module _ (p : String → Bool) where
  filter-Kept : (ks : List String) → All (λ k. p k ≡ false) (filter (λ k. not (p k)) ks)
  filter-Kept [] = tt
  filter-Kept (k ∷ ks) = elim (Bool-cases (p k)) [
    | inl e ↦ rw e (filter-Kept ks)
    | inr e ↦ rw e (e, filter-Kept ks)
  ]

  insert_sorted-All :
      (k : String) (ks : List String)
      → p k ≡ false
      → All (λ k. p k ≡ false) ks
      → All (λ k. p k ≡ false) (insert_sorted k ks)
  unfolding insert_sorted
  insert_sorted-All k [] h hs = (h, tt)
  insert_sorted-All k (j ∷ ks) h hs = ground (arith, insert_sorted-All k ks h hs.1)

  sort_strings-All :
      (ks : List String) → All (λ k. p k ≡ false) ks → All (λ k. p k ≡ false) (sort_strings ks)
  unfolding sort_strings
  sort_strings-All [] h = tt
  sort_strings-All (k ∷ ks) h = insert_sorted-All k (sort_strings ks) h.0 (sort_strings-All ks h.1)

-- The hash of a backend request does not depend on the headers that are excluded: removing from the
-- request any headers whose names are on the list, in any letter case, leaves the hash as it is.
pub hash-remove_where :
    (exclude : List String) (d : BackendDescriptor) (p : String → Bool)
    → ((k : String) → p k ≡ true → IsListed exclude k)
    → hash exclude (record d { headers = remove_where p d.headers }) ≡ hash exclude d
unfolding hash canonical
hash-remove_where exclude d p listed =
    let q = is_excluded exclude in
    let drops : (k : String) → p k ≡ true → q k ≡ true =
      λ k h. is_excluded-IsListed exclude k (listed k h) in
    rw (
      filter-keys-remove_where p q drops d.headers,
      lines-remove_where p q drops d.headers
          (sort_strings (filter (λ k. not (q k)) (keys d.headers)))
          (sort_strings-All q _ (filter-Kept q (keys d.headers))),
    )

-- ===== src/Runtime/BackendInteraction/Pages.antt =====
-- The loop over the pages of a backend ends, and asks for no address twice.
use pass_ctrl.Prelude.{
  ℕ, zero, suc, ◌+◌, ◌≤◌, ◌≡◌, refl, String, Bool, false, ◌||◌, List, [], ◌∷◌, ◌++◌, length,
  length-append, any, ok, err, arith, Bool-cases, inl, inr, ap, is_empty, ◌==◌, Result,
}
use pass_ctrl.Text.{trim_space}
use pass_ctrl.Rulechain.Types.{BackendDefinition}
use pass_ctrl.Pipeline.State.{BackendPageState}
use pass_ctrl.Runtime.BackendInteraction.{
  RenderedBackendRequest, HttpReply, Web, Walk, continue_with, fetch_page, walk_pages,
}

-- No text stands in a list twice.
abbrev pub IsDistinct : List String → Type 0
IsDistinct [] = Unit
IsDistinct (x ∷ xs) = (any (λ y. x == y) xs ≡ false) × IsDistinct xs

-- One page at most for each address, and no address twice.
pub record IsWalk {W : Type 0} (rounds : ℕ) (walk : Walk W) : Type 0 where
  pub distinct : IsDistinct walk.visited
  pub answered : length walk.pages ≤ length walk.visited
  pub bounded : length walk.visited ≤ rounds

any-append_one :
    (x y : String) (xs : List String)
    → any (λ z. x == z) (xs ++ y ∷ []) ≡ (any (λ z. x == z) xs || (x == y))
any-append_one x y [] = ground arith
any-append_one x y (z ∷ xs) = ground (arith, any-append_one x y xs)

IsDistinct-append_one :
    (xs : List String) (y : String)
    → any (λ x. x == y) xs ≡ false
    → IsDistinct xs
    → IsDistinct (xs ++ y ∷ [])
IsDistinct-append_one [] y h d = (refl, tt)
IsDistinct-append_one (x ∷ xs) y h d =
    (rw (any-append_one x y xs) (ground arith), IsDistinct-append_one xs y (ground arith) d.1)

module _ {W : Type 0} (web : Web W) (rendered : RenderedBackendRequest)
    (backend : BackendDefinition) where
  continue_with-IsWalk :
      (rounds : ℕ) (rest : String → Walk W → Walk W)
      (fetched : Result (HttpReply × BackendPageState) × W) (walk : Walk W)
      → IsDistinct walk.visited
      → length walk.pages + 1 ≤ length walk.visited
      → length walk.visited ≤ rounds
      → ((url : String) (w : Walk W)
          → IsDistinct w.visited
          → length w.pages ≤ length w.visited
          → w.visited ≡ walk.visited
          → IsWalk rounds (rest url w))
      → IsWalk rounds (continue_with web rendered backend rest fetched walk)
  unfolding continue_with
  continue_with-IsWalk rounds rest (err e, w) walk d h k on = record {
    distinct = d;
    answered = omega arith;
    bounded = k;
  }
  continue_with-IsWalk rounds rest (ok answer, w) walk d h k on =
      on _ _ d (omega (arith, length-append walk.pages (answer.1 ∷ []))) refl

  -- From a walk that asked for no address twice and has a page at most for each, the loop ends, and its
  -- walk is such a one again: it asks for one more address in each of its rounds at most.
  pub walk_pages-IsWalk :
      (n rounds : ℕ) (url : String) (walk : Walk W)
      → IsDistinct walk.visited
      → length walk.pages ≤ length walk.visited
      → length walk.visited + n ≤ rounds
      → IsWalk rounds (walk_pages web rendered backend n url walk)
  unfolding walk_pages
  walk_pages-IsWalk zero rounds url walk d h k = record {
    distinct = d;
    answered = h;
    bounded = omega arith;
  }
  walk_pages-IsWalk (suc n) rounds url walk d h k = elim (Bool-cases stops) [
    | inl e ↦ rw e (record { distinct = d; answered = h; bounded = omega arith })
    | inr e ↦ rw e (
        continue_with-IsWalk rounds (walk_pages web rendered backend n)
          (fetch_page web rendered backend (is_empty walk.visited) (trim_space url) walk.world)
          (record walk { visited = walk.visited ++ trim_space url ∷ [] })
          (IsDistinct-append_one walk.visited (trim_space url) (ground arith) d)
          (omega (arith, longer)) (omega (arith, longer))
          (λ url' w d' h' same.
            walk_pages-IsWalk n rounds url' w d' h' (omega (arith, longer, ap length same))))
  ]
    where
      stops : Bool
      stops = trim_space url == "" || any (λ seen. seen == trim_space url) walk.visited

      longer : length (walk.visited ++ trim_space url ∷ []) ≡ length walk.visited + 1
      longer = length-append walk.visited (trim_space url ∷ [])

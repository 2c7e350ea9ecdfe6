-- ===== src/Runtime/BackendRequest/Forwarded.antt =====
-- The credentials that reach the backend.
use pass_ctrl.Prelude.{
  ◌≡◌, ◌∙◌, ap, sym, refl, String, Bool, true, false, Option, none, some, List, [], ◌∷◌,
  if◌then◌else◌, ◌==◌, ◌||◌, ok, err, >>=-eq-ok, ok-injective, inl, inr,
}
use pass_ctrl.Text.{◌+s◌}
use pass_ctrl.Assoc.{get}
use pass_ctrl.Assoc.Laws.{get-put}
use pass_ctrl.Runtime.RuleAuth.{RuleAuthForward, kind-cases}
use pass_ctrl.Runtime.RuleAuth.Extraction.{or_else}
use pass_ctrl.Runtime.BackendRequest.{
  Outgoing, set_header, set_query, basic_value, apply_auth_forward, apply_auth_forwards,
}

-- What a forward writes into a header.
abbrev pub header_by : String → RuleAuthForward → Option String
header_by name f =
    if f.kind == "basic"
    then (if "Authorization" == name then some (basic_value f) else none)
    else if f.kind == "bearer"
    then (if "Authorization" == name then some ("Bearer " +s f.token) else none)
    else if f.kind == "header"
    then (if f.name == name then some f.value else none)
    else none

-- The last of the forwards that writes the header.
abbrev pub last_header : String → List RuleAuthForward → Option String
last_header name [] = none
last_header name (f ∷ fs) = or_else (last_header name fs) (header_by name f)

or_else-if :
    (b : Bool) (v : String) (o : Option String)
    → or_else (if b then some v else none) o ≡ (if b then some v else o)
or_else-if true v o = refl
or_else-if false v o = refl

module _ (name : String) (out next : Outgoing) where
  unchanged : ok out ≡ ok next → get name next.headers ≡ get name out.headers
  unchanged h = cc

  written :
      (bad : Bool) (e key value : String)
      → (if bad then err e else ok (set_header key value out)) ≡ ok next
      → get name next.headers
        ≡ or_else (if key == name then some value else none) (get name out.headers)
  written true e key value h = cc
  written false e key value h =
      let stored = get-put key name value out.headers in
      let read = or_else-if (key == name) value (get name out.headers) in
      let same = ap (λ o. get name o.headers) (ok-injective h) in cc

  elsewhere :
      (bad : Bool) (e key value : String)
      → (if bad then err e else ok (set_query key value out)) ≡ ok next
      → get name next.headers ≡ get name out.headers
  elsewhere true e key value h = cc
  elsewhere false e key value h = ap (λ o. get name o.headers) (sym (ok-injective h))

  nothing :
      (known : Bool) (e : String)
      → (if known then ok out else err e) ≡ ok next
      → get name next.headers ≡ get name out.headers
  nothing true e h = unchanged h
  nothing false e h = cc

  get-apply_auth_forward :
      (f : RuleAuthForward)
      → apply_auth_forward f out ≡ ok next
      → get name next.headers ≡ or_else (header_by name f) (get name out.headers)
  unfolding apply_auth_forward
  get-apply_auth_forward f = elim (kind-cases f.kind) [
    | inl k ↦ rw k (written (f.token == "") _ _ _)
    | inr (inl k) ↦ rw k (written (f.user == "" || f.password == "") _ _ _)
    | inr (inr (inl k)) ↦ rw k (written (f.name == "") _ _ _)
    | inr (inr (inr (inl k))) ↦ rw k (elsewhere (f.name == "") _ _ _)
    | inr (inr (inr (inr n))) ↦
        rw (n.0, n.1, n.2, n.3) (nothing (f.kind == "" || f.kind == "none") _)
  ]

or_else_assoc : (a b c : Option String) → or_else a (or_else b c) ≡ or_else (or_else a b) c
or_else_assoc none b c = refl
or_else_assoc (some v) b c = refl

-- Where applyAuthForwards succeeds, a header of the request has the value that the last forward for it
-- gives: basic and bearer credentials for Authorization, a header forward for its own name. A header
-- that no forward is for stays as it was.
pub get-apply_auth_forwards :
    (name : String) (fs : List RuleAuthForward) (out done : Outgoing)
    → apply_auth_forwards fs out ≡ ok done
    → get name done.headers ≡ or_else (last_header name fs) (get name out.headers)
unfolding apply_auth_forwards
get-apply_auth_forwards name [] out done h = unchanged name out done h
get-apply_auth_forwards name (f ∷ fs) out done h =
    let bound = >>=-eq-ok (apply_auth_forward f out) (apply_auth_forwards fs) h in
    get-apply_auth_forwards name fs bound.0 done bound.2
    ∙ ap (or_else (last_header name fs)) (get-apply_auth_forward name out bound.0 f bound.1)
    ∙ or_else_assoc (last_header name fs) (header_by name f) (get name out.headers)

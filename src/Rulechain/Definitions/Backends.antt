-- ===== src/Rulechain/Definitions/Backends.antt =====
-- What every configured backend of a compiled rule has.
use pass_ctrl.Prelude.{
  String, ◌≡◌, ◌≢◌, refl, true, false, Option, List, [], ◌∷◌, ◌==◌, ℤ, pos, negsuc, ◌≤ℤ◌, leb_ℤ,
  is_empty, if◌then◌else◌, inl, inr, Bool-cases, arith, eq_iff,
}
use pass_ctrl.Text.{trim_space, to_lower, to_upper, sort_strings}
use pass_ctrl.Assoc.{Assoc, keys}
use pass_ctrl.Assoc.Distinct.{HasDistinctKeys, put-HasDistinctKeys}
use pass_ctrl.Rulechain.Types.{BackendDefinition, BackendHeaderMap}
use pass_ctrl.Rulechain.Backend.{is_configured}
use pass_ctrl.Rulechain.Definitions.{
  BackendDefinitionSpec, Renderer, build_backend_definition, no_headers, compile_backend_header_map,
  compile_entries, entries_of, add_entry, configured_backend,
}

-- The address and the method are there, a page may be asked for, a status is accepted, and the headers
-- and the parameters have distinct names in lower case.
pub record IsUsable (b : BackendDefinition) : Type 0 where
  pub method : b.method ≢ ""
  pub pages : pos 1 ≤ℤ b.pagination.max_pages
  pub statuses : is_empty b.accepted ≡ false
  pub headers : HasDistinctKeys b.headers.entries
  pub query : HasDistinctKeys b.query.entries

add_entry-HasDistinctKeys :
    (renderer : Renderer) (key : String) (value : Option String) (out : BackendHeaderMap)
    → HasDistinctKeys out.entries
    → HasDistinctKeys (add_entry renderer key value out).entries
unfolding add_entry
add_entry-HasDistinctKeys renderer key value out h = elim (Bool-cases (key == "")) [
  | inl e ↦ simp e h
  | inr e ↦ simp e (put-HasDistinctKeys key value out.entries h)
]

compile_entries-HasDistinctKeys :
    (renderer : Renderer) (m : Assoc (Option String)) (out : BackendHeaderMap)
    → HasDistinctKeys out.entries
    → HasDistinctKeys (compile_entries renderer m out).entries
unfolding compile_entries
compile_entries-HasDistinctKeys renderer [] out h = h
compile_entries-HasDistinctKeys renderer ((name, value) ∷ m) out h =
    compile_entries-HasDistinctKeys renderer m
      (add_entry renderer (to_lower (trim_space name)) value out)
      (add_entry-HasDistinctKeys renderer (to_lower (trim_space name)) value out h)

positive : (n : ℤ) → pos 1 ≤ℤ (if leb_ℤ n (pos 0) then pos 1 else n)
positive (pos n) = ground arith
positive (negsuc n) = ground arith

some_method : (method : String) → (if method == "" then "GET" else method) ≢ ""
some_method method h = ground (arith, eq_iff method "", eq_iff "GET" "")

some_status :
    (accepted : List ℤ) → is_empty (if is_empty accepted then pos 200 ∷ [] else accepted) ≡ false
some_status [] = refl
some_status (status ∷ accepted) = refl

configured_backend-IsUsable :
    (renderer : Renderer) (spec : BackendDefinitionSpec)
    → IsUsable (configured_backend renderer spec)
unfolding configured_backend compile_backend_header_map
configured_backend-IsUsable renderer spec = record {
  method = some_method (to_upper (trim_space spec.method));
  pages = positive spec.pagination.max_pages;
  statuses = some_status spec.accepted;
  headers =
      compile_entries-HasDistinctKeys renderer
        (entries_of spec.headers (sort_strings (keys spec.headers))) no_headers tt;
  query =
      compile_entries-HasDistinctKeys renderer
        (entries_of spec.query (sort_strings (keys spec.query))) no_headers tt;
}

-- Every backend that buildBackendDefinition configures, which is one with an address, is usable: it has a
-- method, allows for at least one page, accepts some status, and has distinct names of headers and of
-- query parameters.
pub build_backend_definition-IsUsable :
    (renderer : Renderer) (spec : BackendDefinitionSpec)
    → is_configured (build_backend_definition renderer spec) ≡ true
    → IsUsable (build_backend_definition renderer spec)
unfolding build_backend_definition
build_backend_definition-IsUsable renderer spec = elim (Bool-cases (trim_space spec.url == "")) [
  | inl e ↦ rw e (λ h. cc)
  | inr e ↦ rw e (λ h. configured_backend-IsUsable renderer spec)
]

-- ===== src/Service/Pipelines/Reloaded.antt =====
-- The decision cache after a reload.
use pass_ctrl.Prelude.{
  ℕ, String, ◌≡◌, refl, ◌∙◌, ap, sym, true, false, none, some, [], ◌∷◌, ◌==◌, Result, ok, >>=-eq-ok,
  ok-injective, nat_eq_iff,
}
use Prim.Native.Char.{Char, char, code}
use Prim.Native.String.append
use Prim.Native.String.compare as string_compare
use pass_ctrl.Text.{◌+s◌, show_nat, has_prefix}
use pass_ctrl.Assoc.{Assoc}
use pass_ctrl.Assoc.Laws.{get-remove_where}
use pass_ctrl.Config.Loader.{RuleBundle}
use pass_ctrl.Cache.Memory.{MemoryCache, delete_prefix, invalidate_on_reload, lookup}
use pass_ctrl.Pipeline.State.{HttpRequest}
use pass_ctrl.Runtime.Admission.{AdmissionConfig}
use pass_ctrl.Service.Keys.{Digest, cache_key_from_request, KeySpace, derive_cache_key, key_prefix}
use pass_ctrl.Service.Serving.{EndpointRuntime}
use pass_ctrl.Rulechain.Definitions.{compile_definitions}
use pass_ctrl.Service.Endpoints.{Engines}
use pass_ctrl.Service.Pipelines.{
  Pipeline, default_spec, purge, configure_endpoints, reload, choose_default,
  install_fallback_endpoint,
}

has_prefix-append : (s t : String) → has_prefix (s +s t) s ≡ true
unfolding has_prefix
has_prefix-append String.[] t = refl
has_prefix-append (String.◌∷◌ c s) t =
    rw (append.cons c s t, has_prefix-append s t, (nat_eq_iff (code c) (code c)).1 refl) refl

nonempty : (c : Char) (s : String) → (String.◌∷◌ c s == "") ≡ false
nonempty c s = rw (string_compare.cons-nil c s) refl

filled : (s t : String) → ((s +s ":" +s t) == "") ≡ false
filled String.[] t =
    rw (append.nil (":" +s t), append.cons (char 58 tt) "" t) (nonempty (char 58 tt) ("" +s t))
filled (String.◌∷◌ c s) t = rw (append.cons c s (":" +s t)) (nonempty c (s +s ":" +s t))

lookup-delete_prefix :
    (now : ℕ) (key prefix : String) (c : MemoryCache)
    → has_prefix key prefix ≡ true
    → (prefix == "") ≡ false
    → (lookup now key (delete_prefix prefix c)).0 ≡ none
unfolding lookup delete_prefix
lookup-delete_prefix now key prefix c h e =
    rw (e, get-remove_where (λ k. has_prefix k prefix) key c.entries, h) refl

-- The memory cache as the decision cache that is a pipeline's world.
abbrev pub delete_memory : String → MemoryCache → Result (Unit {0}) × MemoryCache
delete_memory prefix c = (ok tt, delete_prefix prefix c)

abbrev pub invalidate_memory : String → MemoryCache → Result (Unit {0}) × MemoryCache
invalidate_memory prefix c = (ok tt, invalidate_on_reload prefix c)

invalidate-delete :
    (prefix : String) (c : MemoryCache)
    → (prefix == "") ≡ false
    → invalidate_on_reload prefix c ≡ delete_prefix prefix c
unfolding invalidate_on_reload
invalidate-delete prefix c e = rw e refl

lookup-invalidate :
    (now : ℕ) (key prefix : String) (c : MemoryCache)
    → has_prefix key prefix ≡ true
    → (prefix == "") ≡ false
    → (lookup now key (invalidate_on_reload prefix c)).0 ≡ none
lookup-invalidate now key prefix c h e =
    rw (invalidate-delete prefix c e) (lookup-delete_prefix now key prefix c h e)

module _ {Addr Prefix : Type 0} (engines : Engines MemoryCache Addr Prefix) where
  choose_default-keys :
      (p next : Pipeline MemoryCache) (endpoints : Assoc (EndpointRuntime MemoryCache))
      → choose_default engines p endpoints ≡ ok next
      → next.keys ≡ p.keys
  unfolding choose_default install_fallback_endpoint
  choose_default-keys p next [] h =
      let bound =
        >>=-eq-ok
          (compile_definitions engines.cel engines.regex (some engines.parser) (default_spec ∷ []))
          _ h in
      ap (λ q. q.keys) (sym (ok-injective bound.2))
  choose_default-keys p next (first ∷ []) h = ap (λ q. q.keys) (sym (ok-injective h))
  choose_default-keys p next (first ∷ second ∷ endpoints) h =
      ap (λ q. q.keys) (sym (ok-injective h))

  derive_cache_key-named :
      (digest : Digest) (keys : KeySpace) (r : HttpRequest) (endpoint : String)
      (auth : AdmissionConfig)
      → auth.allow.anonymous ≡ false
      → derive_cache_key digest keys r endpoint auth
        ≡ key_prefix keys +s digest (keys.salt +s cache_key_from_request r endpoint auth)
  unfolding derive_cache_key
  derive_cache_key-named digest keys r endpoint auth named = simp named refl

  -- A reload that succeeds leaves the memory cache without an answer, at any time, for the key of any
  -- request to an endpoint that does not allow anonymous requests.
  pub reload-lookup :
      (digest : Digest) (bundle : RuleBundle) (p next : Pipeline MemoryCache)
      (c after : MemoryCache) (r : HttpRequest) (endpoint : String) (auth : AdmissionConfig)
      (now : ℕ)
      → reload engines delete_memory invalidate_memory bundle p c ≡ ok (next, after)
      → auth.allow.anonymous ≡ false
      → (lookup now (derive_cache_key digest next.keys r endpoint auth) after).0 ≡ none
  unfolding reload configure_endpoints purge
  reload-lookup digest bundle p next c after r endpoint auth now h named =
      let bound = >>=-eq-ok (configure_endpoints engines bundle.endpoints bundle.rules p) _ h in
      let same = ok-injective bound.2 in
      let keys : next.keys ≡ p.keys =
        ap (λ q. q.0.keys) (sym same)
        ∙ choose_default-keys
            (record p { endpoints = []; default_endpoint = none; using_fallback = false }) bound.0 _
            bound.1 in
      rw (derive_cache_key-named digest next.keys r endpoint auth named, keys, ← ap (λ q. q.1) same)
        (lookup-invalidate now
          (key_prefix p.keys +s digest (p.keys.salt +s cache_key_from_request r endpoint auth))
          (key_prefix p.keys) (delete_prefix (key_prefix p.keys) c)
          (has_prefix-append (key_prefix p.keys) _)
          (filled p.keys.namespace (show_nat p.keys.epoch +s ":")))

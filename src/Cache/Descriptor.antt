-- ===== src/Cache/Descriptor.antt =====
-- internal/runtime/cache/descriptor.go: the hashes of a backend request and of upstream variables, for
-- cache keys. The hash is FNV-1a of 64 bits over UTF-8; json.Marshal comes as an argument, with "" for a
-- value that it refuses.
pub mod Excluded
use Prim.Native.Char.{Char, code}
use Prim.Native.Nat.{bit_xor}
use Prim.Native.String
use Prim.Native.String.{char_at}
use pass_ctrl.Prelude.{
  ℕ, zero, suc, ◌+◌, ◌*◌, ◌/◌, ◌%◌, ◌^◌, String, Bool, not, Option, none, some, List, [], ◌∷◌, ◌++◌,
  if◌then◌else◌, ◌==◌, ltb, map, filter, any,
}
use pass_ctrl.Text.{◌+s◌, to_lower, join, sort_strings}
use pass_ctrl.Text.Utf8.{bytes}
use pass_ctrl.Assoc.{Assoc, get, keys}
use pass_ctrl.Value.{Value}

pub record BackendDescriptor : Type 0 where
  pub method : String
  pub url : String
  pub headers : Assoc String
  pub body : String

-- hash/fnv, New64a
fnv64a : List ℕ → ℕ → ℕ
fnv64a [] h = h
fnv64a (b ∷ bs) h = fnv64a bs ((bit_xor h b * 1099511628211) % 2 ^ 64)

hex_digits : ℕ → ℕ → String → String
hex_digits zero n acc = acc
hex_digits (suc width) n acc =
    hex_digits width (n / 16) (String.◌∷◌ (char_at "0123456789abcdef" (n % 16)) acc)

-- fmt.Sprintf("%016x", h.Sum64()) after the text is written
pub hashed : String → String
hashed s = hex_digits 16 (fnv64a (bytes s) 14695981039346656037) ""

abbrev pub text_or_empty : Option String → String
text_or_empty none = ""
text_or_empty (some s) = s

unfoldable pub is_excluded : List String → String → Bool
is_excluded exclude name = any (λ e. to_lower e == to_lower name) exclude

-- What Hash writes.
unfoldable pub canonical : List String → BackendDescriptor → String
canonical exclude d =
    let names = sort_strings (filter (λ k. not (is_excluded exclude k)) (keys d.headers)) in
    d.method
    +s "|"
    +s d.url
    +s "|"
    +s join (map (λ k. k +s ":" +s text_or_empty (get k d.headers)) names) "|"
    +s "|"
    +s d.body

-- BackendDescriptor.Hash
unfoldable pub hash : List String → BackendDescriptor → String
hash exclude d = hashed (canonical exclude d)

abbrev pub encoded : (Value → String) → Option Value → String
encoded encode none = ""
encoded encode (some v) = encode v

variables_text : (Value → String) → String → Assoc Value → List String → String
variables_text encode rule vars [] = ""
variables_text encode rule vars (name ∷ names) =
    rule
    +s "."
    +s name
    +s "="
    +s encoded encode (get name vars)
    +s "|"
    +s variables_text encode rule vars names

abbrev pub vars_or_empty : Option (Assoc Value) → Assoc Value
vars_or_empty none = []
vars_or_empty (some vars) = vars

rules_text : (Value → String) → Assoc (Assoc Value) → List String → String
rules_text encode m [] = ""
rules_text encode m (rule ∷ rules) =
    let vars = vars_or_empty (get rule m) in
    variables_text encode rule vars (sort_strings (keys vars)) +s rules_text encode m rules

-- HashUpstreamVariables
unfoldable pub hash_upstream_variables : (Value → String) → Assoc (Assoc Value) → String
unfolding rules_text variables_text
hash_upstream_variables encode [] = ""
hash_upstream_variables encode (r ∷ rs) =
    hashed (rules_text encode (r ∷ rs) (sort_strings (keys (r ∷ rs))))

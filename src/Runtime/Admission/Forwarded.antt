-- ===== src/Runtime/Admission/Forwarded.antt =====
-- The parsers of X-Forwarded-For and of RFC 7239's Forwarded. An error is the text that the agent reports.
use Prim.Native.String
use pass_ctrl.Prelude.{
  String, Bool, true, false, ◌&&◌, ◌||◌, Option, none, some, List, [], ◌∷◌, ◌++◌, if◌then◌else◌,
  ◌==◌, any, is_empty, Result, ok, err, ◌>>=◌, ◌>>◌, reject_if, ltb, map,
}
use pass_ctrl.Text.{
  ◌+s◌, trim_space, to_lower, equal_fold, has_prefix, has_suffix, contains, split, cut, join,
}
use pass_ctrl.Rulechain.Auth.{between_ends}
use pass_ctrl.Runtime.Admission.{Network}

abbrev pub chain_missing : String
chain_missing = "forwarded chain missing client hop"

abbrev pub chain_invalid : String
chain_invalid = "invalid forwarded chain"

abbrev pub metadata_mismatch : String
metadata_mismatch = "forwarded metadata mismatch between headers"

abbrev pub directive_empty : String
directive_empty = "forwarded metadata missing for directive"

-- The error of netip and of net, whose texts are never shown.
abbrev entry_invalid : String
entry_invalid = "invalid forwarded entry"

or_invalid : {A : Type 0} → Option A → Result A
or_invalid none = err entry_invalid
or_invalid (some a) = ok a

parse_host : {A : Type 0} → (String → Option A) → Option String → Result A
unfolding or_invalid
parse_host parse none = err entry_invalid
parse_host parse (some host) = or_invalid (parse host)

module _ {Addr Prefix : Type 0} (net : Network Addr Prefix) where
  -- parseForwardedEntry
  unfoldable pub parse_forwarded_entry : String → Result Addr
  unfolding parse_host
  parse_forwarded_entry value =
      let split_host = parse_host net.parse_addr (net.split_host_port value) in
      elim (net.parse_addr value) [
        | some addr ↦ ok addr
        | none ↦ elim (if contains value ":" then net.parse_addr_port value else none) [
          | some addr ↦ ok addr
          | none ↦ split_host
        ]
      ]

  parse_entries : List String → Result (List Addr)
  unfolding parse_forwarded_entry
  parse_entries [] = ok []
  parse_entries (part ∷ parts) =
      let rest = parse_entries parts in
      if trim_space part == ""
      then rest
      else (do addr ← parse_forwarded_entry (trim_space part); addrs ← rest; ok (addr ∷ addrs))

  -- parseForwardedChain
  unfoldable pub parse_forwarded_chain : String → Result (List Addr)
  unfolding parse_entries
  parse_forwarded_chain header = parse_entries (split header b',')

  -- joinForwardedAddrs
  unfoldable pub join_forwarded_addrs : List Addr → String
  join_forwarded_addrs addrs = join (map net.addr_text addrs) ", "

  -- forwardedChainsEqual
  unfoldable pub forwarded_chains_equal : List Addr → List Addr → Bool
  forwarded_chains_equal [] [] = true
  forwarded_chains_equal [] (b ∷ ys) = false
  forwarded_chains_equal (a ∷ xs) [] = false
  forwarded_chains_equal (a ∷ xs) (b ∷ ys) = net.same_addr a b && forwarded_chains_equal xs ys

  is_quoted : String → Bool
  is_quoted text = ltb 1 (String.count text) && has_prefix text "\"" && has_suffix text "\""

  -- strings.ContainsAny(text, ":[]; ")
  has_special : String → Bool
  has_special text = any (λ special. contains text special) (":" ∷ "[" ∷ "]" ∷ ";" ∷ " " ∷ [])

  node : Bool → String → Result (Addr × String)
  unfolding parse_forwarded_entry has_special
  node was_quoted text =
      if text == ""
      then err chain_missing
      else if has_prefix text "_" || equal_fold text "unknown"
      then err directive_empty
      else (do
        addr ← parse_forwarded_entry text
        ok (addr, if was_quoted || has_special text then "\"" +s text +s "\"" else text))

  -- parseRFC7239ForValue
  unfoldable pub parse_for_value : String → Result (Addr × String)
  unfolding node is_quoted
  parse_for_value raw =
      let text = trim_space raw in
      if is_quoted text then node true (between_ends text) else node false text

  -- What an element of the header has given so far.
  pub record Element : Type 0 where
    pub addrs : List Addr
    pub sanitized : List String

  add_for : Result (Addr × String) → Element → Result Element
  add_for (err e) element = err e
  add_for (ok found) element = ok (record {
    addrs = element.addrs ++ found.0 ∷ [];
    sanitized = element.sanitized ++ ("for=" +s found.1) ∷ [];
  })

  add_pair : String → Option String → Element → Result Element
  unfolding add_for parse_for_value
  add_pair fragment none element =
      ok (record element { sanitized = element.sanitized ++ fragment ∷ [] })
  add_pair name (some value) element =
      let key = to_lower (trim_space name) in
      if key == "for"
      then add_for (parse_for_value (trim_space value)) element
      else ok (record element {
        sanitized = element.sanitized ++ (key +s "=" +s trim_space value) ∷ [];
      })

  -- A parameter of an element, between semicolons.
  add_param : String → Element → Result Element
  unfolding add_pair
  add_param param element =
      let fragment = trim_space param in
      let pair = cut fragment b'=' in
      if fragment == "" then ok element else add_pair pair.before pair.after element

  add_params : List String → Element → Result Element
  unfolding add_param
  add_params [] element = ok element
  add_params (param ∷ params) element = add_param param element >>= λ next. add_params params next

  -- An element of the header, between commas: its addresses, and its text put together again.
  element_of : String → Result (List Addr × String)
  unfolding add_params
  element_of text = do
    element ← add_params (split text b';') (record { addrs = []; sanitized = [] })
    reject_if (is_empty element.addrs) directive_empty
    ok (element.addrs, join element.sanitized "; ")

  elements_of : List String → Result (List Addr × List String)
  unfolding element_of
  elements_of [] = ok ([], [])
  elements_of (part ∷ parts) =
      let rest = elements_of parts in
      if trim_space part == "" then rest else (do
        element ← element_of (trim_space part)
        others ← rest
        ok (element.0 ++ others.0, element.1 ∷ others.1))

  -- parseRFC7239Forwarded
  unfoldable pub parse_rfc7239_forwarded : String → Result (List Addr × String)
  unfolding elements_of
  parse_rfc7239_forwarded header = do
    found ← elements_of (split header b',')
    reject_if (is_empty found.0) chain_missing
    ok (found.0, join found.1 ", ")

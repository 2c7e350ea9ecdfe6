-- ===== src/Rulechain/Backend.antt =====
-- internal/runtime/rulechain/backend.go: which responses a rule accepts, and the link to the next page.
-- The parsing of addresses by net/url comes as an argument.
pub mod Selection
use pass_ctrl.Prelude.{
  String, Bool, not, ◌||◌, Option, none, some, List, [], ◌∷◌, if◌then◌else◌, ◌==◌, ℤ, any, is_empty,
  int_eq,
}
use pass_ctrl.Text.{trim_space, contains, split, cut}
use pass_ctrl.Rulechain.Types.{BackendDefinition}

-- IsConfigured
abbrev pub is_configured : BackendDefinition → Bool
is_configured b = not (b.url == "")

-- Accepts
unfoldable pub accepts : BackendDefinition → ℤ → Bool
accepts b status = is_empty b.accepted || any (int_eq status) b.accepted

-- An address, resolved against a base where it is not absolute; none if it cannot be parsed.
abbrev pub Resolver : Type 0
Resolver = String → String → Option String

before_end : Option String → String → Option String
before_end none text = none
before_end (some after) text = some text

-- The text between the first `<` and the first `>`, if they come in this order.
after_start : String → Option String → Option String
unfolding before_end
after_start before none = none
after_start before (some rest) =
    if contains before ">" then none else before_end (cut rest b'>').after (cut rest b'>').before

linked : String → Option String
unfolding after_start
linked segment = after_start (cut segment b'<').before (cut segment b'<').after

resolve_link : Resolver → String → Option String → Option String
resolve_link resolve base none = none
resolve_link resolve base (some link) =
    if trim_space link == "" then none else resolve base (trim_space link)

-- One part of a Link header.
next_in_part : Resolver → String → String → Option String
unfolding linked resolve_link
next_in_part resolve base part =
    if contains (trim_space part) "rel=\"next\""
    then resolve_link resolve base (linked (trim_space part))
    else none

abbrev or_next : Option String → Option String → Option String
or_next (some link) later = some link
or_next none later = later

next_in_parts : Resolver → String → List String → Option String
unfolding next_in_part
next_in_parts resolve base [] = none
next_in_parts resolve base (part ∷ parts) =
    or_next (next_in_part resolve base part) (next_in_parts resolve base parts)

next_in_values : Resolver → String → List String → Option String
next_in_values resolve base [] = none
next_in_values resolve base (value ∷ values) =
    or_next (next_in_parts resolve base (split value b',')) (next_in_values resolve base values)

abbrev link_or_empty : Option String → String
link_or_empty none = ""
link_or_empty (some link) = link

-- NextLinkFromHeader
unfoldable pub next_link_from_header : Resolver → List String → String → String
unfolding next_in_values next_in_parts
next_link_from_header resolve values base = link_or_empty (next_in_values resolve base values)

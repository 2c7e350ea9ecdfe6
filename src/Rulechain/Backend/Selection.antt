-- ===== src/Rulechain/Backend/Selection.antt =====
-- internal/runtime/rulechain/backend.go, SelectHeaders and SelectQuery: the headers and the query
-- parameters that a rule sends to its backend. Both do the same with their maps.
use pass_ctrl.Prelude.{
  ◌≡◌, ◌≢◌, ◌⊎◌, String, Option, none, some, [], ◌∷◌, if◌then◌else◌, ◌==◌, Result, ok, err,
}
use pass_ctrl.Text.{trim_space, to_lower}
use pass_ctrl.Assoc.{Assoc, get, put}
use pass_ctrl.Rulechain.Types.{Template, BackendHeaderMap}

module _ (render : Template → Result String) where
  rendered_text : String → Result String → String
  rendered_text value (err e) = trim_space value
  rendered_text value (ok text) = trim_space text

  -- A configured value, rendered where it has a template.
  unfoldable pub configured_value : Option Template → String → String
  unfolding rendered_text
  configured_value none value = trim_space value
  configured_value (some template) value = rendered_text value (render template)

  -- What an entry sends under its name, if anything.
  unfoldable pub entry_value :
      Assoc Template → Assoc String → String → Option String → Option String
  entry_value templates raw name none = get name raw
  entry_value templates raw name (some value) =
      let text = configured_value (get name templates) value in
      if text == "" then none else some text

  put_some : String → Option String → Assoc String → Assoc String
  put_some name none out = out
  put_some name (some value) out = put name value out

  select_entries :
      Assoc Template → Assoc String → Assoc (Option String) → Assoc String → Assoc String
  unfolding put_some
  select_entries templates raw [] out = out
  select_entries templates raw ((name, value) ∷ entries) out =
      select_entries templates raw entries
        (put_some (to_lower name) (entry_value templates raw (to_lower name) value) out)

  -- SelectHeaders, SelectQuery
  unfoldable pub select : BackendHeaderMap → Assoc String → Assoc String
  unfolding select_entries
  select m raw = select_entries m.templates raw m.entries []

  -- The text that is sent for a configured one: rendered where it has a template that renders, and
  -- trimmed.
  abbrev pub IsTextOf : Option Template → String → String → Type 0
  IsTextOf none value sent = sent ≡ trim_space value
  IsTextOf (some template) value sent =
      ((text : String) × (render template ≡ ok text) × (sent ≡ trim_space text))
      ⊎ ((e : String) × (render template ≡ err e) × (sent ≡ trim_space value))

  -- An entry of the configuration sends the value under the name: the value that the request has, or the
  -- text of its own, which is not empty.
  abbrev pub IsSource : Assoc Template → Assoc String → String → String → Option String → Type 0
  IsSource templates raw name sent none = get name raw ≡ some sent
  IsSource templates raw name sent (some value) =
      IsTextOf (get name templates) value sent × (sent ≢ "")

  abbrev pub IsSentBy :
      Assoc Template → Assoc String → String → String → String × Option String → Type 0
  IsSentBy templates raw name sent entry =
      (to_lower entry.0 ≡ name) × IsSource templates raw name sent entry.1

-- ===== src/Config/Constraints.antt =====
-- internal/config/types.go: ParseValueConstraint.
pub mod Parsed
use pass_ctrl.Prelude.{ℕ, suc, String, List, [], ◌∷◌, Option, none, some, Result, ok, err, ◌>>=◌}
use pass_ctrl.Text.{◌+s◌, show_nat}
use pass_ctrl.Value.{Value, Values, no_values, value}

unfoldable pub text_of : String → ℕ → Value → Result String
text_of context idx (Value.str text) = ok text
text_of context idx _ =
    err (context +s ": value constraint array element " +s show_nat idx +s " is not a string")

unfoldable pub texts_of : String → ℕ → Values → Result (List String)
unfolding text_of
texts_of context idx no_values = ok []
texts_of context idx (value item items) = do
  text ← text_of context idx item
  texts ← texts_of context (suc idx) items
  ok (text ∷ texts)

-- ParseValueConstraint
unfoldable pub parse_value_constraint : Value → String → Result (List String)
unfolding texts_of
parse_value_constraint Value.null context = ok []
parse_value_constraint (Value.str text) context = ok (text ∷ [])
parse_value_constraint (Value.arr no_values) context =
    err (context +s ": value constraint array cannot be empty")
parse_value_constraint (Value.arr (value item items)) context =
    texts_of context 0 (value item items)
parse_value_constraint _ context =
    err (context +s ": value constraint must be string or array of strings")

-- A constraint that may be missing.
abbrev pub parse_optional : Option Value → String → Result (List String)
parse_optional none context = ok []
parse_optional (some raw) context = parse_value_constraint raw context

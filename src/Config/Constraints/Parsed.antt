-- ===== src/Config/Constraints/Parsed.antt =====
-- The constraints that parse, whatever the place that an error would name.
use pass_ctrl.Prelude.{ℕ, suc, String, ◌≡◌, refl, List, [], Option, none, some, ok, >>=-eq-ok}
use pass_ctrl.Value.{Value, Values, no_values, value}
use pass_ctrl.Config.Constraints.{parse_optional, parse_value_constraint, text_of, texts_of}

text_of-context :
    (item : Value) (c d : String) (i j : ℕ) (text : String)
    → text_of c i item ≡ ok text
    → text_of d j item ≡ ok text
unfolding text_of
text_of-context Value.null c d i j text h = cc
text_of-context (Value.bool b) c d i j text h = cc
text_of-context (Value.int n) c d i j text h = cc
text_of-context (Value.float f) c d i j text h = cc
text_of-context (Value.str s) c d i j text h = h
text_of-context (Value.obj _) c d i j text h = cc
text_of-context (Value.arr items) c d i j text h = cc

texts_of-context :
    (items : Values) (c d : String) (i j : ℕ) (texts : List String)
    → texts_of c i items ≡ ok texts
    → texts_of d j items ≡ ok texts
unfolding texts_of
texts_of-context no_values c d i j texts h = h
texts_of-context (value item items) c d i j texts h =
    let first = >>=-eq-ok (text_of c i item) _ h in
    let second = >>=-eq-ok (texts_of c (suc i) items) _ first.2 in
    rw
      (
        text_of-context item c d i j first.0 first.1,
        texts_of-context items c d (suc i) (suc j) second.0 second.1,
      )
      second.2

parse_value_constraint-context :
    (raw : Value) (c d : String) (texts : List String)
    → parse_value_constraint raw c ≡ ok texts
    → parse_value_constraint raw d ≡ ok texts
unfolding parse_value_constraint
parse_value_constraint-context Value.null c d texts h = h
parse_value_constraint-context (Value.bool b) c d texts h = cc
parse_value_constraint-context (Value.int n) c d texts h = cc
parse_value_constraint-context (Value.float f) c d texts h = cc
parse_value_constraint-context (Value.str s) c d texts h = h
parse_value_constraint-context (Value.obj _) c d texts h = cc
parse_value_constraint-context (Value.arr no_values) c d texts h = cc
parse_value_constraint-context (Value.arr (value item items)) c d texts h =
    texts_of-context (value item items) c d 0 0 texts h

-- A constraint that is missing, or that parses in every place.
abbrev pub Parses : Option Value → Type 0
Parses raw = (texts : List String) × ((context : String) → parse_optional raw context ≡ ok texts)

pub parse_optional-Parses :
    (raw : Option Value) (context : String) {texts : List String}
    → parse_optional raw context ≡ ok texts
    → Parses raw
parse_optional-Parses none context h = ([], λ d. refl)
parse_optional-Parses (some raw) context {texts} h =
    (texts, λ d. parse_value_constraint-context raw context d texts h)

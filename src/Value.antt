-- ===== src/Value.antt =====
-- Go's `any`, as CEL, JSON and YAML produce it. A number that is no int64 is kept as its text.
use pass_ctrl.Prelude.{String, Bool, ℤ}

mutual
  pub data Value : Type 0 where
    null : Value
    bool : Bool → Value
    int : ℤ → Value
    float : String → Value
    str : String → Value
    obj : Fields → Value
    arr : Values → Value

  pub data Fields : Type 0 where
    no_fields : Fields
    field : String → Value → Fields → Fields

  pub data Values : Type 0 where
    no_values : Values
    value : Value → Values → Values

-- ===== src/Cache/Duration.antt =====
-- time.Duration is an int64 count of nanoseconds, and time.Time a count of nanoseconds since the
-- zero time. `parse_duration` is time.ParseDuration, but that the fraction of a component is rounded
-- down exactly, where Go computes with a float64.
use Prim.Native.Char.{Char, code}
use Prim.Native.String
use pass_ctrl.Prelude.{
  ℕ, zero, suc, ◌+◌, ◌-◌, ◌*◌, ◌/◌, ◌≡◌, refl, ◌^◌, String, Bool, true, false, ◌&&◌, ◌||◌, Option,
  none, some, ltb, leb, nat_eq, if◌then◌else◌, ◌==◌, ℤ, pos, neg,
}

abbrev pub Duration : Type 0
Duration = ℤ

abbrev pub second : ℕ
second = 1_000_000_000

is_digit : Char → Bool
is_digit c = leb b'0' (code c) && leb (code c) b'9'

-- What a scanner read, and the text behind it.
record Scan : Type 0 where
  value : ℕ
  scale : ℕ
  seen : Bool
  rest : String

-- A run of digits: its value, ten to its length, and whether there was one.
digits : ℕ → ℕ → Bool → String → Scan
digits n scale seen String.[] = record { value = n; scale = scale; seen = seen; rest = "" }
digits n scale seen (String.◌∷◌ c s) =
    let more = digits (n * 10 + (code c - b'0')) (scale * 10) true s in
    if is_digit c
    then more
    else record { value = n; scale = scale; seen = seen; rest = String.◌∷◌ c s }

-- The fraction behind a point, if there is a point.
fraction : String → Scan
fraction String.[] = record { value = 0; scale = 1; seen = false; rest = "" }
fraction (String.◌∷◌ c s) =
    if nat_eq (code c) b'.'
    then digits 0 1 false s
    else record { value = 0; scale = 1; seen = false; rest = String.◌∷◌ c s }

-- A unit runs up to the next point or digit.
unit_text : String → String
unit_text String.[] = ""
unit_text (String.◌∷◌ c s) =
    let more = unit_text s in if is_digit c || nat_eq (code c) b'.' then "" else String.◌∷◌ c more

after_unit : String → String
after_unit String.[] = ""
after_unit (String.◌∷◌ c s) =
    let more = after_unit s in if is_digit c || nat_eq (code c) b'.' then String.◌∷◌ c s else more

unit_nanos : String → Option ℕ
unit_nanos u =
    if u == "ns"
    then some 1
    else if u == "us" || u == "µs" || u == "μs"
    then some 1_000
    else if u == "ms"
    then some 1_000_000
    else if u == "s"
    then some second
    else if u == "m"
    then some (60 * second)
    else if u == "h"
    then some (3600 * second)
    else none

infixl 5 ◌>>=◌
abbrev ◌>>=◌ {ℓ κ} : {A : Type ℓ} {B : Type κ} → Option A → (A → Option B) → Option B
none >>= k = none
some a >>= k = k a

-- One component, a number with its unit: its nanoseconds and the text behind it.
component : String → Option (ℕ × String)
component s =
    let whole = digits 0 1 false s in
    let part = fraction whole.rest in
    do
      nanos ← unit_nanos (unit_text part.rest)
      let total = whole.value * nanos + part.value * nanos / part.scale
      if (whole.seen || part.seen) && leb total (2 ^ 63)
          then some (total, after_unit part.rest)
          else none

-- The sum of the components; a component reads at least one character, so that the text's length is
-- enough fuel.
components : ℕ → ℕ → String → Option ℕ
components zero total s = none
components (suc fuel) total s = elim (s == "") [
  | true ↦ some total
  | false ↦ elim (component s) [
    | none ↦ none
    | some (nanos, rest) ↦ elim (leb (total + nanos) (2 ^ 63)) [
      | true ↦ components fuel (total + nanos) rest
      | false ↦ none
    ]
  ]
]

magnitude : String → Option ℕ
magnitude s =
    if s == "0" then some 0 else if s == "" then none else components (suc (String.count s)) 0 s

positive : ℕ → Option Duration
positive n = if ltb n (2 ^ 63) then some (pos n) else none

-- A sign in front; the least int64 is reached with a minus only.
signed : String → Option Duration
unfolding positive
signed String.[] = none
signed (String.◌∷◌ c s) =
    if nat_eq (code c) b'-'
    then (magnitude s >>= λ n. some (neg n))
    else (magnitude (if nat_eq (code c) b'+' then s else String.◌∷◌ c s) >>= positive)

-- time.ParseDuration
unfoldable pub parse_duration : String → Option Duration
unfolding is_digit digits fraction unit_text after_unit unit_nanos component components magnitude
    signed
parse_duration s = signed s

parse_duration_tests :
    (parse_duration "5m" ≡ some (pos (300 * second)))
    × (parse_duration "1h30m" ≡ some (pos (5400 * second)))
    × (parse_duration "-1.5s" ≡ some (neg 1_500_000_000))
    × (parse_duration "0" ≡ some (pos 0))
    × (parse_duration "5" ≡ none)
    × (parse_duration "" ≡ none)
    × (parse_duration "9223372037s" ≡ none)
unfolding parse_duration
parse_duration_tests = (refl, refl, refl, refl, refl, refl, refl)

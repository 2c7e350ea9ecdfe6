-- ===== src/Text/Decoding.antt =====
-- encoding/base64's StdEncoding.DecodeString, and the code points that Go finds in a sequence of bytes:
-- a byte that is no part of a well-formed code point counts as U+FFFD.
pub mod Base64
pub mod CodePoints
pub mod Visible
use Prim.Native.Char.{Char, char, code, IsLt, IsScalar}
use Prim.Native.Nat.{compare, Ordering}
use Prim.Native.String
use pass_ctrl.Prelude.{
  ℕ, zero, suc, ◌+◌, ◌-◌, ◌*◌, ◌/◌, ◌%◌, String, Bool, true, false, ◌&&◌, ◌||◌, Option, none, some,
  List, [], ◌∷◌, ◌++◌, if◌then◌else◌, ltb, leb, nat_eq, is_empty, length, ◌≡◌, refl,
}
use pass_ctrl.Text.Utf8.{bytes, utf8}

-- The text without the line breaks, which the decoder skips.
symbols : String → List ℕ
symbols String.[] = []
symbols (String.◌∷◌ c s) =
    let rest = symbols s in if nat_eq (code c) 10 || nat_eq (code c) 13 then rest else code c ∷ rest

-- The value of a symbol, or 0xff.
pub sextet : ℕ → ℕ
sextet n =
    if leb b'A' n && leb n b'Z'
    then n - b'A'
    else if leb b'a' n && leb n b'z'
    then n - b'a' + 26
    else if leb b'0' n && leb n b'9'
    then n - b'0' + 52
    else if nat_eq n b'+'
    then 62
    else if nat_eq n b'/'
    then 63
    else 0xff

-- The bytes of a group of four symbols, with whether it is padded.
pub group : ℕ → ℕ → ℕ → ℕ → Option (List ℕ × Bool)
group a b c d =
    let p = sextet a in
    let q = sextet b in
    let r = sextet c in
    let s = sextet d in
    if leb 64 p || leb 64 q
    then none
    else if nat_eq c b'=' && nat_eq d b'='
    then some ((p * 4 + q / 16) ∷ [], true)
    else if leb 64 r
    then none
    else if nat_eq d b'='
    then some ((p * 4 + q / 16) ∷ (q % 16 * 16 + r / 4) ∷ [], true)
    else if leb 64 s
    then none
    else some ((p * 4 + q / 16) ∷ (q % 16 * 16 + r / 4) ∷ (r % 4 * 64 + s) ∷ [], false)

-- Nothing follows a padded group.
pub join_group : Option (List ℕ × Bool) → Bool → Option (List ℕ) → Option (List ℕ)
join_group none last rest = none
join_group (some (found, padded)) last none = none
join_group (some (found, true)) last (some rest) = if last then some found else none
join_group (some (found, false)) last (some rest) = some (found ++ rest)

pub decode_groups : List ℕ → Option (List ℕ)
decode_groups [] = some []
decode_groups (a ∷ []) = none
decode_groups (a ∷ b ∷ []) = none
decode_groups (a ∷ b ∷ c ∷ []) = none
decode_groups (a ∷ b ∷ c ∷ d ∷ rest) =
    join_group (group a b c d) (is_empty rest) (decode_groups rest)

-- base64.StdEncoding.DecodeString
pub decode_base64 : String → Option (List ℕ)
decode_base64 s = decode_groups (symbols s)

-- IsScalar of a number, by its comparisons.
abbrev Both : Ordering → Ordering → Type 0
Both Ordering.lt o = IsLt o
Both Ordering.eq _ = ⊥
Both Ordering.gt _ = ⊥

abbrev HasScalar : Ordering → Ordering → Ordering → Type 0
HasScalar Ordering.lt _ _ = Unit
HasScalar Ordering.eq o p = Both o p
HasScalar Ordering.gt o p = Both o p

abbrev beyond : {T : Type 0} (o p : Ordering) → (Both o p → T) → Option T
beyond Ordering.lt Ordering.lt f = some (f tt)
beyond _ _ f = none

abbrev scalar_case : {T : Type 0} (o p q : Ordering) → (HasScalar o p q → T) → Option T
scalar_case Ordering.lt p q f = some (f tt)
scalar_case Ordering.eq p q f = beyond p q f
scalar_case Ordering.gt p q f = beyond p q f

-- The character with this number, if there is one.
pub character : ℕ → Option Char
character n = scalar_case (compare n 55296) (compare 57343 n) (compare n 1114112) (λ h. char n h)

continues : ℕ → Bool
continues n = leb 0x80 n && leb n 0xbf

-- A code point of several bytes: a number that needs as many.
at_least : Bool → ℕ → ℕ → Option Char
unfolding character
at_least well_formed least n = if well_formed && leb least n then character n else none

two_bytes : ℕ → ℕ → Option Char
unfolding at_least continues
two_bytes a b =
    at_least (leb 0xc0 a && leb a 0xdf && continues b) 0x80 ((a - 0xc0) * 64 + (b - 0x80))

three_bytes : ℕ → ℕ → ℕ → Option Char
unfolding at_least continues
three_bytes a b c =
    at_least (leb 0xe0 a && leb a 0xef && continues b && continues c) 0x800
      ((a - 0xe0) * 4096 + (b - 0x80) * 64 + (c - 0x80))

four_bytes : ℕ → ℕ → ℕ → ℕ → Option Char
unfolding at_least continues
four_bytes a b c d =
    at_least (leb 0xf0 a && leb a 0xf7 && continues b && continues c && continues d) 0x10000
      ((a - 0xf0) * 262144 + (b - 0x80) * 4096 + (c - 0x80) * 64 + (d - 0x80))

one_byte : ℕ → Option Char
unfolding character
one_byte a = if ltb a 0x80 then character a else none

-- The first code point that there is, with the number of bytes behind its first one.
first_of : List (Option Char) → ℕ → Char × ℕ
first_of [] n = (char 0xfffd tt, 0)
first_of (none ∷ cs) n = first_of cs (suc n)
first_of (some c ∷ cs) n = (c, n)

front : ℕ → List ℕ → Char × ℕ
unfolding one_byte two_bytes three_bytes four_bytes first_of
front a [] = first_of (one_byte a ∷ []) 0
front a (b ∷ []) = first_of (one_byte a ∷ two_bytes a b ∷ []) 0
front a (b ∷ c ∷ []) = first_of (one_byte a ∷ two_bytes a b ∷ three_bytes a b c ∷ []) 0
front a (b ∷ c ∷ d ∷ rest) =
    first_of (one_byte a ∷ two_bytes a b ∷ three_bytes a b c ∷ four_bytes a b c d ∷ []) 0

-- The text of the bytes, after some that belong to the code point before.
runes_after : ℕ → List ℕ → String
unfolding front
runes_after n [] = ""
runes_after zero (a ∷ rest) =
    let found = front a rest in String.◌∷◌ found.0 (runes_after found.1 rest)
runes_after (suc n) (a ∷ rest) = runes_after n rest

-- string(decoded), as `range` reads it
pub runes : List ℕ → String
unfolding runes_after
runes = runes_after 0

abbrev text_of : Option (List ℕ) → Option String
text_of none = none
text_of (some found) = some (runes found)

decoding_tests :
    (text_of (decode_base64 "dXNlcjpwYXNz") ≡ some "user:pass")
    × (text_of (decode_base64 "YTrD\nqQ==") ≡ some "a:é")
    × (text_of (decode_base64 "YWI6Yw=") ≡ none)
    × (text_of (decode_base64 "YQ==YQ==") ≡ none)
    × (text_of (decode_base64 "") ≡ some "")
    × (runes (0xc3 ∷ 0x28 ∷ []) ≡ "�(")
    × (runes (bytes "aé→😀") ≡ "aé→😀")
unfolding decode_base64 symbols decode_groups group join_group sextet runes runes_after front
    first_of one_byte two_bytes three_bytes four_bytes at_least continues character bytes utf8
decoding_tests = (refl, refl, refl, refl, refl, refl, refl)

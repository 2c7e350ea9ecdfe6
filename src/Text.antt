-- ===== src/Text.antt =====
-- Go's `strings` and `sort` packages, as far as the program uses them. A Go string is modelled by a
-- sequence of code points. `ToLower`, `ToUpper` and `EqualFold` act on ASCII letters and leave every
-- other character alone; `TrimSpace` strips the white space of `unicode.IsSpace`.
pub mod Trimmed
pub mod Utf8
pub mod Decoding
use Prim.Native.Char.{Char, code}
use Prim.Native.String
use Prim.Native.String.{char_at}
use pass_ctrl.Prelude.{
  ℕ, zero, suc, ◌-◌, ◌/◌, ◌%◌, String, Bool, true, false, ◌&&◌, ◌||◌, Option, none, some, List, ltb,
  leb, nat_eq, if◌then◌else◌, ◌==◌,
}
use mathlib.Core.List.{[], ◌∷◌}

infixr 65 ◌+s◌
abbrev pub ◌+s◌ : String → String → String
s +s t = String.◌++◌ s t

-- unicode.IsSpace
unfoldable pub is_space : Char → Bool
is_space c =
    let n = code c in
    (leb 9 n && leb n 13)
    || nat_eq n 32
    || nat_eq n 0x85
    || nat_eq n 0xa0
    || nat_eq n 0x1680
    || (leb 0x2000 n && leb n 0x200a)
    || nat_eq n 0x2028
    || nat_eq n 0x2029
    || nat_eq n 0x202f
    || nat_eq n 0x205f
    || nat_eq n 0x3000

unfoldable pub trim_left : String → String
trim_left String.[] = ""
trim_left (String.◌∷◌ c s) = if is_space c then trim_left s else String.◌∷◌ c s

-- A character in front of what is left of the text behind it.
unfoldable pub attach : Char → String → String
attach c String.[] = if is_space c then "" else String.◌∷◌ c ""
attach c (String.◌∷◌ d s) = String.◌∷◌ c (String.◌∷◌ d s)

unfoldable pub trim_right : String → String
trim_right String.[] = ""
trim_right (String.◌∷◌ c s) = attach c (trim_right s)

-- strings.TrimSpace
unfoldable pub trim_space : String → String
unfolding is_space trim_left attach trim_right
trim_space s = trim_right (trim_left s)

unfoldable pub lower_char : Char → Char
lower_char c =
    if leb b'A' (code c) && leb (code c) b'Z'
    then char_at "abcdefghijklmnopqrstuvwxyz" (code c - b'A')
    else c

unfoldable pub upper_char : Char → Char
upper_char c =
    if leb b'a' (code c) && leb (code c) b'z'
    then char_at "ABCDEFGHIJKLMNOPQRSTUVWXYZ" (code c - b'a')
    else c

map_chars : (Char → Char) → String → String
map_chars f String.[] = ""
map_chars f (String.◌∷◌ c s) = String.◌∷◌ (f c) (map_chars f s)

-- strings.ToLower
unfoldable pub to_lower : String → String
unfolding lower_char map_chars
to_lower = map_chars lower_char

-- strings.ToUpper
unfoldable pub to_upper : String → String
unfolding upper_char map_chars
to_upper = map_chars upper_char

-- The least of the characters that Unicode folds together, if one of them is an ASCII letter: the long s
-- folds to s, and the sign of kelvin to k.
unfoldable pub fold_char : Char → Char
unfolding lower_char
fold_char c =
    if nat_eq (code c) 0x17f
    then char_at "s" 0
    else if nat_eq (code c) 0x212a
    then char_at "k" 0
    else lower_char c

-- strings.EqualFold, where one of the texts is ASCII
unfoldable pub equal_fold : String → String → Bool
unfolding fold_char map_chars
equal_fold s t = map_chars fold_char s == map_chars fold_char t

-- strings.HasPrefix
unfoldable pub has_prefix : String → String → Bool
has_prefix s String.[] = true
has_prefix String.[] (String.◌∷◌ d t) = false
has_prefix (String.◌∷◌ c s) (String.◌∷◌ d t) = nat_eq (code c) (code d) && has_prefix s t

-- strings.HasSuffix
unfoldable pub has_suffix : String → String → Bool
has_suffix String.[] t = "" == t
has_suffix (String.◌∷◌ c s) t = String.◌∷◌ c s == t || has_suffix s t

-- strings.Contains
unfoldable pub contains : String → String → Bool
unfolding has_prefix
contains String.[] t = has_prefix "" t
contains (String.◌∷◌ c s) t = has_prefix (String.◌∷◌ c s) t || contains s t

push_head : Char → List String → List String
push_head c [] = String.◌∷◌ c "" ∷ []
push_head c (p ∷ ps) = String.◌∷◌ c p ∷ ps

-- strings.Split at a separator of one character
unfoldable pub split : String → ℕ → List String
unfolding push_head
split String.[] sep = "" ∷ []
split (String.◌∷◌ c s) sep =
    let rest = split s sep in if nat_eq (code c) sep then "" ∷ rest else push_head c rest

pub record Cut : Type 0 where
  pub before : String
  pub after : Option String

-- strings.SplitN(s, sep, 2) at a separator of one character: `after` is the second part, if any
unfoldable pub cut : String → ℕ → Cut
cut String.[] sep = record { before = ""; after = none }
cut (String.◌∷◌ c s) sep =
    let rest = cut s sep in
    if nat_eq (code c) sep
    then record { before = ""; after = some s }
    else record rest { before = String.◌∷◌ c rest.before }

-- strings.Join
unfoldable pub join : List String → String → String
join [] sep = ""
join (x ∷ []) sep = x
join (x ∷ y ∷ xs) sep = x +s sep +s join (y ∷ xs) sep

digits_onto : ℕ → ℕ → String → String
digits_onto zero n acc = acc
digits_onto (suc fuel) n acc =
    let text = String.◌∷◌ (char_at "0123456789" (n % 10)) acc in
    elim (ltb n 10) [ true ↦ text | false ↦ digits_onto fuel (n / 10) text ]

-- the verb %d of fmt, on a natural number
unfoldable pub show_nat : ℕ → String
unfolding digits_onto
show_nat n = digits_onto (suc n) n ""

-- the order of Go's `<` on strings
unfoldable pub string_leb : String → String → Bool
string_leb String.[] t = true
string_leb (String.◌∷◌ c s) String.[] = false
string_leb (String.◌∷◌ c s) (String.◌∷◌ d t) =
    ltb (code c) (code d) || (nat_eq (code c) (code d) && string_leb s t)

unfoldable pub insert_sorted : String → List String → List String
insert_sorted x [] = x ∷ []
insert_sorted x (y ∷ ys) = if string_leb x y then x ∷ y ∷ ys else y ∷ insert_sorted x ys

-- sort.Strings
unfoldable pub sort_strings : List String → List String
unfolding insert_sorted string_leb
sort_strings [] = []
sort_strings (x ∷ xs) = insert_sorted x (sort_strings xs)

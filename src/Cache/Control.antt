-- ===== src/Cache/Control.antt =====
-- internal/runtime/cache/cache_control.go: the directives of a backend's Cache-Control header.
pub mod Flags
pub mod Seconds
use Prim.Native.Char.{Char, code}
use Prim.Native.String
use pass_ctrl.Prelude.{
  ℕ, suc, ◌+◌, ◌-◌, ◌*◌, ◌%◌, ◌^◌, String, Bool, true, false, ◌&&◌, ◌||◌, Option, none, some, List,
  [], ◌∷◌, ltb, leb, nat_eq, if◌then◌else◌, ◌==◌, ℤ, pos, negsuc, neg, leb_ℤ, wrap_int64, not,
}
use pass_ctrl.Text.{trim_space, to_lower, contains, split, cut, Cut}
use pass_ctrl.Cache.Duration.{Duration, second}

pub record CacheControlDirective : Type 0 where
  pub max_age : Option ℤ
  pub s_max_age : Option ℤ
  pub no_cache : Bool
  pub no_store : Bool
  pub is_private : Bool

abbrev pub no_directive : CacheControlDirective
no_directive = record {
  max_age = none;
  s_max_age = none;
  no_cache = false;
  no_store = false;
  is_private = false;
}

-- The value of a text of decimal digits.
decimal : ℕ → String → Option ℕ
decimal n String.[] = some n
decimal n (String.◌∷◌ c s) =
    let more = decimal (n * 10 + (code c - b'0')) s in
    if leb b'0' (code c) && leb (code c) b'9' then more else none

unsigned : String → Option ℕ
unfolding decimal
unsigned s = if s == "" then none else decimal 0 s

fits_int : Bool → ℕ → Option ℤ
fits_int true n = if leb n (2 ^ 63) then some (neg n) else none
fits_int false n = if ltb n (2 ^ 63) then some (pos n) else none

fits : Bool → Option ℕ → Option ℤ
unfolding fits_int
fits minus none = none
fits minus (some n) = fits_int minus n

-- strconv.Atoi, with 64-bit ints
unfoldable pub atoi : String → Option ℤ
unfolding decimal unsigned fits_int fits
atoi String.[] = none
atoi (String.◌∷◌ c s) =
    if nat_eq (code c) b'-'
    then fits true (unsigned s)
    else if nat_eq (code c) b'+'
    then fits false (unsigned s)
    else fits false (unsigned (String.◌∷◌ c s))

-- `if seconds, err := strconv.Atoi(value); err == nil && seconds >= 0`, and else the old value
pub accept_seconds : String → Option ℤ → Option ℤ
accept_seconds value old = elim (atoi value) [
  | none ↦ old
  | some seconds ↦ if leb_ℤ (pos 0) seconds then some seconds else old
]

after_or_empty : Option String → String
after_or_empty none = ""
after_or_empty (some s) = s

keyed : String → String → CacheControlDirective → CacheControlDirective
keyed key value d =
    if key == "max-age"
    then record d { max_age = accept_seconds value d.max_age }
    else if key == "s-maxage"
    then record d { s_max_age = accept_seconds value d.s_max_age }
    else d

flag : String → CacheControlDirective → CacheControlDirective
flag key d =
    if key == "no-cache"
    then record d { no_cache = true }
    else if key == "no-store"
    then record d { no_store = true }
    else if key == "private"
    then record d { is_private = true }
    else d

-- One part between commas, trimmed.
directive : String → CacheControlDirective → CacheControlDirective
directive part d =
    if part == ""
    then d
    else if contains part "="
    then (let kv = cut part b'=' in
        keyed (trim_space (to_lower kv.before)) (trim_space (after_or_empty kv.after)) d)
    else flag (to_lower part) d

directives : List String → CacheControlDirective → CacheControlDirective
directives [] d = d
directives (part ∷ parts) d = directives parts (directive (trim_space part) d)

-- ParseCacheControl
unfoldable pub parse_cache_control : String → CacheControlDirective
unfolding keyed flag after_or_empty directive directives
parse_cache_control header =
    if header == "" then no_directive else directives (split header b',') no_directive

-- time.Duration(n) * time.Second, an int64 product that wraps around
unfoldable pub times_second : ℤ → Duration
unfolding wrap_int64
times_second (pos n) = wrap_int64 (n * second)
times_second (negsuc n) = wrap_int64 (2 ^ 64 - suc n * second % 2 ^ 64)

abbrev pub forbids : CacheControlDirective → Bool
forbids d = d.no_cache || d.no_store || d.is_private

seconds_ttl : Option ℤ → Option ℤ → Option Duration
seconds_ttl (some n) m = some (times_second n)
seconds_ttl none (some m) = some (times_second m)
seconds_ttl none none = none

-- CacheControlDirective.GetTTL; `none` is nil, no directive
unfoldable pub directive_ttl : CacheControlDirective → Option Duration
unfolding seconds_ttl
directive_ttl d = if forbids d then some (pos 0) else seconds_ttl d.s_max_age d.max_age

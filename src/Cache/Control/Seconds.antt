-- ===== src/Cache/Control/Seconds.antt =====
-- The numbers that max-age and s-maxage give.
use Prim.Native.Char.{code}
use pass_ctrl.Prelude.{
  nat_eq, leb, ltb, ltb→lt, leb→le, if◌then◌else◌, ℕ, ◌≡◌, refl, String, Bool, true, false, Option,
  none, some, List, [], ◌∷◌, arith, ◌^◌, ◌<◌, ◌≤◌, pos, negsuc, ℤ, Bool-cases, inl, inr, ◌==◌, ◌<ℤ◌,
  wrap_int64, neg,
}
use pass_ctrl.Text.{trim_space, contains, split}
use pass_ctrl.Cache.Control.{
  CacheControlDirective, no_directive, atoi, accept_seconds, unsigned, fits_int, fits, keyed, flag,
  directive, directives, parse_cache_control, times_second,
}

-- No number, or a number that a non-negative int64 holds.
abbrev pub IsSeconds : Option ℤ → Type 0
IsSeconds none = Unit
IsSeconds (some (pos n)) = n < 2 ^ 63
IsSeconds (some (negsuc n)) = ⊥

pub record HasSeconds (d : CacheControlDirective) : Type 0 where
  pub max_age_ok : IsSeconds d.max_age
  pub s_max_age_ok : IsSeconds d.s_max_age

abbrev InRange : Option ℤ → Type 0
InRange none = Unit
InRange (some (pos n)) = n < 2 ^ 63
InRange (some (negsuc n)) = Unit

InRange-if :
    (b : Bool) (o p : Option ℤ) → (b ≡ true → InRange o) → InRange p → InRange (if b then o else p)
InRange-if true o p h k = h refl
InRange-if false o p h k = k

IsSeconds-if :
    (b : Bool) (o p : Option ℤ)
    → (b ≡ true → IsSeconds o)
    → IsSeconds p
    → IsSeconds (if b then o else p)
IsSeconds-if true o p h k = h refl
IsSeconds-if false o p h k = k

InRange-neg : (n : ℕ) → InRange (some (neg n))
InRange-neg n = elim (Bool-cases (nat_eq n 0)) [ inl e ↦ rw e (omega arith) | inr e ↦ rw e tt ]

fits-InRange : (minus : Bool) (n : Option ℕ) → InRange (fits minus n)
unfolding fits fits_int
fits-InRange minus none = ground arith
fits-InRange true (some n) = InRange-if (leb n (2 ^ 63)) _ none (λ _. InRange-neg n) tt
fits-InRange false (some n) = InRange-if (ltb n (2 ^ 63)) _ none (λ h. ltb→lt _ _ h) tt

atoi-InRange : (s : String) → InRange (atoi s)
unfolding atoi
atoi-InRange String.[] = tt
atoi-InRange (String.◌∷◌ c s) =
    InRange-if (nat_eq (code c) b'-') _ _ (λ _. fits-InRange true (unsigned s))
      (InRange-if (nat_eq (code c) b'+') _ _ (λ _. fits-InRange false (unsigned s))
        (fits-InRange false (unsigned (String.◌∷◌ c s))))

accept_seconds-IsSeconds :
    (value : String) (old : Option ℤ) → IsSeconds old → IsSeconds (accept_seconds value old)
accept_seconds-IsSeconds value old h = go (atoi value) (atoi-InRange value) refl
  where
    go : (r : Option ℤ) → InRange r → atoi value ≡ r → IsSeconds (accept_seconds value old)
    go none k e = unfold accept_seconds in rw (e, accept_seconds) h
    go (some (pos n)) k e =
        unfold accept_seconds in
        rw (e, accept_seconds) (IsSeconds-if _ (some (pos n)) old (λ _. k) h)
    go (some (negsuc n)) k e =
        unfold accept_seconds in
        rw (e, accept_seconds)
          (IsSeconds-if _ (some (negsuc n)) old (λ t. omega (arith, leb→le _ _ t)) h)

keyed-HasSeconds :
    (k v : String) (d : CacheControlDirective) → HasSeconds d → HasSeconds (keyed k v d)
unfolding keyed
keyed-HasSeconds k v d h = elim (Bool-cases (k == "max-age")) [
  | inl e ↦ rw e (record {
    max_age_ok = accept_seconds-IsSeconds v d.max_age h.max_age_ok;
    s_max_age_ok = h.s_max_age_ok;
  })
  | inr e ↦ rw e (elim (Bool-cases (k == "s-maxage")) [
    | inl f ↦ rw f (record {
      max_age_ok = h.max_age_ok;
      s_max_age_ok = accept_seconds-IsSeconds v d.s_max_age h.s_max_age_ok;
    })
    | inr f ↦ rw f h
  ])
]

flag-HasSeconds : (k : String) (d : CacheControlDirective) → HasSeconds d → HasSeconds (flag k d)
unfolding flag
flag-HasSeconds k d h =
    let same : (flag k d).max_age ≡ d.max_age = ground arith in
    let same' : (flag k d).s_max_age ≡ d.s_max_age = ground arith in
    record { max_age_ok = rw same h.max_age_ok; s_max_age_ok = rw same' h.s_max_age_ok }

directive-HasSeconds :
    (part : String) (d : CacheControlDirective) → HasSeconds d → HasSeconds (directive part d)
unfolding directive
directive-HasSeconds part d h = elim (Bool-cases (part == "")) [
  | inl e ↦ rw e h
  | inr e ↦ rw e (elim (Bool-cases (contains part "=")) [
    | inl f ↦ rw f (keyed-HasSeconds _ _ d h)
    | inr f ↦ rw f (flag-HasSeconds _ d h)
  ])
]

directives-HasSeconds :
    (parts : List String) (d : CacheControlDirective)
    → HasSeconds d
    → HasSeconds (directives parts d)
unfolding directives
directives-HasSeconds [] d h = h
directives-HasSeconds (part ∷ parts) d h =
    directives-HasSeconds parts (directive (trim_space part) d) (directive-HasSeconds _ d h)

-- Whatever the header, max-age and s-maxage are absent or a number of seconds from 0 up to what an
-- int64 holds.
pub parse_cache_control-HasSeconds : (header : String) → HasSeconds (parse_cache_control header)
unfolding parse_cache_control
parse_cache_control-HasSeconds header = elim (Bool-cases (header == "")) [
  | inl e ↦ rw e (record { max_age_ok = tt; s_max_age_ok = tt })
  | inr e ↦ rw e (
      directives-HasSeconds (split header b',') no_directive
        (record { max_age_ok = tt; s_max_age_ok = tt }))
]

-- From 9223372037 to 18446744073 seconds the product with time.Second wraps around to a negative
-- duration.
pub times_second_wraps :
    (n : ℕ) → 9_223_372_036 < n → n ≤ 18_446_744_073 → times_second (pos n) <ℤ pos 0
unfolding times_second wrap_int64
times_second_wraps n h k = ground arith

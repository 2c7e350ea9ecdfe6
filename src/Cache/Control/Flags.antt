-- ===== src/Cache/Control/Flags.antt =====
-- Which headers forbid a shared cache to keep the response.
use pass_ctrl.Prelude.{
  ◌≡◌, String, true, false, some, List, [], ◌∷◌, arith, eq_iff, ◌⊎◌, inl, inr, ◌↔◌, Any, Bool-cases,
  pos, ◌==◌,
}
use pass_ctrl.Text.{trim_space, to_lower, contains, split, cut}
use pass_ctrl.Cache.Control.{
  CacheControlDirective, no_directive, forbids, keyed, flag, after_or_empty, directive, directives,
  parse_cache_control, directive_ttl,
}

-- A part between commas is one of the three directives that take no value, in any letter case and
-- with any white space around it.
abbrev pub IsForbidding : String → Type 0
IsForbidding part =
    (contains (trim_space part) "=" ≡ false)
    × ((to_lower (trim_space part) ≡ "no-cache")
        ⊎ (to_lower (trim_space part) ≡ "no-store")
        ⊎ (to_lower (trim_space part) ≡ "private"))

forbids-keyed : (k v : String) (d : CacheControlDirective) → forbids (keyed k v d) ≡ forbids d
unfolding keyed
forbids-keyed k v d = ground arith

forbids-flag :
    (k : String) (d : CacheControlDirective)
    → (forbids (flag k d) ≡ true)
      ↔ ((forbids d ≡ true) ⊎ (k ≡ "no-cache") ⊎ (k ≡ "no-store") ⊎ (k ≡ "private"))
unfolding flag
forbids-flag k d = ground (arith, eq_iff k "no-cache", eq_iff k "no-store", eq_iff k "private")

abbrev FlagNames : String → Type 0
FlagNames key = (key ≡ "no-cache") ⊎ (key ≡ "no-store") ⊎ (key ≡ "private")

not-FlagNames_empty : ¬ FlagNames (to_lower "")
unfolding to_lower
not-FlagNames_empty =
    ground (arith, eq_iff "" "no-cache", eq_iff "" "no-store", eq_iff "" "private")

forbids-directive :
    (part : String) (d : CacheControlDirective)
    → (forbids (directive part d) ≡ true)
      ↔ ((forbids d ≡ true) ⊎ ((contains part "=" ≡ false) × FlagNames (to_lower part)))
unfolding directive
forbids-directive part d = elim (Bool-cases (part == "")) [
  | inl e ↦
      rw ((eq_iff part "").0 e)
        (λ h. inl h, elim [ inl h ↦ h | inr (p, q) ↦ absurd (not-FlagNames_empty q) ])
  | inr e ↦ rw e (elim (Bool-cases (contains part "=")) [
    | inl k ↦ ground (
      arith,
      k,
      forbids-keyed (trim_space (to_lower (cut part b'=').before))
          (trim_space (after_or_empty (cut part b'=').after)) d,
    )
    | inr k ↦ rw k (ground (arith, forbids-flag (to_lower part) d))
  ])
]

forbids-directives :
    (parts : List String) (d : CacheControlDirective)
    → (forbids (directives parts d) ≡ true) ↔ ((forbids d ≡ true) ⊎ Any IsForbidding parts)
unfolding directives
forbids-directives [] d = (λ h. inl h, λ h. ground arith)
forbids-directives (part ∷ parts) d = ground (
  arith,
  forbids-directives parts (directive (trim_space part) d),
  forbids-directive (trim_space part) d,
)

parse_cache_control_empty :
    (forbids (parse_cache_control "") ≡ true) ↔ Any IsForbidding (split "" b',')
unfolding parse_cache_control split trim_space to_lower contains
parse_cache_control_empty =
    ground (arith, eq_iff "" "no-cache", eq_iff "" "no-store", eq_iff "" "private")

-- For every header, the parsed directives forbid caching exactly when some part between its commas
-- is, up to letter case and white space around it, one of no-cache, no-store and private.
pub forbids-parse_cache_control_iff :
    (header : String)
    → (forbids (parse_cache_control header) ≡ true) ↔ Any IsForbidding (split header b',')
unfolding parse_cache_control
forbids-parse_cache_control_iff header = elim (Bool-cases (header == "")) [
  | inl e ↦ rw ((eq_iff header "").0 e) parse_cache_control_empty
  | inr e ↦ rw e (ground (arith, forbids-directives (split header b',') no_directive))
]

-- Such a header gives the TTL 0, whatever max-age and s-maxage say.
pub directive_ttl-forbidding :
    (header : String)
    → Any IsForbidding (split header b',')
    → directive_ttl (parse_cache_control header) ≡ some (pos 0)
unfolding directive_ttl
directive_ttl-forbidding header h = ground (arith, forbids-parse_cache_control_iff header)

-- ===== src/Tests/Caching.antt =====
-- Cache-Control headers, times to live and the memory cache.
use pass_ctrl.Prelude.{
  String, Bool, ◌==◌, ◌≡◌, ◌↔◌, refl, String, true, none, List, [], ◌∷◌, pos, inl, inr, arith,
  eq_iff, ◌<ℤ◌, Any,
}
use pass_ctrl.Text.{split, contains, trim_space, to_lower}
use pass_ctrl.Assoc.{Assoc, get, remove_where}
use pass_ctrl.Cache.Control.{parse_cache_control, forbids, times_second}
use pass_ctrl.Cache.Control.Flags.{IsForbidding, forbids-parse_cache_control_iff}
use pass_ctrl.Cache.Control.Seconds.{HasSeconds, parse_cache_control-HasSeconds, times_second_wraps}
use pass_ctrl.Cache.Ttl.{RuleCacheTtlConfig, RuleCacheConfig, calculate_effective_ttl}
use pass_ctrl.Cache.Ttl.Ceilings.{calculate_effective_ttl-forbidding}
use pass_ctrl.Cache.Entry.{Entry, no_response}
use pass_ctrl.Cache.Memory.{MemoryCache, lookup, new_memory}
use pass_ctrl.Cache.Memory.History.{
  Call, look, write, purge, perform_all, record_all, unexpired, lookup-perform_all,
}
use pass_ctrl.Cache.Memory.Wellformed.{
  IsWellformed, new_memory-IsWellformed, perform_all-IsWellformed,
}
use pass_ctrl.Cache.Descriptor.{BackendDescriptor, hash}
use pass_ctrl.Cache.Descriptor.Excluded.{IsListed, hash-remove_where}

forbids-parse_cache_control_iff_example :
    (forbids (parse_cache_control "max-age=60, No-Store") ≡ true)
    ↔ Any IsForbidding (split "max-age=60, No-Store" b',')
forbids-parse_cache_control_iff_example = forbids-parse_cache_control_iff "max-age=60, No-Store"

parse_cache_control-HasSeconds_example : HasSeconds (parse_cache_control "max-age=60, s-maxage=-3")
parse_cache_control-HasSeconds_example = parse_cache_control-HasSeconds "max-age=60, s-maxage=-3"

times_second_wraps_example : times_second (pos 10_000_000_000) <ℤ pos 0
times_second_wraps_example = times_second_wraps 10_000_000_000 (omega arith) (omega arith)

abbrev five_minutes : RuleCacheTtlConfig
five_minutes = record { pass = "5m"; fail = "30s"; error = "" }

abbrev following : RuleCacheConfig
following = record { follow_cache_control = true; ttl = five_minutes; strict = none }

abbrev backend_headers : Assoc String
backend_headers = ("cache-control", "no-store, max-age=60") ∷ []

forbidding : Any IsForbidding (split "no-store, max-age=60" b',')
unfolding split contains trim_space to_lower
forbidding = inl (refl, inr (inl refl))

calculate_effective_ttl-forbidding_example :
    calculate_effective_ttl "pass" (pos 60) five_minutes following backend_headers ≡ pos 0
unfolding get
calculate_effective_ttl-forbidding_example =
    calculate_effective_ttl-forbidding "pass" (pos 60) five_minutes following backend_headers
      "no-store, max-age=60" refl refl forbidding

abbrev kept : Entry
kept = record { decision = "pass"; response = no_response; stored_at = 0; expires_at = 0 }

abbrev calls : List Call
calls = write 5 "a|1" kept ∷ write 6 "b|1" kept ∷ look 7 "a|1" ∷ purge 8 "b|" ∷ []

abbrev empty_cache : MemoryCache
empty_cache = record { ttl = pos 100; entries = [] }

lookup-perform_all_example :
    (lookup 20 "a|1" (perform_all calls empty_cache)).0
    ≡ unexpired 20 (record_all (pos 100) calls (λ k. get k empty_cache.entries) "a|1")
lookup-perform_all_example =
    lookup-perform_all calls 0 empty_cache 20 "a|1"
      (omega arith, (omega arith, (omega arith, (omega arith, omega arith))))

perform_all-IsWellformed_example : IsWellformed (perform_all calls (new_memory (pos 0)))
perform_all-IsWellformed_example =
    perform_all-IsWellformed calls (new_memory (pos 0)) (new_memory-IsWellformed (pos 0))

abbrev descriptor : BackendDescriptor
descriptor = record {
  method = "GET";
  url = "https://api/users";
  headers = ("accept", "json") ∷ ("Traceparent", "00-1") ∷ [];
  body = "";
}

-- The names that are dropped: just the one of the request.
abbrev is_trace : String → Bool
is_trace name = name == "Traceparent"

trace-IsListed : (name : String) → is_trace name ≡ true → IsListed ("traceparent" ∷ []) name
unfolding to_lower
trace-IsListed name h = rw ((eq_iff name "Traceparent").0 h) (inl refl)

hash-remove_where_example :
    hash
      ("traceparent" ∷ [])
      (record descriptor { headers = remove_where is_trace descriptor.headers })
    ≡ hash ("traceparent" ∷ []) descriptor
hash-remove_where_example =
    hash-remove_where ("traceparent" ∷ []) descriptor is_trace trace-IsListed

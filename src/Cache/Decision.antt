-- ===== src/Cache/Decision.antt =====
-- internal/runtime/cache/decision_cache.go: the interface of a decision cache, and the memory cache as
-- one. An operation reads the clock when it is called.
use pass_ctrl.Prelude.{ℕ, ◌≤◌, ◌≡◌, ◌≢◌, refl, String, Option, some, Result, ok, arith}
use pass_ctrl.Assoc.Laws.{get-put}
use pass_ctrl.Cache.Entry.{Entry}
use pass_ctrl.Cache.Memory.{MemoryCache, lookup, stamp, store}
use text.Mathlib.TextPositions.{eq_refl}

-- Lookup gives `ok none` on a miss, and the cache it leaves behind.
pub record DecisionCache (C : Type 0) : Type 0 where
  pub look_up : ℕ → String → C → Result (Option Entry) × C
  pub put_in : ℕ → String → Entry → C → Result (Unit {0}) × C

-- What a client relies on: an entry with both its times is answered until it expires.
pub record IsDecisionCache {C : Type 0} (cache : DecisionCache C) : Type 0 where
  pub keeps :
      (now later : ℕ) (key : String) (e : Entry) (c : C)
      → e.stored_at ≢ 0
      → e.stored_at ≤ e.expires_at
      → later ≤ e.expires_at
      → (cache.look_up later key (cache.put_in now key e c).1).0 ≡ ok (some e)
  pub stores : (now : ℕ) (key : String) (e : Entry) (c : C) → (cache.put_in now key e c).0 ≡ ok tt

abbrev pub memory_decision_cache : DecisionCache MemoryCache
memory_decision_cache = record {
  look_up = λ now key c. (ok (lookup now key c).0, (lookup now key c).1);
  put_in = λ now key e c. (ok tt, store now key e c);
}

stamp_timed :
    (now : ℕ) (ttl : pass_ctrl.Cache.Duration.Duration) (e : Entry)
    → e.stored_at ≢ 0
    → e.stored_at ≤ e.expires_at
    → stamp now ttl e ≡ e
unfolding stamp
stamp_timed now ttl e h k = ground arith

lookup-store_timed :
    (now later : ℕ) (key : String) (e : Entry) (c : MemoryCache)
    → e.stored_at ≢ 0
    → e.stored_at ≤ e.expires_at
    → later ≤ e.expires_at
    → (lookup later key (store now key e c)).0 ≡ some e
unfolding lookup store
lookup-store_timed now later key e c h k l =
    rw (get-put key key (stamp now c.ttl e) c.entries, eq_refl key, stamp_timed now c.ttl e h k)
      (ground arith)

-- The memory cache answers every entry that is stored with both its times until it expires, and its
-- Store never fails.
pub memory_decision_cache_lem : IsDecisionCache memory_decision_cache
memory_decision_cache_lem = record {
  keeps = λ now later key e c h k l. rw (lookup-store_timed now later key e c h k l);
  stores = λ now key e c. refl;
}

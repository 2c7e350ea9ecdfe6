-- ===== src/Cache/Memory/Wellformed.antt =====
-- The invariant of the memory cache.
use pass_ctrl.Prelude.{
  ℕ, ◌≤◌, String, List, [], ◌∷◌, arith, ◌==◌, Bool-cases, inl, inr, pos, ◌<ℤ◌, All, Option, none,
  some,
}
use pass_ctrl.Assoc.{get}
use pass_ctrl.Assoc.Distinct.{
  HasDistinctKeys, put-HasDistinctKeys, remove-HasDistinctKeys, remove_where-HasDistinctKeys,
  put-All, remove-All, remove_where-All,
}
use pass_ctrl.Cache.Duration.{Duration}
use pass_ctrl.Cache.Entry.{Entry}
use pass_ctrl.Cache.Memory.{
  MemoryCache, new_memory, is_expired, found, lookup, stamp, store, delete_prefix,
}
use pass_ctrl.Cache.Memory.History.{Call, look, write, purge, perform, perform_all}

-- An entry does not expire before it is stored.
abbrev pub IsDated : String × Entry → Type 0
IsDated p = p.1.stored_at ≤ p.1.expires_at

pub record IsWellformed (c : MemoryCache) : Type 0 where
  pub ttl_positive : pos 0 <ℤ c.ttl
  pub keys_distinct : HasDistinctKeys c.entries
  pub dated : All IsDated c.entries

pub new_memory-IsWellformed : (ttl : Duration) → IsWellformed (new_memory ttl)
unfolding new_memory
new_memory-IsWellformed ttl = record { ttl_positive = ground arith; keys_distinct = tt; dated = tt }

stamp-IsDated :
    (now : ℕ) (ttl : Duration) (key : String) (e : Entry) → IsDated (key, stamp now ttl e)
unfolding stamp
stamp-IsDated now ttl key e = ground arith

found-IsWellformed :
    (now : ℕ) (key : String) (o : Option Entry) (c : MemoryCache)
    → IsWellformed c
    → IsWellformed (found now key o c).1
unfolding found
found-IsWellformed now key none c h = h
found-IsWellformed now key (some entry) c h = elim (Bool-cases (is_expired now entry)) [
  | inl old ↦ rw old (record {
    ttl_positive = h.ttl_positive;
    keys_distinct = remove-HasDistinctKeys key c.entries h.keys_distinct;
    dated = remove-All IsDated key c.entries h.dated;
  })
  | inr new ↦ rw new h
]

-- Every call keeps the invariant: the TTL is positive, a key has one entry, and no entry expires
-- before it was stored, whatever times the caller of Store gave.
pub perform-IsWellformed :
    (call : Call) (c : MemoryCache) → IsWellformed c → IsWellformed (perform call c)
unfolding lookup store delete_prefix
perform-IsWellformed (look now key) c h = found-IsWellformed now key (get key c.entries) c h
perform-IsWellformed (write now key e) c h = record {
  ttl_positive = h.ttl_positive;
  keys_distinct = put-HasDistinctKeys key (stamp now c.ttl e) c.entries h.keys_distinct;
  dated = put-All IsDated key _ c.entries (stamp-IsDated now c.ttl key e) h.dated;
}
perform-IsWellformed (purge now prefix) c h = elim (Bool-cases (prefix == "")) [
  | inl e ↦ rw e h
  | inr e ↦ rw e (record {
    ttl_positive = h.ttl_positive;
    keys_distinct = remove_where-HasDistinctKeys _ c.entries h.keys_distinct;
    dated = remove_where-All IsDated _ c.entries h.dated;
  })
]

-- Any calls on a well-formed cache lead to a well-formed one: its TTL is positive, a key has one entry,
-- and no entry expires before it was stored.
pub perform_all-IsWellformed :
    (calls : List Call) (c : MemoryCache) → IsWellformed c → IsWellformed (perform_all calls c)
perform_all-IsWellformed [] c h = h
perform_all-IsWellformed (call ∷ calls) c h =
    perform_all-IsWellformed calls (perform call c) (perform-IsWellformed call c h)

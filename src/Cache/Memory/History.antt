-- ===== src/Cache/Memory/History.antt =====
-- The memory cache against what was written to it: a map from keys to entries that never forgets an
-- expired one. Only a reading past its time tells the two apart, and none does.
use pass_ctrl.Prelude.{
  ℕ, ◌≤◌, ◌≡◌, refl, ◌∙◌, String, not, ◌&&◌, Option, none, some, List, [], ◌∷◌, arith, eq_iff,
  if◌then◌else◌, ◌==◌, Bool-cases, inl, inr, ap,
}
use pass_ctrl.Text.{has_prefix}
use pass_ctrl.Assoc.{get}
use pass_ctrl.Assoc.Laws.{get-put, get-remove, get-remove_where}
use pass_ctrl.Cache.Duration.{Duration}
use pass_ctrl.Cache.Entry.{Entry}
use pass_ctrl.Cache.Memory.{MemoryCache, is_expired, lookup, stamp, store, delete_prefix}

-- A call of a method, with the time at which it is made.
pub data Call : Type 0 where
  look : ℕ → String → Call
  write : ℕ → String → Entry → Call
  purge : ℕ → String → Call

abbrev pub time : Call → ℕ
time (look now key) = now
time (write now key e) = now
time (purge now prefix) = now

-- What the calls do to the cache.
abbrev pub perform : Call → MemoryCache → MemoryCache
perform (look now key) c = (lookup now key c).1
perform (write now key e) c = store now key e c
perform (purge now prefix) c = delete_prefix prefix c

abbrev pub perform_all : List Call → MemoryCache → MemoryCache
perform_all [] c = c
perform_all (call ∷ calls) c = perform_all calls (perform call c)

-- The specification: for each key the last entry written since the last purge of the key.
abbrev pub Contents : Type 0
Contents = String → Option Entry

abbrev pub record_call : Duration → Call → Contents → Contents
record_call ttl (look now key) m j = m j
record_call ttl (write now key e) m j = if key == j then some (stamp now ttl e) else m j
record_call ttl (purge now prefix) m j =
    if not (prefix == "") && has_prefix j prefix then none else m j

abbrev pub record_all : Duration → List Call → Contents → Contents
record_all ttl [] m = m
record_all ttl (call ∷ calls) m = record_all ttl calls (record_call ttl call m)

-- An entry while it has not expired.
abbrev pub unexpired : ℕ → Option Entry → Option Entry
unexpired now none = none
unexpired now (some e) = if is_expired now e then none else some e

-- The calls' times do not go back, and end at `last`.
abbrev pub InOrder : ℕ → List Call → ℕ → Type 0
InOrder start [] last = start ≤ last
InOrder start (call ∷ calls) last = (start ≤ time call) × InOrder (time call) calls last

lookup-unexpired :
    (now : ℕ) (key : String) (c : MemoryCache)
    → (lookup now key c).0 ≡ unexpired now (get key c.entries)
unfolding lookup
lookup-unexpired now key c = ground arith

ttl-perform : (call : Call) (c : MemoryCache) → (perform call c).ttl ≡ c.ttl
unfolding lookup store delete_prefix
ttl-perform (look now key) c = ground arith
ttl-perform (write now key e) c = refl
ttl-perform (purge now prefix) c = ground arith

get-delete_prefix :
    (prefix : String) (c : MemoryCache) (j : String)
    → get j (delete_prefix prefix c).entries
      ≡ (if not (prefix == "") && has_prefix j prefix then none else get j c.entries)
unfolding delete_prefix
get-delete_prefix prefix c j = elim (Bool-cases (prefix == "")) [
  | inl e ↦ rw e
  | inr e ↦ rw e (get-remove_where (λ key. has_prefix key prefix) j c.entries)
]

-- One call, seen at any later time.
unexpired-perform :
    (call : Call) (c : MemoryCache) (now : ℕ) (j : String)
    → time call ≤ now
    → unexpired now (get j (perform call c).entries)
      ≡ unexpired now (record_call c.ttl call (λ k. get k c.entries) j)
unfolding lookup store delete_prefix
unexpired-perform (look now' key) c now j h =
    ground (arith, get-remove key j c.entries, eq_iff key j)
unexpired-perform (write now' key e) c now j h = rw (get-put key j (stamp now' c.ttl e) c.entries)
unexpired-perform (purge now' prefix) c now j h = ap (unexpired now) (get-delete_prefix prefix c j)

record_call-agree :
    (ttl : Duration) (call : Call) (m m' : Contents) (now : ℕ) (j : String)
    → unexpired now (m j) ≡ unexpired now (m' j)
    → unexpired now (record_call ttl call m j) ≡ unexpired now (record_call ttl call m' j)
record_call-agree ttl (look now' key) m m' now j h = h
record_call-agree ttl (write now' key e) m m' now j h = ground arith
record_call-agree ttl (purge now' prefix) m m' now j h = ground arith

InOrder-le : (start : ℕ) (calls : List Call) (last : ℕ) → InOrder start calls last → start ≤ last
InOrder-le start [] last h = h
InOrder-le start (call ∷ calls) last h = omega (arith, InOrder-le (time call) calls last h.1)

perform_all-record_all :
    (calls : List Call) (start : ℕ) (c : MemoryCache) (m : Contents) (now : ℕ)
    → InOrder start calls now
    → ((t : ℕ) (j : String) → start ≤ t → unexpired t (get j c.entries) ≡ unexpired t (m j))
    → (j : String)
    → unexpired now (get j (perform_all calls c).entries)
      ≡ unexpired now (record_all c.ttl calls m j)
perform_all-record_all [] start c m now h agree j = agree now j h
perform_all-record_all (call ∷ calls) start c m now h agree j =
    perform_all-record_all calls (time call) (perform call c) (record_call c.ttl call m) now h.1
      (λ t k later.
        unexpired-perform call c t k later
        ∙ record_call-agree c.ttl call (λ i. get i c.entries) m t k (agree t k (omega arith)))
      j
    ∙ ap (λ ttl. unexpired now (record_all ttl calls (record_call c.ttl call m) j))
        (ttl-perform call c)

-- After any calls whose times do not go back, Lookup answers with the entry that was last written
-- under the key since a purge of it, if that has not expired, and else with nothing.
pub lookup-perform_all :
    (calls : List Call) (start : ℕ) (c : MemoryCache) (now : ℕ) (j : String)
    → InOrder start calls now
    → (lookup now j (perform_all calls c)).0
      ≡ unexpired now (record_all c.ttl calls (λ k. get k c.entries) j)
lookup-perform_all calls start c now j h =
    lookup-unexpired now j (perform_all calls c)
    ∙ perform_all-record_all calls start c (λ k. get k c.entries) now h (λ t k later. refl) j

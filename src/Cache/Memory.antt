-- ===== src/Cache/Memory.antt =====
-- internal/runtime/cache/memory.go. The mutex makes each method one step; the clock's reading is an
-- argument. The copies that cloneEntry makes are the values themselves here.
pub mod History
pub mod Wellformed
use pass_ctrl.Prelude.{
  ℕ, ◌+◌, ◌*◌, String, Bool, ◌||◌, Option, none, some, [], length, ltb, nat_eq, if◌then◌else◌, ◌==◌,
  pos, leb_ℤ, pos_part,
}
use pass_ctrl.Text.{has_prefix}
use pass_ctrl.Assoc.{Assoc, get, put, remove, remove_where}
use pass_ctrl.Cache.Duration.{Duration, second}
use pass_ctrl.Cache.Entry.{Entry}

pub record MemoryCache : Type 0 where
  pub ttl : Duration
  pub entries : Assoc Entry

-- NewMemory
pub new_memory : Duration → MemoryCache
new_memory ttl = record { ttl = if leb_ℤ ttl (pos 0) then pos (30 * second) else ttl; entries = [] }

-- time.Now().After(entry.ExpiresAt)
abbrev pub is_expired : ℕ → Entry → Bool
is_expired now e = ltb e.expires_at now

found : ℕ → String → Option Entry → MemoryCache → Option Entry × MemoryCache
found now key none c = (none, c)
found now key (some e) c =
    if is_expired now e then (none, record c { entries = remove key c.entries }) else (some e, c)

-- Lookup
unfoldable pub lookup : ℕ → String → MemoryCache → Option Entry × MemoryCache
unfolding found
lookup now key c = found now key (get key c.entries) c

stamp_stored : ℕ → Entry → Entry
stamp_stored now e = if nat_eq e.stored_at 0 then record e { stored_at = now } else e

stamp_expires : Duration → Entry → Entry
stamp_expires ttl e =
    if nat_eq e.expires_at 0 || ltb e.expires_at e.stored_at
    then record e { expires_at = e.stored_at + pos_part ttl }
    else e

-- The entry that Store keeps, with the times that the caller left out.
unfoldable pub stamp : ℕ → Duration → Entry → Entry
unfolding stamp_stored stamp_expires
stamp now ttl e = stamp_expires ttl (stamp_stored now e)

-- Store
unfoldable pub store : ℕ → String → Entry → MemoryCache → MemoryCache
store now key e c = record c { entries = put key (stamp now c.ttl e) c.entries }

-- DeletePrefix
unfoldable pub delete_prefix : String → MemoryCache → MemoryCache
delete_prefix prefix c =
    if prefix == ""
    then c
    else record c { entries = remove_where (λ key. has_prefix key prefix) c.entries }

-- InvalidateOnReload, at the scope's prefix
unfoldable pub invalidate_on_reload : String → MemoryCache → MemoryCache
unfolding delete_prefix
invalidate_on_reload prefix c = if prefix == "" then c else delete_prefix prefix c

-- Size
pub size : MemoryCache → ℕ
size c = length c.entries

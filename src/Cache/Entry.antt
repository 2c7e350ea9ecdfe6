-- ===== src/Cache/Entry.antt =====
-- internal/runtime/cache/decision_cache.go: what a decision cache keeps, and its interface. A time is a
-- number of nanoseconds since the zero time, so that 0 is the zero time.
use pass_ctrl.Prelude.{ℕ, String, [], ℤ, pos}
use pass_ctrl.Assoc.{Assoc}

pub record CachedResponse : Type 0 where
  pub status : ℤ
  pub message : String
  pub headers : Assoc String

pub record Entry : Type 0 where
  pub decision : String
  pub response : CachedResponse
  pub stored_at : ℕ
  pub expires_at : ℕ

abbrev pub no_response : CachedResponse
no_response = record { status = pos 0; message = ""; headers = [] }

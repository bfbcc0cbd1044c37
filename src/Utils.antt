-- ===== src/Utils.antt =====
-- src/utils.rs; the clock is an argument of what reads it.
use hash_index_kv_store.Prelude.{
  ℕ, ◌≤◌, ◌≡◌, Bool, true, false, Option, none, some, arith, leb, leb→le, le→leb,
}

unfoldable pub is_expired : ℕ → ℕ → Bool
is_expired expiry_ms now_ms = leb expiry_ms now_ms

-- `is_some_and(|e| is_expired(e, now_ms))`.
unfoldable pub has_expired : Option ℕ → ℕ → Bool
has_expired none now_ms = false
has_expired (some expiry_ms) now_ms = is_expired expiry_ms now_ms

-- What has expired stays so.
pub has_expired_later :
    (x : Option ℕ) (now_ms later : ℕ)
    → now_ms ≤ later
    → has_expired x now_ms ≡ true
    → has_expired x later ≡ true
unfolding has_expired is_expired
has_expired_later none now_ms later h e = cc
has_expired_later (some ms) now_ms later h e =
    le→leb ms later (omega (arith, leb→le ms now_ms e, h))

-- ===== src/Relay/RateLimit.antt =====
-- The rate limiter of hole punch messages (relay/relay.go): the entry of a source IP in
-- `packetWorker`, and one round of `cleanupHolePunchRateLimiter`. Times are nanoseconds.
use gerbil.Prelude.{
  ℕ, suc, ◌+◌, ◌*◌, ◌≤◌, ◌<◌, ◌≡◌, Bool, true, Option, none, some, List, [], ◌∷◌, arith,
  if◌then◌else◌, ltb, leb, Text, text_eq, text_beq_iff, All, ◌⊎◌, inl, inr, length, min, ◌-◌,
}
use gerbil.Table.{Table, load, store, delete_if, load-store, load-delete_if, IsMap}

pub record RateLimitEntry : Type 0 where
  pub count : ℕ
  pub window_start : ℕ

abbrev second : ℕ
second = 1000000000

-- LoadOrStore of a fresh entry.
abbrev entry_or_fresh : Option RateLimitEntry → ℕ → RateLimitEntry
entry_or_fresh none now = record { count = 0; window_start = now }
entry_or_fresh (some r) now = r

-- now.Sub(windowStart) >= time.Second starts a new window; then the message is counted.
unfoldable bump : RateLimitEntry → ℕ → RateLimitEntry
bump r now =
    if leb (r.window_start + second) now
    then record { count = 1; window_start = now }
    else record r { count = suc r.count }

unfoldable pub allow : Table Text RateLimitEntry → Text → ℕ → Table Text RateLimitEntry × Bool
unfolding bump
allow limiter key now =
    let r = bump (entry_or_fresh (load key limiter) now) now in (store key r limiter, leb r.count 2)

pub cleanup_hole_punch_rate_limiter : Table Text RateLimitEntry → ℕ → Table Text RateLimitEntry
cleanup_hole_punch_rate_limiter limiter now =
    delete_if (λ key r. ltb (r.window_start + 10 * second) now) limiter

-- The messages of one source at the given times, and how many of them pass.
pub allowed_count : Table Text RateLimitEntry → Text → List ℕ → ℕ
allowed_count limiter key [] = 0
allowed_count limiter key (now ∷ times) =
    let (limiter', ok) = allow limiter key now in
    let rest = allowed_count limiter' key times in if ok then suc rest else rest

-- All times lie within one second of the start of the window.
abbrev Within : ℕ → List ℕ → Type 0
Within start = All λ t. t < start + second

allow_within :
    (limiter : Table Text RateLimitEntry) (key : Text) (r : RateLimitEntry) (now : ℕ)
    → load key limiter ≡ some r
    → now < r.window_start + second
    → allow limiter key now
      ≡ (store key (record r { count = suc r.count }) limiter, leb (suc r.count) 2)
unfolding allow
allow_within limiter key r now h w = ground arith

load-store_self :
    (key : Text) (r : RateLimitEntry) (limiter : Table Text RateLimitEntry)
    → load key (store key r limiter) ≡ some r
load-store_self key r limiter = ground (arith, load-store key key r limiter, text_beq_iff key key)

allow_first :
    (limiter : Table Text RateLimitEntry) (key : Text) (start : ℕ)
    → ((load key limiter ≡ none)
        ⊎ ((r : RateLimitEntry) × (load key limiter ≡ some r) × (r.window_start + second ≤ start)))
    → allow limiter key start
      ≡ (store key (record { count = 1; window_start = start }) limiter, true)
unfolding allow
allow_first limiter key start (inl e) = ground arith
allow_first limiter key start (inr (r, e, old)) = ground arith

-- In a running window exactly as many messages pass as its count leaves of two.
allowed_count-window :
    (limiter : Table Text RateLimitEntry) (key : Text) (r : RateLimitEntry) (times : List ℕ)
    → load key limiter ≡ some r
    → Within r.window_start times
    → allowed_count limiter key times ≡ min (length times) (2 - r.count)
unfolding allowed_count
allowed_count-window limiter key r [] h w = omega arith
allowed_count-window limiter key r (now ∷ times) h w =
    let next : RateLimitEntry = record r { count = suc r.count } in
    rw (allow_within limiter key r now h w.0) (
      ground (
        arith,
        allowed_count-window (store key next limiter) key next times
            (load-store_self key next limiter) w.1,
      ))

-- Of the messages of a source IP within one second of its first, exactly the first two pass, if
-- the source has no entry or its window has run out.
pub allowed_count-fresh :
    (limiter : Table Text RateLimitEntry) (key : Text) (start : ℕ) (times : List ℕ)
    → ((load key limiter ≡ none)
        ⊎ ((r : RateLimitEntry) × (load key limiter ≡ some r) × (r.window_start + second ≤ start)))
    → Within start times
    → allowed_count limiter key (start ∷ times) ≡ min (suc (length times)) 2
unfolding allowed_count
allowed_count-fresh limiter key start times idle w =
    let first : RateLimitEntry = record { count = 1; window_start = start } in
    rw (allow_first limiter key start idle) (
      ground (
        arith,
        allowed_count-window (store key first limiter) key first times
            (load-store_self key first limiter) w,
      ))

-- The cleanup forgets only windows that have run out: who is let through does not change.
allow-cleanup :
    (limiter : Table Text RateLimitEntry) (key : Text) (now : ℕ)
    → IsMap limiter
    → (allow (cleanup_hole_punch_rate_limiter limiter now) key now).1 ≡ (allow limiter key now).1
unfolding allow cleanup_hole_punch_rate_limiter
allow-cleanup limiter key now m = ground (
  arith,
  load-delete_if (λ (k : Text) (r : RateLimitEntry). ltb (r.window_start + 10 * second) now) key
      limiter m,
)

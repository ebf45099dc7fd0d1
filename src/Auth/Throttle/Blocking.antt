-- ===== src/Auth/Throttle/Blocking.antt =====
-- core/auth/throttle.py: checks after failures.
use office_connect.Base.{
  ℕ, ◌*◌, ◌≤◌, ◌<◌, ◌≡◌, refl, ◌∙◌, true, false, Option, none, some, String, ltb, arith, inl, inr,
  Bool-cases, eq_iff,
}
use office_connect.Auth.Throttle.{
  Subject, Key, same_subject, Redis, Settings, backoff_seconds, keys_of_ip, check, register,
  register_all, register_failure,
}
use text.Mathlib.Text.{◌==◌ as str_eq}

pub same_subject_refl : (k : Subject) → same_subject k k ≡ true
same_subject_refl (Subject.account a) = (eq_iff a a).1 refl
same_subject_refl (Subject.address a) = (eq_iff a a).1 refl

-- the failures that the counter of an account holds after one more
abbrev pub fails_of : (digest : String → String) (redis : Redis) → redis.Store → ℕ → String → ℕ
fails_of digest redis s t identifier =
    (redis.incr s t (Key.counter (Subject.account (digest identifier)))).0

module _ (redis : Redis) (settings : Settings) where
  -- A failure of another subject leaves the wait of this one.
  register_other :
      (s : redis.Store) (t : ℕ) (k j : Subject)
      → same_subject k j ≡ false
      → redis.pttl (register redis settings s t k) t (Key.until j) ≡ redis.pttl s t (Key.until j)
  unfolding register
  register_other s t k j other =
      let (fails, counted) = redis.incr s t (Key.counter k) in
      let kept = redis.expire counted t (Key.counter k) settings.throttle_window_seconds in
      let same : redis.pttl kept t (Key.until j) ≡ redis.pttl s t (Key.until j) =
        redis.pttl-expire counted t (Key.counter k) settings.throttle_window_seconds (Key.until j)
          refl
        ∙ redis.pttl-incr s t (Key.counter k) (Key.until j) in
      let set =
        redis.pttl-set_ex kept t (Key.until k) (backoff_seconds settings fails) (Key.until j) in
      elim (Bool-cases (ltb 0 (backoff_seconds settings fails))) [
        | inl waits ↦ rw (waits, set, other) same
        | inr free ↦ rw free same
      ]

  register_mine :
      (s : redis.Store) (t : ℕ) (k : Subject)
      → 0 < backoff_seconds settings (redis.incr s t (Key.counter k)).0
      → redis.pttl (register redis settings s t k) t (Key.until k)
        ≡ backoff_seconds settings (redis.incr s t (Key.counter k)).0 * 1000
  unfolding register
  register_mine s t k h =
      let (fails, counted) = redis.incr s t (Key.counter k) in
      let kept = redis.expire counted t (Key.counter k) settings.throttle_window_seconds in
      let set =
        redis.pttl-set_ex kept t (Key.until k) (backoff_seconds settings fails) (Key.until k) in
      let waits : ltb 0 (backoff_seconds settings fails) ≡ true = ground arith in
      rw (waits, set, same_subject_refl k) refl

  ip_other :
      (s : redis.Store) (t : ℕ) (a : String) (ip : Option String)
      → redis.pttl
          (register_all redis settings s t (keys_of_ip ip))
          t
          (Key.until (Subject.account a))
        ≡ redis.pttl s t (Key.until (Subject.account a))
  ip_other s t a none = refl
  ip_other s t a (some ip) = elim (Bool-cases (str_eq ip "")) [
    | inl blank ↦ rw blank refl
    | inr given ↦ rw given (register_other s t (Subject.address ip) (Subject.account a) refl)
  ]

-- Enough failures are throttled: where the failures of the account, with this one, call for a delay, the
-- check that follows at once refuses the attempt and reports at least that delay, from any address.
pub register_failure-throttles :
    (digest : String → String) (redis : Redis) (settings : Settings) (s : redis.Store) (t : ℕ)
    (identifier : String) (ip later : Option String)
    → 0 < backoff_seconds settings (fails_of digest redis s t identifier)
    → let decision =
        check digest redis
          (register_failure digest redis settings s t identifier ip)
          t
          identifier
          later in
      (decision.allowed ≡ false)
      × (backoff_seconds settings (fails_of digest redis s t identifier) ≤ decision.retry_after)
unfolding check register_failure
register_failure-throttles digest redis settings s t identifier ip later h =
    let k = Subject.account (digest identifier) in
    let mine = register_mine redis settings s t k h in
    let left = ip_other redis settings (register redis settings s t k) t (digest identifier) ip in
    (ground arith, ground arith)

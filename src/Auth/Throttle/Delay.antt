-- ===== src/Auth/Throttle/Delay.antt =====
-- core/auth/throttle.py: how long a check makes wait.
use office_connect.Base.{
  ℕ, ◌+◌, ◌*◌, ◌≤◌, ◌≡◌, refl, ◌∙◌, true, Option, List, [], ◌∷◌, String, ltb, arith, inl, inr,
  Bool-cases,
}
use office_connect.Auth.Throttle.{
  Subject, Key, same_key, same_subject, Redis, Settings, backoff_seconds, keys, longest, ttls,
  check, register, register_all, register_failure, delete_all, reset,
}

module _ (redis : Redis) where
  longest-wait :
      (s : redis.Store) (t t' : ℕ) (subjects : List Subject)
      → t + longest (ttls redis s t subjects) * 1000 ≤ t'
      → longest (ttls redis s t' subjects) ≡ 0
  longest-wait s t t' [] h = refl
  longest-wait s t t' (k ∷ ks) h =
      let rest = longest-wait s t t' ks (omega arith) in
      let gone = redis.pttl-later s t t' (Key.until k) (omega arith) in omega arith

-- Whoever waits as long as the throttle says may try again: if the wait that a check reports has passed, and
-- no failure was registered in between, then the same check allows the attempt.
pub check-unblocks :
    (digest : String → String) (redis : Redis) (s : redis.Store) (t t' : ℕ) (identifier : String)
    (ip : Option String)
    → t + (check digest redis s t identifier ip).retry_after * 1000 ≤ t'
    → (check digest redis s t' identifier ip).allowed ≡ true
unfolding check
check-unblocks digest redis s t t' identifier ip h =
    let none_left = longest-wait redis s t t' (keys digest identifier ip) h in ground arith

module _ (redis : Redis) (settings : Settings) where
  -- No subject has more than the ceiling to wait.
  abbrev pub IsBounded : redis.Store → ℕ → Type 0
  IsBounded s t =
      (k : Subject)
      → redis.pttl s t (Key.until k) ≤ settings.throttle_backoff_ceiling_seconds * 1000

  backoff_bound :
      (fails : ℕ) → backoff_seconds settings fails ≤ settings.throttle_backoff_ceiling_seconds
  backoff_bound fails = ground arith

  register-IsBounded :
      (s : redis.Store) (t : ℕ) (k : Subject)
      → IsBounded s t
      → IsBounded (register redis settings s t k) t
  unfolding register
  register-IsBounded s t k h j =
      let (fails, counted) = redis.incr s t (Key.counter k) in
      let kept = redis.expire counted t (Key.counter k) settings.throttle_window_seconds in
      let bound = backoff_bound fails in
      let same : redis.pttl kept t (Key.until j) ≡ redis.pttl s t (Key.until j) =
        redis.pttl-expire counted t (Key.counter k) settings.throttle_window_seconds (Key.until j)
          refl
        ∙ redis.pttl-incr s t (Key.counter k) (Key.until j) in
      let set =
        redis.pttl-set_ex kept t (Key.until k) (backoff_seconds settings fails) (Key.until j) in
      let before = h j in
      elim (Bool-cases (ltb 0 (backoff_seconds settings fails))) [
        | inr free ↦ rw (free, same) before
        | inl waits ↦ rw waits (elim (Bool-cases (same_subject k j)) [
          | inl mine ↦ rw (set, mine) (omega arith)
          | inr other ↦ rw (set, other, same) before
        ])
      ]

  register_all-IsBounded :
      (s : redis.Store) (t : ℕ) (ks : List Subject)
      → IsBounded s t
      → IsBounded (register_all redis settings s t ks) t
  register_all-IsBounded s t [] h = h
  register_all-IsBounded s t (k ∷ ks) h =
      register_all-IsBounded (register redis settings s t k) t ks (register-IsBounded s t k h)

  delete-IsBounded :
      (s : redis.Store) (t : ℕ) (k : Key) → IsBounded s t → IsBounded (redis.delete s t k) t
  delete-IsBounded s t k h j =
      let gone = redis.pttl-delete s t k (Key.until j) in
      let before = h j in
      elim (Bool-cases (same_key k (Key.until j))) [
        | inl mine ↦ rw (gone, mine) (omega arith)
        | inr other ↦ rw (gone, other) before
      ]

  delete_all-IsBounded :
      (s : redis.Store) (t : ℕ) (ks : List Subject)
      → IsBounded s t
      → IsBounded (delete_all redis s t ks) t
  delete_all-IsBounded s t [] h = h
  delete_all-IsBounded s t (k ∷ ks) h =
      let without = redis.delete s t (Key.counter k) in
      delete_all-IsBounded (redis.delete without t (Key.until k)) t ks
        (delete-IsBounded without t (Key.until k) (delete-IsBounded s t (Key.counter k) h))

  later-IsBounded : (s : redis.Store) (t t' : ℕ) → t ≤ t' → IsBounded s t → IsBounded s t'
  later-IsBounded s t t' h bounded j =
      let left = redis.pttl-later s t t' (Key.until j) h in let before = bounded j in omega arith

  longest-IsBounded :
      (s : redis.Store) (t : ℕ) (ks : List Subject)
      → IsBounded s t
      → longest (ttls redis s t ks) ≤ settings.throttle_backoff_ceiling_seconds
  longest-IsBounded s t [] h = omega arith
  longest-IsBounded s t (k ∷ ks) h =
      let first = h k in let rest = longest-IsBounded s t ks h in omega arith

-- The stores that logins lead to, with the time: failures and resets of any subjects, and time that passes.
pub data Logins (digest : String → String) (redis : Redis) (settings : Settings) (s : redis.Store)
    (t : ℕ) : redis.Store → ℕ → Type 0 where
  begin : Logins digest redis settings s t s t
  failed :
      {s' : redis.Store} {t' : ℕ} (identifier : String) (ip : Option String)
      → Logins digest redis settings s t s' t'
      → Logins digest redis settings s t
          (register_failure digest redis settings s' t' identifier ip)
          t'
  succeeded :
      {s' : redis.Store} {t' : ℕ} (identifier : String) (ip : Option String)
      → Logins digest redis settings s t s' t'
      → Logins digest redis settings s t (reset digest redis s' t' identifier ip) t'
  waited :
      {s' : redis.Store} {t' t'' : ℕ}
      → t' ≤ t''
      → Logins digest redis settings s t s' t'
      → Logins digest redis settings s t s' t''

module _ (digest : String → String) (redis : Redis) (settings : Settings) where
  Logins-IsBounded :
      {s : redis.Store} {t : ℕ} {s' : redis.Store} {t' : ℕ}
      → Logins digest redis settings s t s' t'
      → IsBounded redis settings s t
      → IsBounded redis settings s' t'
  unfolding register_failure reset
  Logins-IsBounded Logins.begin h = h
  Logins-IsBounded (Logins.failed identifier ip logins) h =
      register_all-IsBounded redis settings _ _ (keys digest identifier ip)
        (Logins-IsBounded logins h)
  Logins-IsBounded (Logins.succeeded identifier ip logins) h =
      delete_all-IsBounded redis settings _ _ (keys digest identifier ip)
        (Logins-IsBounded logins h)
  Logins-IsBounded (Logins.waited later logins) h =
      later-IsBounded redis settings _ _ _ later (Logins-IsBounded logins h)

  -- The throttle never locks: however many failures, resets and pauses lead from a store in which no subject
  -- has more than the ceiling to wait, no check then reports a longer wait than the ceiling.
  pub Logins-retry_after :
      (s s' : redis.Store) (t t' : ℕ) (identifier : String) (ip : Option String)
      → IsBounded redis settings s t
      → Logins digest redis settings s t s' t'
      → (check digest redis s' t' identifier ip).retry_after
        ≤ settings.throttle_backoff_ceiling_seconds
  unfolding check
  Logins-retry_after s s' t t' identifier ip bounded logins =
      longest-IsBounded redis settings s' t' (keys digest identifier ip)
        (Logins-IsBounded logins bounded)

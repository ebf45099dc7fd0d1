-- ===== src/Auth/Throttle.antt =====
-- office_connect/core/auth/throttle.py: the login throttle. Redis is an interface with the laws of its
-- commands; so is the digest of an identifier. A key is its kind and its subject, in place of its text.
-- Times are the server's, in milliseconds, and all commands of one call run at one time.
pub mod Delay
pub mod Blocking
pub mod Cleared
mod Examples
use office_connect.Base.{
  ℕ, ◌+◌, ◌-◌, ◌*◌, ◌/◌, ◌^◌, ◌≤◌, ◌≡◌, Bool, true, false, Option, none, some, List, [], ◌∷◌,
  String, ltb, ◌==◌, if◌then◌else◌, map, min, max,
}
use text.Mathlib.Text.{◌==◌ as str_eq}

-- `_acct_key` of a digest, and `_ip_key`
pub data Subject : Type 0 where
  account : String → Subject
  address : String → Subject

-- the counter, and the `:until` key
pub data Key : Type 0 where
  counter : Subject → Key
  until : Subject → Key

abbrev pub same_subject : Subject → Subject → Bool
same_subject (Subject.account a) (Subject.account b) = str_eq a b
same_subject (Subject.address a) (Subject.address b) = str_eq a b
same_subject a b = false

abbrev pub same_key : Key → Key → Bool
same_key (Key.counter a) (Key.counter b) = same_subject a b
same_key (Key.until a) (Key.until b) = same_subject a b
same_key a b = false

-- The commands that the throttle sends, and what they do to the time that a key has left; `pttl` is 0 where
-- the reply is negative (no such key, or no time to live).
pub record Redis : Type 1 where
  pub Store : Type 0
  pub pttl : Store → ℕ → Key → ℕ
  pub incr : Store → ℕ → Key → ℕ × Store
  pub expire : Store → ℕ → Key → ℕ → Store
  pub set_ex : Store → ℕ → Key → ℕ → Store
  pub delete : Store → ℕ → Key → Store
  pub pttl-later : (s : Store) (t t' : ℕ) (k : Key) → t ≤ t' → pttl s t' k ≡ pttl s t k - (t' - t)
  pub pttl-incr : (s : Store) (t : ℕ) (k k' : Key) → pttl (incr s t k).1 t k' ≡ pttl s t k'
  pub pttl-expire :
      (s : Store) (t : ℕ) (k : Key) (seconds : ℕ) (k' : Key)
      → same_key k k' ≡ false
      → pttl (expire s t k seconds) t k' ≡ pttl s t k'
  pub pttl-set_ex :
      (s : Store) (t : ℕ) (k : Key) (seconds : ℕ) (k' : Key)
      → pttl (set_ex s t k seconds) t k' ≡ (if same_key k k' then seconds * 1000 else pttl s t k')
  pub pttl-delete :
      (s : Store) (t : ℕ) (k k' : Key)
      → pttl (delete s t k) t k' ≡ (if same_key k k' then 0 else pttl s t k')

pub record Settings : Type 0 where
  pub throttle_threshold : ℕ
  pub throttle_backoff_base_seconds : ℕ
  pub throttle_backoff_ceiling_seconds : ℕ
  pub throttle_window_seconds : ℕ

pub record ThrottleDecision : Type 0 where
  pub allowed : Bool
  pub retry_after : ℕ

-- `_backoff_seconds`
abbrev pub backoff_seconds : Settings → ℕ → ℕ
backoff_seconds settings fails =
    if ltb fails settings.throttle_threshold
    then 0
    else min (settings.throttle_backoff_base_seconds * 2 ^ (fails - settings.throttle_threshold))
        settings.throttle_backoff_ceiling_seconds

abbrev pub keys_of_ip : Option String → List Subject
keys_of_ip none = []
keys_of_ip (some ip) = if str_eq ip "" then [] else Subject.address ip ∷ []

-- the loop over the replies
abbrev pub longest : List ℕ → ℕ
longest [] = 0
longest (pttl ∷ ttls) = max ((pttl + 999) / 1000) (longest ttls)

module _ (digest : String → String) where
  -- `_keys`
  abbrev pub keys : String → Option String → List Subject
  keys identifier ip = Subject.account (digest identifier) ∷ keys_of_ip ip

module _ (redis : Redis) where
  abbrev pub ttls : redis.Store → ℕ → List Subject → List ℕ
  ttls s now subjects = map (λ k. redis.pttl s now (Key.until k)) subjects

  abbrev pub delete_all : redis.Store → ℕ → List Subject → redis.Store
  delete_all s now [] = s
  delete_all s now (k ∷ ks) =
      delete_all (redis.delete (redis.delete s now (Key.counter k)) now (Key.until k)) now ks

module _ (redis : Redis) (settings : Settings) where
  -- the body of the loop in `register_failure`
  unfoldable pub register : redis.Store → ℕ → Subject → redis.Store
  register s now k =
      let (fails, counted) = redis.incr s now (Key.counter k) in
      let kept = redis.expire counted now (Key.counter k) settings.throttle_window_seconds in
      let delay = backoff_seconds settings fails in
      if ltb 0 delay then redis.set_ex kept now (Key.until k) delay else kept

  abbrev pub register_all : redis.Store → ℕ → List Subject → redis.Store
  register_all s now [] = s
  register_all s now (k ∷ ks) = register_all (register s now k) now ks

module _ (digest : String → String) (redis : Redis) where
  unfoldable pub check : redis.Store → ℕ → String → Option String → ThrottleDecision
  check s now identifier ip =
      let retry = longest (ttls redis s now (keys digest identifier ip)) in
      record { allowed = retry == 0; retry_after = retry }

  unfoldable pub reset : redis.Store → ℕ → String → Option String → redis.Store
  reset s now identifier ip = delete_all redis s now (keys digest identifier ip)

module _ (digest : String → String) (redis : Redis) (settings : Settings) where
  unfoldable pub register_failure : redis.Store → ℕ → String → Option String → redis.Store
  unfolding register
  register_failure s now identifier ip =
      register_all redis settings s now (keys digest identifier ip)

-- ===== src/Auth/Throttle/Examples.antt =====
-- The throttle on a store that is two functions, with a threshold of two failures.
use office_connect.Base.{
  ℕ, ◌+◌, ◌-◌, ◌*◌, ◌≤◌, ◌≡◌, refl, true, false, none, some, String, if◌then◌else◌, arith, inl, inr,
  Bool-cases,
}
use office_connect.Auth.Throttle.{Key, same_key, Redis, Settings, check, register, register_failure}
use office_connect.Auth.Throttle.Delay.{check-unblocks, IsBounded, Logins, Logins-retry_after}
use office_connect.Auth.Throttle.Blocking.{register_failure-throttles}

-- counters, and the time at which a key expires
record Keyspace : Type 0 where
  count : Key → ℕ
  expires_at : Key → ℕ

abbrev put : (Key → ℕ) → Key → ℕ → Key → ℕ
put f k v k' = if same_key k k' then v else f k'

abbrev in_memory : Redis
in_memory = record {
  Store = Keyspace;
  pttl = λ s t k. s.expires_at k - t;
  incr = λ s t k. (s.count k + 1, record s { count = put s.count k (s.count k + 1) });
  expire = λ s t k seconds. record s { expires_at = put s.expires_at k (t + seconds * 1000) };
  set_ex = λ s t k seconds. record s { expires_at = put s.expires_at k (t + seconds * 1000) };
  delete = λ s t k. record { count = put s.count k 0; expires_at = put s.expires_at k 0 };
  pttl-later = λ s t t' k h. omega arith;
  pttl-incr = λ s t k k'. refl;
  pttl-expire = λ s t k seconds k' other. rw other refl;
  pttl-set_ex = λ s t k seconds k'. elim (Bool-cases (same_key k k')) [
    | inl same ↦ rw same (omega arith)
    | inr other ↦ rw other refl
  ];
  pttl-delete = λ s t k k'. elim (Bool-cases (same_key k k')) [
    | inl same ↦ rw same (omega arith)
    | inr other ↦ rw other refl
  ];
}

abbrev settings : Settings
settings = record {
  throttle_threshold = 2;
  throttle_backoff_base_seconds = 1;
  throttle_backoff_ceiling_seconds = 900;
  throttle_window_seconds = 600;
}

abbrev plain : String → String
plain identifier = identifier

-- one failure is counted, and no one has to wait
abbrev one_failure : Keyspace
one_failure = record { count = λ k. 1; expires_at = λ k. 0 }

abbrev two_failures : Keyspace
two_failures = register_failure plain in_memory settings one_failure 5000 "ana" (some "10.0.0.7")

second_failure : (check plain in_memory two_failures 5000 "ana" none).retry_after ≡ 1
unfolding check register_failure register
second_failure = refl

check-unblocks_example : (check plain in_memory two_failures 6000 "ana" none).allowed ≡ true
check-unblocks_example =
    check-unblocks plain in_memory two_failures 5000 6000 "ana" none
      (rw second_failure (omega arith))

unbounded_none : IsBounded in_memory settings one_failure 5000
unbounded_none k = omega arith

Logins-retry_after_example : (check plain in_memory two_failures 5400 "ana" none).retry_after ≤ 900
Logins-retry_after_example =
    Logins-retry_after plain in_memory settings one_failure two_failures 5000 5400 "ana" none
      unbounded_none
      (Logins.waited (omega arith) (Logins.failed "ana" (some "10.0.0.7") Logins.begin))

register_failure-throttles_example :
    ((check plain in_memory two_failures 5000 "ana" none).allowed ≡ false)
    × (1 ≤ (check plain in_memory two_failures 5000 "ana" none).retry_after)
register_failure-throttles_example =
    register_failure-throttles plain in_memory settings one_failure 5000 "ana" (some "10.0.0.7")
      none (omega arith)

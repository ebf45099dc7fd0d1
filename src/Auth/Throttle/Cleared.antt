-- ===== src/Auth/Throttle/Cleared.antt =====
-- core/auth/throttle.py: checks after a success.
use office_connect.Base.{
  ℕ, ◌≤◌, ◌≡◌, refl, subst, true, Option, List, [], ◌∷◌, String, arith, inl, inr, Bool-cases, In,
  here, there,
}
use office_connect.Auth.Throttle.{
  Subject, Key, same_key, Redis, keys, longest, ttls, check, delete_all, reset,
}
use office_connect.Auth.Throttle.Blocking.{same_subject_refl}

module _ (redis : Redis) where
  delete_le :
      (s : redis.Store) (t : ℕ) (k k' : Key)
      → redis.pttl (redis.delete s t k) t k' ≤ redis.pttl s t k'
  delete_le s t k k' =
      let left = redis.pttl-delete s t k k' in
      elim (Bool-cases (same_key k k')) [
        | inl same ↦ rw (left, same) (omega arith)
        | inr other ↦ rw (left, other) (omega arith)
      ]

  delete_all_le :
      (s : redis.Store) (t : ℕ) (ks : List Subject) (k' : Key)
      → redis.pttl (delete_all redis s t ks) t k' ≤ redis.pttl s t k'
  delete_all_le s t [] k' = omega arith
  delete_all_le s t (k ∷ ks) k' =
      let without = redis.delete s t (Key.counter k) in
      let rest = delete_all_le (redis.delete without t (Key.until k)) t ks k' in
      let one = delete_le s t (Key.counter k) k' in
      let two = delete_le without t (Key.until k) k' in omega arith

  delete_all-gone :
      (k : Subject) (s : redis.Store) (t : ℕ) {ks : List Subject}
      → In k ks
      → redis.pttl (delete_all redis s t ks) t (Key.until k) ≡ 0
  delete_all-gone j s t (here {x = k} {xs = ks} e) =
      let without = redis.delete s t (Key.counter k) in
      let rest = delete_all_le (redis.delete without t (Key.until k)) t ks (Key.until k) in
      let left = redis.pttl-delete without t (Key.until k) (Key.until k) in
      let mine = same_subject_refl k in
      subst (λ (j : Subject). redis.pttl (delete_all redis s t (k ∷ ks)) t (Key.until j) ≡ 0) e
        (let none_left : redis.pttl (redis.delete without t (Key.until k)) t (Key.until k) ≡ 0 =
            rw (left, mine) refl in
          omega arith)
  delete_all-gone j s t (there {x = k} m) =
      let without = redis.delete s t (Key.counter k) in
      delete_all-gone j (redis.delete without t (Key.until k)) t m

  longest_zero :
      (s : redis.Store) (t : ℕ) (ks : List Subject)
      → ((k : Subject) → In k ks → redis.pttl s t (Key.until k) ≡ 0)
      → longest (ttls redis s t ks) ≡ 0
  longest_zero s t [] h = refl
  longest_zero s t (k ∷ ks) h =
      let first = h k (here refl) in
      let rest = longest_zero s t ks (λ j m. h j (there m)) in omega arith

-- After a success the account and the address may try again at once.
pub reset-unblocks :
    (digest : String → String) (redis : Redis) (s : redis.Store) (t : ℕ) (identifier : String)
    (ip : Option String)
    → (check digest redis (reset digest redis s t identifier ip) t identifier ip).allowed ≡ true
unfolding check reset
reset-unblocks digest redis s t identifier ip =
    let subjects = keys digest identifier ip in
    let clear =
      longest_zero redis (delete_all redis s t subjects) t subjects
        (λ k m. delete_all-gone redis k s t m) in
    ground arith

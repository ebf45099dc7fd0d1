-- ===== src/Reimbursement/PerDiem/Controlling.antt =====
-- Which leg controls a day of a trip, and which region the day is in.
use office_connect.Base.{
  ℕ, ◌≤◌, ◌<◌, ◌≡◌, ◌≢◌, ◌⊎◌, refl, subst, if◌then◌else◌, ap, sym, ◌∙◌, true, false, Bool, Option,
  none, some, String, List, [], ◌∷◌, get_or, arith, filter, In, here, there, filter-In, In-filter,
  is_id, inl, inr, Bool-cases, eq_iff, truthy,
}
use office_connect.Reimbursement.PerDiem.Rows.{LegInput}
use office_connect.Reimbursement.PerDiem.Day.{
  controls_over, last_leg, last_of, controlling_leg, or_claim, region_of,
}
use text.Mathlib.Text.{◌==◌ as str_eq}

-- `a` comes no later than `b`: a lower number, or the same number and no higher id (a leg without an id has 0).
abbrev pub NoLater : LegInput → LegInput → Type 0
NoLater a b = (a.seq < b.seq) ⊎ ((a.seq ≡ b.seq) × (get_or a.id 0 ≤ get_or b.id 0))

-- No leg is of the day, or the leg is one of the day and none of the day comes later.
abbrev pub IsControlling : List LegInput → ℕ → Option LegInput → Type 0
IsControlling legs day none = (l : LegInput) → In l legs → l.leg_date ≢ some day
IsControlling legs day (some best) =
    In best legs
    × (best.leg_date ≡ some day)
    × ((l : LegInput) → In l legs → l.leg_date ≡ some day → NoLater l best)

NoLater-refl : (a : LegInput) → NoLater a a
NoLater-refl a = inr (refl, omega arith)

NoLater-trans : (a b c : LegInput) → NoLater a b → NoLater b c → NoLater a c
NoLater-trans a b c (inl p) (inl q) = inl (omega arith)
NoLater-trans a b c (inl p) (inr q) = let e = q.0 in inl (omega arith)
NoLater-trans a b c (inr p) (inl q) = let e = p.0 in inl (omega arith)
NoLater-trans a b c (inr (p, r)) (inr (q, t)) = inr (omega arith, omega arith)

over-NoLater : (a b : LegInput) → controls_over a b ≡ true → NoLater b a
over-NoLater a b h = ground arith

not_over-NoLater : (a b : LegInput) → controls_over a b ≡ false → NoLater a b
not_over-NoLater a b h = ground arith

-- What the `max` over the legs returns once it holds one.
abbrev IsLast : LegInput → List LegInput → LegInput → Type 0
IsLast best legs last =
    ((last ≡ best) ⊎ In last legs)
    × NoLater best last
    × ((l : LegInput) → In l legs → NoLater l last)

moved_on :
    (best leg last : LegInput) (legs : List LegInput)
    → NoLater best leg
    → IsLast leg legs last
    → IsLast best (leg ∷ legs) last
moved_on best leg last legs h (found, above, others) = (
  inr (elim found [ inl e ↦ here (sym e) | inr m ↦ there m ]),
  NoLater-trans best leg last h above,
  λ l m. elim m [
    | here e ↦ subst (λ (x : LegInput). NoLater x last) e above
    | there k ↦ others l k
  ],
)

stayed :
    (best leg last : LegInput) (legs : List LegInput)
    → NoLater leg best
    → IsLast best legs last
    → IsLast best (leg ∷ legs) last
stayed best leg last legs h (found, above, others) = (
  elim found [ inl e ↦ inl e | inr m ↦ inr (there m) ],
  above,
  λ l m. elim m [
    | here e ↦ subst (λ (x : LegInput). NoLater x last) e (NoLater-trans leg best last h above)
    | there k ↦ others l k
  ],
)

IsLast-none : (best : LegInput) → IsLast best [] (last_leg best [])
unfolding last_leg
IsLast-none best = (inl refl, NoLater-refl best, λ l m. elim m [ ])

module _ (best leg : LegInput) (legs : List LegInput) where
  last_over : controls_over leg best ≡ true → last_leg leg legs ≡ last_leg best (leg ∷ legs)
  unfolding last_leg
  last_over h = rw h refl

  last_under : controls_over leg best ≡ false → last_leg best legs ≡ last_leg best (leg ∷ legs)
  unfolding last_leg
  last_under h = rw h refl

last_leg-IsLast : (best : LegInput) (legs : List LegInput) → IsLast best legs (last_leg best legs)
last_leg-IsLast best [] = IsLast-none best
last_leg-IsLast best (leg ∷ legs) = elim (Bool-cases (controls_over leg best)) [
  | inl over ↦
      subst (λ (x : LegInput). IsLast best (leg ∷ legs) x) (last_over best leg legs over)
        (moved_on best leg (last_leg leg legs) legs (over-NoLater leg best over)
          (last_leg-IsLast leg legs))
  | inr under ↦
      subst (λ (x : LegInput). IsLast best (leg ∷ legs) x) (last_under best leg legs under)
        (stayed best leg (last_leg best legs) legs (not_over-NoLater leg best under)
          (last_leg-IsLast best legs))
]

is_id-some : (o : Option ℕ) (n : ℕ) → is_id o n ≡ true → o ≡ some n
is_id-some none n h = cc
is_id-some (some m) n h = let same : m ≡ n = ground arith in ap some same

some-is_id : (o : Option ℕ) (n : ℕ) → o ≡ some n → is_id o n ≡ true
some-is_id o n e = rw e (ground arith)

module _ (legs : List LegInput) (day : ℕ) where
  abbrev of_day : LegInput → Bool
  of_day l = is_id l.leg_date day

  dated : (l : LegInput) → In l legs → l.leg_date ≡ some day → In l (filter of_day legs)
  dated l m e = In-filter of_day m (some-is_id l.leg_date day e)

  last_of-IsControlling :
      (found : List LegInput) → filter of_day legs ≡ found → IsControlling legs day (last_of found)
  last_of-IsControlling [] e =
      λ l m d. elim (subst (λ (x : List LegInput). In l x) e (dated l m d)) [ ]
  last_of-IsControlling (leg ∷ more) e =
      let (found, above, others) = last_leg-IsLast leg more in
      let last = last_leg leg more in
      let among : In last (leg ∷ more) = elim found [ inl s ↦ here (sym s) | inr m ↦ there m ] in
      let (m, on) =
        filter-In of_day legs (subst (λ (x : List LegInput). In last x) (sym e) among) in
      (
        m,
        is_id-some last.leg_date day on,
        λ l k d. elim (subst (λ (x : List LegInput). In l x) e (dated l k d)) [
          | here s ↦ subst (λ (x : LegInput). NoLater x last) s above
          | there n ↦ others l n
        ],
      )

  pub controlling_leg-IsControlling : IsControlling legs day (controlling_leg legs day)
  unfolding controlling_leg
  controlling_leg-IsControlling = last_of-IsControlling (filter of_day legs) refl

-- The region of a day: that of its controlling leg; where this leg names none, that of the claim; with no
-- leg on the day that of the day before, and on a first day without a leg that of the claim.
pub data IsRegion (claim : Option String) : Option LegInput → Option String → String → Type 0 where
  of_leg :
      {l : LegInput} {r : String} (previous : Option String)
      → l.destination_region_code ≡ some r
      → r ≢ ""
      → IsRegion claim (some l) previous r
  unnamed :
      {l : LegInput} {r : String} (previous : Option String)
      → (l.destination_region_code ≡ none) ⊎ (l.destination_region_code ≡ some "")
      → claim ≡ some r
      → IsRegion claim (some l) previous r
  carried : (r : String) → IsRegion claim none (some r) r
  of_claim : {r : String} → claim ≡ some r → IsRegion claim none none r

named : (r : String) → str_eq r "" ≡ false → r ≢ ""
named r h e = let same = (eq_iff r "").1 e in cc (same, h)

same_text : {a b : String} → some a ≡ some b → a ≡ b
same_text e = cc

on_leg :
    (claim previous : Option String) (l : LegInput) {r : String} (code : Option String)
    → l.destination_region_code ≡ code
    → or_claim (if truthy code then code else none) claim ≡ some r
    → IsRegion claim (some l) previous r
on_leg claim previous l none e h = IsRegion.unnamed previous (inl e) h
on_leg claim previous l (some c) e h = elim (Bool-cases (str_eq c "")) [
  | inl empty ↦
      let same : c ≡ "" = (eq_iff c "").0 empty in
      IsRegion.unnamed previous (inr (e ∙ ap some same)) (rw empty at h)
  | inr full ↦
      let same = same_text (rw full at h) in
      IsRegion.of_leg previous (e ∙ ap some same)
        (subst (λ (x : String). x ≢ "") same (named c full))
]

pub region_of-IsRegion :
    (leg : Option LegInput) (previous claim : Option String) {r : String}
    → region_of leg previous claim ≡ some r
    → IsRegion claim leg previous r
region_of-IsRegion (some l) previous claim h =
    on_leg claim previous l l.destination_region_code refl h
region_of-IsRegion none none claim h = IsRegion.of_claim h
region_of-IsRegion none (some p) claim {r} h =
    subst (λ (x : String). IsRegion claim none (some p) x) (same_text h) (IsRegion.carried p)

-- ===== src/Workflow/Definitions/Latest.antt =====
-- Which version get_published_version of definitions.py reads.
use office_connect.Base.{
  ◌≤◌, ◌≡◌, refl, ap, inl, inr, true, Bool, ◌&&◌, none, some, List, [], ◌∷◌, String, ◌==◌, ltb,
  filter, any, In, here, there, filter-In, In-filter, any-In, In-any, eq_iff, arith, Bool-cases,
  Option-cases, subst,
}
use office_connect.Workflow.Types.{Definition, DefinitionVersion, Db}
use office_connect.Workflow.Service.{latest, get_published_version}
use text.Mathlib.Text.{◌==◌ as str_eq}

and_right : (a b : Bool) → a && b ≡ true → b ≡ true
and_right a b h = ground arith

In-nil : {v : DefinitionVersion} {vs : List DefinitionVersion} → vs ≡ [] → In v vs → ⊥
In-nil {v} e m = elim (subst (λ (x : List DefinitionVersion). In v x) e m) [ ]

some-injective : {v w : DefinitionVersion} → some v ≡ some w → v ≡ w
some-injective h = cc

-- A row of the list with none of a higher number.
abbrev pub IsHighest : List DefinitionVersion → DefinitionVersion → Type 0
IsHighest vs w = In w vs × ((v : DefinitionVersion) → In v vs → v.version_no ≤ w.version_no)

IsHighest-head :
    (v : DefinitionVersion) (vs : List DefinitionVersion)
    → ((u : DefinitionVersion) → In u vs → u.version_no ≤ v.version_no)
    → IsHighest (v ∷ vs) v
IsHighest-head v vs above = (here refl, λ u m. bound u m)
  where
    bound : (u : DefinitionVersion) → In u (v ∷ vs) → u.version_no ≤ v.version_no
    bound u (here e) = let same = ap (λ (x : DefinitionVersion). x.version_no) e in omega arith
    bound u (there m) = above u m

IsHighest-tail :
    (v w : DefinitionVersion) (vs : List DefinitionVersion)
    → v.version_no ≤ w.version_no
    → IsHighest vs w
    → IsHighest (v ∷ vs) w
IsHighest-tail v w vs low high = (there high.0, λ u m. bound u m)
  where
    bound : (u : DefinitionVersion) → In u (v ∷ vs) → u.version_no ≤ w.version_no
    bound u (here e) = let same = ap (λ (x : DefinitionVersion). x.version_no) e in omega arith
    bound u (there m) = high.1 u m

none_in : (vs : List DefinitionVersion) → latest vs ≡ none → vs ≡ []
unfolding latest
none_in [] h = refl
none_in (v ∷ vs) h = elim (Option-cases (latest vs)) [
  | inl nothing ↦ absurd (ground arith)
  | inr (w, found) ↦ absurd (ground arith)
]

latest-IsHighest :
    {w : DefinitionVersion} (vs : List DefinitionVersion) → latest vs ≡ some w → IsHighest vs w
unfolding latest
latest-IsHighest [] h = cc
latest-IsHighest {w} (v ∷ vs) h = elim (Option-cases (latest vs)) [
  | inl nothing ↦
      let alone = none_in vs nothing in
      let same : v ≡ w = some-injective (rw nothing at h) in
      subst (λ x. IsHighest (v ∷ vs) x) same (IsHighest-head v vs (λ u m. absurd (In-nil alone m)))
  | inr (u, found) ↦
      let high = latest-IsHighest vs found in
      elim (Bool-cases (ltb v.version_no u.version_no)) [
        | inl later ↦
            let same : u ≡ w = some-injective (rw (found, later) at h) in
            subst (λ x. IsHighest (v ∷ vs) x) same (IsHighest-tail v u vs (ground arith) high)
        | inr first ↦
            let same : v ≡ w = some-injective (rw (found, first) at h) in
            subst (λ x. IsHighest (v ∷ vs) x) same
              (IsHighest-head v vs (λ x m. let below = high.1 x m in ground arith))
      ]
]

-- The version is a published one of a definition with the code.
pub record IsPublishedOf (db : Db) (code : String) (v : DefinitionVersion) : Type 0 where
  pub listed : In v db.versions
  pub published : v.is_published ≡ true
  pub definition : Definition
  pub definition_listed : In definition db.definitions
  pub definition_id : definition.id ≡ v.definition_id
  pub definition_code : definition.code ≡ code

-- It is one, and none has a higher number.
abbrev pub IsLatestOf : Db → String → DefinitionVersion → Type 0
IsLatestOf db code w =
    IsPublishedOf db code w
    × ((v : DefinitionVersion) → IsPublishedOf db code v → v.version_no ≤ w.version_no)

module _ (db : Db) (code : String) where
  abbrev candidate : DefinitionVersion → Bool
  candidate v =
      v.is_published && any (λ d. d.id == v.definition_id && str_eq d.code code) db.definitions

  candidate-IsPublishedOf :
      {v : DefinitionVersion} → In v db.versions → candidate v ≡ true → IsPublishedOf db code v
  candidate-IsPublishedOf {v} m h =
      let (d, listed, test) =
        any-In (λ d. d.id == v.definition_id && str_eq d.code code) db.definitions
          (and_right v.is_published _ h) in
      record {
        listed = m;
        published = ground arith;
        definition = d;
        definition_listed = listed;
        definition_id = ground arith;
        definition_code = (eq_iff d.code code).0 (and_right (d.id == v.definition_id) _ test);
      }

  IsPublishedOf-candidate : {v : DefinitionVersion} → IsPublishedOf db code v → candidate v ≡ true
  IsPublishedOf-candidate {v} p =
      let same_id = p.definition_id in
      let same_code = (eq_iff p.definition.code code).1 p.definition_code in
      let published = p.published in
      let found =
        In-any (λ d. d.id == v.definition_id && str_eq d.code code) p.definition_listed
          (ground arith) in
      rw (published, found) refl

  -- Where there is a published version, the latest one is read.
  pub published-IsLatestOf :
      (v : DefinitionVersion)
      → IsPublishedOf db code v
      → (w : DefinitionVersion) × (get_published_version db code ≡ some w) × IsLatestOf db code w
  unfolding get_published_version
  published-IsLatestOf v p =
      let among = In-filter candidate p.listed (IsPublishedOf-candidate p) in
      elim (Option-cases (latest (filter candidate db.versions))) [
        | inl nothing ↦ absurd (In-nil (none_in (filter candidate db.versions) nothing) among)
        | inr (w, found) ↦
            let high = latest-IsHighest (filter candidate db.versions) found in
            let (m, test) = filter-In candidate db.versions high.0 in
            (
              w,
              found,
              (
                candidate-IsPublishedOf m test,
                λ u q. high.1 u (In-filter candidate q.listed (IsPublishedOf-candidate q)),
              ),
            )
      ]

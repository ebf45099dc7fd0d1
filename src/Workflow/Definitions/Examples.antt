-- ===== src/Workflow/Definitions/Examples.antt =====
-- The authoring theorems at the definition of a claim, and at a draft of its next version.
use office_connect.Base.{
  ◌≡◌, ◌≢◌, ◌↔◌, refl, sym, ap, subst, ◌∙◌, true, false, none, List, [], ◌∷◌, In, here, there,
  arith,
}
use office_connect.Workflow.Types.{
  StateKind, JoinType, Definition, DefinitionVersion, State, Transition, Instance, Db,
}
use office_connect.Workflow.Result.{ok}
use office_connect.Workflow.Service.{start_instance}
use office_connect.Workflow.Walkthrough.{
  draft, review, paid, submitting, approving, installed, claim,
}
use office_connect.Workflow.Definitions.{
  create_version, NewState, state_row, add_state, states_of, transitions_of, explore, visit,
  start_at, reached, validate_graph,
}
use office_connect.Workflow.Definitions.Exploration.{explore-ends}
use office_connect.Workflow.Definitions.Graph.{IsWellFormed, validate_graph-IsWellFormed}
use office_connect.Workflow.Definitions.Frozen.{Authored, IsSound, IsKept}
use office_connect.Workflow.Definitions.Authoring.{Authoring, Authoring-IsSound}
use office_connect.Workflow.Definitions.Start.{IsInitialOf, start_instance-IsSound}
use office_connect.Workflow.Definitions.Latest.{IsPublishedOf, IsLatestOf}

abbrev edges : List Transition
edges = submitting ∷ approving ∷ []

explore-ends_example : (explore 3 edges (start_at 10)).frontier ≡ []
explore-ends_example = explore-ends edges 10

claim_valid : validate_graph (draft ∷ review ∷ paid ∷ []) edges ≡ ok tt
unfolding validate_graph reached explore visit
claim_valid = refl

validate_graph-IsWellFormed_example :
    (validate_graph (draft ∷ review ∷ paid ∷ []) edges ≡ ok tt)
    ↔ IsWellFormed (draft ∷ review ∷ paid ∷ []) edges
validate_graph-IsWellFormed_example = validate_graph-IsWellFormed (draft ∷ review ∷ paid ∷ []) edges

abbrev version_one : DefinitionVersion
version_one = record { id = 1; definition_id = 1; version_no = 1; is_published = true }

abbrev claims : Definition
claims = record { id = 1; code = "claim" }

is_the_one : {v : DefinitionVersion} → In v installed.versions → version_one ≡ v
is_the_one (here e) = e
is_the_one (there m) = elim m [ ]

claim-IsWellFormed : IsWellFormed (states_of installed 1) (transitions_of installed 1)
claim-IsWellFormed = (validate_graph-IsWellFormed (draft ∷ review ∷ paid ∷ []) edges).0 claim_valid

installed_IsSound : IsSound installed
installed_IsSound = record {
  unique = λ v w m n e. sym (is_the_one m) ∙ is_the_one n;
  well_formed = λ v m frozen.
      subst
        (λ (x : DefinitionVersion).
          IsWellFormed (states_of installed x.id) (transitions_of installed x.id))
        (is_the_one m) claim-IsWellFormed;
}

abbrev version_two : DefinitionVersion
version_two = record { id = 2; definition_id = 1; version_no = 2; is_published = false }

abbrev drafting : Db
drafting = record installed { versions = version_one ∷ version_two ∷ [] }

abbrev waiting : NewState
waiting = record {
  code = "waiting";
  kind = StateKind.normal;
  is_approval_gate = false;
  required_permission = none;
  join_type = JoinType.all;
  step_count = 1;
  quorum_count = none;
  sla_hours = none;
  enforce_segregation = false;
  requires_comment = false;
}

abbrev drafted : Db
drafted = record drafting { states = draft ∷ review ∷ paid ∷ state_row 13 version_two waiting ∷ [] }

version_two_created : create_version installed 2 claims ≡ (version_two, drafting)
unfolding create_version
version_two_created = refl

waiting_added :
    add_state drafting 13 version_two waiting ≡ ok (state_row 13 version_two waiting, drafted)
unfolding add_state
waiting_added = refl

two_is_fresh : (v : DefinitionVersion) → In v installed.versions → v.id ≢ 2
two_is_fresh v m e =
    let id = ap (λ (x : DefinitionVersion). x.id) (is_the_one m) in absurd (omega arith)

authoring : Authoring installed drafted
authoring =
    Authoring.call
      (Authoring.call Authoring.begin
        (Authored.version_created 2 claims version_two drafting two_is_fresh version_two_created))
      (Authored.state_added 13 version_two waiting (state_row 13 version_two waiting) drafted
        (there (here refl)) waiting_added)

Authoring-IsSound_example :
    IsSound drafted
    × ((v : DefinitionVersion)
        → In v installed.versions
        → v.is_published ≡ true
        → IsKept installed drafted v)
Authoring-IsSound_example = Authoring-IsSound authoring installed_IsSound

claim_published : IsPublishedOf installed "claim" version_one
claim_published = record {
  listed = here refl;
  published = refl;
  definition = claims;
  definition_listed = here refl;
  definition_id = refl;
  definition_code = refl;
}

start_instance-IsSound_example :
    (i : Instance) × (after : Db) × (initial : State) × (w : DefinitionVersion) × (start_instance
        installed claim
      ≡ ok (i, after))
    × In i after.instances
    × IsLatestOf installed "claim" w
    × (i.definition_version_id ≡ w.id)
    × (i.current_state_id ≡ initial.id)
    × IsInitialOf installed w initial
start_instance-IsSound_example =
    start_instance-IsSound installed claim version_one installed_IsSound refl claim_published

-- ===== src/Lib.antt =====
-- Office Connect: the approval engine of the platform, who may act in it, the checklist of a packet, the
-- audit trail, the login throttle, the working-day calendar, and the reimbursement module: its claims and
-- cash advances with their life cycles, and its rules on money and deadlines.
--
-- The program's parts and the files that model them (paths from the repository's root):
--
--   office_connect/core/workflow          Workflow and its children
--     models (core/models/workflow.py)      Workflow/Types
--     errors.py                             Workflow/Result
--     guards.py, routing                    Workflow/Guards
--     steps.py                              Workflow/Steps, Workflow/Steps/Join
--     core/maker_checker.py                 Workflow/Segregation
--     delegation.py                         Workflow/Delegation
--     transitions.py                        Workflow/Decisions (the branches of execute_action),
--                                           Workflow/Transitions (execute_action and its order),
--                                           Workflow/Transitions/Available (available_actions)
--     service.py, reads of definitions.py   Workflow/Service
--     definitions.py (authoring)            Workflow/Definitions and its children
--     sla.py                                Workflow/Sweep
--     replay.py                             Workflow/Replay
--   office_connect/core/checklist         Checklist and its children
--     grammar.py (fields, comparators)      Checklist/Values, Decimal (decimal.Decimal as it uses it)
--     grammar.py (rules)                    Checklist/Grammar
--     checks.py (the verdicts)              Checklist/Checks
--     engine.py                             Checklist/Engine
--   office_connect/core/org_units.py      OrgUnits
--   office_connect/core/auth/throttle.py  Auth/Throttle
--   office_connect/core/audit.py          Audit
--   office_connect/core/workdays.py       Workdays
--   office_connect/modules/reimbursement/services
--     per_diem.py (with core/money.py)      Reimbursement/PerDiem, Reimbursement/Settlement
--     deadline.py                           Reimbursement/Deadline
--     values of JSONB columns               Json
--     errors.py                             Reimbursement/Errors
--     tables (../models)                    Reimbursement/Records
--     checklist_facts.py, reads of settings Reimbursement/Configs
--     cash_advance.py                       Reimbursement/CashAdvances and its children
--     lifecycle.py                          Reimbursement/Claims (reads, the mirror of the engine),
--                                           Reimbursement/Claims/Lifecycle (submit, act, cancel)
--     compute.py                            Reimbursement/ClaimTotals
--     status.py                             Reimbursement/Status
--     liquidation.py                        Reimbursement/Liquidations
--     settlement.py                         Reimbursement/Settling
--     external.py                           Reimbursement/Fms, Reimbursement/Texts
--   office_connect/core/reference_numbers.py  Reimbursement/References
--
-- How they interact. A request calls execute_action, which reads the routing (Guards), the branch of
-- the action (Decisions, with Steps, Segregation and Delegation, which asks OrgUnits), and then writes
-- the instance, the steps and one event (Transitions). start_instance (Service) and sweep_due_steps
-- (Sweep) are the other writers. Replay/Transactions is the step relation of all three. A claim of the
-- reimbursement module is driven by an instance of this engine: submit_claim calls start_instance and
-- execute_action, claim_action calls execute_action, and both write the state of the instance back to the
-- status of the claim. Settling and Fms end a claim by claim_action; Liquidations and the reimbursement of a
-- liquidation draft one. Per diem, deadlines and settlement are functions of rows; Deadline calls Workdays.
--
-- State. `Db` holds the tables as one transaction sees them. A function that writes returns the new
-- `Db`; one that raises returns an error and no database, since the caller's transaction is rolled
-- back. Row locks serialise the transactions on an instance, so each is one step. `Store` (Records) adds
-- the tables of the reimbursement module to `Db`. What its functions call outside the modelled code (the
-- gates of the packet's checklist, the year of a date, the texts of keys) is the parameter `Environment`.
--
-- Redis, which the throttle uses, is an interface: a type of stores, the commands, and the laws of what they do
-- to the time that a key has left (Auth/Throttle); so is the digest of an identifier.
--
-- Numbers. Ids, dates (ordinals) and times (seconds) are natural numbers; amounts are integers in
-- centavos; Python's integers are ℤ (Base/Int). Nothing wraps.
--
-- Bounds and fuel. The loops of Workdays recur on the days left in Python's range of dates, so running
-- out is the OverflowError of the source. `climb` recurs on the depth bound of the SQL query itself, 64.
-- The search of validate_graph has one round for each transition and one for the initial state; its rounds
-- change nothing once the frontier is empty (Workflow/Definitions/Exploration). Every other recursion is
-- structural.
--
-- The audit trail takes json.dumps, the digest and the form of a time as functions.
--
-- Not modelled: the database's constraints, the capture of changes for the audit trail, the automatic
-- checks of the checklist (the engine takes their runner as a parameter), sessions and passwords,
-- notifications, documents, the retention clock, the chains of states that
-- office_connect/modules/reimbursement/workflow.py authors, the reads for screens, HTTP and the web client.
pub mod Base
pub mod Auth
pub mod Audit
pub mod Workdays
pub mod OrgUnits
pub mod Workflow
pub mod Checklist
pub mod Json
pub mod Decimal
pub mod Reimbursement

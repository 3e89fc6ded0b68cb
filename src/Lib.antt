-- ===== src/Lib.antt =====
-- mutiAI: a product server that lets an organization of agents work on tasks through a Runtime
-- (Codex). This library models the parts that decide: which execution may start and what it costs,
-- what a user allowed, whether a Runtime can do the work at all, how an organization and a plan
-- are built, and which step of a plan comes next.
--
-- The parts, and the file that models each:
--   src/mutiai/models/*.py                     Models.antt and its children: the rows, as records
--   src/mutiai/db.py                           Database.antt: a session, as the tables it reads
--   src/mutiai/services/events.py              Events.antt: the log of product events
--   src/mutiai/services/runtime_controls.py    Controls: Policies, Activity, Capacity, Admit, Settle
--                                              and Snapshot, a file for each operation
--   src/mutiai/services/approvals.py           Approvals: Resolution, Deciding, Cancelling, Requesting,
--                                              and Loop for the worker that waits
--   src/mutiai/domain/feasibility.py           Feasibility.antt: requirements and profiles
--   src/mutiai/services/feasibility.py         Feasibility/Findings, Sections, Profile, Outcome, Merge
--   src/mutiai/domain/organization.py          Organizations.antt: the tree of roles
--   src/mutiai/domain/task_plan.py             Plans: Spec, Graph (the order of the steps), Ancestors and
--                                              Validate
--   src/mutiai/services/task_plans.py          Plans/Shape: the shapes of a plan that are supported;
--                                              Plans/Create: its rows
--   src/mutiai/services/linear_scheduler.py    Scheduler: Rows, Payloads, Assign, Prepare, Cancel,
--                                              Ending and Finalize
--   src/mutiai/domain/task_review.py           Scheduler/Delivery: what a Runtime delivers for a step
-- The children of a component prove what holds of it, one file for each subject; Examples runs it.
-- Prelude.antt has what all of them share: Boolean tests, lists, results; Keys.antt is about rows
-- that are found by a text key.
--
-- How the code becomes a model. A method that reads and writes the database is a function from
-- a `Session` to a result and a `Session`; the clock and `uuid4` are the argument `Draws`, and each
-- operation reads the entries it needs. A change to an attribute of an object from the database is a
-- write to its row. An exception is `err` with a constructor for each kind; where the code writes
-- before it raises, the session beside the error has that write. A query by a unique key is `find?`,
-- a join is a lookup by the foreign key. Amounts and times are natural numbers, which is what the
-- constraints of the tables admit.
--
-- The approval coordinator runs its methods under two locks, so each of them is one step. A worker
-- in `request_approval` gives up the locks before it waits, so its loop is three steps: `check` up
-- to `waiter.wait()`, the end of the wait (`wait_returns`), and `clear`. An `Event` has a number,
-- which two workers on one approval share. A history is a sequence of steps by any callers, in any
-- order, the recovery of orphaned approvals included.
--
-- The scheduler opens its own sessions, so it gives back what is committed: a transaction is what
-- is committed and what is written beyond it, and a return without a commit leaves the former.
-- What it calls of the workspaces, the artifacts and the instructions is the record Collaborators,
-- of which it is assumed that they write no Assignments (IsApart); for the end of a step it is
-- Deliveries, with pydantic's reading of JSON, of which it is assumed that publishing an artifact
-- keeps the rows of tasks, plans, steps and Assignments (IsRecorded). Publishing returns, raises
-- an ArtifactError, or raises another exception (PublishError), which passes through the
-- scheduler.
--
-- Parameters: Python's `str.casefold` and `json.dumps` are functions of which nothing is assumed;
-- the answer of the Adapter's `capacity()` is an optional signal, absent where it raises. The
-- order in which Python iterates a set is a function of the list in which the elements were added;
-- assumed is that it gives each element once (IsSetOrder). `uuid5`, SHA-256 and pydantic's
-- `model_dump`, from which the ids of a plan's rows and the hash of its definition are made, are
-- functions (Identities); the reading back of a plan assumes that its own steps' different keys
-- get different ids (TellsApart).
--
-- Bounds: the loops are over lists, so they need no fuel, but for the walk up the role tree, whose
-- fuel is the number of roles and one more, and the loop over the queue of a plan's steps, whose
-- fuel is the number of steps and one more: each step is queued at most once.
--
-- Not modelled: the orchestrator, the end of a wave of specialists and the evidence for a review in
-- the scheduler, artifacts, the assistant, the workspaces, the protocol client of the Codex App
-- Server, and the HTTP interface. Rollback of a session that is passed to an operation is the
-- caller's, and so it is not part of it.
pub mod Prelude
pub mod Models
pub mod Database
pub mod Events
pub mod Controls
pub mod Approvals
pub mod Feasibility
pub mod Keys
pub mod Organizations
pub mod Plans
pub mod Scheduler

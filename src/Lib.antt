-- ===== src/Lib.antt =====
-- Kachu+, the assistant of small shops on LINE (src/kachu_plus): what its repository and its
-- handlers do to the database, and what that guarantees to tenants and their customers.
--
-- The program is a FastAPI service. `KachuPlusRepository` (src/kachu_plus/persistence/repository.py)
-- holds every access to the tables of src/kachu_plus/persistence/tables.py; the handlers of LINE
-- events and HTTP requests call it. A table is modelled as the list of its rows in insertion order,
-- an operation as a function of the rows that returns its result and the new rows. An instant is a
-- number of microseconds, an operation reads the clock once, and the clock and the keys of new rows
-- are arguments. One call of a repository operation is one transaction, and a handler makes several in a
-- row. A call that raises returns the error with the rows as they then are.
--
-- Prelude      shared names: tests, lists, exceptions, and Python's functions on texts
-- Table        rows under primary keys, `session.get`, `add` and `delete`, and their laws
-- Recipients   the loop that gathers distinct identifiers
-- Tenants      the tenants' table
-- Memberships  who belongs to a tenant: `create_tenant_membership` and the queries
-- Jobs         the leases that keep two workers from one job: `claim_due_recurring_job`
-- Webhooks     `record_webhook_event_if_new`, by which an event is handled once
-- Assets       the photos that wait for a user's decision
-- Handoff      the locks by which a person takes over a conversation
-- Suggestions  the table of suggestions and the repository's operations on it
-- Customers    profiles, identities, links, tags, the timeline, and `merge_customer_profiles`;
--              `Customers.Profiles` also has the nightly `sync_tenant` of services.py
-- Decisions    the owner's requests on a suggestion (src/kachu_plus/suggestions.py)
-- Approvals    the drafts that wait for approval, their store, the owner's answers, schedules and
--              the services over them (src/kachu_plus/approval.py)
-- Proactive    the engine that scans tenants for suggestions and reminds of them
--              (src/kachu_plus/proactive.py)
-- Routing      what an owner's message asks for (src/kachu_plus/intent_router.py), with what it
--              carries on from (src/kachu_plus/dialogue_state.py)
-- Memory       what is remembered of a conversation (src/kachu_plus/memory_promotion.py)
-- Onboarding   the state machine of src/kachu_plus/onboarding/flow.py with its tables
--
-- Customers use Suggestions, since a merge rewrites the profiles that a suggestion names; Decisions
-- use both, since a campaign is sent to the customers of a suggestion that may be reached.
--
-- The unique constraints of alembic/versions are modelled where an operation can break them (tag
-- names, tag assignments, identities of users), and that of tables.py on the identity of a link in a
-- relink. Two transactions that overlap are not modelled, nor are rendered messages, JSON texts and
-- the logs. Parameters stand for the dispatcher of agents,
-- the push to LINE (`Decisions.Execute`), AgentOS with a state of its own (`Approvals.Bridge`),
-- JSON and ISO times (`Approvals.Due`), time zones (`Approvals.Schedule`), the class of word
-- characters (`Routing`) and the ingestion of websites (`Onboarding.Flow`), with any
-- behaviour, except where a theorem says otherwise: that the ingestion leaves the steps and interview
-- answers as they are, since it writes entries of other categories, that AgentOS answers for the runs
-- that are open (`Approvals.Progress`), and that dicts of texts and the texts of instants are read
-- back as they were written (`Approvals.Outcomes`). All recursion is on lists and texts; the
-- one fuel is that of `decimal` in Prelude.Text, which has one more than the number it prints, and
-- each digit divides the number by ten. Python's limit on the length of a number's text is left out.
pub mod Prelude
pub mod Table
pub mod Recipients
pub mod Memberships
pub mod Jobs
pub mod Webhooks
pub mod Handoff
pub mod Tenants
pub mod Suggestions
pub mod Approvals
pub mod Assets
pub mod Routing
pub mod Memory
pub mod Customers
pub mod Onboarding
pub mod Decisions
pub mod Proactive

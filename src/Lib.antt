-- ===== src/Lib.antt =====
-- A model of GreenSecOps, with theorems: a service that scans repositories for security, energy and
-- reliability problems, proposes fixes as pull requests, and meters both by plan.
--
-- The parts. A repository, a scan, a finding, a fix, a pull request, a cloud account, a telemetry run
-- and a subscription each keep their state in a column that a state machine governs
-- (backend/app/services/state_machines). Webhooks, workers and Stripe fire events on them, often twice
-- or out of order; an event that is illegal in the state is a no-op (`try_advance`) or an error
-- (`advance`). Before a route or a worker starts an analysis or a fix, it asks which work holds the
-- target (engine_target.py) and whether the plan of the organisation's billing owner leaves room
-- (services/billing/quota.py); afterwards it charges the owner's ledger (usage.py). The plan that
-- counts is the subscription's where its status entitles to it (lifecycle.py).
--
-- The files, each under backend/app:
--   StateMachines/Base: services/state_machines/base.py (`advance`, `try_advance`, `force_to`,
--     `output_for`). A model is any type with a state column, read and written through a `Field`.
--   StateMachines/Fix, Scan, Finding, PullRequest, Repository, CloudAccount, Telemetry, Billing: the
--     machine of the file of that name, as the transitions of each event in the order of their
--     declaration; its Graph child shows its shape, the other children what it is for.
--   StateMachines/EngineTarget: engine_target.py (`activity_of`, `BLOCKS`, `blocked_reason`).
--   Billing/Plans: core/plans.py. Billing/Store: the tables in models/db, and `Session`, the database
--     with the events queued for publication. Billing/Owner: owner.py. Billing/Usage: usage.py.
--   Billing/Calendar and Billing/Lifecycle: lifecycle.py. Billing/Errors: errors.py.
--   Billing/Quota: quota.py. Billing/Tasks and Billing/Warnings: workers/tasks/billing.py, the daily
--     passes that chase overdue subscriptions and warn owners near a limit.
--   WorkflowSync: services/workflow_sync.py, the reconciliation of the stored workflow files with what
--     a branch holds.
--   Maintenance: workers/tasks/maintenance.py, the sweep of rows whose worker died, and in Retry the
--     hourly pass that runs again what failed transiently.
--   Events: services/github/event_handlers.py, what an event of GitHub does to the tables (`World`),
--     whoever brought it: Commands reads GitHub's words and `/greensecops` comments, Scans queues
--     analyses and scans, Lifecycle lands, withdraws and restores the fixes of a pull request,
--     Attributes records the rest. A handler on a pull request returns its row beside the tables.
--   Webhooks: api/routes/webhooks.py, one child for each group of events, and Dispatch, the route;
--     with the functions of crud.py and services/github/fix_delivery.py that the handlers call.
--   Polling: workers/tasks/polling.py, and the snapshot of services/github/app_client.py: the same
--     handlers, driven by what a poll of the REST API sees.
--   Docker: services/docker/compose_merge.py, the configuration that Compose makes of a file and its
--     override. Values holds a parsed document with Python's operations on it, Compose the merging of
--     two mappings, and Documents the choice of what is merged.
--   Llm: services/llm/comment_guard.py, which rejects a rewrite that drops a comment.
--   Common: numbers, tests, lists and text. Tests: concrete inputs.
--
-- Conventions. Python's `int` is ℕ, since every number here is a count, a price or a limit; where the
-- code subtracts and caps at 0, ℕ's subtraction does. A UUID is a number. An instant is the
-- microseconds since 1970 in UTC, and `now` an argument, as are the settings and the identifiers of
-- new rows. A function that writes returns the session beside its result. A query is the recursion
-- over the table's rows that its `where` and `order_by` describe; a flush and a commit differ only in
-- what other transactions see, and what another transaction does in the window that the code guards
-- against is an argument (`Request.other`, the row that is inserted before ours).
--
-- Third parties. python-statemachine's `send` is a field of the record `Engine`, with its documented
-- rule as a law: the first declared transition that leaves the current state is taken. The client of
-- GitHub is the record `GithubClient`, HMAC-SHA256 a function, a request's JSON the payload that it
-- parses to, if it does, and an answer of Redis a `SlotReply`.
--
-- Text. A Python text that the source searches or cuts is the list of its code points; one that it
-- only compares is a number.
--
-- Fuel. `locate` walks from January 1970 month by month with one unit more than the number of days to
-- go; a month has at least 28 days, so the walk ends first (`locate_holds` in Billing/Calendar/Months).
--
-- Not modelled: HTTP routes, the database driver, the task queue, the clients of GitHub, Stripe, AWS
-- and the LLMs, the parsers of third-party formats, the rules in Rego, the frontend and the action in
-- TypeScript, and prose (messages, e-mails, badges).
pub mod Common
pub mod StateMachines
pub mod Billing
pub mod WorkflowSync
pub mod Maintenance
pub mod Events
pub mod Webhooks
pub mod Polling
pub mod Docker
pub mod Llm
pub mod Tests

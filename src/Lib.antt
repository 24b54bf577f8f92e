-- ===== src/Lib.antt =====
-- CivicLens: citizens file complaints, officers of departments work on them, and departments
-- exchange data through an interoperability gateway. The program is in Python, under app/.
--
-- The parts of the program and how they interact. Services run in the transactions of a database,
-- guarded by the access rules (app/core/authorization.py) and by rate limits
-- (app/core/rate_limit.py). People register, sign in and hold sessions with a token
-- (app/services/auth_service.py), perhaps with a second factor (app/services/mfa_service.py); an
-- account has a role, which the access rules read. A new complaint is classified and routed to a department
-- (app/services/routing_service.py); its status follows a graph of transitions
-- (app/services/complaint_status.py), along which officers move it
-- (app/services/officer_service.py); what an officer does sets off the rules that administrators
-- wrote (app/services/workflow_service.py), and these escalate it, route it or move its status. The
-- scheduler (app/workers/scheduler.py) runs the SLA scan
-- (app/services/sla_service.py, app/services/sla_workflow.py), which escalates overdue complaints.
-- Each change notifies people (app/services/notification_service.py) and publishes an event to the
-- live connections that may see it (app/realtime). What is slow is done by jobs
-- (app/workers/queue.py), whose table is the truth and whose transport is Redis. The gateway runs
-- workflows of steps over connectors (app/interop/workflow/engine.py). A citizen can also write and
-- track an RTI application (app/services/rti_service.py), of whose deadline the scheduler reminds.
-- Complaints and RTI applications have reference numbers (app/services/reference.py).
--
-- Which file models which part:
--   Access          app/core/authorization.py: roles, permissions, `can_access_complaint`,
--                   `can_assign_role`. Isolation and Grants are proofs.
--   Auth            `AuthService` of app/services/auth_service.py with the session and password
--                   rules of app/core/security.py. Tables is its repositories in
--                   app/db/repositories/identity.py, Accounts, Sessions and Passwords are the
--                   operations, Requests is the sum of them all; Rows, Keys, Roles, Endings and
--                   Answers are proofs.
--   Auth.Mfa        `MfaService` of app/services/mfa_service.py and its repository.
--   Desk            Officer, Fieldwork and Handover are `OfficerService` of
--                   app/services/officer_service.py, Matching and Rules are
--                   app/services/workflow_service.py with its repository, Requests is the sum of
--                   the calls; Keeps, Automation, Firing and History are proofs.
--   Complaint       app/services/complaint_status.py: Status has the transitions and
--                   `apply_transition`, Timeline has `build_timeline` and `matches_filter`.
--   RateLimit       app/core/rate_limit.py: Sliding is `SlidingWindowLimiter`, Throttle is
--                   `FailureThrottle`, Throttle.Past what it is compared with.
--   Reference       app/services/reference.py: reference numbers with a check character; Checksum,
--                   Plain and Valid are proofs.
--   Routing         `DepartmentRouter` of app/services/routing_service.py.
--   Sla             app/services/sla_service.py; `apply_action` of Sla.Escalation is what
--                   app/services/sla_workflow.py writes into an escalated complaint.
--   Notifications   `notify`, `begin_send`, `finish_email` of app/services/notification_service.py,
--                   over SqlNotificationRepository of app/db/repositories/ops.py. An exception of the
--                   sender that `finish_email` does not catch is an error.
--   Realtime        Events is app/realtime/events.py, Manager is `WebSocketManager` of
--                   app/realtime/websocket_manager.py.
--   Jobs            Table is SqlJobRepository of app/db/repositories/ops.py, Lifecycle and Service are
--                   `JobService` of app/workers/queue.py; Growth, Counts, Runs, Backed and
--                   Reachable are proofs.
--   Rti             Service and Reminders are app/services/rti_service.py and
--                   app/services/rti_workflow.py; Sound, Filing, Order, Due, Owners, Told, Sending
--                   and Always are proofs.
--   Scheduler       `SchedulerService` of app/workers/scheduler.py.
--   Workflow        Engine is the loop `_run` of app/interop/workflow/engine.py with
--                   `_run_step_with_retry`; Engine.Store is `define_workflow`, `start` and `resume`.
--   Prelude         what all of them share: tests on numbers and texts, lists, results.
-- The modules named Tests run the definitions on concrete data.
--
-- How state and effects are modelled. An operation that changes an object takes its state and
-- returns the new one; an exception is a value. Times are natural numbers, in ticks of a clock
-- (nanoseconds for `time.monotonic`, microseconds for `datetime`), and each reading of the clock is
-- an argument. A dictionary is a function from its keys, or a list where its order is seen; a table
-- of the database is the list of its rows, and a committed transaction a function on it. What lies
-- outside the program is a parameter: the queue's transport, the lock, the sender of e-mails, the
-- sockets, and also the functions that the program is given, such as step functions, job handlers
-- and tasks, which act on a state of the world of any type. Each theorem holds for all of them
-- under the conditions that it names. Tasks of the event loop that interleave within one operation
-- are not modelled. A call that raises is rolled back: it has an error and no new tables, except
-- for what it writes before and commits, such as a failed attempt that a throttle counts. Hashing,
-- the comparison of passwords, `str.lower`, the decryption of secrets, codes by time and random
-- tokens are parameters, and each call takes the identifiers and tokens it draws as an argument. A call of
-- Desk reads the clock once, where the program may read it several times, and takes what the
-- tables of other services say (departments, users, policies) as an argument. Log lines are not modelled, nor the texts that
-- only explain.
--
-- Fuel. Only the loop `_run` of the workflow engine takes fuel, since a step may branch back. When
-- no step branches back, one round for each step that is left and one more are enough. Every other
-- loop of the program that is modelled runs along a list.
--
-- Not modelled: the user interface and the HTTP interface, the database mapping, calls of language
-- models and other external services, and these services, which are planned: the filing of
-- complaints, classification, retrieval, limits in Redis, and the rest of the gateway. The wording
-- of RTI applications is left out.
pub mod Desk
pub mod Jobs
pub mod Notifications
pub mod Prelude
pub mod Access
pub mod Auth
pub mod Complaint
pub mod RateLimit
pub mod Realtime
pub mod Reference
pub mod Routing
pub mod Rti
pub mod Scheduler
pub mod Sla
pub mod Workflow

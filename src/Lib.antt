-- ===== src/Lib.antt =====
-- SentinelHome, a home-network security monitor: collectors turn what the network says into events, a
-- rule engine decides which of them raise alerts or queue jobs, an agent judges jobs and tunes the
-- rules, and a dashboard and an HTTP API stand in front of the database. Paths are from the
-- repository's root.
--
-- Prelude         shared names: Boolean tests, Python's == as the interface Equality, lists as query
--                 results, key columns, dicts in insertion order, the string functions in use
-- Models          sentinel_home/models.py and database.py: rows as records, the database as a record of
--                 tables; a session is a function of the database, and `available` is false while
--                 every session raises
-- Auth            sentinel_home/auth.py: sessions, lockout, password hash, login
-- Notifications   sentinel_home/notifications/router.py: threshold and dispatch of an alert
-- Baselines       sentinel_home/baseline/manager.py: known devices, whose MACs the engine caches, and the
--                 topology
-- Engine          sentinel_home/rules/engine.py, with enqueue_job of sentinel_home/queue/manager.py:
--                 RuleEngine; `evaluate` and `fire_rule` are its entry points
-- Rules           sentinel_home/api/routes/rules.py: the endpoints that write rules and versions; Actions
--                 has the actions on rules of sentinel_home/dashboard/routes.py
-- Devices         sentinel_home/fingerprint.py: enrich_device, which merges what collectors see of a
--                 device
-- Queue           sentinel_home/queue/manager.py and compaction.py, and the endpoints of
--                 sentinel_home/api/routes/queue.py that read and write jobs
-- Critic          sentinel_home/agent/orchestrator.py and validator.py: CriticOrchestrator, which lets a
--                 language model propose changes of rules
-- Agent           the same files and sentinel_home/agent/tasks.py: ActorOrchestrator, which lets the model
--                 judge jobs and classify devices. Reading finds the choice in an answer, Tasks asks a
--                 question, Briefs makes the prompts' variables, Actor is the cycle
-- Metrics         sentinel_home/metrics/counters.py and rollup.py: counters of events and their rollup,
--                 the daily windows of rules, and retention
-- Adapter         sentinel_home/agent/llm_adapter.py: the client of the language model, with its backoff and
--                 the path that it detects. Complete reads an answer, Chat a stream
-- Patterns        sentinel_home/api/routes/patterns.py: the endpoints of patterns and their versions
-- Findings        sentinel_home/api/routes/findings.py: the listing of findings, its pages, and the two writes
-- Nmap            sentinel_home/collectors/nmap.py: the ports that differ between two scans, which fire a
--                 rule of Engine, and the hosts, which go to Devices
-- Access          sentinel_home/api/middleware.py and DashboardAuthMiddleware of
--                 sentinel_home/dashboard/routes.py: which requests reach a handler
-- Parsers         sentinel_home/parsers/__init__.py and iptables.py: the chain of parsers, and the one for
--                 firewall lines
-- Pipeline        sentinel_home/collectors/syslog_base.py: a parsed line goes through Engine and then into
--                 the counters of Metrics or the table of events
--
-- The engine reads the rules that the endpoints and the critic write, through a cache of 30 seconds, and
-- adds the alerts and jobs that refer to them; the endpoints and the critic share the numbering of rule
-- versions. Rules and Critic therefore work on the tables of Models and the cache of Engine. A pattern of
-- the type suppression silences the engine, and a scan's new ports fire its rule `new_open_port`.
--
-- Times are whole microseconds on one clock; a duration in seconds is written `n * second`. A call
-- reads the clock once where the source reads it several times in a row, except in Auth, Adapter and
-- Nmap, where the readings of a login, of a call of the model or for each new port are separate
-- arguments. Numbers are natural numbers and do not overflow, as in Python. A JSON object whose keys
-- the code reads is a record of optional fields with the types of the columns they go to; event
-- fields are dicts of texts, numbers and nulls. A new row's key is one more than the greatest, as
-- SQLite chooses it. Where a query leaves the order of ties open, they keep table order, but in
-- Findings, where the order is an argument. Loops are structural; only `decimal` runs on fuel, and
-- has one unit more than the number it prints, which is more than the number has digits.
--
-- Outside the model, as arguments: PBKDF2, tokens and salts, the notification service and what it
-- answers, clock readings, what the language model's server answers and how its JSON reads, the
-- header of a syslog line, what nmap finds, the list of vendors, the order that the database gives to
-- findings, and whether the object mapper notices changes inside a JSON column. Not modelled: the
-- other parsers and collectors, the dashboard's pages and other actions, the chats kept in Open
-- WebUI, the endpoints that only render queries, logging, threads and migrations.
mod Prelude
pub mod Auth
pub mod Models
pub mod Notifications
pub mod Baselines
pub mod Engine
pub mod Rules
pub mod Critic
pub mod Queue
pub mod Agent
pub mod Devices
pub mod Metrics
pub mod Pipeline
pub mod Adapter
pub mod Patterns
pub mod Nmap
pub mod Parsers
pub mod Access
pub mod Findings

-- ===== src/Lib.antt =====
-- A model of the decisions of Horus, the continuity layer for coding-agent CLIs: who may run what
-- unattended, which sessions are alive, what they delivered, and how the backlog changes. Paths are
-- from the repository's root.
--
-- The parts, and how they interact:
--
-- Prelude is what the modules share. Tests has Boolean tests, the conditional and `Result`, which is
-- code that raises; Lists the list functions with tests that run; Dict a Python `dict` in insertion
-- order; Text the `str` methods by recursion on characters; Sorted what a stable sort keeps.
--
-- Calendar is what the program asks of `datetime`, as a parameter: instants, their UTC dates, and the
-- ISO spellings of both. Calendar/Strokes is an instance by which the witnesses run.
--
-- Datums (horus/datums.py): the vendor-neutral tiers. `normalize_tier` reads a label or a model's
-- name; a resolved model id is split at its dashes as the regular expression does. Store is the rows of
-- measured runs, as launches, completions and reconciliations write them; Review is
-- what closes one, and Overlap says which runs shared an account at a time;
-- readings of usage are a parameter.
--
-- Accounts (horus/config.py): `resolve_account`, from a name an owner types to a configured account:
-- by alias, by label, then by words, where each pass decides only when it finds one account.
--
-- Envelope (horus/envelope.py): bounded grants to launch unattended. `create` checks and writes an
-- envelope, `load` reads one back, `validate` is the wall that a launch meets, `record_dispatch` and
-- `spend` are the ledger, `revoke` grounds it. A `Disk` is the envelope files and the ledgers. `_write`
-- escapes nothing, so an envelope with a text that TOML does not read as it was written (`is_plain`) is
-- stored as what TOML makes of it, a parameter. It uses Datums for the tiers and Accounts for the accounts. `dispatch_all` is a sequence of launches, each
-- with the envelope that it loads.
--
-- Frontmatter (horus/frontmatter.py) is the `key: value` header of a Markdown file (`parse`), and the
-- focus of a project from its PRD and its older lanes (`resolve_focus`).
--
-- Backlog (horus/backlog.py): a file per card. `card_of` reads one with Frontmatter; Readiness sorts
-- the cards into six queues; Edit is the editor of a header that `claim`, `ship` and the stamps use;
-- Claim is the guard against concurrent work; Ship moves a card to the archive; Reviews appends to a
-- card; Hygiene and Readiness/Findings report. A `Folder` is the texts of the cards and of the
-- archive, by file stem. The claim lock makes each of these operations one step.
--
-- Delivery (horus/delivery.py): from git's answers about a worktree (`Probes`) to the evidence of a
-- run and its classification, and the receipt of a session.
--
-- Registry (horus/registry.py): the sessions of a machine. `reconcile` corrects them against the run
-- logs (Logs), the processes and Delivery; `snapshot` is its read-only projection;
-- `resolve_resume_id` finds the id that an agent resumes by. A `Machine` is all that they read.
--
-- Schedule (horus/schedule.py): one-shot dispatches as systemd units. Quoting is the command line of a
-- unit, written and read back; Units the unit files; Life and Create what arms and disarms a timer.
-- `Units` is the unit directory and the timers that systemd has enabled. Each call of `systemctl` and
-- each write is answered by a parameter (`Systemd`): a call that returns 0 has done what it was asked,
-- any other may have taken effect or not, and one that does not run to its end is a `Fault`, which
-- `_systemctl` raises; a write that fails may leave a part. Files are taken to be removed where they are.
--
-- Batch (horus/batch.py): the one signal of a batch of dispatches, over Schedule, with the lookup of
-- horus/activity.py as a parameter. A call is a step on the sentinels, and `emit_all` a sequence of
-- them, since a sentinel is created atomically. Versioning (horus/versioning.py): the oldest CLI that a
-- project admits, over Frontmatter.
--
-- Notify (horus/notify.py): an escalation, the three sinks that it may be sent by, and `escalate`, which
-- never raises. Mergewatch (horus/mergewatch.py): the checks of a commit, the verdict on them, and the
-- loop that watches until they settle, with the errors that a call of gh or git raises.
--
-- Supervise (horus/supervise.py): the acceptance gate of a session that has ended. Resolve finds what
-- is to be supervised and whether an envelope lets it merge; Accept goes from green checks over
-- freshness and the probe to the merge, or escalates by Notify and halts, by Halt, what Schedule has
-- armed for the cards that Dependents finds; a fault of a halt ends the escalation. Freshness, the probe
-- and the merge are parameters.
--
-- Access (horus/access_gate.py): the gate of the dashboard. Token checks the headers and the claims of a
-- token, Rsa its signature, Jwks keeps the keys. SHA-256, base64, JSON and the network are parameters; a JSON number is an integer or a
-- float, which is a fraction of a power of two, an infinity or NaN, and a float is compared by its exact
-- difference from the time, which is in whole seconds.
--
-- Execution (horus/run_executor.py): one run of an agent. A `RunRequest` is written as a payload and
-- read back; Agent has the events of horus/adapters/base.py and the `World` that a run writes; Execute
-- is the run, which ends a session of Registry with the evidence of Delivery and pushes by Notify; an
-- exception of the posture, of the launch or of the event stream leaves it with no exit code.
--
-- InputBridge (horus/input_bridge.py): questions of a run to its owner. Board is what its files stand
-- for; Awaited is the wait of the run, with what the files hold in each round as a parameter. Steering
-- (horus/notify_listen.py): the commands of the owner's chat, which answer InputBridge or run `horus`,
-- and, in Listen, the loop that polls for them; a loop without end is one of any number of rounds.
--
-- How the code is read: a function of the source has its name here, without a leading underscore; a
-- class is a record with its fields, a check that raises is a `Result` or a constructor of its own, and
-- a message is a constructor that carries what the text names. Files that are TOML or JSON in the
-- source are tables and rows here, so that a file that cannot be read is a missing table or row.
--
-- Bounds: functions are by recursion on their input, but for four with fuel. `transitive_dependents` has
-- a round for each card and one more, since a card is stacked once; `watch` and `await_response` have a
-- round for each second of the timeout and one more, since a round takes a second at least; the digits and the bit
-- length of a number have the number itself. Counts are natural numbers: the source's own checks
-- exclude negative ones, and a process id below zero is no live process.
-- `lower` and `casefold` act on ASCII letters; digits and the letters of words are the ASCII ones.
--
-- What is not modelled: the screens (horus/dashboard.py, horus/terminal_tui.py), the command line
-- (horus/cli.py), the hosts, the vendors' adapters and pseudo-terminals (horus/hosts, horus/adapters),
-- calls of git, GitHub and Telegram beyond their answers, the texts of skills and templates, usage
-- readers, and the persistent services. Launches are modelled in sequence: two that run at once read the ledger before either writes.
pub mod Access
pub mod Accounts
pub mod Backlog
pub mod Batch
pub mod Calendar
pub mod Datums
pub mod Delivery
pub mod Envelope
pub mod Execution
pub mod Frontmatter
pub mod InputBridge
pub mod Mergewatch
pub mod Notify
pub mod Prelude
pub mod Registry
pub mod Schedule
pub mod Steering
pub mod Supervise
pub mod Versioning

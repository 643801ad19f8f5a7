-- ===== src/Lib.antt =====
-- The engine of the wolves forecaster: the rules by which one run plans, spends, records, submits
-- and publishes.
--
-- A run is a graph of worker nodes. A master plans one wave of nodes at a time; a gatekeeper admits
-- the plan, every model call is charged against the caps of the run, the workers' results become
-- artifacts and ledger entries on a blackboard that only the runner writes, and a forecast counts
-- only when its submission is accepted. The dates, texts and numbers that the program computes from
-- outside (model output, pages, prices, pydantic's codecs, the random generator) are parameters.
--
-- Parts and files (the paths are under engine/wolves):
-- - Budget (observability/runtime.py, observability/budget.py): the caps and every charge,
--   settlement and release. Budget/Calls runs any sequence of them, so a wave whose workers
--   interleave is a list of calls. Budget/Ceiling, Budget/Counts: what the caps guarantee.
--   Budget/Reserves (graph/reserves.py): the slices held back.
-- - Toolkit (toolkit/): Gate is the slot counter of sibling tool calls (_budget_gate.py),
--   Truncation the shortening of long results (_truncation.py), Retry the request loop (_retry.py),
--   where the n-th answer of the network is a function of n.
-- - Artifacts (graph/artifacts.py): the artifacts of a run by kind and number. Ids: the spelling of
--   ids; Fresh: what a store always holds; Read: what a read returns after an addition.
-- - Ledger (agent/ledger.py): the append-only evidence of a run.
-- - Graph (graph/): Contracts the records that nodes exchange; Coverage (branch_coverage.py) which
--   proposed branches still wait for an audit; TextRules, Admit (master.py) the admission of a
--   plan; Board (blackboard.py) the state of a run and what the runner asks of it.
-- - Graph/Merge (blackboard.py): how the outcomes of a wave become nodes, ledger entries and
--   challenges; what pydantic reads and writes of a research payload, and whether a page was
--   fetched, are parameters. Walks along replaced nodes run on one round more than there are nodes,
--   which Graph/Merge/Nodes shows to be enough.
-- - Submission (agent/tools/submission/, agent/deps.py): the state of a submission and the tools
--   that move it, check_forecast and submit_forecast; Referee the review; Accept what one call
--   does, Runs any sequence of calls.
-- - Graph/Runner (runner.py): the wave loop as a step on the board and the submission. The rounds
--   are counted by graph_max_waves, as in the code. Keeps, Waves, Lineage what every run keeps.
-- - Sim (sim/): Overlay (overlay.py) provider fixtures as played results, Mirror and Results what
--   they say; Store (results_store.py) the stored results, Store/Merge what a poll changes,
--   Store/Repeats and Store/Ordered what it leaves; Lock (lock.py) when a team has won its group,
--   Lock/Certain why that is final.
-- - Policy (run_policy.py): the phase of a day and the ceiling of its run; Policy/Days what they
--   are by the schedule, Policy/Groups when a group goes on.
-- - Scenarios (agent/scenarios.py): the registry of scenarios as an event log. View what one event
--   changes; Staging the log in memory against the file; Runs any sequence of calls; Refinement the
--   steps that the registry promises; Lines its file as a text; Open which scenarios are listed.
-- - Memory (agent/source_memory.py, agent/relevance_memory.py): what earlier runs saw and judged.
--   History what both share; Sources and Relevance the two memories; Reload and Lines their files,
--   Fetched what a run knows of its own pages, Replay what a reader of an earlier day is told.
-- - Audit (agent/audit_policy.py, agent/validator.py): the rows of its own audit that a mixture
--   owes; Agree that what registration misses the validator refuses.
-- - Daily (run_agent.py, agent/memory.py): the run of a day. World its state and the calls of the
--   outside, Flow `_run`; Hoare and Ends the rules for actions that may raise; Saved, Stages,
--   Unpublished, Phase and Outcome what is kept and published; Publishes that a forecast is, where
--   nothing breaks; Pull the order of pulling and pushing; Attempts and Blocked the guard over
--   earlier runs. Whether a call of the outside returns or raises is a function of the state, so
--   every place where a run can break off is covered.
-- - Index (s3/index.py, s3/publish.py): the index of runs. Laws what the index relies on of the
--   table (writes that return are done, a write that raises may be; a query, not a consistent read,
--   may be old), Pages the loop over the pages of a query, Deletes and Records the recording of a
--   run, Memory a table that has the laws. A loop over pages takes fuel; more of it than there are
--   pages is enough.
-- - Archive (archive/selection.py, archive/source.py): what a day of the static archive shows.
--   Selection its forecast and its results; Chosen and Results that they are those of the cutoff;
--   Difference and Lossless that a parsed source has lost nothing.
-- - Live (backend/wolves_backend/impact_report.py, beside engine): the goals of a match, made to
--   give its score.
--
-- Base holds the shared names: Boolean tests, lists, dictionaries in insertion order, JSON values,
-- decimal numbers, sorting, and Lines, a file with one record to each line.
--
-- Not modelled: the prompts and agents of the graph, connectors, clients, data loaders, the
-- arithmetic of the simulation and of the markets on arrays of floats, live state, the export and
-- verification of the archive, the S3 transport, the caches of articles, the rules of the validator
-- other than the factor audit, the blocks of a snapshot, the web and backend servers, plots, and
-- the reports but for the goals of a match.
pub mod Archive
pub mod Artifacts
pub mod Audit
pub mod Base
pub mod Budget
pub mod Daily
pub mod Graph
pub mod Index
pub mod Ledger
pub mod Live
pub mod Memory
pub mod Policy
pub mod Scenarios
pub mod Sim
pub mod Submission
pub mod Toolkit

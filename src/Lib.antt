-- ===== src/Lib.antt =====
-- Verification of bagelquant_data, a local store of financial datasets: SQLite tables keep what was
-- asked of each provider and when (src/bagelquant_data/storage/data_meta.py), the pipeline plans and runs
-- the provider requests (pipeline/), and items are computed from the stored datasets and recomputed over
-- the dates that changed (items/). Paths below are within src/bagelquant_data.
--
-- Parts and files:
--   Prelude: Boolean tests and list functions over the native numbers, shared by all parts.
--   Ledger: the update ledger of storage/data_meta.py. Ledger/Data has the tables as records, with a
--     column per field; Ledger/Scopes, Ledger/Outcomes and Ledger/Leases have one function per method of
--     DataMetaStore, by its name. A transaction that raises is `err`, and leaves the tables as they were.
--     Ledger/Steps is the state machine of these operations; Rows, Lift, Invariant, Claims, Interference,
--     Settling, Watermark, LeaseLaws and Abandon prove what holds of it; Locks is an abstract table of
--     locks, and Refinement proves that the operations are its moves.
--   Window: inclusive date windows, `_merge` of items/incremental.py and `_ranges` and the range check
--     of general_intervals.py. Join, Merge, Canonical and Impact prove what the loops compute.
--   Fetch: the provider requests of pipeline/update.py. Fetch/Page has FetchPage and _bound_pages, Fetch/One
--     _fetch_one, Fetch/Offset _fetch_offset_pages, Fetch/Adaptive _fetch_adaptive_date_range and
--     _fetch_request_pages. The loop of the adaptive fetch runs on fuel, one iteration more than
--     max_pages, which suffices as every iteration appends a page. Attempts, Kept, Coverage and Complete
--     hold the proofs. Names of parameters are fixed columns of a request.
--   Requests: DailyScope and LedgerRequest of pipeline/scopes.py.
--   Harvest: _harvest_request of pipeline/update.py, which settles a fetched response in the ledger by the
--     operations of Ledger and buffers its rows. Harvest has the run's state and the small steps,
--     Harvest/Response the handler itself, Harvest/Conservation the proofs.
--   Order: _fair_tasks, _retry_first and _partition_affinity_order of pipeline/update.py. The loop of
--     _fair_tasks runs on fuel, the number of tasks, which suffices as each iteration takes one task.
--   Backfill: compact_daily_range_backfill of pipeline/scopes.py, with its IndexErrors as `none`. Complete
--     and Total hold the proofs.
--   Daily: _daily_requests of pipeline/scopes.py on the ledger of Ledger; Days and Scoped hold the
--     proofs.
--   Limiter: the rate limiter of sources/tushare/source.py, as the steps that its lock orders.
--   Catalog: the category trees of management/catalog.py. Catalog has the tables and queries,
--     Catalog/Operations the methods of CategoryTree. The walk of update towards the root runs on fuel, the
--     number of categories, which suffices as a chain of parents meets each at most once. Chains, Bound,
--     Invariant, Changes, Relink, Rules, Kept and Moves hold the proofs.
--   Availability: the session buffer of items/availability.py. Sessions counts the open days of a
--     calendar, Exact proves the equivalence with a walk over the days.
--   Inputs: _validate_input_selections of items/api.py. Inputs has `covers`, Inputs/Matching the search of
--     `match` and the loop over the inputs, on as much fuel as there are captures, which suffices as every
--     call visits one. Found and Sound follow a search that succeeds, Closed one that fails, Pigeons counts,
--     and Exact has the theorems.
--   Baseline: the baselines of pipeline/initialization.py and the plans of pipeline/planning.py. Baseline
--     has prepare_initialization, finish_initialization and initialization_actions, Baseline/Reopening
--     reopen_initialization on the tables of Ledger; Agreement and Frozen hold the proofs.
--   Plan: plan_updates of management/lake.py. Plan chooses the actions and prerequisites of a dataset,
--     Plan/Ordering has its depth-first visit, on as much fuel as there are datasets, which suffices as the
--     datasets that wait are different ones; Names and Ordered hold the proofs.
--   Schema: the column types of core/schema.py, with _common_dtype, the fold of compatible_schema and the
--     loop of compatible_key_schema over one column, which may raise ValidationError or KeyError. Supertype
--     has the proofs on the order, Keys those on the values that casts keep, Integers those on what is
--     raised.
--
-- Representation: text that the code only stores, compares or orders is a number; a date is its ordinal;
-- the time of a call is an argument; SQL's NULL and Python's None are `none`. SQLite and Python's own
-- list, dict and sort are modelled by what the source uses of them.
--
-- Not modelled: Polars and Arrow computations, files and parquet, the network client, reports and the
-- command line; the manifest of parts says which file each is in.
pub mod Availability
pub mod Backfill
pub mod Baseline
pub mod Catalog
pub mod Daily
pub mod Fetch
pub mod Harvest
pub mod Inputs
pub mod Ledger
pub mod Limiter
pub mod Order
pub mod Plan
pub mod Prelude
pub mod Requests
pub mod Schema
pub mod Window

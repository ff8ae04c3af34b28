-- ===== src/Lib.antt =====
-- xret-data acquires market data from providers, stores it in Parquet files with an SQLite
-- catalog, and answers which part of a request is stored, absent at the source, or still to be
-- fetched. This library models its own logic; all paths below are under
-- packages/xret-data/src/xret/data.
--
-- Parts and files:
--   - Timeframe (timeframe.py): `TimeBar` with `floor`, `step` (`_step`), `next_boundary`,
--     `iter_intervals`, `parse` and `to_text` (`__str__`). Calendar counts days and months, Fixed
--     and Months treat the two kinds of bar, Grid is the interface that every other part uses,
--     Laws fills it, Intervals and Text hold the iteration and the grammar.
--   - Coverage (storage/catalog.py, the coverage algebra): `normalize_segments`, `apply_update`,
--     `covered_and_gaps`, and `replace_range`, the pure part of `Catalog.replace_coverage_range`.
--     Status gives the meaning of a list of segments at an instant, Normal the form that the
--     catalog stores. Every `CoverageInterval` is built by `coverage_interval`, which refuses an
--     empty one; Splits shows that the split of a request never does, Ascending what its two lists
--     are like.
--   - Identity (models.py, `_identity_values` and `_key_from_row` of storage/catalog.py): the
--     market vocabulary, `MarketIdentity`, the four kinds of storage keys, their storage identity
--     and the identity columns of a row. A constructor with its `__post_init__` is a function with
--     a result. Vocabulary, Components and Keys hold definitions; Accepted, RoundTrip and Rows
--     their laws.
--   - Evidence (models.py): `ProviderEvidence` and its checks.
--   - Catalog (storage/catalog.py, the class `Catalog` and its schema): the tables as lists, and
--     the methods as functions from a catalog to a catalog or an error. Catalog has the tables,
--     data sets, lineage and coverage; Owners the ownership of ranges and deletion; Files and Runs
--     the rest. Keys, Uniques, RunTable and Valid say what the
--     keys of data sets, files and runs keep, Coverages, Written and
--     Answers treat coverage, Providers, Lineage and Bound the provider of a data set, Ranges, Owned,
--     Recorded and Repeated ownership, Cascade, Removed, Spared and Deleted deletion, Upserted, Linked and
--     Filed files, Sorting and Listing their listing, RunRows and Ran runs, Committed the check of a terminal
--     commit, and Framed, Frames, Evented, Sound and Steps the state that all writes keep. A key
--     stands there by its identity columns, which Identity shows to be the key; the coverage
--     algebra is Coverage's, the contributors are Evidence's.
--   - Observation (observation_coverage.py, the windows of providers/contracts.py and their
--     validation in providers/runtime.py): what a provider's windows and rows prove of a request.
--     Plain has its steps without the checks of their intervals, and that none of these fails.
--   - Sync (dataset.py): `finalizable_end`, `bar_segments_for_range`, `coalesce_fetch_ranges` and
--     their helpers, the pure steps of `BarDataset.sync`. They take their bars from Timeframe and
--     give their segments to Coverage.
--   - Live (live.py): `LiveMarketData` as a transition system. A method is cut at each `await`;
--     the parts in between are functions of the session, and what the awaited call gives is an
--     argument. The provider's runtime and the asyncio scheduler may do anything in any order.
--   - Pagination (providers/ccxt/pagination.py): `advance` (`_advance`), the extent of one page,
--     and `bounded_bar_count`.
--   - Prelude holds what the modules share, with the error classes of errors.py; Tests hold
--     concrete runs.
--
-- Instants are microseconds since 0001-01-01T00:00:00Z, the earliest instant of a `datetime`; the
-- calendar is the proleptic Gregorian one. Boundaries before `first_boundary` cannot be held by a
-- `datetime`: Python raises OverflowError there and the theorems begin at it. The end of year 9999
-- is not modelled, nor Python's limit on the digits of an `int`. Subtraction on instants stops at
-- 0, where Python raises OverflowError; the theorems exclude it. Text is a list of code points.
--
-- In the catalog a new row gets the largest id and one, as in SQLite. Times are written as ISO
-- text at UTC and compared as text in SQL; at UTC that order is the order of the instants, by
-- which the model compares. The times at which rows were written are left out. A contributor's row
-- keeps the evidence in place of its JSON. A write that raises an error is rolled back, so it has
-- no next state. A file is inserted only where its path was not found and a run where its run id
-- was not, so that the tests of the UNIQUE columns never fail. The rows of coverage come from
-- checked segments, so that the check is not repeated when they are read. That links and events
-- refer to runs that are there is not stated of the tables. Unicode normalization is a parameter,
-- assumed idempotent. What a type of the model rules out (`isinstance` tests, naive times) is not
-- tested again.
--
-- Bounds: `bars_from` runs on `end - start` rounds, enough since each round advances by a
-- microsecond or more; `digits` runs on the number itself. A set is a list whose order and
-- repetitions do not matter. A queue of size 0 has no bound, as in asyncio.
--
-- Not modelled: the connections, transactions and schema checks of SQLite, Parquet, locks,
-- configuration, provider discovery, exchange adapters and the quality checks on frames, which are
-- I/O or calls of other libraries; the loops of the `sync` methods, the traversal of pages and the
-- recovery.
pub mod Prelude
pub mod Timeframe
pub mod Coverage
pub mod Identity
pub mod Evidence
pub mod Catalog
pub mod Live
pub mod Observation
pub mod Pagination
pub mod Sync
pub mod Tests

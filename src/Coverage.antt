-- ===== src/Coverage.antt =====
-- The coverage algebra of storage/catalog.py, and the status types of models.py.
pub mod Status
pub mod Normal
pub mod Points
pub mod Pieces
pub mod Coalesce
pub mod Normalize
pub mod Ascending
pub mod Splits
pub mod Gaps
pub mod Replace
use xret.Prelude.{
  ℕ, ◌≤◌, ◌<◌, Bool, true, false, ◌&&◌, ◌||◌, not, Option, none, some, List, [], ◌∷◌, ◌++◌, ltb,
  leb, ◌==◌, if◌then◌else◌, min, max, Result, ok, err, catalog_error, invalid_request, ◌>>=◌,
}

-- What a catalog row may hold: `CoverageSegment.__post_init__` refuses any other status.
pub data StoredStatus : Type 0 where
  available unavailable : StoredStatus

pub data CoverageStatus : Type 0 where
  available unavailable missing : CoverageStatus

abbrev pub to_status : StoredStatus → CoverageStatus
to_status StoredStatus.available = CoverageStatus.available
to_status StoredStatus.unavailable = CoverageStatus.unavailable

abbrev pub same_status : StoredStatus → StoredStatus → Bool
same_status StoredStatus.available StoredStatus.available = true
same_status StoredStatus.unavailable StoredStatus.unavailable = true
same_status _ _ = false

-- `_rank` over `_PRECEDENCE`.
abbrev pub rank : StoredStatus → ℕ
rank StoredStatus.available = 0
rank StoredStatus.unavailable = 1

pub record Segment : Type 0 where
  pub start : ℕ
  pub end : ℕ
  pub status : StoredStatus

pub record Interval : Type 0 where
  pub start : ℕ
  pub end : ℕ
  pub status : CoverageStatus

stored : CoverageStatus → Result StoredStatus
stored CoverageStatus.available = ok StoredStatus.available
stored CoverageStatus.unavailable = ok StoredStatus.unavailable
stored CoverageStatus.missing = err catalog_error

abbrev pub seg : ℕ → ℕ → StoredStatus → Segment
seg a b s = record { start = a; end = b; status = s }

abbrev pub interval : ℕ → ℕ → CoverageStatus → Interval
interval a b s = record { start = a; end = b; status = s }

-- `CoverageInterval(start, end, status)` with its `__post_init__`.
unfoldable pub coverage_interval : ℕ → ℕ → CoverageStatus → Result Interval
coverage_interval a b s = if leb b a then err invalid_request else ok (interval a b s)

-- `CoverageSegment(start, end, status)` with its `__post_init__`.
pub coverage_segment : ℕ → ℕ → CoverageStatus → Result Segment
unfolding stored
coverage_segment a b s = if leb b a then err catalog_error else do k ← stored s; ok (seg a b k)

-- `left.end < right.start or (left.end == right.start and left.status is not right.status)`
pub apart : Segment → Segment → Bool
apart l r = ltb l.end r.start || (l.end == r.start && not (same_status l.status r.status))

pub all_apart : List Segment → Bool
unfolding apart
all_apart [] = true
all_apart (l ∷ []) = true
all_apart (l ∷ r ∷ rest) = apart l r && all_apart (r ∷ rest)

-- One point into `sorted({...})`.
pub insert_point : ℕ → List ℕ → List ℕ
insert_point p [] = p ∷ []
insert_point p (q ∷ qs) =
    let rest = insert_point p qs in
    if ltb p q then p ∷ q ∷ qs else if p == q then q ∷ qs else q ∷ rest

pub points : List Segment → List ℕ
unfolding insert_point
points [] = []
points (s ∷ rest) = insert_point s.start (insert_point s.end (points rest))

-- The loop over the candidates for the elementary interval from `lo` to `hi`.
better : Segment → Option Segment → Bool
better s none = true
better s (some b) = leb (rank s.status) (rank b.status)

pub best : ℕ → ℕ → Option Segment → List Segment → Option Segment
unfolding better
best lo hi b [] = b
best lo hi b (s ∷ rest) =
    best lo hi (if ltb lo s.start || ltb s.end hi then b else if better s b then some s else b) rest

piece : ℕ → ℕ → Option Segment → List Segment → List Segment
piece lo hi none rest = rest
piece lo hi (some b) rest = seg lo hi b.status ∷ rest

pub elementary : List Segment → List ℕ → List Segment
unfolding best piece
elementary candidate [] = []
elementary candidate (lo ∷ []) = []
elementary candidate (lo ∷ hi ∷ rest) =
    piece lo hi (best lo hi none candidate) (elementary candidate (hi ∷ rest))

-- The loop of `_coalesce`; `last` is `merged[-1]`.
unfoldable pub coalesce_from : Segment → List Segment → List Segment
coalesce_from last [] = last ∷ []
coalesce_from last (s ∷ rest) =
    let joined = coalesce_from (seg last.start s.end last.status) rest in
    let apart_ones = last ∷ coalesce_from s rest in
    if last.end == s.start && same_status last.status s.status then joined else apart_ones

pub coalesce : List Segment → List Segment
unfolding coalesce_from
coalesce [] = []
coalesce (s ∷ rest) = coalesce_from s rest

unfoldable pub normalize_segments : List Segment → List Segment
unfolding all_apart elementary points coalesce
normalize_segments candidate =
    if all_apart candidate then candidate else coalesce (elementary candidate (points candidate))

unfoldable pub apply_update : List Segment → Segment → List Segment
apply_update existing update = normalize_segments (existing ++ update ∷ [])

pub record Split : Type 0 where
  pub covered : List Interval
  pub gaps : List Interval

unfoldable pub add_covered : Interval → Split → Split
add_covered i s = record { covered = i ∷ s.covered; gaps = s.gaps }

unfoldable pub add_gap : Interval → Split → Split
add_gap i s = record { covered = s.covered; gaps = i ∷ s.gaps }

-- `gaps.append(...)` where the cursor has not reached the segment, or the end; then what follows.
pub fill : ℕ → ℕ → Result Split → Result Split
unfolding add_gap coverage_interval
fill cursor to rest =
    if ltb cursor to
    then (coverage_interval cursor to CoverageStatus.missing >>= λ gap.
        rest >>= λ s. ok (add_gap gap s))
    else rest

pub place : StoredStatus → ℕ → ℕ → Result Split → Result Split
unfolding add_covered add_gap coverage_interval
place StoredStatus.available a b rest = do
  i ← coverage_interval a b CoverageStatus.available
  s ← rest
  ok (add_covered i s)
place StoredStatus.unavailable a b rest = do
  i ← coverage_interval a b CoverageStatus.unavailable
  s ← rest
  ok (add_gap i s)

-- The loop of `covered_and_gaps`, with what follows it.
pub split_from : ℕ → ℕ → ℕ → List Segment → Result Split
unfolding fill place
split_from start end cursor [] = fill cursor end (ok (record { covered = []; gaps = [] }))
split_from start end cursor (s ∷ rest) =
    let skip = split_from start end cursor rest in
    let seg_start = max s.start start in
    let seg_end = min s.end end in
    let use_it =
      fill cursor seg_start
        (place s.status seg_start seg_end (split_from start end seg_end rest)) in
    if leb s.end start || leb end s.start then skip else use_it

unfoldable pub covered_and_gaps : List Segment → ℕ → ℕ → Result Split
unfolding split_from normalize_segments
covered_and_gaps segments start end =
    if leb end start
    then err catalog_error
    else split_from start end start (normalize_segments segments)

-- `replace_coverage_range`: one stored segment, cut to what lies outside the range.
cut_right : ℕ → Segment → List Segment → List Segment
cut_right end s kept = if ltb end s.end then seg end s.end s.status ∷ kept else kept

cut : ℕ → ℕ → Segment → List Segment → List Segment
unfolding cut_right
cut start end s kept =
    if leb s.end start || leb end s.start
    then s ∷ kept
    else if ltb s.start start
    then seg s.start start s.status ∷ cut_right end s kept
    else cut_right end s kept

retain : ℕ → ℕ → List Segment → List Segment
retain start end [] = []
retain start end (s ∷ rest) = cut start end s (retain start end rest)

all_within : ℕ → ℕ → List Segment → Bool
all_within start end [] = true
all_within start end (s ∷ rest) =
    not (ltb s.start start || ltb end s.end) && all_within start end rest

unfoldable pub replace_range : ℕ → ℕ → List Segment → List Segment → Result (List Segment)
unfolding retain all_within cut
replace_range start end replacements existing =
    if leb end start
    then err catalog_error
    else if all_within start end replacements
    then ok (normalize_segments (retain start end existing ++ replacements))
    else err catalog_error

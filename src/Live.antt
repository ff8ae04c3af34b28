-- ===== src/Live.antt =====
-- `LiveMarketData` of live.py. Every method is cut at its `await`s into steps that asyncio runs
-- whole; what an awaited call comes back with is an argument of the step behind it.
use xret.Catalog.Tables.{without}
use xret.Prelude.{
  ◌||◌, ◌==◌, ◌++◌, ◌&&◌, ℕ, true, some, ok, not, none, ltb, length, leb, invalid_request,
  if◌then◌else◌, false, err, [], Result, Option, List, Bool, ◌∷◌, ◌≡◌,
}
pub mod Sent
pub mod Steps
pub mod Delivery
pub mod Endings
pub mod Capacity

-- `_State`; `opened` is OPEN.
pub data State : Type 0 where
  created entering opened closing closed failing : State

abbrev pub same_state : State → State → Bool
same_state State.created State.created = true
same_state State.entering State.entering = true
same_state State.opened State.opened = true
same_state State.closing State.closing = true
same_state State.closed State.closed = true
same_state State.failing State.failing = true
same_state _ _ = false

-- The reader task.
pub data Reader : Type 0 where
  running cancelled finished : Reader

-- An entry of `_queue`: an update, or a `_Failure`.
pub data Item {ℓ κ} (U : Type ℓ) (E : Type κ) : Type (ℓ ⊔ κ) where
  bar_update : U → Item U E
  failure_of : E → Item U E

-- K are the pairs of an identity and a timeframe, U the bar updates, E the exceptions.
pub record Session (K U E : Type 0) : Type 0 where
  pub state : State
  pub has_runtime : Bool
  pub reader : Option Reader
  pub failure : Option E
  pub failure_observed : Bool
  pub consumer : Option ℕ
  pub requested : List K
  pub routes : List K
  pub queue : List (Item U E)

-- How `__aexit__` ends: it raises nothing of its own, one error, or a group of two.
pub data Ending {ℓ} (E : Type ℓ) : Type ℓ where
  returns_none : Ending E
  raises_one : E → Ending E
  raises_group : E → E → Ending E

unfoldable pub primary : {E : Type 0} → Option E → Option E → Option E
primary none unobserved = unobserved
primary (some exc) unobserved = some exc

-- The last lines of `__aexit__`: the error of the block, the unobserved failure, the cleanup's error.
unfoldable pub ending : {E : Type 0} → Option E → Option E → Option E → Ending E
unfolding primary
ending exc unobserved (some cleanup) = elim (primary exc unobserved) [
  | some e ↦ Ending.raises_group e cleanup
  | none ↦ Ending.raises_one cleanup
]
ending exc (some e) none = Ending.raises_one e
ending exc none none = Ending.returns_none

-- What `__anext__` comes back with.
pub data Reply (U E : Type 0) : Type 0 where
  returns : U → Reply U E
  raises : E → Reply U E
  waits refuses stops : Reply U E

-- A task that ends is done; after `__aexit__` took the reader there is none to look at.
abbrev pub stopped : Option Reader → Option Reader
stopped none = none
stopped (some r) = some Reader.finished

-- `reader.cancel()`, unless the caller is the reader, or it is done.
abbrev pub cancel : Bool → Option Reader → Option Reader
cancel false (some Reader.running) = some Reader.cancelled
cancel _ r = r

module _ {U E : Type 0} where
  -- `put_nowait` raises QueueFull; a queue of size 0 has no bound.
  abbrev pub is_full : ℕ → List (Item U E) → Bool
  is_full size q = ltb 0 size && leb size (length q)

module _ {K U E : Type 0} where
  -- `__init__`
  abbrev pub new_session : Session K U E
  new_session = record {
    state = State.created;
    has_runtime = false;
    reader = none;
    failure = none;
    failure_observed = false;
    consumer = none;
    requested = [];
    routes = [];
    queue = [];
  }

  -- `__aenter__` up to its `await`.
  unfoldable pub enter : Session K U E → Result (Session K U E)
  enter s =
      if same_state s.state State.created
      then ok (record s { state = State.entering })
      else err invalid_request

  -- `__aenter__` behind it: whether the runtime was entered.
  unfoldable pub entered : Bool → Session K U E → Session K U E
  entered true s = record s { state = State.opened; has_runtime = true }
  entered false s = record s { state = State.failing }

  -- `_publish_failure`; the flag says that the reader calls it.
  unfoldable pub publish_failure : Bool → E → Session K U E → Session K U E
  publish_failure by_reader e s = elim s.failure [
    | none ↦ record s {
      state = State.failing;
      reader = cancel by_reader s.reader;
      failure = some e;
      queue = failure_of e ∷ [];
    }
    | some f ↦ s
  ]

  -- `_enqueue`, with the error that it publishes, and whether it went well.
  unfoldable pub enqueue : ℕ → E → U → Session K U E → Session K U E × Bool
  unfolding publish_failure
  enqueue size overflow u s =
      if is_full size s.queue
      then (publish_failure true overflow s, false)
      else (record s { queue = s.queue ++ bar_update u ∷ [] }, true)

  -- `_read_updates` when it leaves its loop.
  abbrev pub stop_reading : Session K U E → Session K U E
  stop_reading s = record s { reader = stopped s.reader }

  -- `_read_updates` when the provider's stream raises.
  unfoldable pub read_error : E → Session K U E → Session K U E
  unfolding publish_failure
  read_error e s = stop_reading (publish_failure true e s)

  -- `__anext__` behind `queue.get()`.
  unfoldable pub get : Session K U E → Session K U E × Reply U E
  get s = elim s.queue [
    | [] ↦ (s, Reply.waits)
    | x ∷ rest ↦ elim x [
      | bar_update u ↦ (record s { queue = rest }, Reply.returns u)
      | failure_of e ↦ (record s { failure_observed = true; queue = rest }, Reply.raises e)
    ]
  ]

  -- `__anext__`: one consuming task, then the failure, the state and the reader.
  unfoldable pub after_checks : Session K U E → Session K U E × Reply U E
  unfolding get
  after_checks s = elim s.failure [
    | some e ↦ (record s { failure_observed = true }, Reply.raises e)
    | none ↦
        if not (same_state s.state State.opened || same_state s.state State.failing)
        then (s, Reply.stops)
        else elim s.reader [ none ↦ (s, Reply.refuses) | some r ↦ get s ]
  ]

  unfoldable pub next_update : ℕ → Session K U E → Session K U E × Reply U E
  unfolding after_checks
  next_update task s = elim s.consumer [
    | none ↦ after_checks (record s { consumer = some task })
    | some c ↦ if c == task then after_checks s else (s, Reply.refuses)
  ]

  -- `__aexit__` up to the awaited reader; a closed session is left alone.
  unfoldable pub exit : Session K U E → Session K U E
  exit s =
      if same_state s.state State.closed
      then s
      else record s { state = State.closing; reader = none }

  -- `__aexit__` behind the awaited reader: the runtime is taken.
  unfoldable pub exit_runtime : Session K U E → Session K U E
  exit_runtime s = record s { has_runtime = false }

  -- `__aexit__` behind the runtime's exit.
  unfoldable pub exited : Session K U E → Session K U E
  exited s = record s { state = State.closed }

  -- `unobserved_failure`, where `exc` is the error that leaves the `async with` block.
  unfoldable pub unobserved_failure : Option E → Session K U E → Option E
  unobserved_failure none s = if s.failure_observed then none else s.failure
  unobserved_failure (some exc) s = none

  -- What awaiting the reader raises; a reader that is done is not awaited, and its cancellation
  -- passes.
  unfoldable pub reader_error : Session K U E → Option E → Option E
  reader_error s raised = elim s.reader [
    | none ↦ none
    | some r ↦ elim r [
      | Reader.finished ↦ none
      | Reader.running ↦ raised
      | Reader.cancelled ↦ raised
    ]
  ]

  -- What the runtime's exit raises, where a runtime was entered.
  unfoldable pub runtime_error : Session K U E → Option E → Option E
  runtime_error s raised = if s.has_runtime then raised else none

-- `cleanup_error`, by the error of the block, the failure, and what the reader and the runtime
-- raised; `same` tells whether two errors are one object. The runtime's error takes the place of
-- the reader's.
module _ {E : Type 0} (same : E → E → Bool) where
  unfoldable pub is_failure : Option E → E → Bool
  is_failure none e = false
  is_failure (some f) e = same e f

  unfoldable pub cleanup_error : Option E → Option E → Option E → Option E → Option E
  unfolding is_failure
  cleanup_error exc failure reader (some e) = some e
  cleanup_error exc failure none none = none
  cleanup_error (some exc) failure (some e) none = none
  cleanup_error none failure (some e) none = if is_failure failure e then none else some e

-- How `__aexit__` ends: a closed session is left as it is. `failure` is the failure of the session
-- once the reader was awaited.
module _ {K U E : Type 0} (same : E → E → Bool) where
  unfoldable pub exit_ending : Session K U E → Option E → Option E → Option E → Option E → Ending E
  exit_ending s exc failure reader runtime =
      if same_state s.state State.closed
      then Ending.returns_none
      else ending exc (unobserved_failure exc s)
          (cleanup_error same exc failure (reader_error s reader) (runtime_error s runtime))

-- `in` and `discard` on sets, given as lists without order.
module _ {K : Type 0} (same : K → K → Bool) where
  unfoldable pub is_in : K → List K → Bool
  is_in k [] = false
  is_in k (x ∷ xs) = same k x || is_in k xs

  unfoldable pub discard : K → List K → List K
  discard k [] = []
  discard k (x ∷ xs) = if same k x then discard k xs else x ∷ discard k xs

module _ {K U E : Type 0} (same : K → K → Bool) where
  -- `subscribe_bar_updates` up to the resolution; the flags are its tests of the data set.
  unfoldable pub subscribe : Bool → Bool → Bool → K → Session K U E → Result (Unit {0})
  unfolding is_in
  subscribe is_dataset same_provider same_exchange requested s =
      if not (same_state s.state State.opened) || not s.has_runtime
      then err invalid_request
      else if not is_dataset || not same_provider || not same_exchange
      then err invalid_request
      else if is_in same requested s.requested
      then err invalid_request
      else ok tt

  -- From the resolution to the activation.
  unfoldable pub subscribe_resolved : K → Session K U E → Result (Session K U E)
  unfolding is_in
  subscribe_resolved k s =
      if is_in same k s.routes then err invalid_request else ok (record s { routes = k ∷ s.routes })

  -- The activation raised; the flag says that a cancellation is in what it raised.
  unfoldable pub subscribe_failed : Bool → E → K → Session K U E → Session K U E
  unfolding discard publish_failure
  subscribe_failed was_cancelled error k s =
      let without = record s { routes = discard same k s.routes } in
      if was_cancelled then publish_failure false error without else without

  -- The activation went well.
  unfoldable pub subscribe_activated : K → Session K U E → Session K U E
  subscribe_activated requested s =
      let known = record s { requested = requested ∷ s.requested } in
      elim s.reader [ none ↦ record known { reader = some Reader.running } | some r ↦ known ]

  -- `_route_update`, with the errors that it publishes, and whether the reader goes on.
  unfoldable pub route_update : (U → K) → ℕ → E → E → U → Session K U E → Session K U E × Bool
  unfolding is_in enqueue publish_failure
  route_update key size unrouted overflow u s = elim s.failure [
    | some e ↦ (s, false)
    | none ↦
        if is_in same (key u) s.routes
        then enqueue size overflow u s
        else (publish_failure true unrouted s, false)
  ]

  -- One round of `_read_updates`, and whether the update was enqueued.
  unfoldable pub read_update : (U → K) → ℕ → E → E → U → Session K U E → Session K U E × Bool
  unfolding route_update
  read_update key size unrouted overflow u s =
      let r = route_update key size unrouted overflow u s in
      if r.1 then r else (stop_reading r.0, false)

-- ===== src/Keyed.antt =====
-- Workers of a key, pkg/keyedworker: the FIFO slot of slot.go, Deliver, ensureRunning and runEntry of
-- pool.go, and the loop of RunnerFactory in handler.go, for one entry of a pool that is registered and
-- whose context is not cancelled. Each function is one atomic step, at which the sending goroutines
-- and the worker may interleave; `accepted` and `handled` record what was put in and worked off.
pub mod Fifo
pub mod Drained
use hibernator.Prelude.{
  ℕ, suc, ◌-◌, ◌≤◌, ◌<◌, ◌≡◌, Bool, true, false, List, [], ◌∷◌, ◌++◌, length, if◌then◌else◌,
}

-- Whether the worker is in its loop, or empties the slot after the idle time.
pub data Mode : Type 0 where
  looping flushing : Mode

-- Where the worker's goroutine is: none, at its `select`, after the signal, after the receive from the
-- queue, in the handler, or returned with the deferred function to come.
pub data Worker {ℓ} (V : Type ℓ) : Type ℓ where
  stopped exiting : Worker V
  waiting woken : Mode → Worker V
  received handling : Mode → V → Worker V

-- `fifoSlot` and `entry`, the calls of Send that have not signalled yet, and those of Deliver that have
-- not called ensureRunning yet.
pub record Entry {ℓ} (V : Type ℓ) : Type ℓ where
  pub queue : List V
  pub signal : Bool
  pub unsignalled : ℕ
  pub unensured : ℕ
  pub running : Bool
  pub worker : Worker V
  pub accepted : List V
  pub handled : List V

module _ {ℓ} {V : Type ℓ} where
  -- `getOrCreate`
  abbrev pub new_entry : Entry V
  new_entry = record {
    queue = [];
    signal = false;
    unsignalled = 0;
    unensured = 0;
    running = false;
    worker = stopped;
    accepted = [];
    handled = [];
  }

  -- `fifoSlot.Send`: into the queue, or dropped where it is full; then the signal.
  unfoldable pub enqueue : V → Entry V → Entry V
  enqueue v e = record {
    queue = e.queue ++ v ∷ [];
    signal = e.signal;
    unsignalled = suc e.unsignalled;
    unensured = e.unensured;
    running = e.running;
    worker = e.worker;
    accepted = e.accepted ++ v ∷ [];
    handled = e.handled;
  }

  unfoldable pub drop_value : Entry V → Entry V
  drop_value e = record {
    queue = e.queue;
    signal = e.signal;
    unsignalled = e.unsignalled;
    unensured = suc e.unensured;
    running = e.running;
    worker = e.worker;
    accepted = e.accepted;
    handled = e.handled;
  }

  unfoldable pub send_signal : Entry V → Entry V
  send_signal e = record {
    queue = e.queue;
    signal = true;
    unsignalled = e.unsignalled - 1;
    unensured = suc e.unensured;
    running = e.running;
    worker = e.worker;
    accepted = e.accepted;
    handled = e.handled;
  }

  -- The worker moves on, with a signal and a queue.
  abbrev pub work : Bool → List V → Worker V → Entry V → Entry V
  work signal queue worker e = record {
    queue = queue;
    signal = signal;
    unsignalled = e.unsignalled;
    unensured = e.unensured;
    running = e.running;
    worker = worker;
    accepted = e.accepted;
    handled = e.handled;
  }

  -- `ensureRunning`, at the end of Deliver.
  unfoldable pub ensure_running : Entry V → Entry V
  ensure_running e = record {
    queue = e.queue;
    signal = e.signal;
    unsignalled = e.unsignalled;
    unensured = e.unensured - 1;
    running = true;
    worker = if e.running then e.worker else waiting looping;
    accepted = e.accepted;
    handled = e.handled;
  }

  -- `fifoSlot.Recv`: the receive, then the signal again where values are left.
  abbrev pub non_empty : List V → Bool
  non_empty [] = false
  non_empty (v ∷ vs) = true

  unfoldable pub rearm : Mode → V → Entry V → Entry V
  rearm mode v e = work (if non_empty e.queue then true else e.signal) e.queue (handling mode v) e

  -- The handler's return, with or without an error.
  unfoldable pub handle_value : Mode → V → Entry V → Entry V
  handle_value mode v e = record {
    queue = e.queue;
    signal = e.signal;
    unsignalled = e.unsignalled;
    unensured = e.unensured;
    running = e.running;
    worker = waiting mode;
    accepted = e.accepted;
    handled = e.handled ++ v ∷ [];
  }

  -- The deferred function of `runEntry`: a new goroutine where values have come in meanwhile.
  unfoldable pub finish : Entry V → Entry V
  finish e = record {
    queue = e.queue;
    signal = e.signal;
    unsignalled = e.unsignalled;
    unensured = e.unensured;
    running = non_empty e.queue;
    worker = if non_empty e.queue then waiting looping else stopped;
    accepted = e.accepted;
    handled = e.handled;
  }

  -- The steps of the senders.
  pub data Deliver (capacity : ℕ) (e : Entry V) : Entry V → Type ℓ where
    enqueues : (v : V) → length e.queue < capacity → Deliver capacity e (enqueue v e)
    drops : capacity ≤ length e.queue → Deliver capacity e (drop_value e)
    signals : 0 < e.unsignalled → Deliver capacity e (send_signal e)
    ensures : 0 < e.unensured → Deliver capacity e (ensure_running e)

  -- The steps of the worker: the loop of `RunnerFactory` around the slot.
  pub data Work (e : Entry V) : Entry V → Type ℓ where
    wakes :
        (mode : Mode)
        → e.worker ≡ waiting mode
        → e.signal ≡ true
        → Work e (work false e.queue (woken mode) e)
    receives :
        (mode : Mode) (v : V) (rest : List V)
        → e.worker ≡ woken mode
        → e.queue ≡ v ∷ rest
        → Work e (work e.signal rest (received mode v) e)
    rearms : (mode : Mode) (v : V) → e.worker ≡ received mode v → Work e (rearm mode v e)
    handles : (mode : Mode) (v : V) → e.worker ≡ handling mode v → Work e (handle_value mode v e)
    idles : e.worker ≡ waiting looping → Work e (work e.signal e.queue (waiting flushing) e)
    returns :
        e.worker ≡ waiting flushing → e.signal ≡ false → Work e (work e.signal e.queue exiting e)
    finishes : e.worker ≡ exiting → Work e (finish e)

  pub data Reach (capacity : ℕ) : Entry V → Type ℓ where
    start : Reach capacity new_entry
    delivered : {e f : Entry V} → Reach capacity e → Deliver capacity e f → Reach capacity f
    worked : {e f : Entry V} → Reach capacity e → Work e f → Reach capacity f

-- ===== src/Status.antt =====
-- Status writes, internal/provider/processor/status: Send of updater.go, which changes the object in
-- memory and delivers the update to the pool, and apply of processor.go, which writes it to the API server. The
-- answers of the API server and RetryOnConflict of client-go are arguments.
pub mod Writeback
use hibernator.Prelude.{
  ℕ, String, Bool, true, false, Option, none, some, if◌then◌else◌, ltb, length,
}
use hibernator.Keyed.{Entry, enqueue, drop_value}

-- An object that is read, with the error of the read.
pub data Fetched {ℓ} (T : Type ℓ) : Type ℓ where
  found : T → Fetched T
  not_found : Fetched T
  fetch_failed : String → Fetched T

-- How a try ends: without a write, with the object as written, or with an error.
pub data Written {ℓ} (T : Type ℓ) : Type ℓ where
  skipped : Written T
  written : T → Written T
  failed : String → Written T

-- `Update`; a hook returns its error.
pub record Update {ℓ} (T : Type ℓ) : Type ℓ where
  pub pre_hook : Option (T → Option String)
  pub mutator : Option (T → T)
  pub post_hook : Option (T → Option String)

-- What the API server answers: to the read before the hook, and, try by try, to the read and to the
-- write of an object.
pub record Answers {ℓ} (T : Type ℓ) : Type ℓ where
  pub current : Fetched T
  pub fetch : ℕ → Fetched T
  pub update : ℕ → T → Option String

-- What `apply` does: the object that it writes, the one that it calls the hook with, its error.
pub record Applied {ℓ} (T : Type ℓ) : Type ℓ where
  pub written : Option T
  pub post_called : Option T
  pub error : Option String

module _ {ℓ} {T : Type ℓ} where
  -- `Mutate` of an update; without a mutator nothing is changed.
  abbrev pub mutated : Update T → T → T
  mutated u t = elim u.mutator [ none ↦ t | some change ↦ change t ]

  -- `defaultUpdater.Send`, on the object in memory and the entry of its key, up to the signal of
  -- Deliver: the object is changed first, also where Deliver then finds the queue full and drops the
  -- update.
  unfoldable pub send : ℕ → Update T → T × Entry (Update T) → T × Entry (Update T)
  unfolding enqueue drop_value
  send capacity u (memory, e) =
      (mutated u memory, if ltb (length e.queue) capacity then enqueue u e else drop_value e)

  -- `isStatusEqual` is `equal`; `RetryOnConflict` is `retry`.
  module _ (equal : T → T → Bool) (retry : (ℕ → Written T) → Written T) where
    -- The function that is tried.
    abbrev write : (T → Option String) → T → Written T
    write update new = elim (update new) [ none ↦ written new | some problem ↦ failed problem ]

    unfoldable pub try_once : Fetched T → (T → Option String) → (T → T) → Written T
    try_once (found fresh) update change =
        if equal fresh (change fresh) then skipped else write update (change fresh)
    try_once not_found update change = skipped
    try_once (fetch_failed problem) update change = failed problem

    abbrev nothing : Applied T
    nothing = record { written = none; post_called = none; error = none }

    abbrev error_of : String → Applied T
    error_of problem = record { written = none; post_called = none; error = some problem }

    -- After the write: the hook's error is only logged.
    abbrev after_write : Update T → Written T → Applied T
    after_write u skipped = nothing
    after_write u (written t) = record {
      written = some t;
      post_called = elim u.post_hook [ none ↦ none | some hook ↦ some t ];
      error = none;
    }
    after_write u (failed problem) = error_of problem

    unfoldable pub mutate_and_write : Answers T → Update T → Applied T
    unfolding try_once
    mutate_and_write answers u = elim u.mutator [
      | none ↦ nothing
      | some change ↦
          after_write u (retry (λ k. try_once (answers.fetch k) (answers.update k) change))
    ]

    -- The hook before the write aborts it with an error, and where there is no object.
    abbrev after_hook : Answers T → Update T → Option String → Applied T
    after_hook answers u none = mutate_and_write answers u
    after_hook answers u (some problem) = error_of problem

    abbrev with_hook : Answers T → Update T → (T → Option String) → Fetched T → Applied T
    with_hook answers u hook (found t) = after_hook answers u (hook t)
    with_hook answers u hook not_found = nothing
    with_hook answers u hook (fetch_failed problem) = error_of problem

    -- `apply`
    unfoldable pub apply : Answers T → Update T → Applied T
    unfolding mutate_and_write
    apply answers u = elim u.pre_hook [
      | none ↦ mutate_and_write answers u
      | some hook ↦ with_hook answers u hook answers.current
    ]

-- ===== src/Status/Writeback.antt =====
-- The object in memory and the one on the server.
use hibernator.Prelude.{
  ℕ, String, Bool, true, Option, none, some, List, [], ◌∷◌, ◌≡◌, ◌∙◌, refl, sym, ap, arith, ◌⊎◌,
  ◌<◌, ◌++◌, length, ltb, if◌then◌else◌, Bool-cases, Option-cases, inl, inr,
}
use hibernator.Status.{
  found, Written, skipped, written, Update, Answers, Applied, mutated, send, try_once,
  mutate_and_write, apply,
}
use hibernator.Keyed.{
  Entry, new_entry, enqueue, drop_value, send_signal, ensure_running, enqueues, drops, signals,
  ensures, Work, wakes, receives, rearms, handles, idles, returns, finishes, rearm, handle_value,
  finish, Reach, start, delivered, worked,
}
use hibernator.Keyed.Drained.{Quiet, Works, Reach-drains}

-- The object after a list of updates.
abbrev pub mutate_all {ℓ} : {T : Type ℓ} → T → List (Update T) → T
mutate_all t [] = t
mutate_all t (u ∷ us) = mutate_all (mutated u t) us

mutate_all-append {ℓ} :
    {T : Type ℓ} (t : T) (us : List (Update T)) (u : Update T)
    → mutate_all t (us ++ u ∷ []) ≡ mutated u (mutate_all t us)
mutate_all-append t [] u = refl
mutate_all-append t (v ∷ us) u = mutate_all-append (mutated v t) us u

-- An object that one goroutine sends updates of, from its first state on, and the entry of its key, at
-- every interleaving with the worker; the last index holds the updates that were dropped.
pub data Sent {ℓ} {T : Type ℓ} (capacity : ℕ) (origin : T)
    : T → Entry (Update T) → List (Update T) → Type ℓ where
  unsent : Sent capacity origin origin new_entry []
  sends :
      {memory : T} {e : Entry (Update T)} {lost : List (Update T)} (u : Update T)
      → Sent capacity origin memory e lost
      → Sent capacity origin
          (send capacity u (memory, e)).0
          (send capacity u (memory, e)).1
          (if ltb (length e.queue) capacity then lost else u ∷ lost)
  signalled :
      {memory : T} {e : Entry (Update T)} {lost : List (Update T)}
      → 0 < e.unsignalled
      → Sent capacity origin memory e lost
      → Sent capacity origin memory (send_signal e) lost
  ensured :
      {memory : T} {e : Entry (Update T)} {lost : List (Update T)}
      → 0 < e.unensured
      → Sent capacity origin memory e lost
      → Sent capacity origin memory (ensure_running e) lost
  worked_on :
      {memory : T} {e f : Entry (Update T)} {lost : List (Update T)}
      → Work e f
      → Sent capacity origin memory e lost
      → Sent capacity origin memory f lost

Work-accepted {ℓ} : {V : Type ℓ} {e f : Entry V} → Work e f → f.accepted ≡ e.accepted
unfolding rearm handle_value finish
Work-accepted (wakes mode at set) = refl
Work-accepted (receives mode v rest at front) = refl
Work-accepted (rearms mode v at) = refl
Work-accepted (handles mode v at) = refl
Work-accepted (idles at) = refl
Work-accepted (returns at clear) = refl
Work-accepted (finishes at) = refl

keeps-memory {ℓ} :
    {T : Type ℓ} (capacity : ℕ) (origin memory : T) (u : Update T) (e : Entry (Update T))
    (lost : List (Update T))
    → (if ltb (length e.queue) capacity then lost else u ∷ lost) ≡ []
    → (lost ≡ [] → memory ≡ mutate_all origin e.accepted)
    → mutated u memory
      ≡ mutate_all origin
          (if ltb (length e.queue) capacity then enqueue u e else drop_value e).accepted
unfolding enqueue
keeps-memory capacity origin memory u e lost none_lost before =
    elim (Bool-cases (ltb (length e.queue) capacity)) [
      | inl room ↦ rw room (
          ap (mutated u) (before (ground (arith, room)))
          ∙ sym (mutate_all-append origin e.accepted u))
      | inr full ↦ absurd (ground (arith, full))
    ]

module _ {ℓ} {T : Type ℓ} {capacity : ℕ} where
  delivers-Reach :
      (u : Update T) (e : Entry (Update T))
      → Reach capacity e
      → Reach capacity (if ltb (length e.queue) capacity then enqueue u e else drop_value e)
  delivers-Reach u e r = elim (Bool-cases (ltb (length e.queue) capacity)) [
    | inl room ↦ rw room (delivered r (enqueues u (ground (arith, room))))
    | inr full ↦ rw full (delivered r (drops (ground (arith, full))))
  ]

  pub Sent-Reach :
      {origin memory : T} {e : Entry (Update T)} {lost : List (Update T)}
      → Sent capacity origin memory e lost
      → Reach capacity e
  unfolding send
  Sent-Reach unsent = start
  Sent-Reach {origin} {memory} {e} (sends {memory = before} {e = held} u s) =
      delivers-Reach u held (Sent-Reach s)
  Sent-Reach (signalled due s) = delivered (Sent-Reach s) (signals due)
  Sent-Reach (ensured due s) = delivered (Sent-Reach s) (ensures due)
  Sent-Reach (worked_on step s) = worked (Sent-Reach s) step

  Sent-memory :
      {origin memory : T} {e : Entry (Update T)} {lost : List (Update T)}
      → Sent capacity origin memory e lost
      → lost ≡ []
      → memory ≡ mutate_all origin e.accepted
  unfolding send enqueue send_signal ensure_running
  Sent-memory unsent none_lost = refl
  Sent-memory {origin} (sends {memory = before} {e = held} {lost = l} u s) none_lost =
      keeps-memory capacity origin before u held l none_lost (λ same. Sent-memory s same)
  Sent-memory (signalled due s) none_lost = Sent-memory s none_lost
  Sent-memory (ensured due s) none_lost = Sent-memory s none_lost
  Sent-memory {origin} (worked_on step s) none_lost =
      Sent-memory s none_lost ∙ ap (mutate_all origin) (sym (Work-accepted step))

module _ {ℓ κ} {T : Type ℓ} {View : Type κ} (view : T → View) (equal : T → T → Bool)
    (equal_view : (a b : T) → equal a b ≡ true → view a ≡ view b)
    (retry : (ℕ → Written T) → Written T)
    (retry_one : (try : ℕ → Written T) → (k : ℕ) × (retry try ≡ try k)) where
  -- The server holds the object, reads and writes succeed.
  abbrev healthy : T → Answers T
  healthy t = record { current = found t; fetch = λ k. found t; update = λ k new. none }

  -- The object on the server after an update, and after a list of them.
  abbrev stored : T → Applied T → T
  stored t applied = elim applied.written [ none ↦ t | some new ↦ new ]

  abbrev process : T → Update T → T
  process t u = stored t (apply equal retry (healthy t) u)

  abbrev pub process_all : T → List (Update T) → T
  process_all t [] = t
  process_all t (u ∷ us) = process_all (process t u) us

  -- The hook before the write lets it pass, and the view after the change is a function of the one
  -- before it.
  abbrev Fit : Update T → Type (ℓ ⊔ κ)
  Fit u =
      ((t : T) → (hook : T → Option String) → u.pre_hook ≡ some hook → hook t ≡ none)
      × ((a b : T) → view a ≡ view b → view (mutated u a) ≡ view (mutated u b))

  abbrev pub AllFit : List (Update T) → Type (ℓ ⊔ κ)
  AllFit [] = Unit
  AllFit (u ∷ us) = Fit u × AllFit us

  tried : T → (T → T) → Written T
  tried t change = retry (λ k. try_once equal retry (found t) (λ new. none) change)

  tried-cases :
      (t : T) (change : T → T)
      → ((tried t change ≡ skipped) × (equal t (change t) ≡ true))
        ⊎ (tried t change ≡ written (change t))
  unfolding tried try_once
  tried-cases t change = elim (Bool-cases (equal t (change t))) [
    | inl same ↦ inl (
      (retry_one (λ k. try_once equal retry (found t) (λ new. none) change)).1 ∙ ground arith,
      same,
    )
    | inr different ↦
        inr
          ((retry_one (λ k. try_once equal retry (found t) (λ new. none) change)).1 ∙ ground arith)
  ]

  written-view :
      (t : T) (u : Update T)
      → view (stored t (mutate_and_write equal retry (healthy t) u)) ≡ view (mutated u t)
  unfolding mutate_and_write tried
  written-view t u = elim (Option-cases u.mutator) [
    | inl no_mutator ↦ ground arith
    | inr (change, is_change) ↦ elim (tried-cases t change) [
      | inl (skips, same) ↦ ground (arith, equal_view t (change t) same)
      | inr writes ↦ ground arith
    ]
  ]

  process-view : (t : T) (u : Update T) → Fit u → view (process t u) ≡ view (mutated u t)
  unfolding apply
  process-view t u fit = elim (Option-cases u.pre_hook) [
    | inl no_hook ↦ ground (arith, written-view t u)
    | inr (hook, is_hook) ↦ ground (arith, written-view t u, fit.0 t hook is_hook)
  ]

  process_all-view :
      (us : List (Update T)) (server memory : T)
      → AllFit us
      → view server ≡ view memory
      → view (process_all server us) ≡ view (mutate_all memory us)
  process_all-view [] server memory fit same = same
  process_all-view (u ∷ us) server memory fit same =
      process_all-view us (process server u) (mutated u memory) fit.1
        (process-view server u fit.0 ∙ fit.0.1 server memory same)

  -- Where the API server answers without errors, the tests of equality ignore nothing that the view
  -- shows, the updates do not depend on what it hides, and no update was dropped for a full queue: once
  -- no Send is in progress, the worker's own steps lead to an entry whose handled updates bring the
  -- object on the server to the same view as the object in memory, which Send changed at once.
  pub Sent-view :
      {capacity : ℕ} {origin : T} (e : Entry (Update T)) (server memory : T)
      → Sent capacity origin memory e []
      → Quiet e
      → AllFit e.accepted
      → view server ≡ view origin
      → (f : Entry (Update T)) × Works e f × (view (process_all server f.handled) ≡ view memory)
  Sent-view {capacity} {origin} e server memory sent quiet fit same =
      let (f, works, _, handled) = Reach-drains e (Sent-Reach sent) quiet in
      (
        f,
        works,
        ap (λ us. view (process_all server us)) handled
            ∙ process_all-view e.accepted server origin fit same
            ∙ ap view (sym (Sent-memory sent refl)),
      )

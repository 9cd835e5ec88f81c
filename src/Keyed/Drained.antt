-- ===== src/Keyed/Drained.antt =====
-- What is delivered is worked off.
use hibernator.Prelude.{
  ℕ, zero, suc, ◌+◌, ◌*◌, ◌<◌, ◌≡◌, refl, sym, ◌∙◌, ap, Bool, true, false, not, List, [], ◌∷◌, ◌++◌,
  length, if◌then◌else◌, arith, inl, inr, Bool-cases,
}
use hibernator.Keyed.{
  Worker, stopped, exiting, waiting, woken, received, handling, Entry, work, non_empty, rearm,
  handle_value, finish, Work, wakes, receives, rearms, handles, finishes, Reach, worked,
}
use hibernator.Keyed.Fifo.{in_hand, Reach-Inv}

append_empty {ℓ} : {A : Type ℓ} (xs : List A) → xs ++ [] ≡ xs
append_empty [] = refl
append_empty (x ∷ xs) = ap (λ r. x ∷ r) (append_empty xs)

module _ {ℓ} {V : Type ℓ} where
  -- No call of Deliver is in progress.
  abbrev pub Quiet : Entry V → Type 0
  Quiet e = (e.unsignalled ≡ 0) × (e.unensured ≡ 0)

  -- The worker has nothing to do: no goroutine, or one that waits for a signal or for a value.
  abbrev pub at_rest : Entry V → Bool
  at_rest e = elim e.worker [
    | stopped ↦ true
    | exiting ↦ false
    | waiting mode ↦ not e.signal
    | woken mode ↦ not (non_empty e.queue)
    | received mode v ↦ false
    | handling mode v ↦ false
  ]

  rest-queue :
      {capacity : ℕ} {e : Entry V} → Reach capacity e → Quiet e → at_rest e ≡ true → e.queue ≡ []
  rest-queue {capacity} {e} r quiet rest =
      let (order, sig, serve, count) = Reach-Inv r in ground arith

  rest-hand : (e : Entry V) → at_rest e ≡ true → in_hand e.worker ≡ []
  rest-hand e rest = ground arith

  -- At rest, everything that was accepted is handled.
  rest-handled :
      {capacity : ℕ} {e : Entry V}
      → Reach capacity e
      → Quiet e
      → at_rest e ≡ true
      → e.handled ≡ e.accepted
  rest-handled {capacity} {e} r quiet rest =
      sym (append_empty e.handled)
      ∙ ap (λ tail. e.handled ++ tail)
          (sym (ap (λ hand. hand ++ e.queue) (rest-hand e rest) ∙ rest-queue r quiet rest))
      ∙ (Reach-Inv r).0

  abbrev weight : Worker V → ℕ
  weight exiting = 1
  weight (woken mode) = 1
  weight (received mode v) = 5
  weight (handling mode v) = 1
  weight _ = 0

  -- Each step of a worker that is not at rest makes this smaller.
  abbrev to_do : Entry V → ℕ
  to_do e = 5 * length e.queue + weight e.worker + (if e.signal then 3 else 0)

  abbrev Progress : Entry V → Type ℓ
  Progress e =
      (f : Entry V) × Work e f
      × (to_do f < to_do e)
      × (f.accepted ≡ e.accepted)
      × (f.unsignalled ≡ e.unsignalled)
      × (f.unensured ≡ e.unensured)

  progress : (e : Entry V) → at_rest e ≡ false → Progress e
  unfolding rearm handle_value finish
  progress e busy = go e.worker refl e.queue refl
    where
      go : (w : Worker V) → e.worker ≡ w → (q : List V) → e.queue ≡ q → Progress e
      go stopped at q queued = absurd (ground arith)
      go exiting at q queued = (finish e, finishes at, ground arith, refl, refl, refl)
      go (waiting mode) at q queued =
          let set : e.signal ≡ true = ground arith in
          (work false e.queue (woken mode) e, wakes mode at set, ground arith, refl, refl, refl)
      go (woken mode) at [] queued = absurd (ground arith)
      go (woken mode) at (v ∷ rest) queued = (
        work e.signal rest (received mode v) e,
        receives mode v rest at queued,
        ground (arith, ap length queued),
        refl,
        refl,
        refl,
      )
      go (received mode v) at q queued =
          (rearm mode v e, rearms mode v at, ground arith, refl, refl, refl)
      go (handling mode v) at q queued =
          (handle_value mode v e, handles mode v at, ground arith, refl, refl, refl)

  -- Steps of the worker alone.
  pub data Works : Entry V → Entry V → Type ℓ where
    done : {e : Entry V} → Works e e
    then_works : {e f g : Entry V} → Work e f → Works f g → Works e g

  drains :
      {capacity : ℕ} (fuel : ℕ) (e : Entry V)
      → to_do e < fuel
      → Reach capacity e
      → Quiet e
      → (f : Entry V) × Works e f × (f.accepted ≡ e.accepted) × (f.handled ≡ e.accepted)
  drains zero e enough r quiet = absurd (omega arith)
  drains (suc fuel) e enough r quiet = elim (Bool-cases (at_rest e)) [
    | inl rest ↦ (e, done, refl, rest-handled r quiet rest)
    | inr busy ↦
        let (f, step, less, same, unsignalled, unensured) = progress e busy in
        let (g, steps, kept, handled) =
          drains fuel f (omega (arith, less)) (worked r step)
            (unsignalled ∙ quiet.0, unensured ∙ quiet.1) in
        (g, then_works step steps, kept ∙ same, handled ∙ same)
  ]

  -- At every point of every interleaving of senders with the worker at which no call of Deliver is in
  -- progress, the worker's own steps, without any further signal or value, lead to an entry in which all
  -- accepted values are handled, each once and in their order.
  pub Reach-drains :
      {capacity : ℕ} (e : Entry V)
      → Reach capacity e
      → Quiet e
      → (f : Entry V) × Works e f × (f.accepted ≡ e.accepted) × (f.handled ≡ e.accepted)
  Reach-drains e r quiet = drains (suc (to_do e)) e (omega arith) r quiet

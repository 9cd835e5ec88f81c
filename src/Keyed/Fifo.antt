-- ===== src/Keyed/Fifo.antt =====
-- What holds at every interleaving: the order of the values, and the signal that is due.
use hibernator.Prelude.{
  ℕ, ◌≡◌, refl, sym, ◌∙◌, ap, subst, Bool, true, false, not, ◌||◌, List, [], ◌∷◌, ◌++◌, ltb, arith,
}
use hibernator.Keyed.{
  Worker, stopped, woken, received, handling, Entry, enqueue, drop_value, send_signal,
  ensure_running, non_empty, rearm, handle_value, finish, Deliver, enqueues, drops, signals,
  ensures, Work, wakes, receives, rearms, handles, idles, returns, finishes, Reach, start,
  delivered, worked,
}

append_assoc {ℓ} : {A : Type ℓ} (xs ys zs : List A) → (xs ++ ys) ++ zs ≡ xs ++ (ys ++ zs)
append_assoc [] ys zs = refl
append_assoc (x ∷ xs) ys zs = ap (λ r. x ∷ r) (append_assoc xs ys zs)

module _ {ℓ} {V : Type ℓ} where
  -- The value that the worker has in its hand.
  abbrev pub in_hand : Worker V → List V
  in_hand (received mode v) = v ∷ []
  in_hand (handling mode v) = v ∷ []
  in_hand _ = []

  -- The worker will look at the queue before it waits.
  abbrev pub about_to_look : Worker V → Bool
  about_to_look (woken mode) = true
  about_to_look (received mode v) = true
  about_to_look _ = false

  abbrev pub is_stopped : Worker V → Bool
  is_stopped stopped = true
  is_stopped _ = false

  -- What was handled, then what is in the worker's hand, then the queue, is what was accepted.
  abbrev pub InOrder : Entry V → Type ℓ
  InOrder e = e.handled ++ (in_hand e.worker ++ e.queue) ≡ e.accepted

  -- Values in the queue have a signal: one that is set, or one to come.
  abbrev pub signalled : Entry V → Bool
  signalled e = not (non_empty e.queue) || e.signal || ltb 0 e.unsignalled || about_to_look e.worker

  -- Values in the queue have a worker, or a call of Deliver that starts one.
  abbrev pub served : Entry V → Bool
  served e = not (non_empty e.queue) || e.running || ltb 0 e.unsignalled || ltb 0 e.unensured

  -- The flag says whether there is a goroutine.
  abbrev pub Counted : Entry V → Type 0
  Counted e = e.running ≡ not (is_stopped e.worker)

  abbrev pub Inv : Entry V → Type ℓ
  Inv e = InOrder e × (signalled e ≡ true) × (served e ≡ true) × Counted e

  order-enqueue :
      (handled hand queue accepted : List V) (v : V)
      → handled ++ (hand ++ queue) ≡ accepted
      → handled ++ (hand ++ (queue ++ v ∷ [])) ≡ accepted ++ v ∷ []
  order-enqueue handled hand queue accepted v order =
      ap (λ r. handled ++ r) (sym (append_assoc hand queue (v ∷ [])))
      ∙ sym (append_assoc handled (hand ++ queue) (v ∷ []))
      ∙ ap (λ r. r ++ v ∷ []) order

  Deliver-Inv : {capacity : ℕ} {e f : Entry V} → Deliver capacity e f → Inv e → Inv f
  unfolding enqueue drop_value send_signal ensure_running
  Deliver-Inv {capacity} {e} {f} (enqueues v room) (order, sig, serve, count) = (
    order-enqueue e.handled (in_hand e.worker) e.queue e.accepted v order,
    ground arith,
    ground arith,
    count,
  )
  Deliver-Inv {capacity} {e} {f} (drops full) (order, sig, serve, count) =
      (order, sig, ground arith, count)
  Deliver-Inv {capacity} {e} {f} (signals due) (order, sig, serve, count) =
      (order, ground arith, ground arith, count)
  Deliver-Inv {capacity} {e} {f} (ensures due) (order, sig, serve, count) =
      (ground arith, ground arith, ground arith, ground arith)

  Work-Inv : {e f : Entry V} → Work e f → Inv e → Inv f
  unfolding rearm handle_value finish
  Work-Inv {e} {f} (wakes mode at set) (order, sig, serve, count) =
      (ground arith, ground arith, ground arith, ground arith)
  Work-Inv {e} {f} (receives mode v rest at front) (order, sig, serve, count) =
      (ground arith, ground arith, ground arith, ground arith)
  Work-Inv {e} {f} (rearms mode v at) (order, sig, serve, count) =
      (ground arith, ground arith, ground arith, ground arith)
  Work-Inv {e} {f} (handles mode v at) (order, sig, serve, count) = (
    append_assoc e.handled (v ∷ []) e.queue
        ∙ subst (λ w. e.handled ++ (in_hand w ++ e.queue) ≡ e.accepted) at order,
    ground arith,
    ground arith,
    ground arith,
  )
  Work-Inv {e} {f} (idles at) (order, sig, serve, count) =
      (ground arith, ground arith, ground arith, ground arith)
  Work-Inv {e} {f} (returns at clear) (order, sig, serve, count) =
      (ground arith, ground arith, ground arith, ground arith)
  Work-Inv {e} {f} (finishes at) (order, sig, serve, count) =
      (ground arith, ground arith, ground arith, ground arith)

  pub Reach-Inv : {capacity : ℕ} {e : Entry V} → Reach capacity e → Inv e
  Reach-Inv start = (refl, refl, refl, refl)
  Reach-Inv (delivered r step) = Deliver-Inv step (Reach-Inv r)
  Reach-Inv (worked r step) = Work-Inv step (Reach-Inv r)

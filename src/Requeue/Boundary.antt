-- ===== src/Requeue/Boundary.antt =====
-- The boundary is the first one to come.
use hibernator.Prelude.{
  ◌≤◌, ◌≡◌, refl, ◌∙◌, ◌⊎◌, inl, inr, String, Bool, true, false, not, ◌&&◌, ◌||◌, Option, none,
  some, List, [], ◌∷◌, lookup, erase, lookup-insert, lookup-erase, any, eqb, ltb, leb, arith,
  Bool-cases, eq_refl,
}
use hibernator.Prelude.Int.{pos, leb_ℤ}
use hibernator.Time.{Time, is_zero, sub}
use hibernator.Requeue.{
  Period, PlanContext, min_time, note, note_all, first_event, compute_boundary, when_set, arm,
  Timers, handle_update,
}

-- A time at which a period starts or ends, after now.
abbrev pub in_period : Time → Time → Period → Bool
in_period now t p = ltb now t && (eqb p.valid_from t || eqb p.valid_until t)

-- A time that is a boundary of the plan: the next event of its schedule, or of a period to come.
abbrev pub is_boundary : Time → PlanContext → Time → Bool
is_boundary now context t =
    not (is_zero t)
    && (eqb (first_event context.next_event) t || any (in_period now t) context.exceptions)

abbrev First : Time → Time → List Period → Time → Type 0
First now earliest periods r =
    ((r ≡ earliest) ⊎ (any (in_period now r) periods ≡ true))
    × ((t : Time)
        → is_zero t ≡ false
        → (eqb earliest t || any (in_period now t) periods) ≡ true
        → (is_zero r ≡ false) × (r ≤ t))

note-First :
    (now earliest : Time) (p : Period)
    → First now earliest (p ∷ []) (note now p.valid_until (note now p.valid_from earliest))
unfolding min_time
note-First now earliest p = (ground arith, λ t nonzero hit. (ground arith, ground arith))

First-trans :
    (now earliest mid r : Time) (p : Period) (periods : List Period)
    → First now earliest (p ∷ []) mid
    → First now mid periods r
    → First now earliest (p ∷ periods) r
First-trans now earliest mid r p periods (from, least) (from_rest, least_rest) =
    (origin from_rest from, bound)
  where
    origin :
        (r ≡ mid) ⊎ (any (in_period now r) periods ≡ true)
        → (mid ≡ earliest) ⊎ (any (in_period now mid) (p ∷ []) ≡ true)
        → (r ≡ earliest) ⊎ (any (in_period now r) (p ∷ periods) ≡ true)
    origin (inl same) (inl first) = inl (same ∙ first)
    origin (inl same) (inr first) = inr (ground arith)
    origin (inr later) first = inr (ground arith)

    bound :
        (t : Time)
        → is_zero t ≡ false
        → (eqb earliest t || any (in_period now t) (p ∷ periods)) ≡ true
        → (is_zero r ≡ false) × (r ≤ t)
    bound t nonzero hit = elim (Bool-cases (eqb earliest t || any (in_period now t) (p ∷ []))) [
      | inl early ↦
          let (mid_set, mid_le) = least t nonzero early in
          let (r_set, r_le) = least_rest mid mid_set (ground arith) in
          (r_set, omega (arith, mid_le, r_le))
      | inr late ↦ least_rest t nonzero (ground arith)
    ]

note_all-First :
    (now earliest : Time) (periods : List Period)
    → First now earliest periods (note_all now earliest periods)
unfolding note_all
note_all-First now earliest [] = (inl refl, λ t nonzero hit. (ground arith, ground arith))
note_all-First now earliest (p ∷ periods) =
    let mid = note now p.valid_until (note now p.valid_from earliest) in
    First-trans now earliest mid (note_all now mid periods) p periods (note-First now earliest p)
      (note_all-First now mid periods)

sub-le_zero : (t now : Time) → leb_ℤ (sub t now) (pos 0) ≡ leb t now
unfolding sub
sub-le_zero t now = ground arith

-- The timers after an update that computes a boundary, or none.
abbrev pub ArmedAt : Option Time → Time → String → PlanContext → Timers → Timers → Type 0
ArmedAt none now key context old new =
    (lookup key new.pending ≡ none) × ((t : Time) → is_boundary now context t ≡ false)
ArmedAt (some boundary) now key context old new =
    (is_boundary now context boundary ≡ true)
    × ((t : Time) → is_boundary now context t ≡ true → boundary ≤ t)
    × ((lookup key new.pending ≡ some boundary)
        ⊎ ((boundary ≤ now) × (new.enqueued ≡ key ∷ old.enqueued)))

arm-ArmedAt :
    (now : Time) (key : String) (context : PlanContext) (old : Timers) (r : Time)
    → First now (first_event context.next_event) context.exceptions r
    → ArmedAt
        (when_set r)
        now
        key
        context
        old
        (arm now key (erase key old.pending) old.enqueued (when_set r))
arm-ArmedAt now key context old r (origin, least) = elim (Bool-cases (is_zero r)) [
  | inl zero_time ↦
      rw zero_time (
        lookup-erase key key old.pending ∙ ground (arith, eq_refl key),
        λ t. ground (arith, least t),
      )
  | inr set ↦ rw set (
    ground arith,
    λ t at. (least t (ground arith) (ground arith)).1,
    timer (Bool-cases (leb r now)),
  )
]
  where
    timer :
        (leb r now ≡ true) ⊎ (leb r now ≡ false)
        → (lookup key (arm now key (erase key old.pending) old.enqueued (some r)).pending ≡ some r)
          ⊎ ((r ≤ now)
              × ((arm now key (erase key old.pending) old.enqueued (some r)).enqueued
                  ≡ key ∷ old.enqueued))
    timer (inl past) = inr (ground arith, ground (arith, sub-le_zero r now))
    timer (inr later) = inl (
        rw (sub-le_zero r now, later)
          (lookup-insert key key r (erase key old.pending) ∙ ground (arith, eq_refl key)))

-- After an update of a plan's context, the plan is enqueued at once or has a timer, for the earliest of
-- its boundaries; without a boundary it has no timer. A boundary is the next event of its schedule, or
-- the start or end of an exception after now, whatever the state of the exception.
pub handle_update-ArmedAt :
    (now : Time) (key : String) (context : PlanContext) (old : Timers)
    → ArmedAt
        (compute_boundary now (some context))
        now
        key
        context
        old
        (handle_update now key (some (some context)) old)
unfolding handle_update compute_boundary
handle_update-ArmedAt now key context old =
    arm-ArmedAt now key context old
      (note_all now (first_event context.next_event) context.exceptions)
      (note_all-First now (first_event context.next_event) context.exceptions)

-- ===== src/Schedule.antt =====
-- The evaluation of schedules, internal/scheduler: the types, and what the code takes from Go's
-- `time` package and from the cron library.

pub mod Parse
pub mod Windows
pub mod Last
pub mod Evaluate
pub mod Suspension
pub mod Pipeline
pub mod Recent
pub mod States
mod Merged
pub mod CarveOut
pub mod Union
pub mod Times
pub mod Ends
pub mod Composition
use hibernator.Prelude.{ℕ, String, Bool, true, false, List, Option, none, some, ◌≡◌, refl, arith}
use hibernator.Prelude.Int.{ℤ}
use hibernator.Time.{Time, Duration}
use hibernator.Api.{ExceptionType, OffHourWindow}

pub data Weekday : Type 0 where
  sunday monday tuesday wednesday thursday friday saturday : Weekday

-- `*time.Location`, with the methods of `time.Time` that read the calendar of a location:
-- `Weekday`, `Hour`, `Minute`, `AddDate(0, 0, days)`, and `time.Date` of the day of a time at an
-- hour and a minute, with no seconds.
pub record Location : Type 0 where
  pub weekday : Time → Weekday
  pub hour : Time → ℕ
  pub minute : Time → ℕ
  pub add_days : Time → ℤ → Time
  pub date_at : Time → ℕ → ℕ → Time

-- `cron.Schedule`: the method `Next`, at times of a location.
abbrev pub CronSchedule : Type 0
CronSchedule = Location → Time → Time

-- What is called: `time.LoadLocation` and `Parse` of the cron parser.
pub record Library : Type 0 where
  pub load_location : String → Option Location
  pub parse_cron : String → Option CronSchedule

-- `ScheduleEvaluator`: what the clock answers during a call, and the buffer.
pub record ScheduleEvaluator : Type 0 where
  pub library : Library
  pub now : Time
  pub schedule_buffer : Duration

pub record Exception : Type 0 where
  pub type : ExceptionType
  pub valid_from : Time
  pub valid_until : Time
  pub lead_time : Duration
  pub windows : List OffHourWindow

pub record ScheduleWindow : Type 0 where
  pub windows : List OffHourWindow
  pub hibernate_cron : String
  pub wake_up_cron : String
  pub timezone : String

-- The strings "active" and "hibernated".
pub data CurrentState : Type 0 where
  active hibernated : CurrentState

pub record EvaluationResult : Type 0 where
  pub should_hibernate : Bool
  pub next_hibernate_time : Time
  pub next_wake_up_time : Time
  pub current_state : CurrentState
  pub in_grace_period : Bool
  pub grace_period_end : Time

pub data ParseTimeError : Type 0 where
  invalid_format invalid_hour invalid_minute hour_range minute_range : ParseTimeError

pub data EvaluateError : Type 0 where
  no_days same_times : EvaluateError
  invalid_start invalid_end : ParseTimeError → EvaluateError
  invalid_day invalid_timezone invalid_hibernate_cron invalid_wake_up_cron : String → EvaluateError
  convert_window exception_windows : EvaluateError → EvaluateError

-- A Go function's value, its error, or its panic.
pub data Attempt {ℓ} (E : Type 0) (A : Type ℓ) : Type ℓ where
  ok : A → Attempt E A
  err : E → Attempt E A
  panics : Attempt E A

infixl 5 ◌>>=◌
abbrev pub ◌>>=◌ {ℓ κ} :
    {E : Type 0} {A : Type ℓ} {B : Type κ} → Attempt E A → (A → Attempt E B) → Attempt E B
ok a >>= f = f a
err e >>= f = err e
panics >>= f = panics

infixl 5 ◌>>◌
abbrev pub ◌>>◌ {ℓ} : {E : Type 0} {B : Type ℓ} → Attempt E (Unit {0}) → Attempt E B → Attempt E B
m >> k = m >>= λ _. k

-- A test `if ... { return err }`.
abbrev pub refuse : {E : Type 0} → Bool → E → Attempt E (Unit {0})
refuse true e = err e
refuse false e = ok tt

-- `fmt.Errorf` around an error.
abbrev pub wrap {ℓ} : {E : Type 0} {F : Type 0} {A : Type ℓ} → (E → F) → Attempt E A → Attempt F A
wrap context (ok a) = ok a
wrap context (err e) = err (context e)
wrap context panics = panics

-- A check `if x, err := ...; err != nil { return ... }`.
abbrev pub require {ℓ} : {E : Type 0} {A : Type ℓ} → Option A → E → Attempt E A
require (some a) e = ok a
require none e = err e

pub >>=-eq-ok {ℓ κ} :
    {E : Type 0} {A : Type ℓ} {B : Type κ} (m : Attempt E A) (f : A → Attempt E B) (b : B)
    → (m >>= f) ≡ ok b
    → (a : A) × (m ≡ ok a) × (f a ≡ ok b)
>>=-eq-ok (ok a) f b h = (a, refl, h)
>>=-eq-ok (err e) f b h = cc
>>=-eq-ok panics f b h = cc

pub wrap-eq-ok {ℓ} :
    {E : Type 0} {F : Type 0} {A : Type ℓ} (context : E → F) (m : Attempt E A) (a : A)
    → wrap context m ≡ ok a
    → m ≡ ok a
wrap-eq-ok context (ok b) a h = ground arith
wrap-eq-ok context (err e) a h = cc
wrap-eq-ok context panics a h = cc

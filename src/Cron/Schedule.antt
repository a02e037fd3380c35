-- ===== src/Cron/Schedule.antt =====
-- pkg/cron/service.go: the next run that `computeNextRun` gives, and the time of `getNextWakeMS`.
use vikram.Base.{
  ℕ, suc, zero, ◌+◌, ◌^◌, ◌<◌, ◌%◌, lt→ltb, String, Bool, true, false, List, [], ◌∷◌, Option, none,
  some, ◌≡◌, refl, ◌∙◌, subst, arith, if◌then◌else◌, ◌=s=◌, all, Bool-cases, inl, inr, ◌⊎◌,
}
use vikram.Base.Int.{ℤ, pos, negsuc, ltb_ℤ, leb_ℤ, int64}
use vikram.Cron.Job.{
  CronSchedule, CronJob, Ticks, compute_next_run, next_at, next_every, tick_ms, next_wake,
  get_next_wake_ms, earlier,
}

-- `NextTickAfter(expr, now, false)` gives a time after `now`, or an error.
unfoldable pub IsLater : Ticks → Type 0
IsLater ticks = (expr : String) (now t : ℕ) → ticks expr now ≡ some t → now < t

-- The next run of a schedule of the kind `every` has an int64.
unfoldable pub FitsInt64 : ℕ → Option ℤ → Type 0
FitsInt64 now (some (pos n)) = now + n < 2 ^ 63
FitsInt64 now _ = Unit

abbrev pub is_later : ℕ → Option ℤ → Bool
is_later now none = true
is_later now (some n) = ltb_ℤ (pos now) n

next_at-later : (at : Option ℤ) (now : ℕ) → is_later now (next_at at now) ≡ true
next_at-later none now = refl
next_at-later (some at) now = elim (Bool-cases (ltb_ℤ (pos now) at)) [
  | inl e ↦ rw e e
  | inr e ↦ rw e refl
]

int64_small : (m : ℕ) → m < 2 ^ 63 → int64 m ≡ pos m
int64_small m h =
    let same : m % 2 ^ 64 ≡ m = omega (arith, h) in rw (same, lt→ltb m (2 ^ 63) h) refl

next_every-later :
    (every : Option ℤ) (now : ℕ) → FitsInt64 now every → is_later now (next_every every now) ≡ true
unfolding FitsInt64
next_every-later none now h = refl
next_every-later (some (negsuc n)) now h = refl
next_every-later (some (pos zero)) now h = refl
next_every-later (some (pos (suc n))) now h =
    rw (int64_small (now + suc n) h) (lt→ltb _ _ (omega arith))

tick_ms-later :
    (now : ℕ) (t : Option ℕ) → ((u : ℕ) → t ≡ some u → now < u) → is_later now (tick_ms t) ≡ true
tick_ms-later now none h = refl
tick_ms-later now (some u) h = ground (arith, h u refl)

later-if :
    (now : ℕ) (b : Bool) (x y : Option ℤ)
    → is_later now x ≡ true
    → is_later now y ≡ true
    → is_later now (if b then x else y) ≡ true
later-if now true x y hx hy = hx
later-if now false x y hx hy = hy

-- If the cron library gives times after the one it is asked about and the sum of now and an interval
-- fits in int64, the next run that computeNextRun gives is after now.
pub compute_next_run-later :
    (ticks : Ticks) (sch : CronSchedule) (now : ℕ)
    → IsLater ticks
    → FitsInt64 now sch.every_ms
    → is_later now (compute_next_run ticks sch now) ≡ true
unfolding compute_next_run IsLater
compute_next_run-later ticks sch now later fits =
    later-if now (sch.kind =s= "at") _ _ (next_at-later sch.at_ms now) (
      later-if now (sch.kind =s= "every") _ _ (next_every-later sch.every_ms now fits) (
        later-if now (sch.kind =s= "cron") _ none
          (later-if now (sch.expr =s= "") none _ refl
            (tick_ms-later now (ticks sch.expr now) (later sch.expr now)))
          refl))

-- A time to wake at is no later than another, if there is another.
abbrev pub no_later : Option ℤ → Option ℤ → Bool
no_later wake none = true
no_later none (some n) = false
no_later (some w) (some n) = leb_ℤ w n

abbrev pub next_of : CronJob → Option ℤ
next_of j = if j.enabled then j.state.next_run_at_ms else none

no_later_trans :
    (a b c : Option ℤ) → no_later a b ≡ true → no_later b c ≡ true → no_later a c ≡ true
no_later_trans a b none h k = refl
no_later_trans a none (some c) h k = absurd (ground (arith, k))
no_later_trans none (some b) (some c) h k = h
no_later_trans (some a) (some b) (some c) h k = ground (arith, h, k)

no_later_refl : (a : Option ℤ) → no_later a a ≡ true
no_later_refl none = refl
no_later_refl (some a) = ground arith

-- The earlier of two times is one of them, and no later than either.
earlier-both :
    (wake next : Option ℤ)
    → (no_later (earlier wake next) wake ≡ true) × (no_later (earlier wake next) next ≡ true)
earlier-both wake none = (no_later_refl wake, refl)
earlier-both none (some n) = (refl, no_later_refl (some n))
earlier-both (some w) (some n) = elim (Bool-cases (ltb_ℤ n w)) [
  | inl e ↦ (rw e (ground (arith, e)), rw e (no_later_refl (some n)))
  | inr e ↦ (rw e (no_later_refl (some w)), rw e (ground (arith, e)))
]

earlier-one : (wake next : Option ℤ) → (earlier wake next ≡ wake) ⊎ (earlier wake next ≡ next)
earlier-one wake none = inl refl
earlier-one none (some n) = inr refl
earlier-one (some w) (some n) = elim (Bool-cases (ltb_ℤ n w)) [
  | inl e ↦ inr (rw e refl)
  | inr e ↦ inl (rw e refl)
]

-- One round of the loop.
abbrev round : Option ℤ → CronJob → Option ℤ
round wake j = if j.enabled then earlier wake j.state.next_run_at_ms else wake

round-earlier : (wake : Option ℤ) (j : CronJob) → round wake j ≡ earlier wake (next_of j)
round-earlier wake j = elim (Bool-cases j.enabled) [ inl e ↦ rw e refl | inr e ↦ rw e refl ]

next_wake-first :
    (js : List CronJob) (wake : Option ℤ)
    → (no_later (next_wake js wake) wake ≡ true)
      × (all (λ j. no_later (next_wake js wake) (next_of j)) js ≡ true)
unfolding next_wake
next_wake-first [] wake = (no_later_refl wake, refl)
next_wake-first (j ∷ js) wake =
    let both = earlier-both wake (next_of j) in
    let (below, rest) = next_wake-first js (round wake j) in
    let below2 : no_later (next_wake js (round wake j)) (earlier wake (next_of j)) ≡ true =
      subst (λ t. no_later (next_wake js (round wake j)) t ≡ true) (round-earlier wake j) below in
    (
      no_later_trans _ (earlier wake (next_of j)) wake below2 both.0,
      ground (
        arith,
        no_later_trans (next_wake js (round wake j)) (earlier wake (next_of j)) (next_of j) below2
            both.1,
        rest,
      ),
    )

-- Some enabled job has this next run.
unfoldable pub IsNextOf : Option ℤ → List CronJob → Type 0
IsNextOf n [] = ⊥
IsNextOf n (j ∷ js) = (n ≡ next_of j) ⊎ IsNextOf n js

next_wake-one :
    (js : List CronJob) (wake : Option ℤ)
    → (next_wake js wake ≡ wake) ⊎ IsNextOf (next_wake js wake) js
unfolding next_wake IsNextOf
next_wake-one [] wake = inl refl
next_wake-one (j ∷ js) wake = elim (next_wake-one js (round wake j)) [
  | inr later ↦ inr (inr later)
  | inl same ↦ elim (earlier-one wake (next_of j)) [
    | inl e ↦ inl (same ∙ round-earlier wake j ∙ e)
    | inr e ↦ inr (inl (same ∙ round-earlier wake j ∙ e))
  ]
]

-- The time of getNextWakeMS is no later than the next run of any enabled job, and it is the next run
-- of one of them; there is none only if no enabled job has a next run.
pub get_next_wake_ms-first :
    (js : List CronJob)
    → (all (λ j. no_later (get_next_wake_ms js) (next_of j)) js ≡ true)
      × ((get_next_wake_ms js ≡ none) ⊎ IsNextOf (get_next_wake_ms js) js)
unfolding get_next_wake_ms
get_next_wake_ms-first js = ((next_wake-first js none).1, next_wake-one js none)

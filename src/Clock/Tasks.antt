-- ===== src/Clock/Tasks.antt =====
-- When the tasks run.
use ch32fun_wi_not_ap.Prelude.{
  inl, inr, ℕ, refl, ◌+◌, ◌<◌, ◌≢◌, ◌≡◌, ◌-◌, ◌%◌, arith, true, ◌↔◌, ==_iff, if◌then◌else◌, sym,
  ◌==◌, ◌∙◌, cong, false, Bool-cases, ltb, ◌^◌, ◌≤◌, ◌⊎◌,
}
use ch32fun_wi_not_ap.Clock.{Task, task_10ms, task_100ms, task_1s, task_10s, task_100s, is_run}

abbrev pub period : Task → ℕ
period task_10ms = 10
period task_100ms = 100
period task_1s = 1000
period task_10s = 10000
period task_100s = 100000

abbrev pub offset : Task → ℕ
offset task_10ms = 0
offset task_100ms = 5
offset task_1s = 10
offset task_10s = 20
offset task_100s = 30

pub is_run_iff : (t : Task) (ms : ℕ) → (is_run t ms ≡ true) ↔ (ms % period t ≡ offset t)
unfolding is_run
is_run_iff task_10ms ms = ==_iff (ms % 10) 0
is_run_iff task_100ms ms = (λ h. omega (arith, (==_iff _ 0).0 h), λ h. (==_iff _ 0).1 (omega arith))
is_run_iff task_1s ms = (λ h. omega (arith, (==_iff _ 0).0 h), λ h. (==_iff _ 0).1 (omega arith))
is_run_iff task_10s ms = (λ h. omega (arith, (==_iff _ 0).0 h), λ h. (==_iff _ 0).1 (omega arith))
is_run_iff task_100s ms = (λ h. omega (arith, (==_iff _ 0).0 h), λ h. (==_iff _ 0).1 (omega arith))

-- The first count from `ms` on at which a task runs.
abbrev pub wait : Task → ℕ → ℕ
wait t ms = (period t + offset t - ms % period t) % period t

meets : (t : Task) (ms : ℕ) → (ms + wait t ms) % period t ≡ offset t
meets task_10ms ms = omega arith
meets task_100ms ms = omega arith
meets task_1s ms = omega arith
meets task_10s ms = omega arith
meets task_100s ms = omega arith

soon : (t : Task) (ms : ℕ) → wait t ms < period t
soon task_10ms ms = omega arith
soon task_100ms ms = omega arith
soon task_1s ms = omega arith
soon task_10s ms = omega arith
soon task_100s ms = omega arith

alone : (t : Task) (ms j : ℕ) → j < period t → (ms + j) % period t ≡ offset t → j ≡ wait t ms
alone task_10ms ms j h e = omega arith
alone task_100ms ms j h e = omega arith
alone task_1s ms j h e = omega arith
alone task_10s ms j h e = omega arith
alone task_100s ms j h e = omega arith

-- The same for a word of 32 bits, which may run over before.
abbrev pub next_run : Task → ℕ → ℕ
next_run t ms = if ltb (ms + wait t ms) (2 ^ 32) then wait t ms else 2 ^ 32 - ms + offset t

next_run-meets :
    (t : Task) (ms : ℕ)
    → ms < 2 ^ 32
    → (next_run t ms < period t) × (((ms + next_run t ms) % 2 ^ 32) % period t ≡ offset t)
next_run-meets task_10ms ms h = ground arith
next_run-meets task_100ms ms h = ground arith
next_run-meets task_1s ms h = ground arith
next_run-meets task_10s ms h = ground arith
next_run-meets task_100s ms h = ground arith

-- After the word ran over, the count is less than the period and its own remainder.
over :
    (t : Task) (ms j : ℕ)
    → ms < 2 ^ 32
    → j < period t
    → 2 ^ 32 ≤ ms + j
    → ((ms + j) % 2 ^ 32) % period t ≡ offset t
    → ms + j ≡ 2 ^ 32 + offset t
over task_10ms ms j w h k e = omega arith
over task_100ms ms j w h k e = omega arith
over task_1s ms j w h k e = omega arith
over task_10s ms j w h k e = omega arith
over task_100s ms j w h k e = omega arith

only :
    (t : Task) (ms j : ℕ)
    → ms < 2 ^ 32
    → j < period t
    → ((ms + j) % 2 ^ 32) % period t ≡ offset t
    → (j ≡ wait t ms) ⊎ (ms + j ≡ 2 ^ 32 + offset t)
only t ms j w h e = elim (Bool-cases (ltb (ms + j) (2 ^ 32))) [
  | inl inside ↦
      let word : (ms + j) % 2 ^ 32 ≡ ms + j = ground arith in inl (alone t ms j h (rw word at e))
  | inr outside ↦ inr (over t ms j w h (ground arith) e)
]

-- From any count in the 32-bit word on, each task runs within the span of its period, the wrap of
-- the word included: it runs at a count that is less than a period away. At any count of that span
-- at which it runs, either the count is the first from the start with the task's remainder, or the
-- word ran over in the span and stands at the task's offset.
pub is_run-once :
    (t : Task) (ms j : ℕ)
    → ms < 2 ^ 32
    → j < period t
    → (next_run t ms < period t)
      × (is_run t ((ms + next_run t ms) % 2 ^ 32) ≡ true)
      × (is_run t ((ms + j) % 2 ^ 32) ≡ true → (j ≡ wait t ms) ⊎ (ms + j ≡ 2 ^ 32 + offset t))
is_run-once t ms j w h =
    let r = next_run-meets t ms w in
    (
      r.0,
      (is_run_iff t ((ms + next_run t ms) % 2 ^ 32)).1 r.1,
      λ e. only t ms j w h ((is_run_iff t ((ms + j) % 2 ^ 32)).0 e),
    )

-- All tasks but the shortest run at different hundredths.
hundredth : (t : Task) (ms : ℕ) → t ≢ task_10ms → ms % period t ≡ offset t → ms % 100 ≡ offset t
hundredth task_10ms ms h e = absurd (h refl)
hundredth task_100ms ms h e = omega arith
hundredth task_1s ms h e = omega arith
hundredth task_10s ms h e = omega arith
hundredth task_100s ms h e = omega arith

task_at : ℕ → Task
task_at o =
    if o == 0
    then task_10ms
    else if o == 5
    then task_100ms
    else if o == 10
    then task_1s
    else if o == 20
    then task_10s
    else task_100s

task_at-offset : (t : Task) → task_at (offset t) ≡ t
unfolding task_at
task_at-offset task_10ms = refl
task_at-offset task_100ms = refl
task_at-offset task_1s = refl
task_at-offset task_10s = refl
task_at-offset task_100s = refl

-- Of the tasks but the one of 10 ms, no two different ones run in the same millisecond.
is_run-apart :
    (t u : Task) (ms : ℕ)
    → t ≢ task_10ms
    → u ≢ task_10ms
    → t ≢ u
    → is_run t ms ≡ true
    → is_run u ms ≡ false
is_run-apart t u ms h k different e = elim (Bool-cases (is_run u ms)) [
  | inr f ↦ f
  | inl f ↦
      let a : ms % 100 ≡ offset t = hundredth t ms h ((is_run_iff t ms).0 e) in
      let b : ms % 100 ≡ offset u = hundredth u ms k ((is_run_iff u ms).0 f) in
      absurd (different (sym (task_at-offset t) ∙ cong task_at (sym a ∙ b) ∙ task_at-offset u))
]

-- ===== src/Clock/Examples.antt =====
-- The theorems on the clock at concrete counts.
use ch32fun_wi_not_ap.Prelude.{◌<◌, ◌≡◌, ◌+◌, false, true, ◌*◌, arith, ◌%◌, ◌^◌, ◌⊎◌}
use ch32fun_wi_not_ap.Clock.{Clock, is_due, count_ms, is_run, task_10ms}
use ch32fun_wi_not_ap.Clock.Tasks.{wait, period, is_run-once, offset, next_run}
use ch32fun_wi_not_ap.Clock.CatchUp.{catch_up, catch_up_lem, count_ms-wraps}

-- The word runs over between the count and the next run.
is_run-once_example :
    (next_run task_10ms 4294967291 < period task_10ms)
    × (is_run task_10ms ((4294967291 + next_run task_10ms 4294967291) % 2 ^ 32) ≡ true)
    × (is_run task_10ms ((4294967291 + 5) % 2 ^ 32) ≡ true
        → (5 ≡ wait task_10ms 4294967291) ⊎ (4294967291 + 5 ≡ 2 ^ 32 + offset task_10ms))
is_run-once_example = is_run-once task_10ms 4294967291 5 (omega arith) (omega arith)

-- Five milliseconds behind, at 6000 ticks each.
abbrev late : Clock
late = record { next_ms = 100000; ms_cnt = 16 }

catch_up_lem_example :
    let c' = catch_up 6000 130000 30000 late in
    (is_due 130000 c' ≡ false)
    × (c'.next_ms < 130000 + 6000)
    × (c'.next_ms + 16 * 6000 ≡ 100000 + c'.ms_cnt * 6000)
catch_up_lem_example =
    catch_up_lem 6000 130000 30000 late (omega arith) (omega arith) (omega arith) (omega arith)
      (omega arith)

-- The last millisecond before the word is full.
abbrev last : Clock
last = record { next_ms = 4294967000; ms_cnt = 715827 }

count_ms-wraps_example : is_due 4294967100 (count_ms 6000 last) ≡ true
count_ms-wraps_example =
    count_ms-wraps 6000 4294967100 last (omega arith) (omega arith) (omega arith) (omega arith)

-- ===== src/Clock.antt =====
-- The millisecond clock of the firmwares' main loops (usb_sfhip.c, iSLER_sfhip.c, eth_sfhip.c), and the
-- tasks that hang on it.
pub mod Tasks
pub mod CatchUp
pub mod Examples
use ch32fun_wi_not_ap.Prelude.{ℕ, Bool, ◌+◌, ltb, ◌%◌, ◌^◌, ◌==◌, ◌-◌}

-- `next_ms` and `ms_cnt`, two words of 32 bits.
pub record Clock : Type 0 where
  pub next_ms : ℕ
  pub ms_cnt : ℕ

-- `next_ms < funSysTick32()`
abbrev pub is_due : ℕ → Clock → Bool
is_due now c = ltb c.next_ms now

-- `next_ms += Ticks_from_Ms(1); ms_cnt++`
abbrev pub count_ms : ℕ → Clock → Clock
count_ms ticks_per_ms c = record {
  next_ms = (c.next_ms + ticks_per_ms) % 2 ^ 32;
  ms_cnt = (c.ms_cnt + 1) % 2 ^ 32;
}

pub data Task : Type 0 where
  task_10ms task_100ms task_1s task_10s task_100s : Task

-- `!((ms_cnt %period) -offset)`, the difference as a word.
abbrev pub is_at : ℕ → ℕ → ℕ → Bool
is_at period offset ms_cnt = (ms_cnt % period + 2 ^ 32 - offset) % 2 ^ 32 == 0

unfoldable pub is_run : Task → ℕ → Bool
is_run task_10ms ms_cnt = ms_cnt % 10 == 0
is_run task_100ms ms_cnt = is_at 100 5 ms_cnt
is_run task_1s ms_cnt = is_at 1000 10 ms_cnt
is_run task_10s ms_cnt = is_at 10000 20 ms_cnt
is_run task_100s ms_cnt = is_at 100000 30 ms_cnt

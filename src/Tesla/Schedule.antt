-- ===== src/Tesla/Schedule.antt =====
-- src/tesla/schedule.rs: the disclosure schedule and the receiver's accept test. Times are `u64`
-- nanoseconds; sums that the source leaves unchecked wrap modulo 2^64, as in a release build.
pub mod Safety
use safe_cast.Base.{
  ℕ, ◌+◌, ◌-◌, ◌/◌, ◌%◌, ◌^◌, ltb, leb, if◌then◌else◌, saturating_add, Exec, ret, assert, ◌>>=◌,
  ◌>>◌,
}

pub data IntervalCheck : Type 0 where
  safe unsafe_late : IntervalCheck

pub record TeslaSchedule : Type 0 where
  pub t0_ns : ℕ
  pub t_int_ns : ℕ
  pub d : ℕ
  pub n_chain : ℕ
  pub d_t_ns : ℕ
  pub g_max : ℕ

-- `TeslaSchedule::new`.
unfoldable pub new_schedule : ℕ → ℕ → ℕ → ℕ → ℕ → ℕ → Exec TeslaSchedule
new_schedule t0_ns t_int_ns d n_chain d_t_ns g_max = do
  assert (ltb 0 t_int_ns)
  assert (leb 2 d)
  assert (leb 1 n_chain)
  assert (leb 1 g_max)
  ret (record {
    t0_ns = t0_ns;
    t_int_ns = t_int_ns;
    d = d;
    n_chain = n_chain;
    d_t_ns = d_t_ns;
    g_max = g_max;
  })

unfoldable pub interval_of : TeslaSchedule → ℕ → Exec ℕ
interval_of s send_ns = do
  assert (leb s.t0_ns send_ns)
  let i = (1 + (send_ns - s.t0_ns) / s.t_int_ns) % 2 ^ 64
  assert (leb i s.n_chain)
  ret (i % 2 ^ 32)

-- `saturating_sub` on `u32` is the subtraction of the natural numbers.
unfoldable pub disclosed_index : TeslaSchedule → ℕ → ℕ
disclosed_index s interval = interval - s.d

unfoldable pub sender_upper_bound : TeslaSchedule → ℕ → ℕ
sender_upper_bound s arrival_ns =
    (1 + (saturating_add arrival_ns s.d_t_ns - s.t0_ns) / s.t_int_ns) % 2 ^ 64

unfoldable pub accepts : TeslaSchedule → ℕ → ℕ → IntervalCheck
accepts s arrival_ns interval =
    if ltb (sender_upper_bound s arrival_ns) (interval + s.d) then safe else unsafe_late

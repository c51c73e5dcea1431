-- ===== src/Tesla/Schedule/Safety.antt =====
-- The security condition of src/tesla/schedule.rs: what a verdict of the accept test says of the
-- keys that the sender can have disclosed by then.
use safe_cast.Base.{
  ℕ, ◌+◌, ◌-◌, ◌*◌, ◌/◌, ◌%◌, ◌^◌, ◌≤◌, ◌<◌, ◌≡◌, ◌∙◌, ap, arith, saturating_add, ret,
}
use native.Mathlib.Nat.{
  div-lt_iff_lt-mul, le-div_iff_mul-le, mod-eq_of_lt, div-mul-le_self, lt-div-mul-add,
}
use safe_cast.Tesla.Schedule.{
  TeslaSchedule, safe, unsafe_late, interval_of, disclosed_index, sender_upper_bound, accepts,
}

-- The ranges of the fields' types and the asserts of `TeslaSchedule::new`, for an interval of more
-- than one nanosecond.
pub record IsValid (s : TeslaSchedule) : Type 0 where
  pub longer : 1 < s.t_int_ns
  pub delay : 2 ≤ s.d
  pub media : 1 ≤ s.n_chain
  pub cap : 1 ≤ s.g_max
  pub chain_u32 : s.n_chain < 2 ^ 32
  pub t0_u64 : s.t0_ns < 2 ^ 64

div_mono : (a b t : ℕ) → 0 < t → a ≤ b → a / t ≤ b / t
div_mono a b t h le = (le-div_iff_mul-le h).1 (omega (arith, div-mul-le_self a t))

div_half : (a t : ℕ) → 1 < t → a / t + a / t ≤ a
div_half a t h = grind (arith, div-mul-le_self a t)

-- With more than a nanosecond to an interval, no interval number wraps.
no_wrap : (a t : ℕ) → 1 < t → a < 2 ^ 64 → (1 + a / t) % 2 ^ 64 ≡ 1 + a / t
no_wrap a t h lt = mod-eq_of_lt (omega (arith, div_half a t h))

pub upper_bound_lem :
    {s : TeslaSchedule} (arrival : ℕ)
    → IsValid s
    → sender_upper_bound s arrival ≡ 1 + (saturating_add arrival s.d_t_ns - s.t0_ns) / s.t_int_ns
unfolding sender_upper_bound
upper_bound_lem {s} arrival v =
    no_wrap (saturating_add arrival s.d_t_ns - s.t0_ns) s.t_int_ns v.longer (omega arith)

pub interval_of_lem :
    {s : TeslaSchedule} {send j : ℕ}
    → IsValid s
    → send < 2 ^ 64
    → interval_of s send ≡ ret j
    → (s.t0_ns ≤ send) × (j ≡ 1 + (send - s.t0_ns) / s.t_int_ns) × (j ≤ s.n_chain)
unfolding interval_of
interval_of_lem {s} {send} {j} v lt e = ground (arith, no_wrap (send - s.t0_ns) s.t_int_ns v.longer)

lt→safe :
    (s : TeslaSchedule) (arrival i : ℕ)
    → sender_upper_bound s arrival < i + s.d
    → accepts s arrival i ≡ safe
unfolding accepts
lt→safe s arrival i h = ground arith

safe→lt :
    (s : TeslaSchedule) (arrival i : ℕ)
    → accepts s arrival i ≡ safe
    → sender_upper_bound s arrival < i + s.d
unfolding accepts
safe→lt s arrival i h = ground arith

late→le :
    (s : TeslaSchedule) (arrival i : ℕ)
    → accepts s arrival i ≡ unsafe_late
    → i + s.d ≤ sender_upper_bound s arrival
unfolding accepts
late→le s arrival i h = ground arith

-- The condition that TESLA rests on, for a valid schedule. If a packet that claims an interval `i` of at
-- least 1 passes the accept test, then no packet that the sender can have sent by then, its clock being
-- at most `d_t_ns` ahead of the receiver's, discloses the key of interval `i` or a later one.
pub accepts_secret :
    {s : TeslaSchedule} (arrival i send j : ℕ)
    → IsValid s
    → 1 ≤ i
    → accepts s arrival i ≡ safe
    → send < 2 ^ 64
    → send ≤ arrival + s.d_t_ns
    → interval_of s send ≡ ret j
    → disclosed_index s j < i
unfolding disclosed_index
accepts_secret {s} arrival i send j v pos ok lt clock at = omega (
  arith,
  safe→lt s arrival i ok,
  upper_bound_lem arrival v,
  interval_of_lem v lt at,
  div_mono (send - s.t0_ns) (saturating_add arrival s.d_t_ns - s.t0_ns) s.t_int_ns (omega arith)
      (omega arith),
)

pub interval_of_returns :
    {s : TeslaSchedule} (send : ℕ)
    → IsValid s
    → send < 2 ^ 64
    → s.t0_ns ≤ send
    → 1 + (send - s.t0_ns) / s.t_int_ns ≤ s.n_chain
    → interval_of s send ≡ ret (1 + (send - s.t0_ns) / s.t_int_ns)
unfolding interval_of
interval_of_returns {s} send v lt from to = ground (
  arith,
  no_wrap (send - s.t0_ns) s.t_int_ns v.longer,
  mod-eq_of_lt {n = 1 + (send - s.t0_ns) / s.t_int_ns} {m = 2 ^ 32},
)

-- The test refuses nothing without cause, for a valid schedule. If a packet that claims interval `i`
-- fails it while the chain is not yet exhausted, then at some clock reading that the sender can have by
-- then it discloses the key of interval `i` or a later one.
pub late_disclosed :
    {s : TeslaSchedule} (arrival i : ℕ)
    → IsValid s
    → accepts s arrival i ≡ unsafe_late
    → sender_upper_bound s arrival ≤ s.n_chain
    → (send : ℕ) × (j : ℕ) × (send ≤ arrival + s.d_t_ns)
      × (interval_of s send ≡ ret j)
      × (i ≤ disclosed_index s j)
unfolding disclosed_index
late_disclosed {s} arrival i v late within = (
  clock,
  1 + (clock - s.t0_ns) / s.t_int_ns,
  omega arith,
  interval_of_returns clock v (omega arith) started (omega (arith, bound)),
  omega (arith, bound, late→le s arrival i late),
)
  where
    clock : ℕ
    clock = saturating_add arrival s.d_t_ns

    bound : sender_upper_bound s arrival ≡ 1 + (clock - s.t0_ns) / s.t_int_ns
    bound = upper_bound_lem arrival v

    started : s.t0_ns ≤ clock
    started = grind (arith, bound, late→le s arrival i late, v.delay)

spread : (q d t : ℕ) → 2 ≤ d → (q + d) * t ≡ q * t + t + (d - 1) * t
spread q d t h = ap (λ e. (q + e) * t) (let e : d ≡ 1 + (d - 1) = omega arith in e) ∙ omega arith

-- Delivery in time is never refused, for a valid schedule. A packet sent in interval `i` that reaches
-- the receiver with at most `(d - 1) * t_int - d_t` of delay, by the receiver's clock, passes the accept
-- test.
pub travel_budget :
    {s : TeslaSchedule} (send arrival i delay : ℕ)
    → IsValid s
    → send < 2 ^ 64
    → interval_of s send ≡ ret i
    → arrival ≤ send + delay
    → delay + s.d_t_ns ≤ (s.d - 1) * s.t_int_ns
    → accepts s arrival i ≡ safe
travel_budget {s} send arrival i delay v lt at late budget =
    lt→safe s arrival i (omega (arith, upper_bound_lem arrival v, sent, quotient))
  where
    q : ℕ
    q = (send - s.t0_ns) / s.t_int_ns

    sent : (s.t0_ns ≤ send) × (i ≡ 1 + q) × (i ≤ s.n_chain)
    sent = interval_of_lem v lt at

    spent : saturating_add arrival s.d_t_ns - s.t0_ns < (q + s.d) * s.t_int_ns
    spent = omega (
      arith,
      spread q s.d s.t_int_ns v.delay,
      lt-div-mul-add {a = send - s.t0_ns} {b = s.t_int_ns} (omega arith),
      sent.0,
    )

    quotient : (saturating_add arrival s.d_t_ns - s.t0_ns) / s.t_int_ns < q + s.d
    quotient = (div-lt_iff_lt-mul (omega arith)).1 spent

-- ===== src/Receiver/IndexRecovery.antt =====
-- src/receiver/index_recovery.rs: from a 16-bit sequence number to a position in the stream.
pub mod Nearest
use safe_cast.Base.{ℕ, ◌+◌, ◌-◌, ◌*◌, ◌/◌, ◌%◌, ◌^◌, Option, none, some, ltb, if◌then◌else◌}

pub record IndexRecovery : Type 0 where
  pub highest : Option ℕ

abbrev pub fresh : IndexRecovery
fresh = record { highest = none }

-- The rollover that the sequence number is put into. `s_l` and `seq` are 16-bit values, so the
-- signed differences of the source are compared by moving a term across.
unfoldable pub rollover : ℕ → ℕ → ℕ → ℕ
rollover roc s_l seq =
    if ltb s_l 32768
    then if ltb (s_l + 32768) seq then roc - 1 else roc
    else if ltb seq (s_l - 32768)
    then roc + 1
    else roc

unfoldable pub recover_from : Option ℕ → ℕ → ℕ
unfolding rollover
recover_from none seq = seq
recover_from (some highest) seq =
    rollover (highest / 2 ^ 16) (highest % 2 ^ 16) seq * 2 ^ 16 % 2 ^ 64 + seq

unfoldable pub recover : IndexRecovery → ℕ → ℕ
unfolding recover_from
recover r seq = recover_from r.highest seq

unfoldable pub raise : Option ℕ → ℕ → Option ℕ
raise none index = some index
raise (some h) index = if ltb h index then some index else some h

unfoldable pub update : IndexRecovery → ℕ → IndexRecovery
unfolding raise
update r index = record { highest = raise r.highest index }

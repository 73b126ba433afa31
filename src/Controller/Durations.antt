-- ===== src/Controller/Durations.antt =====
-- Durations and differences of times on 64 bits, as virtualmachine_controller.go computes them with
-- Go's time.
use vcf_salt_operator.Prelude.{ℕ, ◌-◌, leb, if◌then◌else◌}
use vcf_salt_operator.Prelude.Int.{ℤ, pos, negsuc, ◌-ℤ◌}

abbrev pub int64_max : ℕ
int64_max = 9223372036854775807

-- The signed 64-bit integer of a sum below 2 ^ 64.
abbrev pub wrap_int64 : ℕ → ℤ
wrap_int64 n = if leb n int64_max then pos n else negsuc (18446744073709551615 - n)

-- `time.Time.Sub` saturates.
abbrev pub sub_time : ℕ → ℕ → ℤ
sub_time now t =
    if leb t now
    then pos (if leb (now - t) int64_max then now - t else int64_max)
    else negsuc (if leb (t - now) int64_max then t - now - 1 else int64_max)

-- The signed 64-bit integer of an integer between -(2 ^ 64) and 2 ^ 64.
abbrev pub wrap_ℤ : ℤ → ℤ
wrap_ℤ (pos n) = wrap_int64 n
wrap_ℤ (negsuc n) = if leb n int64_max then negsuc n else pos (18446744073709551615 - n)

-- The difference of two durations.
unfoldable pub sub_duration : ℤ → ℤ → ℤ
sub_duration a b = wrap_ℤ (a -ℤ b)

-- ===== src/Controller/Enforcement/Schedule.antt =====
-- When the enforcement is due.
use vcf_salt_operator.Prelude.{ℕ, ◌+◌, ◌-◌, ◌*◌, ◌/◌, ◌≤◌, ◌<◌, String, true, false, ◌≡◌}
use vcf_salt_operator.Prelude.{arith, str_eq, ◌==◌, ◌||◌, if◌then◌else◌, leb, Bool-cases, inl, inr}
use vcf_salt_operator.Prelude.Int.{pos, ◌-ℤ◌}
use vcf_salt_operator.Controller.Durations.{int64_max, sub_duration}
use vcf_salt_operator.Controller.World.{Env}
use vcf_salt_operator.Controller.Enforcement.{enforcement_jitter, due_after}

module _ (env : Env) (uid : String) (interval : ℕ) where
  -- The jitter adds at most a tenth of the interval.
  pub enforcement_jitter_bound : enforcement_jitter env uid interval * 10 ≤ interval
  unfolding enforcement_jitter
  enforcement_jitter_bound = elim (Bool-cases (((interval / 10) == 0) || str_eq uid "")) [
    | inl none_left ↦ rw none_left (omega arith)
    | inr spread ↦ rw spread (ground arith)
  ]

  -- The interval with its jitter.
  abbrev pub effective : ℕ
  effective = interval + enforcement_jitter env uid interval

  -- Where the interval with its jitter fits 64 bits, the enforcement is due exactly when that
  -- much time has passed since the last highstate, and before then the wait is the time left.
  pub due_after_exact :
      (last now : ℕ)
      → effective ≤ int64_max
      → last ≤ now
      → now ≤ last + int64_max
      → due_after env interval uid last now ≡ (
          if leb (last + effective) now
          then record { due = true; wait = pos 0 }
          else record { due = false; wait = pos (last + effective - now) })
  unfolding due_after sub_duration ◌-ℤ◌
  due_after_exact last now small past recent = ground arith

  -- Where the sum of interval and jitter overflows, the enforcement is due at every reconcile,
  -- however recent the last highstate is.
  pub due_after_overflow :
      (last now : ℕ)
      → int64_max < effective
      → interval ≤ int64_max
      → last ≤ now
      → (due_after env interval uid last now).due ≡ true
  unfolding due_after
  due_after_overflow last now large fits past = ground (arith, enforcement_jitter_bound)

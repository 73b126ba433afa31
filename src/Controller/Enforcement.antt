-- ===== src/Controller/Enforcement.antt =====
-- virtualmachine_controller.go, `parseDurationOrDefault`, `enforcementJitter` and
-- `enforcementDue`: durations, and when a machine's state is enforced again.
pub mod Schedule
use vcf_salt_operator.Prelude.{ℕ, ◌+◌, ◌-◌, ◌/◌, ◌%◌, ◌^◌, String, Bool, true, false, ◌&&◌, ◌||◌}
use vcf_salt_operator.Prelude.{Option, none, some, str_eq, ltb, leb, ◌==◌, if◌then◌else◌}
use vcf_salt_operator.Prelude.Int.{ℤ, pos, negsuc, ◌-ℤ◌, ltb_ℤ, leb_ℤ, sub_ℕ}
use vcf_salt_operator.Controller.Durations.{wrap_int64, sub_time, sub_duration}
use vcf_salt_operator.Controller.World.{Env}

-- Whether the enforcement is due, and otherwise the time to wait, 0 if there is none to do.
pub record Due : Type 0 where
  pub due : Bool
  pub wait : ℤ

module _ (env : Env) where
  abbrev pub or_default : ℤ → Option ℤ → ℤ
  or_default fallback none = fallback
  or_default fallback (some d) = d

  unfoldable pub parse_duration_or_default : String → ℤ → ℤ
  parse_duration_or_default s fallback =
      if str_eq s "" then fallback else or_default fallback (env.parse_duration s)

  -- `enforcementJitter`, for an interval that is not negative.
  unfoldable pub enforcement_jitter : String → ℕ → ℕ
  enforcement_jitter uid interval =
      if ((interval / 10) == 0) || str_eq uid "" then 0 else env.sha256_u64 uid % (interval / 10)

  abbrev pub not_scheduled : Due
  not_scheduled = record { due = false; wait = pos 0 }

  -- The two branches at the end, for an interval above 0.
  unfoldable pub due_after : ℕ → String → ℕ → ℕ → Due
  due_after interval uid last now =
      let effective : ℤ = wrap_int64 (interval + enforcement_jitter uid interval) in
      let elapsed : ℤ = sub_time now last in
      if leb_ℤ effective elapsed
      then record { due = true; wait = pos 0 }
      else record { due = false; wait = sub_duration effective elapsed }

  abbrev pub due_from : ℕ → String → Option ℕ → ℕ → Due
  due_from interval uid none now = not_scheduled
  due_from interval uid (some last) now = due_after interval uid last now

  abbrev pub due_every : Option ℤ → String → String → ℕ → Due
  due_every none uid last_highstate now = not_scheduled
  due_every (some (negsuc n)) uid last_highstate now = not_scheduled
  due_every (some (pos n)) uid last_highstate now =
      if (n == 0) || str_eq last_highstate ""
      then not_scheduled
      else due_from n uid (env.parse_time last_highstate) now

  unfoldable pub enforcement_due : String → String → String → ℕ → Due
  enforcement_due enforcement_interval uid last_highstate now =
      if str_eq enforcement_interval ""
      then not_scheduled
      else due_every (env.parse_duration enforcement_interval) uid last_highstate now

-- ===== src/Tests/Starts.antt =====
-- Starts of the operator and of the scavenger.
use vcf_salt_operator.Prelude.{true, false, not, ◌≡◌, ◌⊎◌, refl, inl, inr, [], none, some, str_eq}
use vcf_salt_operator.Prelude.Lists.{any, In}
use vcf_salt_operator.Kube.Error.{err, failure}
use vcf_salt_operator.Enrolment.{Enrolment, Namespace, matches, enabled}
use vcf_salt_operator.CommaList.{split_list}
use vcf_salt_operator.Startup.{
  Flags, Platform, enrolment_controller, release_task, enrolment_of, start, key_acceptance_valid,
}
use vcf_salt_operator.Startup.Options.{default_server_flags}
use vcf_salt_operator.Startup.Exclusion.{own_namespace_excluded}
use vcf_salt_operator.Startup.Tasks.{enrols, releases, start_one_task}
use vcf_salt_operator.Scavenger.{matches_any}
use vcf_salt_operator.Scavenger.Run.{ScavengeFlags, Tools, run, run_spares}
use vcf_salt_operator.Tests.Fixtures.{default_ref, ascii, secrets}
use vcf_salt_operator.Tests.Scavenges.{outside}

-- Texts have no spaces here, and all calls succeed.
abbrev platform : Platform
platform = record {
  parse_selector = λ s. err (failure s);
  trim_space = λ s. s;
  new_manager = λ o. none;
  unicode = ascii;
  read_secret = secrets;
  add_config_controller = none;
  add_vm_controller = none;
  add_enrolment_controller = none;
  add_release = none;
  add_healthz_check = none;
  add_readyz_check = none;
  start_manager = none;
}

abbrev all_flags : Flags
all_flags = record {
  default_connection = default_ref;
  enrol_namespaces = "";
  enrol_selector = "";
  enrol_all = true;
  enrol_exclude = "kube-,svc-";
  enrol_key_acceptance = "discovery";
  max_concurrent_reconciles = 5;
  servers = default_server_flags;
}

abbrev off_flags : Flags
off_flags = record all_flags { enrol_all = false }

abbrev own_namespace : Namespace
own_namespace = record { name = "operator"; labels = []; deleting = false }

abbrev enrolment : Enrolment
enrolment = enrolment_of platform all_flags none

enrolled : In (enrolment_controller enrolment) (start platform all_flags).actions
unfolding start enrolment_of split_list enabled key_acceptance_valid
enrolled = inr (inr (inl refl))

own_namespace_excluded_example : matches enrolment own_namespace ≡ false
own_namespace_excluded_example =
    own_namespace_excluded platform all_flags enrolment own_namespace enrolled refl refl

finishes : (start platform off_flags).finished ≡ true
unfolding start enrolment_of split_list enabled key_acceptance_valid
finishes = refl

start_one_task_example :
    (any releases (start platform off_flags).actions
      ≡ not (any enrols (start platform off_flags).actions))
    × (In release_task (start platform off_flags).actions
        → (split_list platform.trim_space off_flags.enrol_namespaces ≡ [])
          × (off_flags.enrol_all ≡ false))
start_one_task_example = start_one_task platform off_flags finishes

abbrev tools : Tools
tools = record { trim_space = λ s. s; bad_pattern = λ p. str_eq p "["; build_client = none }

abbrev scavenge_flags : ScavengeFlags
scavenge_flags = record {
  dry_run = none;
  default_connection = default_ref;
  exclude_minions = "saltmaster,infra";
}

run_spares_example :
    (any
        (λ x.
          matches_any outside (split_list tools.trim_space scavenge_flags.exclude_minions) x.key)
        (run outside tools scavenge_flags).calls
      ≡ false)
    × (((run outside tools scavenge_flags).calls ≡ []) ⊎ (scavenge_flags.dry_run ≡ some false))
run_spares_example = run_spares outside tools scavenge_flags

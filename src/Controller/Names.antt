-- ===== src/Controller/Names.antt =====
-- The constants of virtualmachine_controller.go and enrolment_controller.go.
use vcf_salt_operator.Prelude.{ℕ, String, List, [], ◌∷◌}
use vcf_salt_operator.Prelude.Int.{ℤ, pos}

-- Durations, in nanoseconds.
abbrev pub second : ℕ
second = 1000000000

abbrev pub minute : ℕ
minute = 60000000000

abbrev pub min_master_silence : ℤ
min_master_silence = pos minute

abbrev pub post_accept_delay : ℤ
post_accept_delay = pos 30000000000

abbrev pub max_bootstrap_duration : ℤ
max_bootstrap_duration = pos 600000000000

abbrev pub default_requeue_interval : ℤ
default_requeue_interval = pos 30000000000

abbrev pub default_accept_timeout : ℤ
default_accept_timeout = pos 600000000000

abbrev pub salt_client_cache_ttl : ℕ
salt_client_cache_ttl = 1200000000000

abbrev pub annotation_managed : String
annotation_managed = "salt.vcf.io/managed"

abbrev pub annotation_key_status : String
annotation_key_status = "salt.vcf.io/key-status"

abbrev pub annotation_minion_id : String
annotation_minion_id = "salt.vcf.io/minion-id"

abbrev pub annotation_match_method : String
annotation_match_method = "salt.vcf.io/match-method"

abbrev pub annotation_salt_status : String
annotation_salt_status = "salt.vcf.io/salt-status"

abbrev pub annotation_ready : String
annotation_ready = "salt.vcf.io/ready"

abbrev pub annotation_highstate_jid : String
annotation_highstate_jid = "salt.vcf.io/highstate-jid"

abbrev pub annotation_highstate_status : String
annotation_highstate_status = "salt.vcf.io/highstate-status"

abbrev pub annotation_highstate_time : String
annotation_highstate_time = "salt.vcf.io/highstate-time"

abbrev pub annotation_roles : String
annotation_roles = "salt.vcf.io/roles"

abbrev pub annotation_roles_hash : String
annotation_roles_hash = "salt.vcf.io/roles-hash"

abbrev pub annotation_accepted_at : String
annotation_accepted_at = "salt.vcf.io/accepted-at"

abbrev pub annotation_key_cleared : String
annotation_key_cleared = "salt.vcf.io/key-cleared"

abbrev pub annotation_highstate_failed_count : String
annotation_highstate_failed_count = "salt.vcf.io/highstate-failed-count"

abbrev pub annotation_highstate_failed_states : String
annotation_highstate_failed_states = "salt.vcf.io/highstate-failed-states"

abbrev pub annotation_retry_request : String
annotation_retry_request = "salt.vcf.io/retry-request"

abbrev pub annotation_retry_handled : String
annotation_retry_handled = "salt.vcf.io/retry-handled"

abbrev pub annotation_bulk_retry_handled : String
annotation_bulk_retry_handled = "salt.vcf.io/bulk-retry-handled"

abbrev pub salt_finalizer : String
salt_finalizer = "salt.vcf.io/cleanup"

abbrev pub event_master_silent : String
event_master_silent = "SaltMasterSilent"

abbrev pub intent_hash_version : String
intent_hash_version = "v2:"

abbrev pub failed_status_prefix : String
failed_status_prefix = "Failed/"

abbrev pub salt_status_ready : String
salt_status_ready = "Ready"

abbrev pub salt_status_highstate_dispatched : String
salt_status_highstate_dispatched = "HighstateDispatched"

abbrev pub key_status_accepted : String
key_status_accepted = "Accepted"

abbrev pub key_status_failed : String
key_status_failed = "Failed"

abbrev pub key_status_deleted : String
key_status_deleted = "Deleted"

abbrev pub key_status_preseeded : String
key_status_preseeded = "Preseeded"

abbrev pub match_method_preseed : String
match_method_preseed = "preseed"

abbrev pub bootstrap_secret_suffix : String
bootstrap_secret_suffix = "-salt-bootstrap"

abbrev pub bootstrap_key_cleared : String
bootstrap_key_cleared = "cleared"

abbrev pub guest_signal_key : String
guest_signal_key = "salt-key-written"

abbrev pub annotation_true : String
annotation_true = "true"

abbrev pub annotation_false : String
annotation_false = "false"

abbrev pub vm_backup_version_annotation : String
vm_backup_version_annotation = "vmoperator.vmware.com/backup-version"

abbrev pub vm_conversion_annotation : String
vm_conversion_annotation = "vmoperator.vmware.com/conversion"

abbrev pub vm_backup_condition : String
vm_backup_condition = "VirtualMachineBackupUpToDate"

abbrev pub vm_condition_ready : String
vm_condition_ready = "Ready"

abbrev pub vm_condition_created : String
vm_condition_created = "VirtualMachineCreated"

abbrev pub intent_prefix : String
intent_prefix = "salt.vcf.io/"

abbrev pub enrolled_config_name : String
enrolled_config_name = "salt-config"

abbrev pub label_managed_by : String
label_managed_by = "salt.vcf.io/managed-by"

abbrev pub managed_by_operator : String
managed_by_operator = "vcf-salt-operator"

-- `nonIntentAnnotations`
abbrev pub non_intent_annotations : List String
non_intent_annotations =
    annotation_key_status ∷ annotation_minion_id ∷ annotation_match_method ∷ annotation_salt_status
    ∷ annotation_ready ∷ annotation_highstate_jid ∷ annotation_highstate_status
    ∷ annotation_highstate_time ∷ annotation_roles_hash ∷ annotation_accepted_at
    ∷ annotation_key_cleared ∷ annotation_highstate_failed_count
    ∷ annotation_highstate_failed_states ∷ annotation_retry_handled ∷ annotation_bulk_retry_handled
    ∷ annotation_retry_request ∷ []

-- ===== src/Kube.antt =====
-- The Kubernetes objects that the program reads and writes (api/v1alpha1 and the fields of a
-- VirtualMachine that the controllers look at), and the errors of the calls.
pub mod Error
use vcf_salt_operator.Prelude.{ℕ, String, Bool, List, Option}
use vcf_salt_operator.Prelude.Dict.{Dict}

-- A value of an unstructured list: a map, of which the members that are texts are kept, or
-- anything else.
pub data Object : Type 0 where
  fields : Dict String → Object
  other : Object

-- `unstructured.Unstructured` of kind VirtualMachine. `deleting` says that the deletion timestamp
-- is set; a nested text that is missing is empty, as `unstructured.NestedString` gives it.
pub record Vm : Type 0 where
  pub name : String
  pub namespace : String
  pub uid : String
  pub annotations : Dict String
  pub labels : Dict String
  pub finalizers : List String
  pub deleting : Bool
  pub phase : String  -- status.phase
  pub power_state : String  -- status.powerState
  pub primary_ip : String  -- status.network.primaryIP4
  pub guest_info : List Object  -- spec.readinessProbe.guestInfo
  pub conditions : List Object  -- status.conditions

-- `SaltKeyConfigSpec`. A label selector is a text here, compiled by the library.
pub record Spec : Type 0 where
  pub raas_url : String
  pub credentials_secret : String
  pub key_acceptance : String
  pub accept_timeout : String
  pub requeue_interval : String
  pub master_id : String
  pub skip_tls_verify : Bool
  pub vm_selector : Option String
  pub retry_token : String
  pub enforcement_interval : String

-- `metav1.Condition`, without its times and its message.
pub record Condition : Type 0 where
  pub kind : String
  pub status : String
  pub reason : String
  pub observed_generation : ℕ

-- `SaltKeyConfig`, its metadata and its status.
pub record SaltKeyConfig : Type 0 where
  pub name : String
  pub namespace : String
  pub resource_version : String
  pub generation : ℕ
  pub labels : Dict String
  pub spec : Spec
  pub conditions : List Condition
  pub observed_generation : ℕ

abbrev pub key_acceptance_discovery : String
key_acceptance_discovery = "discovery"

abbrev pub key_acceptance_preseed : String
key_acceptance_preseed = "preseed"

-- ===== src/Workload/Spec.antt =====
-- What is to run: the specifications of crates/picloud-domain/src/workload.rs and `WorkloadSpec` of
-- traits.rs.
use picloud.Prelude.{ℕ, Bool, true, false, Option, List}
use picloud.Prelude.Equality.{nat_eq, list_eq}
use picloud.Prelude.HashMap.{HashMap}
use picloud.Prelude.Texts.{Text}
use picloud.Workload.Limits.{ResourceLimits}

pub data RestartPolicy : Type 0 where
  always : RestartPolicy
  -- the most retries
  on_failure : ℕ → RestartPolicy
  never : RestartPolicy

pub data EnvValue : Type 0 where
  literal secret : Text → EnvValue

pub record VolumeMount : Type 0 where
  pub volume : Text
  pub path : Text
  pub read_only : Bool

pub record BinarySpec : Type 0 where
  pub executable : Text
  pub args : List Text
  pub identity : Text
  pub resources : ResourceLimits
  pub mounts : List VolumeMount
  pub env : HashMap Text EnvValue
  pub restart_policy : RestartPolicy
  pub product_version : Option Text

-- The ports and the health check of a container are handed to its runtime and left out.
pub record ContainerSpec : Type 0 where
  pub image : Text
  pub identity : Text
  pub resources : ResourceLimits
  pub mounts : List VolumeMount
  pub env : HashMap Text EnvValue
  pub restart_policy : RestartPolicy
  pub product_version : Option Text

pub data WorkloadSpec : Type 0 where
  binary : BinarySpec → WorkloadSpec
  container : ContainerSpec → WorkloadSpec

abbrev pub resources_of : WorkloadSpec → ResourceLimits
resources_of (binary s) = s.resources
resources_of (container s) = s.resources

abbrev pub restart_policy_of : WorkloadSpec → RestartPolicy
restart_policy_of (binary s) = s.restart_policy
restart_policy_of (container s) = s.restart_policy

abbrev pub is_container : WorkloadSpec → Bool
is_container (binary s) = false
is_container (container s) = true

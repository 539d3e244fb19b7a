-- ===== src/Domain/Error.antt =====
-- crates/picloud-domain/src/error.rs: the error type of all domain operations. A reason that the
-- source formats for a reader is a constructor of `Reason` here, one for each place that fails.
use picloud.Prelude.{ℕ, List}
use picloud.Prelude.Texts.{Text}

pub data Reason : Type 0 where
  -- event log
  serialize_failed write_failed deserialize_failed invalid_discard_count replication_failed : Reason
  -- event routing
  no_product payload_not_serialized append_failed : Reason
  -- cluster
  raft_rejected last_voter empty_voter_set : Reason
  cluster_id_mismatch ca_fingerprint_mismatch identity_not_initialized : Reason
  -- enrollment
  token_not_found token_used token_expired token_required token_for_other_node : Reason
  -- registry
  digest_mismatch blob_io_failed manifest_io_failed : Reason
  -- identity
  serialize_claims_failed unknown_challenge wrong_challenge_kind challenge_expired : Reason
  invalid_public_key no_passkeys unknown_credential authenticator_data_required : Reason
  invalid_client_data invalid_signature_encoding unsupported_public_key : Reason
  wrong_key_type missing_x missing_y coordinate_size invalid_der_signature : Reason
  signature_mismatch invalid_enrollment_token enrollment_token_spent : Reason
  unknown_device_code device_code_expired : Reason
  no_m2m_permission m2m_scope_not_granted scope_not_registered : Reason
  -- storage and workloads
  volume_io_failed snapshot_io_failed : Reason
  cpu_below_minimum cpu_above_maximum memory_below_minimum memory_above_maximum : Reason
  cannot_cordon cannot_uncordon spawn_failed : Reason

pub data PiCloudError : Type 0 where
  resource_not_found : Text → PiCloudError
  resource_already_exists : Text → PiCloudError
  resource_validation_failed : List Text → PiCloudError
  unauthenticated : PiCloudError
  -- the identity and the permission
  unauthorized : Text → Text → PiCloudError
  permission_denied : Reason → PiCloudError
  passkey_challenge_failed : Reason → PiCloudError
  -- requested and available GB
  insufficient_capacity : ℕ → ℕ → PiCloudError
  workload_start_failed : Reason → PiCloudError
  invalid_resource_limits : List Reason → PiCloudError
  node_join_rejected : Reason → PiCloudError
  cluster_already_initialized : ℕ → PiCloudError
  voter_config_change_failed : Reason → PiCloudError
  not_leader : PiCloudError
  enrollment_failed : Reason → PiCloudError
  image_not_found : Text → Text → PiCloudError
  blob_not_found : Text → PiCloudError
  registry_error : Reason → PiCloudError
  capability_unfulfilled : Text → Text → PiCloudError
  event_routing_failed : Text → Reason → PiCloudError
  internal : Reason → PiCloudError

-- `Result<T, PiCloudError>`.
pub data Result {ℓ} (A : Type ℓ) : Type ℓ where
  ok : A → Result A
  err : PiCloudError → Result A

infixl 5 ◌>>=◌
abbrev pub ◌>>=◌ {ℓ κ} : {A : Type ℓ} {B : Type κ} → Result A → (A → Result B) → Result B
ok a >>= f = f a
err e >>= f = err e

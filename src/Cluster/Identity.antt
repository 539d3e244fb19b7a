-- ===== src/Cluster/Identity.antt =====
-- `InMemoryClusterIdentityStore` of crates/picloud-cluster/src/implementation.rs. The lock is held
-- for the whole of each call.
use picloud.Prelude.{
  ℕ, ◌≡◌, ◌↔◌, refl, Option, none, some, List, if◌then◌else◌, ◌!=◌, arith, ==_iff,
}
use picloud.Prelude.Equality.{nat_eq, list_eq}
use picloud.Prelude.Texts.{Text}
use picloud.Domain.Error.{
  Result, ok, err, cluster_already_initialized, internal, node_join_rejected, cluster_id_mismatch,
  ca_fingerprint_mismatch, identity_not_initialized,
}
use picloud.Domain.Events.{Uuid}

pub data EnrollmentMode : Type 0 where
  auto token : EnrollmentMode

pub record ClusterIdentity : Type 0 where
  pub cluster_id : Uuid
  pub domain : Text
  pub created_at : ℕ
  pub ca_fingerprint : Text
  pub enrollment_mode : EnrollmentMode

abbrev IdentityStore : Type 0
IdentityStore = Option ClusterIdentity

unfoldable initialize : ClusterIdentity → IdentityStore → Result (Unit {0}) × IdentityStore
initialize identity (some existing) =
    (err (cluster_already_initialized existing.cluster_id), some existing)
initialize identity none = (ok tt, some identity)

unfoldable pub get : IdentityStore → Result (Option ClusterIdentity)
get s = ok s

unfoldable validate_node_join : Uuid → Text → Uuid → IdentityStore → Result (Unit {0})
validate_node_join node_id ca_fingerprint cluster_id none = err (internal identity_not_initialized)
validate_node_join node_id ca_fingerprint cluster_id (some identity) =
    if identity.cluster_id != cluster_id
    then err (node_join_rejected cluster_id_mismatch)
    else if identity.ca_fingerprint != ca_fingerprint
    then err (node_join_rejected ca_fingerprint_mismatch)
    else ok tt

-- The identities that were offered, one after the other.
abbrev initialize_all : List ClusterIdentity → IdentityStore → IdentityStore
initialize_all List.[] s = s
initialize_all (List.◌∷◌ i is) s = initialize_all is (initialize i s).1

-- The first identity that is established stays, whatever is offered later, and every later offer is
-- refused with its id.
initialize_once :
    (first : ClusterIdentity) (more : List ClusterIdentity) (next : ClusterIdentity)
    → let s = initialize_all more (initialize first none).1 in
      (get s ≡ ok (some first))
      × (initialize next s ≡ (err (cluster_already_initialized first.cluster_id), some first))
unfolding initialize get
initialize_once first List.[] next = (refl, refl)
initialize_once first (List.◌∷◌ i is) next = initialize_once first is next

-- A node is let in exactly when the cluster has an identity whose id and CA fingerprint are those
-- the node presents.
validate_node_join_iff :
    (node_id : Uuid) (ca_fingerprint : Text) (cluster_id : Uuid) (s : IdentityStore)
    → (validate_node_join node_id ca_fingerprint cluster_id s ≡ ok tt) ↔ (
        (identity : ClusterIdentity) × (s ≡ some identity)
        × (identity.cluster_id ≡ cluster_id)
        × (identity.ca_fingerprint ≡ ca_fingerprint))
unfolding validate_node_join
validate_node_join_iff node_id f c none =
    ((λ h. absurd (ground arith)), (λ (i, e, a, b). absurd (ground arith)))
validate_node_join_iff node_id f c (some i) = (
  (λ h. (
    i,
    refl,
    ground (arith, ==_iff i.cluster_id c, h),
    ground (arith, ==_iff i.ca_fingerprint f, h),
  )),
  (λ (j, e, a, b). ground (arith, ==_iff i.cluster_id c, ==_iff i.ca_fingerprint f, e, a, b)),
)

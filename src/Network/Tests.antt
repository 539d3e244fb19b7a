-- ===== src/Network/Tests.antt =====
-- Runs of the modules of crates/picloud-network at concrete names, tokens and certificates.
use picloud.Prelude.{List, ℕ, ◌<◌, ◌≡◌, refl, true, false, Option, some, [], ◌∷◌}
use picloud.Prelude.Equality.{nat_eq, list_eq, pair_eq}
use picloud.Prelude.Texts.{Text, codes}
use picloud.Domain.Error.{ok, err, enrollment_failed, token_used}
use picloud.Cluster.Identity.{token}
use picloud.Network.Dns.Cache.{a}
use picloud.Network.Dns.Resolver.{Graph}
use picloud.Network.Ca.Enrollment.{
  EnrollmentToken, TokenStore, EnrollmentRequest, ClusterCa, EnrollmentResponse, handle_enrollment,
  consume, is_for,
}
use picloud.Network.Ca.Enrollment.Tokens.{handle_enrollment_once, token_with}
use picloud.Network.Ca.Enrollment.Used.{enroll_all}

abbrev graph : Graph
graph = record {
  query_a = λ name. ok (a 10 ∷ []);
  query_srv = λ name. ok [];
  query_txt = λ name. ok [];
  query_ptr = λ name. ok [];
}

abbrev ca : ClusterCa
ca = record {
  ca_cert_pem = codes "ca";
  sign_node_csr =
      λ csr name ip. ok (record { cert_pem = csr; expires_at = 99; fingerprint = name });
}

abbrev issued : Option Text → EnrollmentToken
issued for_node = record {
  id = 1;
  token = codes "enroll-1";
  expires_at = 50;
  used = false;
  created_by = codes "admin";
  created_at = 2;
  for_node = for_node;
}

abbrev asks : Text → EnrollmentRequest
asks node_name = record {
  csr_der = codes "csr";
  node_name = node_name;
  node_ip = codes "10.0.0.9";
  enrollment_token = some (codes "enroll-1");
  cluster_id = 7;
}

abbrev tokens : TokenStore
tokens = (1, issued (some (codes "pi-1"))) ∷ []

abbrev certificate : EnrollmentResponse
certificate = record {
  node_cert_pem = codes "csr";
  ca_cert_pem = codes "ca";
  expires_at = 99;
  fingerprint = codes "pi-1";
}

handle_enrollment_once_example :
    ((asks (codes "pi-1")).cluster_id ≡ 7)
    × ((token_str : Text) × (some (codes "enroll-1") ≡ some token_str)
        × ((t : EnrollmentToken) × (token_with token_str tokens ≡ some t)
            × (t.used ≡ false)
            × (10 < t.expires_at)
            × (is_for t.for_node (codes "pi-1") ≡ true))
        × ((between : List (ℕ × EnrollmentRequest)) (later : ℕ) (again : EnrollmentRequest)
            → again.enrollment_token ≡ some token_str
            → again.cluster_id ≡ 7
            → (handle_enrollment later again ca token
                (enroll_all between ca 7
                  (handle_enrollment 10 (asks (codes "pi-1")) ca token tokens 7).1)
                7).0
              ≡ err (enrollment_failed token_used)))
unfolding handle_enrollment consume
handle_enrollment_once_example =
    handle_enrollment_once 10 (asks (codes "pi-1")) ca tokens 7 certificate refl

-- ===== src/Network/Ca/Enrollment.antt =====
-- `TokenStore` and `handle_enrollment` of crates/picloud-network/src/ca/enrollment.rs. Times are in
-- seconds; one call reads one time. What the authority signs is a parameter: the certificate for a
-- request, or an error.
pub mod Used
pub mod Tokens
use picloud.Prelude.{
  ℕ, ◌+◌, ◌-◌, Bool, true, false, not, ◌&&◌, ◌||◌, Option, none, some, List, [], ◌∷◌, length, ltb,
  leb, if◌then◌else◌, ◌==◌, ◌!=◌, retain,
}
use picloud.Prelude.Equality.{nat_eq, list_eq}
use picloud.Prelude.HashMap
use picloud.Prelude.HashMap.{HashMap}
use picloud.Prelude.Texts.{Text}
use picloud.Domain.Error.{
  Result, ok, err, ◌>>=◌, PiCloudError, enrollment_failed, token_not_found, token_used,
  token_expired, token_required, token_for_other_node, cluster_id_mismatch,
}
use picloud.Domain.Events.{Uuid}
use picloud.Cluster.Identity.{EnrollmentMode, auto, token}

pub record EnrollmentToken : Type 0 where
  pub id : Uuid
  pub token : Text
  pub expires_at : ℕ
  pub used : Bool
  pub created_by : Text
  pub created_at : ℕ
  pub for_node : Option Text

unfoldable pub is_valid : ℕ → EnrollmentToken → Bool
is_valid now t = not t.used && ltb now t.expires_at

abbrev pub TokenStore : Type 0
TokenStore = HashMap Uuid EnrollmentToken

-- The fresh id and text of the token are given.
unfoldable issue :
    ℕ → Uuid → Text → ℕ → Text → Option Text → TokenStore → EnrollmentToken × TokenStore
issue now id text ttl created_by for_node tokens =
    let t : EnrollmentToken = record {
      id = id;
      token = text;
      expires_at = now + ttl;
      used = false;
      created_by = created_by;
      created_at = now;
      for_node = for_node;
    } in
    (t, HashMap.insert tokens id t)

abbrev pub consume_one : ℕ → EnrollmentToken → Result EnrollmentToken × EnrollmentToken
consume_one now t =
    if t.used
    then (err (enrollment_failed token_used), t)
    else if leb t.expires_at now
    then (err (enrollment_failed token_expired), t)
    else (ok (record t { used = true }), record t { used = true })

unfoldable pub consume : ℕ → Text → TokenStore → Result EnrollmentToken × TokenStore
consume now token_str [] = (err (enrollment_failed token_not_found), [])
consume now token_str ((id, t) ∷ tokens) =
    let (r, rest) = consume now token_str tokens in
    let (q, u) = consume_one now t in
    if t.token == token_str then (q, (id, u) ∷ tokens) else (r, (id, t) ∷ rest)

unfoldable active_tokens : ℕ → TokenStore → List EnrollmentToken
unfolding is_valid
active_tokens now tokens = retain (is_valid now) (HashMap.values tokens)

abbrev revoke_in : Option EnrollmentToken → Uuid → TokenStore → Result (Unit {0}) × TokenStore
revoke_in none token_id tokens = (err (enrollment_failed token_not_found), tokens)
revoke_in (some t) token_id tokens =
    (ok tt, HashMap.insert tokens token_id (record t { used = true }))

unfoldable pub revoke : Uuid → TokenStore → Result (Unit {0}) × TokenStore
revoke token_id tokens = revoke_in (HashMap.get tokens token_id) token_id tokens

abbrev pub survives : ℕ → Uuid → EnrollmentToken → Bool
survives now id t = not t.used || ltb now (t.expires_at + 3600)

unfoldable pub evict_expired : ℕ → TokenStore → ℕ × TokenStore
evict_expired now tokens =
    let kept = HashMap.filter_entries (survives now) tokens in (length tokens - length kept, kept)

pub record EnrollmentRequest : Type 0 where
  pub csr_der : Text
  pub node_name : Text
  pub node_ip : Text
  pub enrollment_token : Option Text
  pub cluster_id : Uuid

pub record SignedCert : Type 0 where
  pub cert_pem : Text
  pub expires_at : ℕ
  pub fingerprint : Text

pub record ClusterCa : Type 0 where
  pub ca_cert_pem : Text
  pub sign_node_csr : Text → Text → Text → Result SignedCert

pub record EnrollmentResponse : Type 0 where
  pub node_cert_pem : Text
  pub ca_cert_pem : Text
  pub expires_at : ℕ
  pub fingerprint : Text

abbrev pub signed : EnrollmentRequest → ClusterCa → Result EnrollmentResponse
signed request ca = ca.sign_node_csr request.csr_der request.node_name request.node_ip >>= λ s.
    ok (record {
      node_cert_pem = s.cert_pem;
      ca_cert_pem = ca.ca_cert_pem;
      expires_at = s.expires_at;
      fingerprint = s.fingerprint;
    })

abbrev pub is_for : Option Text → Text → Bool
is_for none node_name = true
is_for (some for_node) node_name = for_node == node_name

abbrev pub check_node : Result EnrollmentToken → Text → Result (Unit {0})
check_node (err e) node_name = err e
check_node (ok t) node_name =
    if is_for t.for_node node_name then ok tt else err (enrollment_failed token_for_other_node)

-- The authorization of the mode, and the tokens after it.
abbrev pub authorize :
    EnrollmentMode → ℕ → Option Text → Text → TokenStore → Result (Unit {0}) × TokenStore
authorize auto now presented node_name tokens = (ok tt, tokens)
authorize token now none node_name tokens = (err (enrollment_failed token_required), tokens)
authorize token now (some token_str) node_name tokens =
    let (r, rest) = consume now token_str tokens in (check_node r node_name, rest)

unfoldable pub handle_enrollment :
    ℕ
    → EnrollmentRequest
    → ClusterCa
    → EnrollmentMode
    → TokenStore
    → Uuid
    → Result EnrollmentResponse × TokenStore
unfolding consume
handle_enrollment now request ca mode tokens cluster_id =
    if request.cluster_id != cluster_id
    then (err (enrollment_failed cluster_id_mismatch), tokens)
    else let (r, rest) = authorize mode now request.enrollment_token request.node_name tokens in
      (r >>= (λ u. signed request ca), rest)

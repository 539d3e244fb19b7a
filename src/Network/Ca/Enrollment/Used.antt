-- ===== src/Network/Ca/Enrollment/Used.antt =====
-- That a used token stays used, whatever requests follow.
use picloud.Prelude.{
  Bool, List, Option, ℕ, ◌≡◌, true, false, none, some, [], ◌∷◌, if◌then◌else◌, ◌==◌, arith,
  Bool-cases, inl, inr,
}
use picloud.Prelude.Equality.{nat_eq, list_eq}
use picloud.Prelude.Texts.{Text}
use picloud.Domain.Error.{ok, err, enrollment_failed, token_used}
use picloud.Domain.Events.{Uuid}
use picloud.Cluster.Identity.{token}
use picloud.Network.Ca.Enrollment.{
  EnrollmentToken, TokenStore, consume, EnrollmentRequest, ClusterCa, handle_enrollment, authorize,
}

-- The first token of the store with the text is used.
abbrev pub is_used_up : Text → TokenStore → Bool
is_used_up token_str [] = false
is_used_up token_str ((id, q) ∷ tokens) =
    if q.token == token_str then q.used else is_used_up token_str tokens

pub consume_uses :
    (now : ℕ) (token_str : Text) (tokens : TokenStore) (t : EnrollmentToken)
    → (consume now token_str tokens).0 ≡ ok t
    → is_used_up token_str (consume now token_str tokens).1 ≡ true
unfolding consume
consume_uses now s [] t h = absurd (ground arith)
consume_uses now s ((id, q) ∷ tokens) t h = ground (arith, h, consume_uses now s tokens t)

consume_keeps :
    (now : ℕ) (token_str other : Text) (tokens : TokenStore)
    → is_used_up token_str tokens ≡ true
    → is_used_up token_str (consume now other tokens).1 ≡ true
unfolding consume
consume_keeps now s other [] h = absurd (ground arith)
consume_keeps now s other ((id, q) ∷ tokens) h = ground (arith, h, consume_keeps now s other tokens)

pub consume_refused :
    (now : ℕ) (token_str : Text) (tokens : TokenStore)
    → is_used_up token_str tokens ≡ true
    → (consume now token_str tokens).0 ≡ err (enrollment_failed token_used)
unfolding consume
consume_refused now s [] h = absurd (ground arith)
consume_refused now s ((id, q) ∷ tokens) h = ground (arith, h, consume_refused now s tokens)

authorize_keeps :
    (now : ℕ) (presented : Option Text) (node_name token_str : Text) (tokens : TokenStore)
    → is_used_up token_str tokens ≡ true
    → is_used_up token_str (authorize token now presented node_name tokens).1 ≡ true
authorize_keeps now none node_name s tokens h = h
authorize_keeps now (some other) node_name s tokens h = consume_keeps now s other tokens h

-- The store after some more requests in token mode, each at a time.
abbrev pub enroll_all : List (ℕ × EnrollmentRequest) → ClusterCa → Uuid → TokenStore → TokenStore
enroll_all [] ca cluster_id tokens = tokens
enroll_all ((now, request) ∷ requests) ca cluster_id tokens =
    enroll_all requests ca cluster_id (handle_enrollment now request ca token tokens cluster_id).1

enroll_keeps :
    (now : ℕ) (request : EnrollmentRequest) (ca : ClusterCa) (tokens : TokenStore)
    → (cluster_id : Uuid) (token_str : Text) → is_used_up token_str tokens ≡ true
    → is_used_up token_str (handle_enrollment now request ca token tokens cluster_id).1 ≡ true
unfolding handle_enrollment
enroll_keeps now request ca tokens cluster_id s h =
    elim (Bool-cases (request.cluster_id == cluster_id)) [
      | inl b ↦
          ground
            (arith, b, authorize_keeps now request.enrollment_token request.node_name s tokens h)
      | inr b ↦ ground (arith, b, h)
    ]

pub enroll_all_keeps :
    (requests : List (ℕ × EnrollmentRequest)) (ca : ClusterCa) (tokens : TokenStore)
    → (cluster_id : Uuid) (token_str : Text) → is_used_up token_str tokens ≡ true
    → is_used_up token_str (enroll_all requests ca cluster_id tokens) ≡ true
enroll_all_keeps [] ca tokens cluster_id s h = h
enroll_all_keeps ((now, request) ∷ requests) ca tokens cluster_id s h =
    enroll_all_keeps requests ca (handle_enrollment now request ca token tokens cluster_id).1
      cluster_id s (enroll_keeps now request ca tokens cluster_id s h)

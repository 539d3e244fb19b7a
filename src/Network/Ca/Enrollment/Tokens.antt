-- ===== src/Network/Ca/Enrollment/Tokens.antt =====
-- That a token lets in one node, once.
use picloud.Prelude.{
  List, Option, find, Option-cases, ◌≢◌, ℕ, ◌<◌, ◌≡◌, refl, sym, ap, ◌∙◌, true, false, none, some,
  [], ◌∷◌, leb, if◌then◌else◌, ◌==◌, arith, Bool-cases, inl, inr,
}
use picloud.Prelude.Equality.{nat_eq, list_eq}
use picloud.Prelude.HashMap
use picloud.Prelude.HashMap.{HashMap, IsMap, get-filter_entries, get-insert}
use picloud.Prelude.Texts.{Text}
use picloud.Domain.Error.{
  Result, ok, err, ◌>>=◌, enrollment_failed, token_used, token_for_other_node,
}
use picloud.Domain.Events.{Uuid}
use picloud.Cluster.Identity.{EnrollmentMode, token}
use picloud.Network.Ca.Enrollment.{
  EnrollmentToken, TokenStore, consume, consume_one, evict_expired, survives, EnrollmentRequest,
  ClusterCa, EnrollmentResponse, handle_enrollment, authorize, check_node, is_for, signed,
}
use picloud.Network.Ca.Enrollment.Used.{
  is_used_up, consume_uses, consume_refused, enroll_all, enroll_all_keeps,
}

consume_one_lem :
    (now later : ℕ) (q t : EnrollmentToken)
    → (consume_one now q).0 ≡ ok t
    → (now < q.expires_at)
      × (q.used ≡ false)
      × (t.for_node ≡ q.for_node)
      × (consume_one later (consume_one now q).1
          ≡ (err (enrollment_failed token_used), (consume_one now q).1))
consume_one_lem now later q t h = elim (Bool-cases q.used) [
  | inl e ↦ absurd (ground (arith, e))
  | inr e ↦ elim (Bool-cases (leb q.expires_at now)) [
    | inl f ↦ absurd (ground (arith, e, f))
    | inr f ↦ (ground (arith, e, f), e, ground (arith, e, f), ground (arith, e, f))
  ]
]

-- The token of the store that carries a text, by its first occurrence.
abbrev pub token_with : Text → TokenStore → Option EnrollmentToken
token_with token_str tokens =
    find (λ (q : EnrollmentToken). q.token == token_str) (HashMap.values tokens)

-- A token that was consumed is the one of the store that carries the text, it was valid, and it is used
-- from then on: every later attempt, at any time, is refused as used and changes nothing.
consume_once :
    (now later : ℕ) (token_str : Text) (tokens : TokenStore) (t : EnrollmentToken)
    → (consume now token_str tokens).0 ≡ ok t
    → ((q : EnrollmentToken) × (token_with token_str tokens ≡ some q)
        × (q.used ≡ false)
        × (now < q.expires_at)
        × (t.for_node ≡ q.for_node))
      × (consume later token_str (consume now token_str tokens).1
          ≡ (err (enrollment_failed token_used), (consume now token_str tokens).1))
unfolding consume
consume_once now later s [] t h = absurd (ground arith)
consume_once now later s ((id, q) ∷ tokens) t h = elim (Bool-cases (q.token == s)) [
  | inl e ↦
      let one = consume_one_lem now later q t (ground (arith, e)) in
      ((q, ground (arith, e), one.1, one.0, one.2), ground (arith, e, one.3))
  | inr e ↦
      let ((u, at, unused, fresh, same), again) =
        consume_once now later s tokens t (ground (arith, e)) in
      ((u, ground (arith, e, at), unused, fresh, same), ground (arith, e, again))
]

consumed_ok :
    (r : Result EnrollmentToken) (node_name : Text)
    → check_node r node_name ≡ ok tt
    → (t : EnrollmentToken) × (r ≡ ok t) × (is_for t.for_node node_name ≡ true)
consumed_ok (err e) node_name h = absurd (ground arith)
consumed_ok (ok t) node_name h = (t, refl, ground arith)

bind_ok :
    (r : Result (Unit {0})) (f : Result EnrollmentResponse) (x : EnrollmentResponse)
    → (r >>= λ u. f) ≡ ok x
    → r ≡ ok tt
bind_ok (ok tt) f x h = refl
bind_ok (err e) f x h = absurd (ground arith)

enroll_presented :
    (now : ℕ) (request : EnrollmentRequest) (ca : ClusterCa) (tokens : TokenStore)
    (cluster_id : Uuid)
    → (token_str : Text) → request.enrollment_token ≡ some token_str
    → request.cluster_id ≡ cluster_id
    → handle_enrollment now request ca token tokens cluster_id ≡ (
      check_node (consume now token_str tokens).0 request.node_name >>= (λ u. signed request ca),
      (consume now token_str tokens).1,
    )
unfolding handle_enrollment
enroll_presented now request ca tokens cluster_id token_str h c =
    ground (arith, c)
    ∙ ap
        (λ o.
          let (r, rest) = authorize token now o request.node_name tokens in
          (r >>= (λ u. signed request ca), rest))
        h

enroll_cluster :
    (now : ℕ) (request : EnrollmentRequest) (ca : ClusterCa) (mode : EnrollmentMode)
    → (tokens : TokenStore) (cluster_id : Uuid) (response : EnrollmentResponse)
    → (handle_enrollment now request ca mode tokens cluster_id).0 ≡ ok response
    → request.cluster_id ≡ cluster_id
unfolding handle_enrollment
enroll_cluster now request ca mode tokens cluster_id response e =
    elim (Bool-cases (request.cluster_id == cluster_id)) [
      | inl b ↦ ground (arith, b)
      | inr b ↦ absurd (ground (arith, b))
    ]

module _ (now : ℕ) (request : EnrollmentRequest) (ca : ClusterCa) (tokens : TokenStore)
    (cluster_id : Uuid) where
  -- The first token of the store with the text lets the node in, and no later request with that text.
  LetsInOnce : Text → Type 0
  LetsInOnce token_str =
      ((t : EnrollmentToken) × (token_with token_str tokens ≡ some t)
        × (t.used ≡ false)
        × (now < t.expires_at)
        × (is_for t.for_node request.node_name ≡ true))
      × ((between : List (ℕ × EnrollmentRequest)) (later : ℕ) (again : EnrollmentRequest)
          → again.enrollment_token ≡ some token_str
          → again.cluster_id ≡ cluster_id
          → (handle_enrollment later again ca token
              (enroll_all between ca cluster_id
                (handle_enrollment now request ca token tokens cluster_id).1)
              cluster_id).0
            ≡ err (enrollment_failed token_used))

  presented_once :
      (response : EnrollmentResponse) (token_str : Text)
      → request.cluster_id ≡ cluster_id
      → request.enrollment_token ≡ some token_str
      → (handle_enrollment now request ca token tokens cluster_id).0 ≡ ok response
      → LetsInOnce token_str
  unfolding LetsInOnce
  presented_once response token_str c h e =
      let st = enroll_presented now request ca tokens cluster_id token_str h c in
      let (t, found, mine) = consumed_ok (consume now token_str tokens).0 request.node_name (
        bind_ok (check_node (consume now token_str tokens).0 request.node_name) (signed request ca)
          response (sym (ap (λ x. x.0) st) ∙ e)) in
      let (q, at, unused, fresh, same) = (consume_once now now token_str tokens t found).0 in
      (
        (q, at, unused, fresh, ap (λ o. is_for o request.node_name) (sym same) ∙ mine),
        (λ between later again ha hc.
            let first = (handle_enrollment now request ca token tokens cluster_id).1 in
            let used : is_used_up token_str first ≡ true =
              ap (λ x. is_used_up token_str x.1) st ∙ consume_uses now token_str tokens t found in
            ap (λ x. x.0)
              (enroll_presented later again ca (enroll_all between ca cluster_id first) cluster_id
                token_str ha hc)
            ∙ ap (λ r. check_node r again.node_name >>= (λ u. signed again ca))
                (consume_refused later token_str (enroll_all between ca cluster_id first)
                  (enroll_all_keeps between ca first cluster_id token_str used))),
      )

  -- Without a token nobody is let in.
  nothing_presented :
      (response : EnrollmentResponse)
      → request.cluster_id ≡ cluster_id
      → request.enrollment_token ≡ none
      → (handle_enrollment now request ca token tokens cluster_id).0 ≢ ok response
  unfolding handle_enrollment
  nothing_presented response c h e = absurd (ground (arith, c, h, e))

  -- A node that token mode lets in presented the text of a token of the store, the first with that
  -- text, which was not used, had not expired and is for that node or for any; and after it and any
  -- requests that follow, none to the same cluster that presents that text is let in: it is refused as
  -- used, from whatever node and at whatever time.
  pub handle_enrollment_once :
      (response : EnrollmentResponse)
      → (handle_enrollment now request ca token tokens cluster_id).0 ≡ ok response
      → (request.cluster_id ≡ cluster_id)
        × ((token_str : Text) × (request.enrollment_token ≡ some token_str)
            × ((t : EnrollmentToken) × (token_with token_str tokens ≡ some t)
                × (t.used ≡ false)
                × (now < t.expires_at)
                × (is_for t.for_node request.node_name ≡ true))
            × ((between : List (ℕ × EnrollmentRequest)) (later : ℕ) (again : EnrollmentRequest)
                → again.enrollment_token ≡ some token_str
                → again.cluster_id ≡ cluster_id
                → (handle_enrollment later again ca token
                    (enroll_all between ca cluster_id
                      (handle_enrollment now request ca token tokens cluster_id).1)
                    cluster_id).0
                  ≡ err (enrollment_failed token_used)))
  unfolding LetsInOnce
  handle_enrollment_once response e =
      let c = enroll_cluster now request ca token tokens cluster_id response e in
      elim (Option-cases request.enrollment_token) [
        | inl h ↦ absurd (nothing_presented response c h e)
        | inr (token_str, h) ↦
            let once = presented_once response token_str c h e in
            (c, (token_str, h, once.0, once.1))
      ]

-- A token for one node that another node presents is used up, although the node is turned away: the
-- node that it is for is then refused too.
handle_enrollment_wrong_node :
    (now later : ℕ) (request again : EnrollmentRequest) (ca : ClusterCa) (tokens : TokenStore)
    → (cluster_id : Uuid) (token_str : Text) (t : EnrollmentToken)
    → request.enrollment_token ≡ some token_str
    → request.cluster_id ≡ cluster_id
    → again.enrollment_token ≡ some token_str
    → again.cluster_id ≡ cluster_id
    → (consume now token_str tokens).0 ≡ ok t
    → is_for t.for_node request.node_name ≡ false
    → let (first, after) = handle_enrollment now request ca token tokens cluster_id in
      (first ≡ err (enrollment_failed token_for_other_node))
      × ((handle_enrollment later again ca token after cluster_id).0
          ≡ err (enrollment_failed token_used))
handle_enrollment_wrong_node now later request again ca tokens cluster_id token_str t h c ha hc
      found other =
    let st = enroll_presented now request ca tokens cluster_id token_str h c in
    (
      ap (λ x. x.0) st
          ∙ ap (λ r. check_node r request.node_name >>= (λ u. signed request ca)) found
          ∙ ground (arith, other),
      ap (λ x. x.0)
            (enroll_presented later again ca
              (handle_enrollment now request ca token tokens cluster_id).1 cluster_id token_str ha
              hc)
          ∙ ap
              (λ x.
                check_node (consume later token_str x).0 again.node_name >>= (λ u. signed again ca))
              (ap (λ x. x.1) st)
          ∙ ap (λ x. check_node x.0 again.node_name >>= (λ u. signed again ca))
              (consume_once now later token_str tokens t found).1,
    )

-- The eviction keeps every token that was not used, however long ago it expired.
evict_expired-unused :
    (now : ℕ) (id : Uuid) (t : EnrollmentToken) (tokens : TokenStore)
    → IsMap tokens
    → HashMap.get tokens id ≡ some t
    → t.used ≡ false
    → HashMap.get (evict_expired now tokens).1 id ≡ some t
unfolding evict_expired
evict_expired-unused now id t tokens u h f =
    get-filter_entries (survives now) tokens id u
    ∙ ap (λ o. elim o [ none ↦ none | some v ↦ if survives now id v then some v else none ]) h
    ∙ ground (arith, f)

-- ===== src/Network/Ca/Revocation.antt =====
-- `RevocationList` of crates/picloud-network/src/ca/revocation.rs.
use picloud.Prelude.{
  ℕ, ◌≡◌, refl, Bool, ◌||◌, Option, some, List, [], ◌∷◌, ◌++◌, map, any, ◌==◌, arith, any-append,
  contains,
}
use picloud.Prelude.Equality.{nat_eq, list_eq}
use picloud.Prelude.Texts.{Text}
use picloud.Domain.Events.{Uuid}

pub data RevocationReason : Type 0 where
  node_removed key_compromise superseded admin : RevocationReason

pub record RevokedCert : Type 0 where
  pub fingerprint : Text
  pub node_id : Option Uuid
  pub revoked_at : ℕ
  pub reason : RevocationReason

abbrev RevocationList : Type 0
RevocationList = List RevokedCert

unfoldable pub revoke : RevokedCert → RevocationList → RevocationList
revoke entry revoked = revoked ++ entry ∷ []

unfoldable is_revoked : Text → RevocationList → Bool
is_revoked fingerprint revoked = any (λ r. r.fingerprint == fingerprint) revoked

-- The set is listed with its repetitions, which membership does not see.
unfoldable fingerprint_set : RevocationList → List Text
fingerprint_set revoked = map (λ r. r.fingerprint) revoked

unfoldable handle_node_removed : ℕ → Uuid → Text → RevocationList → RevocationList
unfolding revoke
handle_node_removed now node_id fingerprint crl =
    revoke
      (record {
        fingerprint = fingerprint;
        node_id = some node_id;
        revoked_at = now;
        reason = node_removed;
      })
      crl

abbrev handle_all : List (ℕ × Uuid × Text) → RevocationList → RevocationList
handle_all [] crl = crl
handle_all ((now, node_id, fingerprint) ∷ es) crl =
    handle_all es (handle_node_removed now node_id fingerprint crl)

removed_lem :
    (now : ℕ) (node_id : Uuid) (fingerprint f : Text) (crl : RevocationList)
    → is_revoked f (handle_node_removed now node_id fingerprint crl)
      ≡ (is_revoked f crl || fingerprint == f)
unfolding is_revoked handle_node_removed revoke
removed_lem now node_id fingerprint f crl = ground (
  arith,
  any-append (λ r. r.fingerprint == f) crl
      ((record {
        fingerprint = fingerprint;
        node_id = some node_id;
        revoked_at = now;
        reason = node_removed;
      })
        ∷ []),
)

-- Whatever removals are handled after each other, a certificate is revoked exactly when it was
-- before or when one of the removals is of it; so a revocation is never taken back.
is_revoked-handle_all :
    (es : List (ℕ × Uuid × Text)) (f : Text) (crl : RevocationList)
    → is_revoked f (handle_all es crl) ≡ (is_revoked f crl || any (λ e. e.2 == f) es)
is_revoked-handle_all [] f crl = ground arith
is_revoked-handle_all ((now, node_id, fp) ∷ es) f crl = ground (
  arith,
  is_revoked-handle_all es f (handle_node_removed now node_id fp crl),
  removed_lem now node_id fp f crl,
)

-- The set for the fast lookup answers as the list.
contains-fingerprint_set :
    (f : Text) (crl : RevocationList) → contains (fingerprint_set crl) f ≡ is_revoked f crl
unfolding fingerprint_set is_revoked
contains-fingerprint_set f [] = refl
contains-fingerprint_set f (r ∷ crl) = ground (arith, contains-fingerprint_set f crl)

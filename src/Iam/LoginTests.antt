-- ===== src/Iam/LoginTests.antt =====
-- A registration and the login after it.
use picloud.Prelude.{ℕ, ◌≡◌, refl, false, none, List, [], ◌∷◌, arith}
use picloud.Prelude.Equality.{nat_eq, list_eq}
use picloud.Prelude.HashMap
use picloud.Prelude.HashMap.{HashMap}
use picloud.Prelude.Texts.{Text, codes}
use picloud.Domain.Error.{ok}
use picloud.Domain.Iri.{ResourceIri}
use picloud.Iam.Provider.{LocalIdentityProvider, PendingChallenge, registration, with_ttl}
use picloud.Iam.Passkeys.{get_passkeys}
use picloud.Iam.Signature.{P256}
use picloud.Iam.Ceremonies.{
  RegistrationResponse, complete_registration, begin_authentication, complete_authentication,
}
use picloud.Iam.Ceremonies.FirstLogin.{hmac_answer, login_after_registration}
use picloud.Iam.Samples.{crypto, to_bytes}

abbrev bob : ResourceIri
bob = codes "https://pi/identities/bob"

abbrev curve : P256
curve = record {
  from_reader = λ b. none;
  is_point = λ x y. false;
  is_der = λ b. false;
  verify = λ x y message signature. false;
}

abbrev key : List ℕ
key = 8 ∷ 9 ∷ []

abbrev signup : RegistrationResponse
signup = record {
  credential_id = codes "k1";
  public_key = crypto.encode key;
  aaguid = none;
  display_name = none;
}

abbrev asked : PendingChallenge
asked = record {
  identity_iri = bob;
  challenge_bytes = 3 ∷ [];
  kind = registration;
  expires_at = 310;
}

abbrev provider : LocalIdentityProvider
provider = record (with_ttl (5 ∷ []) (codes "pi") 3600) {
  pending_challenges = (codes "c", asked) ∷ [];
}

login_example :
    let q = (complete_registration crypto 20 (codes "c") signup provider).1 in
    let r = (begin_authentication crypto 30 (codes "d") (4 ∷ []) bob q).1 in
    (token : Text) × ((complete_authentication crypto curve 40
        (codes "d")
        (hmac_answer crypto (codes "k1") key (4 ∷ []))
        r).0
      ≡ ok token)
unfolding with_ttl get_passkeys HashMap.get
login_example =
    login_after_registration crypto curve to_bytes 20 30 40 (codes "c") (codes "d") signup (4 ∷ [])
      key provider asked (λ t. refl) refl refl (omega arith) refl refl (omega arith)

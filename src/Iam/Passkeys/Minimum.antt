-- ===== src/Iam/Passkeys/Minimum.antt =====
-- How many passkeys `remove_passkey` leaves an identity.
use picloud.Prelude.{
  ◌+◌, ◌≤◌, ◌<◌, ◌≡◌, refl, sym, ap, ◌∙◌, inl, inr, false, List, [], ◌∷◌, length, leb,
  if◌then◌else◌, ◌==◌, ◌!=◌, retain, any, All, arith, ==_iff, Bool-cases,
}
use picloud.Prelude.Equality.{nat_eq, list_eq}
use picloud.Prelude.HashMap
use picloud.Prelude.HashMap.{HashMap, get-insert}
use picloud.Prelude.Texts.{Text, codes}
use picloud.Domain.Error.{ok, err, unauthorized}
use picloud.Domain.Iri.{ResourceIri}
use picloud.Iam.Provider.{LocalIdentityProvider, RegisteredPasskey}
use picloud.Iam.Passkeys.{get_passkeys, remove_passkey, passkeys_or_default}

-- No two passkeys have the same credential id.
abbrev pub IsDistinct : List RegisteredPasskey → Type 0
IsDistinct [] = Unit
IsDistinct (k ∷ ks) =
    (any (λ (j : RegisteredPasskey). j.credential_id == k.credential_id) ks ≡ false) × IsDistinct ks

abbrev without : Text → List RegisteredPasskey → List RegisteredPasskey
without id ks = retain (λ (k : RegisteredPasskey). k.credential_id != id) ks

without_absent :
    (id : Text) (ks : List RegisteredPasskey)
    → any (λ (j : RegisteredPasskey). j.credential_id == id) ks ≡ false
    → length (without id ks) ≡ length ks
without_absent id [] h = refl
without_absent id (k ∷ ks) h = ground (arith, without_absent id ks)

-- Among distinct passkeys at most one is taken out.
length-without :
    (id : Text) (ks : List RegisteredPasskey)
    → IsDistinct ks
    → length ks ≤ length (without id ks) + 1
length-without id [] h = omega arith
length-without id (k ∷ ks) h = elim (Bool-cases (k.credential_id == id)) [
  | inl e ↦
      let same : k.credential_id ≡ id = (==_iff k.credential_id id).0 e in
      let absent : any (λ (j : RegisteredPasskey). j.credential_id == id) ks ≡ false =
        ap (λ t. any (λ (j : RegisteredPasskey). j.credential_id == t) ks) (sym same) ∙ h.0 in
      ground (arith, e, without_absent id ks absent)
  | inr e ↦ ground (arith, e, length-without id ks h.1)
]

-- Where all have the id, all are taken out.
without-All :
    (id : Text) (ks : List RegisteredPasskey)
    → All (λ (k : RegisteredPasskey). k.credential_id ≡ id) ks
    → without id ks ≡ []
without-All id [] h = refl
without-All id (k ∷ ks) h = ground (arith, ==_iff k.credential_id id, h.0, without-All id ks h.1)

get_passkeys-remove :
    (iri : ResourceIri) (id : Text) (p : LocalIdentityProvider)
    → get_passkeys iri (remove_passkey iri id p).1 ≡ (
        if leb (length (get_passkeys iri p)) 2
        then get_passkeys iri p
        else without id (get_passkeys iri p))
unfolding get_passkeys remove_passkey
get_passkeys-remove iri id p =
    let ks = passkeys_or_default (HashMap.get p.passkeys iri) in
    elim (Bool-cases (leb (length ks) 2)) [
      | inl e ↦ ground (arith, e)
      | inr e ↦ ground (arith, e, get-insert p.passkeys iri iri (without id ks), ==_iff iri iri)
    ]

-- Of an identity whose credential ids are distinct: a removal is refused exactly when it has two
-- passkeys or fewer; and where it has at least two, it has at least two after the removal.
pub remove_passkey_minimum :
    (iri : ResourceIri) (id : Text) (p : LocalIdentityProvider)
    → IsDistinct (get_passkeys iri p)
    → ((remove_passkey iri id p).0 ≡ (
        if leb (length (get_passkeys iri p)) 2
        then err (unauthorized iri (codes "remove_passkey"))
        else ok tt))
      × (2 ≤ length (get_passkeys iri p)
          → 2 ≤ length (get_passkeys iri (remove_passkey iri id p).1))
unfolding get_passkeys remove_passkey
remove_passkey_minimum iri id p h = (
  ground arith,
  λ enough. ground (
    arith,
    ap length (get_passkeys-remove iri id p),
    length-without id (passkeys_or_default (HashMap.get p.passkeys iri)) h,
  ),
)

-- The minimum is not kept where a credential was registered more than twice: one removal takes every
-- passkey of the identity away, and succeeds.
remove_passkey_duplicates :
    (iri : ResourceIri) (id : Text) (p : LocalIdentityProvider)
    → 2 < length (get_passkeys iri p)
    → All (λ (k : RegisteredPasskey). k.credential_id ≡ id) (get_passkeys iri p)
    → ((remove_passkey iri id p).0 ≡ ok tt) × (get_passkeys iri (remove_passkey iri id p).1 ≡ [])
unfolding remove_passkey
remove_passkey_duplicates iri id p many same =
    let ks = get_passkeys iri p in
    elim (Bool-cases (leb (length ks) 2)) [
      | inl e ↦ absurd (ground (arith, e))
      | inr e ↦ (
        ground (arith, e),
        get_passkeys-remove iri id p ∙ ground (arith, e, without-All id ks same),
      )
    ]

-- ===== src/Iam/Samples.antt =====
-- A cryptography that satisfies the laws, for the examples: a tag is the key and the payload, base64
-- moves every byte past the dot, and claims are written as numbers with the lengths in front.
use picloud.Prelude.{
  ℕ, zero, suc, ◌+◌, ◌-◌, ◌≡◌, refl, sym, ap, ◌∙◌, false, Option, none, some, List, [], ◌∷◌, ◌++◌,
  length, take, drop, any, ◌==◌, arith, ==_iff, nat_beq,
}
use picloud.Prelude.Equality.{nat_eq, list_eq}
use picloud.Prelude.Texts.{Text}
use picloud.Iam.Tokens.{Bytes, TokenClaims, Crypto, Laws}

abbrev put_text : Text → Bytes → Bytes
put_text t b = length t ∷ (t ++ b)

abbrev put_option : Option Text → Bytes → Bytes
put_option none b = 0 ∷ b
put_option (some t) b = 1 ∷ put_text t b

abbrev put_texts : List Text → Bytes → Bytes
put_texts [] b = b
put_texts (t ∷ ts) b = put_text t (put_texts ts b)

abbrev put_list : List Text → Bytes → Bytes
put_list ts b = length ts ∷ put_texts ts b

abbrev get_text : Bytes → Text × Bytes
get_text [] = ([], [])
get_text (n ∷ b) = (take n b, drop n b)

abbrev get_option : Bytes → Option Text × Bytes
get_option [] = (none, [])
get_option (zero ∷ b) = (none, b)
get_option (suc n ∷ b) = let (t, r) = get_text b in (some t, r)

abbrev get_texts : ℕ → Bytes → List Text × Bytes
get_texts zero b = ([], b)
get_texts (suc n) b = let (t, r) = get_text b in let (ts, s) = get_texts n r in (t ∷ ts, s)

abbrev get_list : Bytes → List Text × Bytes
get_list [] = ([], [])
get_list (n ∷ b) = get_texts n b

abbrev get_number : Bytes → ℕ × Bytes
get_number [] = (0, [])
get_number (n ∷ b) = (n, b)

take-append : (t : Text) (b : Bytes) → take (length t) (t ++ b) ≡ t
take-append [] b = refl
take-append (c ∷ t) b = ground (arith, take-append t b)

drop-append_all : (t : Text) (b : Bytes) → drop (length t) (t ++ b) ≡ b
drop-append_all [] b = refl
drop-append_all (c ∷ t) b = drop-append_all t b

get_text-put : (t : Text) (b : Bytes) → get_text (put_text t b) ≡ (t, b)
get_text-put t b = ground (arith, take-append t b, drop-append_all t b)

get_option-put : (o : Option Text) (b : Bytes) → get_option (put_option o b) ≡ (o, b)
get_option-put none b = refl
get_option-put (some t) b = ap (λ (x : Text × Bytes). (some x.0, x.1)) (get_text-put t b)

get_list-put : (ts : List Text) (b : Bytes) → get_list (put_list ts b) ≡ (ts, b)
get_list-put [] b = refl
get_list-put (t ∷ ts) b =
    ap (λ (x : Text × Bytes). let (us, s) = get_texts (length ts) x.1 in (x.0 ∷ us, s))
      (get_text-put t (put_texts ts b))
    ∙ ap (λ (x : List Text × Bytes). (t ∷ x.0, x.1)) (get_list-put ts b)

abbrev pub to_bytes : TokenClaims → Bytes
to_bytes t = put_text t.identity_iri (
    put_option t.product (
      put_list t.roles (
        t.issued_at
        ∷ t.expires_at
        ∷ put_option t.aud (put_list t.scopes (put_list t.permissions (put_option t.actor []))))))

abbrev from_bytes : Bytes → TokenClaims
from_bytes b0 =
    let (identity_iri, b1) = get_text b0 in
    let (product, b2) = get_option b1 in
    let (roles, b3) = get_list b2 in
    let (issued_at, b4) = get_number b3 in
    let (expires_at, b5) = get_number b4 in
    let (aud, b6) = get_option b5 in
    let (scopes, b7) = get_list b6 in
    let (permissions, b8) = get_list b7 in
    let (actor, b9) = get_option b8 in
    record {
      identity_iri = identity_iri;
      product = product;
      roles = roles;
      issued_at = issued_at;
      expires_at = expires_at;
      aud = aud;
      scopes = scopes;
      permissions = permissions;
      actor = actor;
    }

from_bytes-to_bytes : (t : TokenClaims) → from_bytes (to_bytes t) ≡ t
from_bytes-to_bytes t =
    let b8 = put_option t.actor [] in
    let b7 = put_list t.permissions b8 in
    let b6 = put_list t.scopes b7 in
    let b5 = put_option t.aud b6 in
    let b2 = put_list t.roles (t.issued_at ∷ t.expires_at ∷ b5) in
    let b1 = put_option t.product b2 in
    ground (
      arith,
      get_text-put t.identity_iri b1,
      get_option-put t.product b2,
      get_list-put t.roles (t.issued_at ∷ t.expires_at ∷ b5),
      get_option-put t.aud b6,
      get_list-put t.scopes b7,
      get_list-put t.permissions b8,
      get_option-put t.actor [],
    )

abbrev shift : Bytes → Text
shift [] = []
shift (c ∷ b) = (c + 47) ∷ shift b

abbrev unshift : Text → Bytes
unshift [] = []
unshift (c ∷ b) = (c - 47) ∷ unshift b

unshift-shift : (b : Bytes) → unshift (shift b) ≡ b
unshift-shift [] = refl
unshift-shift (c ∷ b) = ground (arith, unshift-shift b)

shift_dotless : (b : Bytes) → any (λ x. nat_beq x b'.') (shift b) ≡ false
shift_dotless [] = refl
shift_dotless (c ∷ b) = ground (arith, shift_dotless b)

some_eq : (a b : Bytes) → some a ≡ some b → a ≡ b
some_eq a b h = cc

abbrev pub crypto : Crypto
crypto = record {
  hmac_sign = λ k p. k ++ p;
  hmac_verify = λ k p tag. tag == k ++ p;
  encode = shift;
  decode = λ t. some (unshift t);
  to_vec = λ t. some (to_bytes t);
  from_slice = λ b. some (from_bytes b);
  sha256 = λ b. 7 ∷ b;
}

pub crypto-Laws : Laws crypto
crypto-Laws = record {
  verify-sign = λ k p. (==_iff (k ++ p) (k ++ p)).1 refl;
  tag_of_verify = λ k p tag h. (==_iff tag (k ++ p)).0 h;
  decode-encode = λ b. ap (λ x. some x) (unshift-shift b);
  encode_dotless = shift_dotless;
  from_slice-to_vec = λ t b h.
      ap (λ x. some (from_bytes x)) (sym (some_eq (to_bytes t) b h))
      ∙ ap (λ x. some x) (from_bytes-to_bytes t);
}

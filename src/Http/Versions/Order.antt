-- ===== src/Http/Versions/Order.antt =====
-- That versions are compared by a total order, on which both comparisons of the source agree.
use picloud.Prelude.{
  ℕ, zero, suc, ◌≤◌, ◌≡◌, ◌≢◌, ◌↔◌, refl, sym, ap, ◌∙◌, true, List, [], ◌∷◌, length, arith,
}
use picloud.Prelude.Texts.{Text}
use picloud.Http.Versions.{
  less, equal, greater, cmp, part, parts, max, or_else, satisfies_loop, version_satisfies, cmp_loop,
  version_cmp, parse,
}

satisfies-cmp_loop :
    (n : ℕ) (o r : List ℕ) → (satisfies_loop n o r ≡ true) ↔ (cmp_loop n o r ≢ less)
unfolding satisfies_loop cmp_loop
satisfies-cmp_loop zero o r = ground arith
satisfies-cmp_loop (suc n) o r = ground (arith, satisfies-cmp_loop n (parts o) (parts r))

-- One version satisfies another exactly when it is not less in the order that ranks implementors.
version_satisfies_iff :
    (offered required : Text)
    → (version_satisfies offered required ≡ true) ↔ (version_cmp offered required ≢ less)
unfolding version_satisfies version_cmp
version_satisfies_iff offered required =
    let o = parse offered in
    let r = parse required in satisfies-cmp_loop (max (length o) (length r)) o r

length-parts : (v : List ℕ) (n : ℕ) → length v ≤ suc n → length (parts v) ≤ n
length-parts [] n h = omega arith
length-parts (a ∷ v) n h = omega arith

cmp_loop-nil : (n : ℕ) → cmp_loop n [] [] ≡ equal
unfolding cmp_loop
cmp_loop-nil zero = refl
cmp_loop-nil (suc n) = ground (arith, cmp_loop-nil n)

-- More rounds than the longer one has parts change nothing.
cmp_loop_more :
    (n k : ℕ) (a b : List ℕ) → length a ≤ n → length b ≤ n → n ≤ k → cmp_loop k a b ≡ cmp_loop n a b
unfolding cmp_loop
cmp_loop_more zero k [] [] ha hb h = cmp_loop-nil k
cmp_loop_more zero k [] (b ∷ w) ha hb h = absurd (omega arith)
cmp_loop_more zero k (a ∷ v) b ha hb h = absurd (omega arith)
cmp_loop_more (suc n) zero a b ha hb h = absurd (omega arith)
cmp_loop_more (suc n) (suc k) a b ha hb h = ap (or_else (cmp (part a) (part b))) (
    cmp_loop_more n k (parts a) (parts b) (length-parts a n ha) (length-parts b n hb) (omega arith))

version_cmp_at :
    (a b : Text) (k : ℕ)
    → length (parse a) ≤ k
    → length (parse b) ≤ k
    → version_cmp a b ≡ cmp_loop k (parse a) (parse b)
unfolding version_cmp
version_cmp_at a b k ha hb =
    let va = parse a in
    let vb = parse b in
    sym (
      cmp_loop_more (max (length va) (length vb)) k va vb (ground arith) (ground arith)
        (ground arith))

-- At most: less or equal.
cmp_loop_trans :
    (n : ℕ) (a b c : List ℕ)
    → cmp_loop n a b ≢ greater
    → cmp_loop n b c ≢ greater
    → cmp_loop n a c ≢ greater
unfolding cmp_loop
cmp_loop_trans zero a b c h k = ground arith
cmp_loop_trans (suc n) a b c h k = ground (arith, cmp_loop_trans n (parts a) (parts b) (parts c))

cmp_loop_flip : (n : ℕ) (a b : List ℕ) → (cmp_loop n a b ≡ greater) ↔ (cmp_loop n b a ≡ less)
unfolding cmp_loop
cmp_loop_flip zero a b = ground arith
cmp_loop_flip (suc n) a b = ground (arith, cmp_loop_flip n (parts a) (parts b))

-- The order of versions is transitive, and one is greater exactly when the other is less.
pub version_cmp_trans :
    (a b c : Text)
    → version_cmp a b ≢ greater
    → version_cmp b c ≢ greater
    → (version_cmp a c ≢ greater) × ((version_cmp a c ≡ less) ↔ (version_cmp c a ≡ greater))
version_cmp_trans a b c h k =
    let n = max (length (parse a)) (max (length (parse b)) (length (parse c))) in
    let la : length (parse a) ≤ n = ground arith in
    let lb : length (parse b) ≤ n = ground arith in
    let lc : length (parse c) ≤ n = ground arith in
    (
      (λ g.
          cmp_loop_trans n (parse a) (parse b) (parse c) (λ x. h (version_cmp_at a b n la lb ∙ x))
            (λ x. k (version_cmp_at b c n lb lc ∙ x)) (sym (version_cmp_at a c n la lc) ∙ g)),
      ground (
        arith,
        cmp_loop_flip n (parse c) (parse a),
        version_cmp_at a c n la lc,
        version_cmp_at c a n lc la,
      ),
    )

pub version_cmp_refl : (a : Text) → version_cmp a a ≢ greater
unfolding version_cmp
version_cmp_refl a = same (max (length (parse a)) (length (parse a))) (parse a)
  where
    same : (n : ℕ) (v : List ℕ) → cmp_loop n v v ≢ greater
    same zero v = ground arith
    same (suc n) v = ground (arith, same n (parts v))

pub version_cmp_flip : (a b : Text) → (version_cmp a b ≡ greater) ↔ (version_cmp b a ≡ less)
version_cmp_flip a b =
    let n = max (length (parse a)) (length (parse b)) in
    ground (
      arith,
      cmp_loop_flip n (parse a) (parse b),
      version_cmp_at a b n (ground arith) (ground arith),
      version_cmp_at b a n (ground arith) (ground arith),
    )

-- ===== src/Prelude/Texts.antt =====
-- Text that the program walks, as the list of its code points, with the `str` methods it calls.
use Prim.Native.Nat.{ℕ, ◌+◌, ◌-◌}
use Prim.Native.Char.{code}
use Prim.Native.String.{String}
use mathlib.Core.Path.{◌≡◌, refl}
use mathlib.Core.Bool.{Bool, true, false, ◌&&◌, ◌||◌}
use mathlib.Core.Option.{Option, none, some}
use mathlib.Core.List.{List, [], ◌∷◌, ◌++◌, map}
use native.Mathlib.Omega.{arith}
use mathlib.Core.Logic.{inl, inr}
use picloud.Prelude.Tests.{if◌then◌else◌, leb, nat_beq, nat_beq_iff, Option-cases}
use picloud.Prelude.Lists.{any}

abbrev pub Text : Type 0
Text = List ℕ

abbrev pub codes : String → Text
codes String.[] = []
codes (String.◌∷◌ c s) = code c ∷ codes s

-- `str::strip_prefix`.
unfoldable pub strip_prefix : Text → Text → Option Text
strip_prefix s [] = some s
strip_prefix [] (p ∷ ps) = none
strip_prefix (c ∷ s) (p ∷ ps) = if nat_beq c p then strip_prefix s ps else none

-- `str::starts_with`.
unfoldable pub starts_with : Text → Text → Bool
starts_with s [] = true
starts_with [] (p ∷ ps) = false
starts_with (c ∷ s) (p ∷ ps) = if nat_beq c p then starts_with s ps else false

-- `s.split(c)`: the piece before the first `c`, and the pieces after it.
unfoldable pub split_head : ℕ → Text → Text
split_head c [] = []
split_head c (x ∷ s) = if nat_beq x c then [] else x ∷ split_head c s

-- `splitn(2, c)` with both pieces: what stands before and after the first `c`, where there is one.
unfoldable pub split_once : ℕ → Text → Option (Text × Text)
split_once c [] = none
split_once c (x ∷ s) =
    let rest = split_once c s in
    if nat_beq x c then some ([], s) else elim rest [ none ↦ none | some (a, b) ↦ some (x ∷ a, b) ]

-- `s.split(sep).nth(1)`, up to its end: what follows the first `sep`. (`split` ends the piece at the
-- next `sep`.)
unfoldable pub after_first : Text → Text → Option Text
unfolding strip_prefix
after_first sep [] = strip_prefix [] sep
after_first sep (x ∷ s) =
    let rest = after_first sep s in
    elim (strip_prefix (x ∷ s) sep) [ none ↦ rest | some t ↦ some t ]

-- `s.rsplit(c).next()`: the last piece.
unfoldable pub last_piece : ℕ → Text → Text
last_piece c [] = []
last_piece c (x ∷ s) =
    let rest = last_piece c s in if any (λ y. nat_beq y c) (x ∷ s) then rest else x ∷ s

abbrev pub is_empty : Text → Bool
is_empty [] = true
is_empty (c ∷ s) = false

-- `char::is_whitespace`: the code points with the property White_Space.
unfoldable pub is_whitespace : ℕ → Bool
is_whitespace c =
    (leb 9 c && leb c 13)
    || (leb 0x2000 c && leb c 0x200a)
    || any (nat_beq c) (32 ∷ 0x85 ∷ 0xa0 ∷ 0x1680 ∷ 0x2028 ∷ 0x2029 ∷ 0x202f ∷ 0x205f ∷ 0x3000 ∷ [])

-- `split_whitespace`, with the word that is being read.
abbrev flush : Text → List Text → List Text
flush [] rest = rest
flush (c ∷ w) rest = (c ∷ w) ∷ rest

unfoldable words : Text → Text → List Text
unfolding is_whitespace
words w [] = flush w []
words w (c ∷ s) = elim (is_whitespace c) [
  | true ↦ flush w (words [] s)
  | false ↦ words (w ++ c ∷ []) s
]

unfoldable pub split_whitespace : Text → List Text
unfolding words
split_whitespace s = words [] s

unfoldable pub trim_start : Text → Text
unfolding is_whitespace
trim_start [] = []
trim_start (c ∷ s) = if is_whitespace c then trim_start s else c ∷ s

unfoldable pub trim_end : Text → Text
unfolding is_whitespace
trim_end [] = []
trim_end (c ∷ s) = elim (trim_end s) [
  | [] ↦ if is_whitespace c then [] else c ∷ []
  | d ∷ t ↦ c ∷ d ∷ t
]

-- `str::trim`.
unfoldable pub trim : Text → Text
unfolding trim_start trim_end
trim s = trim_end (trim_start s)

-- `str::to_lowercase` and `str::to_uppercase`, on the letters of ASCII.
unfoldable pub lower : ℕ → ℕ
lower c = if leb b'A' c && leb c b'Z' then c + 32 else c

unfoldable upper : ℕ → ℕ
upper c = if leb b'a' c && leb c b'z' then c - 32 else c

unfoldable pub to_lowercase : Text → Text
unfolding lower
to_lowercase s = map lower s

unfoldable pub to_uppercase : Text → Text
unfolding upper
to_uppercase s = map upper s

pub strip_prefix-append : (p s : Text) → strip_prefix (p ++ s) p ≡ some s
unfolding strip_prefix
strip_prefix-append [] [] = refl
strip_prefix-append [] (c ∷ s) = refl
strip_prefix-append (c ∷ p) s = ground (arith, strip_prefix-append p s)

starts_with-append : (p s : Text) → starts_with (p ++ s) p ≡ true
unfolding starts_with
starts_with-append [] [] = refl
starts_with-append [] (c ∷ s) = refl
starts_with-append (c ∷ p) s = ground (arith, starts_with-append p s)

-- A text that has a prefix is that prefix and what `strip_prefix` leaves.
append_of_strip_prefix : (s p t : Text) → strip_prefix s p ≡ some t → s ≡ p ++ t
unfolding strip_prefix
append_of_strip_prefix [] [] t h = ground arith
append_of_strip_prefix (c ∷ s) [] t h = ground arith
append_of_strip_prefix [] (p ∷ ps) t h = ground arith
append_of_strip_prefix (c ∷ s) (p ∷ ps) t h =
    ground (arith, nat_beq_iff c p, append_of_strip_prefix s ps t)

-- The first piece of a split has no separator in it.
pub split_head-free : (c : ℕ) (s : Text) → any (λ x. nat_beq x c) (split_head c s) ≡ false
unfolding split_head
split_head-free c [] = refl
split_head-free c (x ∷ s) = ground (arith, split_head-free c s)

-- A text with no separator is its own first piece, whatever follows the separator.
split_head-append :
    (c : ℕ) (s t : Text) → any (λ x. nat_beq x c) s ≡ false → split_head c (s ++ c ∷ t) ≡ s
unfolding split_head
split_head-append c [] t h = ground arith
split_head-append c (x ∷ s) t h = ground (arith, split_head-append c s t)

lower_idem : (c : ℕ) → lower (lower c) ≡ lower c
unfolding lower
lower_idem c = ground arith

pub to_lowercase_idem : (s : Text) → to_lowercase (to_lowercase s) ≡ to_lowercase s
unfolding to_lowercase
to_lowercase_idem [] = refl
to_lowercase_idem (c ∷ s) = ground (arith, lower_idem c, to_lowercase_idem s)

-- A text is cut at its first separator.
pub split_once-append :
    (c : ℕ) (s t : Text)
    → any (λ x. nat_beq x c) s ≡ false
    → split_once c (s ++ c ∷ t) ≡ some (s, t)
unfolding split_once
split_once-append c [] t h = ground arith
split_once-append c (x ∷ s) t h = ground (arith, split_once-append c s t)

-- The pieces of a cut, with the separator between them, are the text.
pub append_of_split_once : (c : ℕ) (s a b : Text) → split_once c s ≡ some (a, b) → s ≡ a ++ c ∷ b
unfolding split_once
append_of_split_once c [] a b h = ground arith
append_of_split_once c (x ∷ s) a b h = elim (Option-cases (split_once c s)) [
  | inl e ↦ ground (arith, e, nat_beq_iff x c)
  | inr ((u, v), e) ↦ ground (arith, e, nat_beq_iff x c, append_of_split_once c s u v)
]

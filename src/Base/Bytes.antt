-- ===== src/Base/Bytes.antt =====
-- A Go string is its list of bytes. What the program uses of the package `strings`.
use Prim.Native.Nat.{ℕ, zero, suc, ◌+◌, ◌≤◌, ◌-◌, pred}
use Prim.Native.Char.{code}
use Prim.Native.String.{String}
use mathlib.Core.Path.{◌≡◌, refl}
use mathlib.Core.Bool.{Bool, ◌&&◌, ◌||◌}
use mathlib.Core.List.{List, [], ◌∷◌, reverse, reverse-cons}
use native.Mathlib.Omega.{arith}
use buzzhive.Base.Tests.{ltb, leb, if◌then◌else◌}
use buzzhive.Base.Lists.{length, take, drop, length-append, length-drop, length-take}
use buzzhive.Base.Eq.{◌==◌, nat_eq, text_eq}

abbrev pub Text : Type 0
Text = List ℕ

-- The bytes of an ASCII literal.
abbrev pub text : String → Text
text String.[] = []
text (String.◌∷◌ c s) = code c ∷ text s

-- `strings.HasSuffix` and `strings.HasPrefix`.
unfoldable pub has_suffix : Text → Text → Bool
has_suffix s t = leb (length t) (length s) && drop (length s - length t) s == t

unfoldable pub has_prefix : Text → Text → Bool
has_prefix s t = take (length t) s == t

-- `strings.TrimPrefix`.
unfoldable pub trim_prefix : Text → Text → Text
trim_prefix s p = if has_prefix s p then drop (length p) s else s

-- The width of the white space at the head of a text, 0 if there is none, as `unicode.IsSpace` and
-- UTF-8 have it.
unfoldable pub ascii_space : ℕ → Bool
ascii_space c = (leb 9 c && leb c 13) || c == 32

unfoldable pub wide_space : ℕ → ℕ → ℕ → Bool
wide_space a b c =
    (a == 0xe1 && b == 0x9a && c == 0x80)
    || (a == 0xe2 && b == 0x80 && (leb 0x80 c && leb c 0x8a))
    || (a == 0xe2 && b == 0x80 && (c == 0xa8 || c == 0xa9 || c == 0xaf))
    || (a == 0xe2 && b == 0x81 && c == 0x9f)
    || (a == 0xe3 && b == 0x80 && c == 0x80)

unfoldable pub leading_space : Text → ℕ
unfolding ascii_space wide_space
leading_space [] = 0
leading_space (a ∷ []) = if ascii_space a then 1 else 0
leading_space (a ∷ b ∷ []) =
    if ascii_space a then 1 else if a == 0xc2 && (b == 0x85 || b == 0xa0) then 2 else 0
leading_space (a ∷ b ∷ c ∷ _) =
    if ascii_space a
    then 1
    else if a == 0xc2 && (b == 0x85 || b == 0xa0)
    then 2
    else if wide_space a b c
    then 3
    else 0

-- The same at the end of a text that is given backwards.
unfoldable pub trailing_space : Text → ℕ
unfolding ascii_space wide_space
trailing_space [] = 0
trailing_space (a ∷ []) = if ascii_space a then 1 else 0
trailing_space (b ∷ a ∷ []) =
    if ascii_space b then 1 else if a == 0xc2 && (b == 0x85 || b == 0xa0) then 2 else 0
trailing_space (c ∷ b ∷ a ∷ _) =
    if ascii_space c
    then 1
    else if b == 0xc2 && (c == 0x85 || c == 0xa0)
    then 2
    else if wide_space a b c
    then 3
    else 0

unfoldable pub strip : (Text → ℕ) → ℕ → Text → Text
strip width zero s = s
strip width (suc fuel) s = elim (width s) [ zero ↦ s | suc w ↦ strip width fuel (drop (suc w) s) ]

-- `strings.TrimSpace`. Each round drops a byte at least, so the length is fuel enough.
unfoldable pub trim_space : Text → Text
unfolding strip leading_space trailing_space
trim_space s =
    let t = strip leading_space (length s) s in
    reverse (strip trailing_space (length t) (reverse t))

-- `strings.Contains`.
unfoldable pub contains : Text → Text → Bool
unfolding has_prefix
contains [] t = has_prefix [] t
contains (c ∷ s) t = has_prefix (c ∷ s) t || contains s t

abbrev pub upper_byte : ℕ → ℕ
upper_byte c = if leb b'a' c && leb c b'z' then c - 32 else c

-- `strings.ToUpper` as a search for ASCII capitals sees it: ASCII letters, and the two other letters
-- whose capitals are ASCII (U+0131 and U+017F). Bytes of other characters stay, none is ASCII.
unfoldable pub to_upper : Text → Text
to_upper [] = []
to_upper (a ∷ []) = upper_byte a ∷ []
to_upper (a ∷ b ∷ s) =
    let two = to_upper s in
    let one = to_upper (b ∷ s) in
    if a == 0xc4 && b == 0xb1
    then b'I' ∷ two
    else if a == 0xc5 && b == 0xbf
    then b'S' ∷ two
    else upper_byte a ∷ one

-- The source's `if len(s) > n { s = s[:n] }`.
unfoldable pub clip : ℕ → Text → Text
clip n s = if ltb n (length s) then take n s else s

pub length-clip_le : (n : ℕ) (s : Text) → length (clip n s) ≤ n
unfolding clip
length-clip_le n s = ground (arith, length-take n s)

pub length-reverse : (s : Text) → length (reverse s) ≡ length s
length-reverse [] = refl
length-reverse (x ∷ s) =
    omega
      (arith, ap_length (reverse-cons x s), length-append (reverse s) (x ∷ []), length-reverse s)
  where
    ap_length : {s t : Text} → s ≡ t → length s ≡ length t
    ap_length p i = length (p i)

length-strip_le : (width : Text → ℕ) (fuel : ℕ) (s : Text) → length (strip width fuel s) ≤ length s
unfolding strip
length-strip_le width zero s = omega arith
length-strip_le width (suc fuel) s = ground (
  arith,
  length-strip_le width fuel (drop (pred (width s) + 1) s),
  length-drop (pred (width s) + 1) s,
  length-strip_le width fuel (drop (width s) s),
  length-drop (width s) s,
)

pub length-trim_space_le : (s : Text) → length (trim_space s) ≤ length s
unfolding trim_space
length-trim_space_le s =
    let t = strip leading_space (length s) s in
    omega (
      arith,
      length-strip_le leading_space (length s) s,
      length-strip_le trailing_space (length t) (reverse t),
      length-reverse t,
      length-reverse (strip trailing_space (length t) (reverse t)),
    )

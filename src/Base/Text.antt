-- ===== src/Base/Text.antt =====
-- Python's `str` as the list of its code points, with the operations that the program applies.
use Prim.Native.Nat.{ℕ, zero, suc}
use Prim.Native.Char.{code}
use Prim.Native.String.{String}
use mathlib.Core.Path.{◌≡◌, refl}
use mathlib.Core.Logic.{◌↔◌}
use mathlib.Core.Bool.{Bool, true, false, ◌&&◌, ◌||◌}
use mathlib.Core.Option
use mathlib.Core.Option.{Option, none, some}
use quantum_api.Base.Lists.{length, All}
use mathlib.Core.List.{List, [], ◌∷◌, reverse}
use native.Mathlib.Omega.{arith}
use quantum_api.Base.Tests.{leb, ◌==◌, if◌then◌else◌}

abbrev pub Text : Type 0
Text = List ℕ

-- The code points of a literal.
abbrev pub codes : String → Text
codes String.[] = []
codes (String.◌∷◌ c s) = code c ∷ codes s

unfoldable pub text_eq : Text → Text → Bool
text_eq [] [] = true
text_eq (a ∷ s) (b ∷ t) = a == b && text_eq s t
text_eq _ _ = false

pub text_eq_iff : (s t : Text) → (text_eq s t ≡ true) ↔ (s ≡ t)
unfolding text_eq
text_eq_iff [] [] = ground arith
text_eq_iff (a ∷ s) (b ∷ t) = ground (arith, text_eq_iff s t)
text_eq_iff [] (b ∷ t) = ground arith
text_eq_iff (a ∷ s) [] = ground arith

pub text_eq_refl : (s : Text) → text_eq s s ≡ true
text_eq_refl s = (text_eq_iff s s).1 refl

-- `s.startswith(t)`, with the arguments as Python has them
unfoldable pub starts_with : Text → Text → Bool
starts_with s [] = true
starts_with [] (b ∷ t) = false
starts_with (a ∷ s) (b ∷ t) = a == b && starts_with s t

-- The characters that `str.strip` removes: `str.isspace` in Unicode.
abbrev pub is_space : ℕ → Bool
is_space c =
    (leb 9 c && leb c 13)
    || (leb 28 c && leb c 32)
    || c == 133
    || c == 160
    || c == 5760
    || (leb 8192 c && leb c 8202)
    || c == 8232
    || c == 8233
    || c == 8239
    || c == 8287
    || c == 12288

unfoldable pub strip_left : (ℕ → Bool) → Text → Text
strip_left p [] = []
strip_left p (c ∷ s) = if p c then strip_left p s else c ∷ s

-- `s.rstrip(…)`
unfoldable pub strip_right : (ℕ → Bool) → Text → Text
unfolding strip_left
strip_right p s = reverse (strip_left p (reverse s))

-- `s.strip()`
unfoldable pub strip : Text → Text
unfolding strip_left strip_right
strip s = strip_right is_space (strip_left is_space s)

-- `not s`
abbrev pub is_empty : Text → Bool
is_empty [] = true
is_empty (_ ∷ _) = false

-- No character of the text is the separator.
abbrev pub Lacks : ℕ → Text → Type 0
Lacks sep = All (λ c. (c == sep) ≡ false)

-- `s.split(sep, n)` for a separator of one character: at most n + 1 parts.
unfoldable pub split_first : ℕ → Text → Option (Text × Text)
split_first sep [] = none
split_first sep (c ∷ s) =
    if c == sep then some ([], s) else Option.map (λ ab. (c ∷ ab.0, ab.1)) (split_first sep s)

unfoldable pub split_max : ℕ → ℕ → Text → List Text
unfolding split_first
split_max sep zero s = s ∷ []
split_max sep (suc n) s = elim (split_first sep s) [
  | none ↦ s ∷ []
  | some (a, rest) ↦ a ∷ split_max sep n rest
]

-- `s.split(sep)`
unfoldable pub split : ℕ → Text → List Text
unfolding split_max
split sep s = split_max sep (length s) s

-- What Python's text methods take from the Unicode tables, with what it documents of ASCII.
-- `lower` is a function of the whole text, since Python's depends on the context of a letter.
abbrev pub is_alphabet : ℕ → Bool
is_alphabet c = (leb b'a' c && leb c b'z') || (leb b'0' c && leb c b'9')

pub record Unicode : Type 0 where
  pub is_alnum : ℕ → Bool
  pub lower : Text → Text
  pub is_alnum-alphabet : (c : ℕ) → is_alphabet c ≡ true → is_alnum c ≡ true
  pub lower-alphabet : (s : Text) → All (λ c. is_alphabet c ≡ true) s → lower s ≡ s

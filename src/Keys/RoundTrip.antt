-- ===== src/Keys/RoundTrip.antt =====
-- The text of a key and its prefix: what is formatted is parsed back, unless the configured format
-- prefix has an underscore, in which case no key parses.
use mathlib.Core.Option
use mathlib.Core.Bool.{false≢true}
use quantum_api.Base.{
  ℕ, zero, suc, ◌≤◌, ◌%◌, ◌<◌, ◌≡◌, refl, ap, ◌∙◌, sym, inl, inr, true, false, Option, none, some,
  List, [], ◌∷◌, ◌++◌, arith, ◌==◌, ltb, length, All, any, Bool-cases, Option-cases,
}
use quantum_api.Base.Text.{
  Text, Unicode, Lacks, is_alphabet, text_eq, text_eq_iff, text_eq_refl, split_first, split_max,
  is_empty,
}
use quantum_api.Config.{Settings}
use quantum_api.Keys.Format.{
  all_alnum, is_alnum, prefix_from_parts, parse_api_key_prefix, format_raw_key, random_token,
  alphabet_at,
}

abbrev pub IsToken : Text → Type 0
IsToken = All (λ c. is_alphabet c ≡ true)

split_first-join :
    (sep : ℕ) (a rest : Text) → Lacks sep a → split_first sep (a ++ (sep ∷ rest)) ≡ some (a, rest)
unfolding split_first
split_first-join sep [] rest h = ground arith
split_first-join sep (c ∷ a) rest h = rw (h.0, split_first-join sep a rest h.1)

-- What stands before the first separator has none.
abbrev HeadLacks : ℕ → Option (Text × Text) → Type 0
HeadLacks sep none = Unit
HeadLacks sep (some (a, rest)) = Lacks sep a

HeadLacks-cons :
    (sep c : ℕ) (r : Option (Text × Text))
    → (c == sep) ≡ false
    → HeadLacks sep r
    → HeadLacks sep (Option.map (λ ab. (c ∷ ab.0, ab.1)) r)
HeadLacks-cons sep c none e h = tt
HeadLacks-cons sep c (some (a, rest)) e h = (e, h)

split_first-HeadLacks : (sep : ℕ) (s : Text) → HeadLacks sep (split_first sep s)
unfolding split_first
split_first-HeadLacks sep [] = tt
split_first-HeadLacks sep (c ∷ s) = elim (Bool-cases (c == sep)) [
  | inl here ↦ rw here tt
  | inr there ↦
      rw there (HeadLacks-cons sep c (split_first sep s) there (split_first-HeadLacks sep s))
]

split_max_three :
    (sep : ℕ) (a b c : Text)
    → Lacks sep a
    → Lacks sep b
    → split_max sep 2 (a ++ (sep ∷ (b ++ (sep ∷ c)))) ≡ a ∷ b ∷ c ∷ []
unfolding split_max
split_max_three sep a b c h k =
    rw (split_first-join sep a (b ++ (sep ∷ c)) h, split_max)
      (rw (split_first-join sep b c k, split_max))

is_empty-append : (a b : Text) (c : ℕ) → is_empty (a ++ (c ∷ b)) ≡ false
is_empty-append [] b c = refl
is_empty-append (x ∷ a) b c = refl

Lacks-token : (s : Text) → IsToken s → Lacks b'_' s
Lacks-token [] h = tt
Lacks-token (c ∷ s) h = (ground arith, Lacks-token s h.1)

all_alnum-token : (u : Unicode) (s : Text) → IsToken s → all_alnum u s ≡ true
unfolding all_alnum
all_alnum-token u [] h = refl
all_alnum-token u (c ∷ s) h = rw (u.is_alnum-alphabet c h.0, all_alnum-token u s h.1)

is_alnum-token : (u : Unicode) (s : Text) → IsToken s → 4 ≤ length s → is_alnum u s ≡ true
unfolding is_alnum
is_alnum-token u [] h l = absurd (omega arith)
is_alnum-token u (c ∷ s) h l = all_alnum-token u (c ∷ s) h

alphabet_at-alphabet : (i : ℕ) → i < 36 → is_alphabet (alphabet_at i) ≡ true
unfolding alphabet_at
alphabet_at-alphabet i h = ground arith

pub random_token-IsToken : (source : ℕ → ℕ) (n : ℕ) → IsToken (random_token source n)
unfolding random_token
random_token-IsToken source zero = tt
random_token-IsToken source (suc n) =
    (alphabet_at-alphabet (source n % 36) (omega arith), random_token-IsToken source n)

pub length-random_token : (source : ℕ → ℕ) (n : ℕ) → length (random_token source n) ≡ n
unfolding random_token
length-random_token source zero = refl
length-random_token source (suc n) = ap suc (length-random_token source n)

prefix_from_three :
    (u : Unicode) (format prefix secret : Text)
    → IsToken prefix
    → 4 ≤ length prefix
    → 12 ≤ length secret
    → prefix_from_parts u format (format ∷ prefix ∷ secret ∷ []) ≡ some prefix
unfolding prefix_from_parts
prefix_from_three u format prefix secret token p q =
    let long : ltb (length prefix) 4 ≡ false = ground arith in
    let hidden : ltb (length secret) 12 ≡ false = ground arith in
    rw (text_eq_refl format, long, hidden, is_alnum-token u prefix token p)
      (ap some (u.lower-alphabet prefix token))

-- A key formatted from a token as its prefix and a secret that is long enough is parsed back to that
-- prefix, provided the format prefix has no underscore.
pub parse-format :
    (u : Unicode) (s : Settings) (prefix secret : Text)
    → Lacks b'_' s.api_key_format_prefix
    → IsToken prefix
    → 4 ≤ length prefix
    → 12 ≤ length secret
    → parse_api_key_prefix u s.api_key_format_prefix (some (format_raw_key s prefix secret))
      ≡ some prefix
unfolding parse_api_key_prefix format_raw_key
parse-format u s prefix secret plain token p q =
    let f = s.api_key_format_prefix in
    rw (is_empty-append f (prefix ++ (b'_' ∷ secret)) b'_') (
      rw (split_max_three b'_' f prefix secret plain (Lacks-token prefix token))
        (prefix_from_three u f prefix secret token p q))

any-Lacks : (sep : ℕ) (s : Text) → Lacks sep s → any (λ c. c == sep) s ≡ false
any-Lacks sep [] h = refl
any-Lacks sep (c ∷ s) h = rw h.0 (any-Lacks sep s h.1)

prefix_from_others :
    (u : Unicode) (format a : Text) (parts : List Text)
    → text_eq a format ≡ false
    → prefix_from_parts u format (a ∷ parts) ≡ none
unfolding prefix_from_parts
prefix_from_others u format a [] h = refl
prefix_from_others u format a (b ∷ []) h = refl
prefix_from_others u format a (b ∷ c ∷ []) h = rw h
prefix_from_others u format a (b ∷ c ∷ d ∷ parts) h = refl

parts_underscore :
    (u : Unicode) (format raw : Text)
    → any (λ c. c == b'_') format ≡ true
    → prefix_from_parts u format (split_max b'_' 2 raw) ≡ none
unfolding split_max
parts_underscore u format raw h = elim (Option-cases (split_first b'_' raw)) [
  | inl whole ↦ rw (whole, split_max) (unfold prefix_from_parts in refl)
  | inr ((a, rest), e) ↦
      let lacks = rw (e, HeadLacks) at (split_first-HeadLacks b'_' raw) in
      elim (Bool-cases (text_eq a format)) [
        | inr differ ↦
            rw (e, split_max) (prefix_from_others u format a (split_max b'_' 1 rest) differ)
        | inl same ↦
            let eq : a ≡ format = (text_eq_iff a format).0 same in
            absurd (false≢true (sym (any-Lacks b'_' a lacks) ∙ rw eq h))
      ]
]

-- With an underscore in the format prefix no text is a key: every key that the service hands out
-- would be refused.
pub parse_underscore :
    (u : Unicode) (format : Text) (raw : Option Text)
    → any (λ c. c == b'_') format ≡ true
    → parse_api_key_prefix u format raw ≡ none
unfolding parse_api_key_prefix
parse_underscore u format none h = refl
parse_underscore u format (some []) h = refl
parse_underscore u format (some (c ∷ raw)) h = parts_underscore u format (c ∷ raw) h

-- ===== src/Keys/Format.antt =====
-- The text of an API key: parse_api_key_prefix, mask_api_key, _format_raw_key and _random_token of
-- src/quantum_api/key_management.py.
use quantum_api.Base.{
  ℕ, zero, suc, ◌+◌, ◌-◌, ◌%◌, Bool, true, not, ◌&&◌, ◌||◌, Option, none, some, List, [], ◌∷◌, ◌++◌,
  ltb, length, if◌then◌else◌,
}
use quantum_api.Base.Text.{Text, Unicode, codes, text_eq, split_max, is_empty}
use quantum_api.Config.{Settings}

module _ (u : Unicode) where
  unfoldable pub all_alnum : Text → Bool
  all_alnum [] = true
  all_alnum (c ∷ s) = u.is_alnum c && all_alnum s

  -- `s.isalnum()`
  unfoldable pub is_alnum : Text → Bool
  unfolding all_alnum
  is_alnum s = not (is_empty s) && all_alnum s

  -- What the function does with the parts of `raw_api_key.split("_", 2)`.
  unfoldable pub prefix_from_parts : Text → List Text → Option Text
  unfolding is_alnum
  prefix_from_parts format (prefix_token ∷ prefix ∷ secret ∷ []) =
      if not (text_eq prefix_token format)
      then none
      else if ltb (length prefix) 4 || ltb (length secret) 12
      then none
      else if not (is_alnum prefix)
      then none
      else some (u.lower prefix)
  prefix_from_parts format _ = none

  unfoldable pub parse_api_key_prefix : Text → Option Text → Option Text
  unfolding prefix_from_parts
  parse_api_key_prefix format none = none
  parse_api_key_prefix format (some raw) =
      if is_empty raw then none else prefix_from_parts format (split_max b'_' 2 raw)

unfoldable pub mask_api_key : Text → Text → Text
mask_api_key prefix format = format ++ codes "_" ++ prefix ++ codes "_********"

-- `_format_raw_key`
unfoldable pub format_raw_key : Settings → Text → Text → Text
format_raw_key s prefix secret = s.api_key_format_prefix ++ (b'_' ∷ (prefix ++ (b'_' ∷ secret)))

-- `_ALPHABET[i]`, for i below 36
unfoldable pub alphabet_at : ℕ → ℕ
alphabet_at i = if ltb i 26 then b'a' + i else b'0' + (i - 26)

-- `_random_token`: the random source gives one number for each place, and `secrets.choice` takes
-- its residue as the index.
unfoldable pub random_token : (ℕ → ℕ) → ℕ → Text
unfolding alphabet_at
random_token source zero = []
random_token source (suc n) = alphabet_at (source n % 36) ∷ random_token source n

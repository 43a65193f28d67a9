-- ===== src/Qasm.antt =====
-- The reading and writing of OpenQASM in src/quantum_api/services/circuit_conversion.py.
pub mod Parsed
use quantum_api.Base.{
  ℕ, suc, Bool, true, false, not, ◌&&◌, ◌||◌, Option, none, some, List, [], ◌∷◌, ◌==◌, leb, ◌+◌,
  if◌then◌else◌,
}
use quantum_api.Base.Text.{Text, codes, is_space}
use quantum_api.Base.Transaction.{Result, ok, err}

pub data OutputQasmVersion : Type 0 where
  qasm2 qasm3 : OutputQasmVersion

-- `auto`, or a version that is asked for.
pub data QasmVersion : Type 0 where
  auto : QasmVersion
  explicit : OutputQasmVersion → QasmVersion

-- What a parser or a printer of Qiskit gives: a value, or an exception with its text, which says that
-- `qiskit_qasm3_import` is missing or something else.
pub data Converted (A : Type 0) : Type 0 where
  converted : A → Converted A
  import_missing failed : Text → Converted A

-- The two errors, with the texts of the parsers by version.
pub data QasmError : Type 0 where
  dependency_missing parse_error : List (OutputQasmVersion × Text) → QasmError
  qiskit_unavailable : QasmError

abbrev pub lower_code : ℕ → ℕ
lower_code c = if leb b'A' c && leb c b'Z' then c + 32 else c

-- A letter of the pattern, in any case; the long s is an s there.
abbrev pub matches_letter : ℕ → ℕ → Bool
matches_letter p c = (lower_code p == lower_code c) || ((lower_code p == b's') && (c == 383))

-- The text after a literal at its start, if it is there.
unfoldable pub after_literal : Text → Text → Option Text
after_literal [] s = some s
after_literal (p ∷ ps) [] = none
after_literal (p ∷ ps) (c ∷ s) =
    let rest = after_literal ps s in if matches_letter p c then rest else none

unfoldable pub skip_spaces : Text → Text
skip_spaces [] = []
skip_spaces (c ∷ s) = let rest = skip_spaces s in if is_space c then rest else c ∷ s

-- The first digit of a version after the word: one white space at least, then a digit.
unfoldable pub version_digit : (ℕ → Bool) → Text → Option ℕ
unfolding skip_spaces
version_digit is_digit [] = none
version_digit is_digit (c ∷ s) =
    if not (is_space c)
    then none
    else elim (skip_spaces s) [ [] ↦ none | d ∷ _ ↦ if is_digit d then some d else none ]

abbrev pub header_here : (ℕ → Bool) → Option Text → Option ℕ
header_here is_digit none = none
header_here is_digit (some rest) = version_digit is_digit rest

-- `re.search` of the header; `is_digit` is what `\d` matches.
unfoldable pub search_header : (ℕ → Bool) → Text → Option ℕ
unfolding after_literal version_digit
search_header is_digit [] = none
search_header is_digit (c ∷ s) =
    let later = search_header is_digit s in
    elim (header_here is_digit (after_literal (codes "OPENQASM") (c ∷ s))) [
      | none ↦ later
      | some d ↦ some d
    ]

unfoldable pub detect_qasm_version_hint : (ℕ → Bool) → Text → OutputQasmVersion
unfolding search_header
detect_qasm_version_hint is_digit source = elim (search_header is_digit source) [
  | none ↦ qasm2
  | some d ↦ if d == b'3' then qasm3 else qasm2
]

-- Qiskit: whether it is installed, and its parsers and printers by version.
pub record QasmLibrary (Circuit : Type 0) : Type 0 where
  pub available : Bool
  pub loads : OutputQasmVersion → Text → Converted Circuit
  pub dumps : OutputQasmVersion → Circuit → Converted Text

-- What one conversion gives; only the importer of version 3 can be missing.
unfoldable pub convert : {A : Type 0} → OutputQasmVersion → Converted A → Result QasmError A
convert version (converted a) = ok a
convert qasm3 (import_missing text) = err (dependency_missing ((qasm3, text) ∷ []))
convert qasm2 (import_missing text) = err (parse_error ((qasm2, text) ∷ []))
convert version (failed text) = err (parse_error ((version, text) ∷ []))

abbrev pub missing_text : Text
missing_text = codes "missing optional dependency qiskit_qasm3_import"

module _ {Circuit : Type 0} (l : QasmLibrary Circuit) where
  unfoldable pub parse_qasm_with_version : OutputQasmVersion → Text → Result QasmError Circuit
  unfolding convert
  parse_qasm_with_version version source = convert version (l.loads version source)

  -- A circuit with the version that it was read in.
  abbrev pub with_version :
      OutputQasmVersion → Result QasmError Circuit → Result QasmError (Circuit × OutputQasmVersion)
  with_version version (ok circuit) = ok (circuit, version)
  with_version version (err e) = err e

  -- The end of the loop over the versions.
  abbrev pub unparsed :
      Bool → List (OutputQasmVersion × Text) → Result QasmError (Circuit × OutputQasmVersion)
  unparsed missing errors =
      if missing then err (dependency_missing errors) else err (parse_error errors)

  -- The loop over the versions that are still to be tried: without its importer, version 3 ends it.
  unfoldable pub try_versions :
      Text
      → Bool
      → List (OutputQasmVersion × Text)
      → List OutputQasmVersion
      → Result QasmError (Circuit × OutputQasmVersion)
  unfolding parse_qasm_with_version
  try_versions source missing errors [] = unparsed missing errors
  try_versions source missing errors (version ∷ versions) =
      let missed = try_versions source true ((qasm3, missing_text) ∷ errors) versions in
      let next =
        λ (texts : List (OutputQasmVersion × Text)). try_versions source missing texts versions in
      elim (parse_qasm_with_version version source) [
        | ok circuit ↦ ok (circuit, version)
        | err (dependency_missing texts) ↦ elim version [
          | qasm3 ↦ unparsed true ((qasm3, missing_text) ∷ errors)
          | qasm2 ↦ missed
        ]
        | err (parse_error texts) ↦ elim texts [
          | [] ↦ next errors
          | text ∷ _ ↦ next (text ∷ errors)
        ]
        | err qiskit_unavailable ↦ err qiskit_unavailable
      ]

  abbrev pub parse_order : OutputQasmVersion → List OutputQasmVersion
  parse_order qasm3 = qasm3 ∷ qasm2 ∷ []
  parse_order qasm2 = qasm2 ∷ qasm3 ∷ []

  unfoldable pub parse_qasm :
      (ℕ → Bool) → Text → QasmVersion → Result QasmError (Circuit × OutputQasmVersion)
  unfolding parse_qasm_with_version try_versions detect_qasm_version_hint
  parse_qasm is_digit source version =
      if not l.available then err qiskit_unavailable else elim version [
        | explicit v ↦ with_version v (parse_qasm_with_version v source)
        | auto ↦
            try_versions source false [] (parse_order (detect_qasm_version_hint is_digit source))
      ]

  unfoldable pub export_qasm : Circuit → OutputQasmVersion → Result QasmError Text
  unfolding convert
  export_qasm circuit version = convert version (l.dumps version circuit)

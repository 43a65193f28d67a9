-- ===== src/Examples/Qasm.antt =====
-- A program whose header hints at version 3, with an importer of 3 and a parser of 2.
use quantum_api.Base.{ℕ, ◌≡◌, refl, true, Bool, leb, ◌&&◌}
use quantum_api.Base.Text.{Text, codes}
use quantum_api.Qasm.{
  OutputQasmVersion, qasm3, auto, Converted, converted, failed, QasmLibrary, after_literal,
  skip_spaces, version_digit, search_header, detect_qasm_version_hint, parse_qasm,
}
use quantum_api.Qasm.Parsed.{Explains, parse_qasm-Explains}

abbrev digit : ℕ → Bool
digit c = leb b'0' c && leb c b'9'

abbrev program : Text
program = codes "// openqasm\nOpenQASM 3.0; qubit q;"

-- Both parsers give the number 1 as the circuit.
abbrev takes_all : OutputQasmVersion → Text → Converted ℕ
takes_all version source = converted 1

abbrev library : QasmLibrary ℕ
library = record {
  available = true;
  loads = takes_all;
  dumps = λ version circuit. failed (codes "no");
}

hints_at_three : detect_qasm_version_hint digit program ≡ qasm3
unfolding detect_qasm_version_hint search_header after_literal version_digit skip_spaces
hints_at_three = refl

parse_qasm-Explains_example :
    Explains library program
      (detect_qasm_version_hint digit program)
      (parse_qasm library digit program auto)
parse_qasm-Explains_example = parse_qasm-Explains library program digit refl

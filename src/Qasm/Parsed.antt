-- ===== src/Qasm/Parsed.antt =====
-- Which version a program without a given version is read in.
use quantum_api.Base.{ℕ, ◌⊎◌, ◌≡◌, ◌≢◌, refl, sym, ◌∙◌, inl, inr, Bool, true, false, List, [], ◌∷◌}
use quantum_api.Base.Text.{Text}
use quantum_api.Base.Transaction.{Result, ok, err}
use quantum_api.Qasm.{
  OutputQasmVersion, qasm2, qasm3, auto, Converted, converted, import_missing, failed, QasmError,
  dependency_missing, parse_error, QasmLibrary, convert, parse_qasm_with_version, try_versions,
  parse_order, detect_qasm_version_hint, parse_qasm,
}

abbrev pub other_version : OutputQasmVersion → OutputQasmVersion
other_version qasm2 = qasm3
other_version qasm3 = qasm2

Converted-cases :
    {A : Type 0} (x : Converted A)
    → ((a : A) × (x ≡ converted a))
      ⊎ ((t : Text) × (x ≡ import_missing t))
      ⊎ ((t : Text) × (x ≡ failed t))
Converted-cases (converted a) = inl (a, refl)
Converted-cases (import_missing t) = inr (inl (t, refl))
Converted-cases (failed t) = inr (inr (t, refl))

module _ {Circuit : Type 0} (l : QasmLibrary Circuit) (source : Text) where
  -- The parser of a version does not take the program.
  abbrev pub Rejects : OutputQasmVersion → Type 0
  Rejects version = (c : Circuit) → l.loads version source ≢ converted c

  -- What an answer says of the parsers, by the version that the header hints at.
  pub data Explains (hint : OutputQasmVersion)
      : Result QasmError (Circuit × OutputQasmVersion) → Type 0 where
    preferred : {c : Circuit} → l.loads hint source ≡ converted c → Explains hint (ok (c, hint))
    second :
        {c : Circuit}
        → Rejects hint
        → l.loads (other_version hint) source ≡ converted c
        → Explains hint (ok (c, other_version hint))
    missing :
        {texts : List (OutputQasmVersion × Text)} (t : Text)
        → l.loads qasm3 source ≡ import_missing t
        → (hint ≡ qasm3) ⊎ Rejects qasm2
        → Explains hint (err (dependency_missing texts))
    neither :
        {texts : List (OutputQasmVersion × Text)}
        → Rejects qasm2
        → Rejects qasm3
        → Explains hint (err (parse_error texts))

  not_imported :
      (version : OutputQasmVersion) (t : Text)
      → l.loads version source ≡ import_missing t
      → Rejects version
  not_imported version t h c e = cc (sym h ∙ e)

  not_read :
      (version : OutputQasmVersion) (t : Text) → l.loads version source ≡ failed t → Rejects version
  not_read version t h c e = cc (sym h ∙ e)

  -- The last version that is tried is 3.
  then_three :
      (texts : List (OutputQasmVersion × Text))
      → Rejects qasm2
      → Explains qasm2 (try_versions l source false texts (qasm3 ∷ []))
  unfolding try_versions parse_qasm_with_version convert
  then_three texts two = elim (Converted-cases (l.loads qasm3 source)) [
    | inl (c, takes) ↦ rw (try_versions, parse_qasm_with_version, takes, convert) (second two takes)
    | inr (inl (t, lacks)) ↦
        rw (try_versions, parse_qasm_with_version, lacks, convert) (missing t lacks (inr two))
    | inr (inr (t, fails)) ↦
        rw (try_versions, parse_qasm_with_version, fails, convert)
          (neither two (not_read qasm3 t fails))
  ]

  -- The last version that is tried is 2.
  then_two :
      (texts : List (OutputQasmVersion × Text))
      → Rejects qasm3
      → Explains qasm3 (try_versions l source false texts (qasm2 ∷ []))
  unfolding try_versions parse_qasm_with_version convert
  then_two texts three = elim (Converted-cases (l.loads qasm2 source)) [
    | inl (c, takes) ↦
        rw (try_versions, parse_qasm_with_version, takes, convert) (second three takes)
    | inr (inl (t, lacks)) ↦
        rw (try_versions, parse_qasm_with_version, lacks, convert)
          (neither (not_imported qasm2 t lacks) three)
    | inr (inr (t, fails)) ↦
        rw (try_versions, parse_qasm_with_version, fails, convert)
          (neither (not_read qasm2 t fails) three)
  ]

  in_order :
      (hint : OutputQasmVersion)
      → Explains hint (try_versions l source false [] (parse_order l hint))
  unfolding try_versions parse_qasm_with_version convert
  in_order qasm2 = elim (Converted-cases (l.loads qasm2 source)) [
    | inl (c, takes) ↦ rw (try_versions, parse_qasm_with_version, takes, convert) (preferred takes)
    | inr (inl (t, lacks)) ↦
        rw (try_versions, parse_qasm_with_version, lacks, convert)
          (then_three _ (not_imported qasm2 t lacks))
    | inr (inr (t, fails)) ↦
        rw (try_versions, parse_qasm_with_version, fails, convert)
          (then_three _ (not_read qasm2 t fails))
  ]
  in_order qasm3 = elim (Converted-cases (l.loads qasm3 source)) [
    | inl (c, takes) ↦ rw (try_versions, parse_qasm_with_version, takes, convert) (preferred takes)
    | inr (inl (t, lacks)) ↦
        rw (try_versions, parse_qasm_with_version, lacks, convert) (missing t lacks (inl refl))
    | inr (inr (t, fails)) ↦
        rw (try_versions, parse_qasm_with_version, fails, convert)
          (then_two _ (not_read qasm3 t fails))
  ]

  -- With Qiskit there, a program without a given version is read in the version that its header hints
  -- at if that parser takes it, and in the other only if it does not. A parse error means that neither
  -- parser takes it; a missing dependency that the importer of version 3 is missing, and that the
  -- program hints at 3 or is none of version 2.
  pub parse_qasm-Explains :
      (is_digit : ℕ → Bool)
      → l.available ≡ true
      → Explains (detect_qasm_version_hint is_digit source) (parse_qasm l is_digit source auto)
  unfolding parse_qasm
  parse_qasm-Explains is_digit available =
      simp (parse_qasm, available) (in_order (detect_qasm_version_hint is_digit source))

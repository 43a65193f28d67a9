-- ===== src/Backends/Lookup.antt =====
-- The look-up of one backend in src/quantum_api/services/backend_catalog.py, and the checks on it.
use quantum_api.Base.{
  ℕ, Bool, true, false, not, ◌&&◌, ◌||◌, Option, none, some, List, ◌==◌, ltb, any, find,
  if◌then◌else◌,
}
use quantum_api.Base.Text.{Text, text_eq}
use quantum_api.Base.Transaction.{Result, ok, err}
use quantum_api.Backends.{
  Provider, aer, ibm, Backend, BackendError, provider_unavailable, backend_not_found,
  hardware_required, qubits_exceeded, broken, Runtime, legacy_aer_backend_names, first_of,
  configured, name_of, backend_qubit_count,
}

-- `_get_aer_backend`
unfoldable pub get_aer_backend : Runtime → Text → Option Backend
get_aer_backend rt name = elim rt.aer [
  | none ↦ none
  | some get ↦ if any (text_eq name) legacy_aer_backend_names then none else get name
]

-- The search by name where the service does not know it; it lists without looking at configurations.
abbrev pub find_listed : Text → Option (List Backend) → Result BackendError (Option Backend)
find_listed name none = err broken
find_listed name (some bs) = ok (find (λ b. text_eq (name_of b.name) name) bs)

-- `_get_ibm_backend`
unfoldable pub get_ibm_backend : Runtime → Text → Result BackendError (Option Backend)
get_ibm_backend rt name = elim rt.ibm [
  | err e ↦ err e
  | ok service ↦ elim (service.backend name) [
    | some b ↦ ok (some b)
    | none ↦ find_listed name service.backends
  ]
]

-- The second part of `resolve_backend`; `only` says that no other provider was asked for.
unfoldable pub resolve_ibm :
    Bool → Result BackendError (Option Backend) → Result BackendError (Provider × Backend)
resolve_ibm only (ok (some b)) = ok (ibm, b)
resolve_ibm only (ok none) = err backend_not_found
resolve_ibm only (err provider_unavailable) =
    if only then err provider_unavailable else err backend_not_found
resolve_ibm only (err e) = err e

unfoldable pub resolve_backend :
    Runtime → Text → Option Provider → Result BackendError (Provider × Backend)
unfolding get_aer_backend get_ibm_backend resolve_ibm
resolve_backend rt name (some aer) = elim (get_aer_backend rt name) [
  | some b ↦ ok (aer, b)
  | none ↦ err backend_not_found
]
resolve_backend rt name (some ibm) = resolve_ibm true (get_ibm_backend rt name)
resolve_backend rt name none = elim (get_aer_backend rt name) [
  | some b ↦ ok (aer, b)
  | none ↦ resolve_ibm false (get_ibm_backend rt name)
]

abbrev pub is_ibm : Provider → Bool
is_ibm aer = false
is_ibm ibm = true

-- `simulator is not False`
abbrev pub is_false : Option Bool → Bool
is_false none = false
is_false (some b) = not b

unfoldable pub ensure_backend_is_hardware : Provider → Backend → Option BackendError
ensure_backend_is_hardware provider b =
    if not (is_ibm provider)
      || not (is_false (first_of (configured (λ c. c.simulator) b) b.simulator))
    then some hardware_required
    else none

unfoldable pub ensure_backend_supports_qubits : Backend → ℕ → Option BackendError
unfolding backend_qubit_count
ensure_backend_supports_qubits b required_qubits =
    let available_qubits = backend_qubit_count b in
    if not (available_qubits == 0) && ltb available_qubits required_qubits
    then some qubits_exceeded
    else none

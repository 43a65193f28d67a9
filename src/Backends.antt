-- ===== src/Backends.antt =====
-- src/quantum_api/services/backend_catalog.py: the listing of backends, the look-up of one, and the
-- checks on it. What Qiskit gives of a backend is data; an attribute that is missing, or a call that
-- raises, is `none`.
pub mod Listed
pub mod Lookup
use quantum_api.Base.{
  ℕ, Bool, true, false, not, ◌&&◌, ◌||◌, Option, none, some, List, [], ◌∷◌, ◌++◌, ◌==◌, ltb, leb,
  length, map, select, any, if◌then◌else◌,
}
use quantum_api.Base.Text.{Text, codes, text_eq, is_empty}
use quantum_api.Base.Transaction.{Result, ok, err}

pub data Provider : Type 0 where
  aer ibm : Provider

pub record Configuration : Type 0 where
  pub backend_name : Option Text
  pub simulator : Option Bool
  pub n_qubits : Option ℕ
  pub basis_gates : List Text
  pub coupling_map : Option (List (List ℕ))

-- The attribute `name`: a text, or a method with what it returns and how it is printed itself.
pub data NameAttribute : Type 0 where
  unnamed : NameAttribute
  name_text : Text → NameAttribute
  name_method : Option Text → Text → NameAttribute

pub record Backend : Type 0 where
  pub configuration : Option Configuration
  pub name : NameAttribute
  pub simulator : Option Bool
  pub num_qubits : Option ℕ
  pub n_qubits : Option ℕ

-- A service of the IBM runtime.
pub record Service : Type 0 where
  pub backends : Option (List Backend)
  pub backend : Text → Option Backend

-- The QuantumApiServiceErrors, the RuntimeError without Qiskit, and `broken` for the provider's own.
pub data BackendError : Type 0 where
  qiskit_missing provider_unavailable credentials_invalid backend_not_found hardware_required :
      BackendError
  qubits_exceeded broken : BackendError

-- Qiskit as it is installed: `aer` is there with its `get_backend`, and `ibm` is what
-- `build_ibm_service` gives or raises, no credentials included.
pub record Runtime : Type 0 where
  pub qiskit_available : Bool
  pub aer : Option (Text → Option Backend)
  pub ibm : Result BackendError Service

abbrev pub legacy_aer_backend_names : List Text
legacy_aer_backend_names =
    codes "qasm_simulator" ∷ codes "statevector_simulator" ∷ codes "unitary_simulator" ∷ []

abbrev pub modern_aer_backend_candidates : List Text
modern_aer_backend_candidates =
    codes "aer_simulator"
    ∷ codes "aer_simulator_statevector"
    ∷ codes "aer_simulator_density_matrix"
    ∷ codes "aer_simulator_stabilizer"
    ∷ codes "aer_simulator_matrix_product_state"
    ∷ codes "aer_simulator_extended_stabilizer"
    ∷ codes "aer_simulator_unitary"
    ∷ codes "aer_simulator_superop"
    ∷ []

-- The first of two optional values that is there.
abbrev pub first_of {ℓ} : {A : Type ℓ} → Option A → Option A → Option A
first_of none second = second
first_of (some a) second = some a

abbrev pub or_default {ℓ} : {A : Type ℓ} → Option A → A → A
or_default none a = a
or_default (some b) a = b

abbrev pub configured {ℓ} : {A : Type ℓ} → (Configuration → Option A) → Backend → Option A
configured f b = elim b.configuration [ none ↦ none | some c ↦ f c ]

-- `_backend_qubit_count`
unfoldable pub backend_qubit_count : Backend → ℕ
backend_qubit_count b =
    or_default (first_of (configured (λ c. c.n_qubits) b) (first_of b.num_qubits b.n_qubits)) 0

-- `_backend_simulator_flag`
unfoldable pub backend_simulator_flag : Backend → Bool
backend_simulator_flag b = or_default (first_of (configured (λ c. c.simulator) b) b.simulator) false

abbrev pub name_of : NameAttribute → Text
name_of unnamed = codes "unknown_backend"
name_of (name_text t) = if is_empty t then codes "unknown_backend" else t
name_of (name_method (some t) printed) = t
name_of (name_method none printed) = printed

-- `_backend_name` with and without the configuration
unfoldable pub backend_name_of : Option Configuration → Backend → Text
backend_name_of none b = name_of b.name
backend_name_of (some c) b =
    let given = or_default c.backend_name [] in if is_empty given then name_of b.name else given

-- The order of Python's `str`.
unfoldable pub text_le : Text → Text → Bool
text_le [] t = true
text_le (c ∷ s) [] = false
text_le (c ∷ s) (d ∷ t) = let rest = text_le s t in ltb c d || ((c == d) && rest)

-- `sorted`, which is stable, by an order.
unfoldable pub insert_by {ℓ} : {A : Type ℓ} → (A → A → Bool) → A → List A → List A
insert_by le a [] = a ∷ []
insert_by le a (b ∷ bs) = let rest = b ∷ insert_by le a bs in if le a b then a ∷ b ∷ bs else rest

unfoldable pub sort_by {ℓ} : {A : Type ℓ} → (A → A → Bool) → List A → List A
unfolding insert_by
sort_by le [] = []
sort_by le (a ∷ rest) = insert_by le a (sort_by le rest)

pub record CouplingSummary : Type 0 where
  pub present : Bool
  pub edge_count : ℕ
  pub connected_qubit_count : ℕ

-- The set of the qubits of the edges.
abbrev pub add_qubits : List ℕ → List ℕ → List ℕ
add_qubits seen [] = seen
add_qubits seen (q ∷ qs) = add_qubits (if any (λ x. x == q) seen then seen else q ∷ seen) qs

abbrev pub edge_qubits : List ℕ → List (List ℕ) → List ℕ
edge_qubits seen [] = seen
edge_qubits seen (e ∷ es) = edge_qubits (add_qubits seen e) es

unfoldable pub summarize_coupling_map : Option (List (List ℕ)) → CouplingSummary
summarize_coupling_map none = record { present = false; edge_count = 0; connected_qubit_count = 0 }
summarize_coupling_map (some edges) = record {
  present = true;
  edge_count = length edges;
  connected_qubit_count = length (edge_qubits [] edges);
}

pub record Entry : Type 0 where
  pub name : Text
  pub provider : Provider
  pub is_simulator : Bool
  pub is_hardware : Bool
  pub num_qubits : ℕ
  pub basis_gates : List Text
  pub coupling_map_summary : CouplingSummary

abbrev pub gates_of : Option Configuration → List Text
gates_of none = []
gates_of (some c) = c.basis_gates

unfoldable pub serialize_backend : Provider → Backend → Entry
unfolding backend_qubit_count backend_simulator_flag backend_name_of sort_by text_le
    summarize_coupling_map
serialize_backend provider b = record {
  name = backend_name_of b.configuration b;
  provider = provider;
  is_simulator = backend_simulator_flag b;
  is_hardware = not (backend_simulator_flag b);
  num_qubits = backend_qubit_count b;
  basis_gates = sort_by text_le (gates_of b.configuration);
  coupling_map_summary = summarize_coupling_map (configured (λ c. c.coupling_map) b);
}

-- The candidates that load.
abbrev pub loaded : (Text → Option Backend) → List Text → List Backend
loaded get [] = []
loaded get (name ∷ names) =
    let rest = loaded get names in elim (get name) [ none ↦ rest | some b ↦ b ∷ rest ]

unfoldable pub list_aer_backends : Runtime → Result BackendError (List Backend)
list_aer_backends rt = elim rt.aer [
  | none ↦ err provider_unavailable
  | some get ↦ elim (loaded get modern_aer_backend_candidates) [
    | [] ↦ err provider_unavailable
    | b ∷ bs ↦ ok (b ∷ bs)
  ]
]

unfoldable pub list_ibm_backends : Runtime → Result BackendError (List Backend)
list_ibm_backends rt = elim rt.ibm [
  | err e ↦ err e
  | ok service ↦ elim service.backends [ none ↦ err provider_unavailable | some bs ↦ ok bs ]
]

abbrev pub provider_name : Provider → Text
provider_name aer = codes "aer"
provider_name ibm = codes "ibm"

-- The key of the sort: the provider, then the name.
unfoldable pub entry_le : Entry → Entry → Bool
unfolding text_le
entry_le a b =
    let same = text_eq (provider_name a.provider) (provider_name b.provider) in
    if same
    then text_le a.name b.name
    else text_le (provider_name a.provider) (provider_name b.provider)

abbrev pub passes : Bool → ℕ → Entry → Bool
passes simulator_only min_qubits e =
    (not simulator_only || e.is_simulator) && leb min_qubits e.num_qubits

-- The entries of one provider.
abbrev pub entries_of : Provider → List Backend → List Entry
entries_of provider bs = map (serialize_backend provider) bs

-- What is listed before the filter, and the errors that become warnings: where all providers are
-- asked, IBM may fail.
unfoldable pub raw_entries :
    Runtime → Option Provider → Result BackendError (List Entry × List BackendError)
unfolding list_aer_backends list_ibm_backends serialize_backend
raw_entries rt (some aer) = elim (list_aer_backends rt) [
  | err e ↦ err e
  | ok bs ↦ ok (entries_of aer bs, [])
]
raw_entries rt (some ibm) = elim (list_ibm_backends rt) [
  | err e ↦ err e
  | ok bs ↦ ok (entries_of ibm bs, [])
]
raw_entries rt none = elim (list_aer_backends rt) [
  | err e ↦ err e
  | ok bs ↦ elim (list_ibm_backends rt) [
    | err e ↦ ok (entries_of aer bs, e ∷ [])
    | ok more ↦ ok (entries_of aer bs ++ entries_of ibm more, [])
  ]
]

unfoldable pub list_backends :
    Runtime → Option Provider → Bool → ℕ → Result BackendError (List Entry × List BackendError)
unfolding raw_entries sort_by entry_le
list_backends rt provider simulator_only min_qubits =
    if not rt.qiskit_available then err qiskit_missing else elim (raw_entries rt provider) [
      | err e ↦ err e
      | ok (entries, warnings) ↦
          ok (sort_by entry_le (select (passes simulator_only min_qubits) entries), warnings)
    ]

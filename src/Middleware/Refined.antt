-- ===== src/Middleware/Refined.antt =====
-- `dispatch` refines the specification of src/quantum_api/middleware.py's admission.
use mathlib.Core.Path.{subst}
use quantum_api.Base.{ℕ, ◌⊎◌, ◌≡◌, refl, sym, true, false, ◌&&◌, some, List}
use quantum_api.Base.Text.{Text, Unicode, text_eq}
use quantum_api.Base.Transaction.{Result, ok, err}
use quantum_api.Base.Stateful.{Ends, Ends-then}
use quantum_api.Config.{Settings, is_production_like}
use quantum_api.Auth.Cached.{Agrees}
use quantum_api.Jwt.{Library}
use quantum_api.RateLimit.Redis.{Redis}
use quantum_api.RateLimit.Windows.{Printing}
use quantum_api.Middleware.{Request, Http}
use quantum_api.Middleware.Dispatch.{
  Identity, Surroundings, World, is_token, admit_caller, admit, request_id, finalize_response,
  Handler, run_handler, proceed, dispatch,
}
use quantum_api.Middleware.Admission.{Admission}
use quantum_api.Middleware.Admitted.{IsRefusal, Refuses, check_metrics-Ends}
use quantum_api.Middleware.Callers.{admit_caller-Ends}

module _ (http : Http) (r : Redis) (l : Library) (p : Printing) (u : Unicode)
    (hmac : Text → Text → ℕ) (s : Settings) (env : Surroundings (l.Key)) (request : Request)
    (w : World (r.State) (l.Key)) where
  open http use {Response}

  abbrev pub id_here : Text
  id_here = request_id s env.uuid request

  -- How a request may end: refused without its handler, whichever that is, or handled for a caller
  -- that the specification admits.
  pub data Refines : Type 0 where
    refused :
        (w' : World (r.State) (l.Key)) (response : Response)
        → IsRefusal http r l p u hmac s env response
        → http.header s.request_id_header response ≡ some id_here
        → ((call_next : Handler http r l p u hmac s env)
            → dispatch http r l p u hmac s env call_next request w ≡ (w', some response))
        → Refines
    handled :
        (identity : Identity) (headers : List (Text × Text)) (w' : World (r.State) (l.Key))
        → Admission r l p u hmac s env request w identity w'
        → ((call_next : Handler http r l p u hmac s env)
            → dispatch http r l p u hmac s env call_next request w
              ≡ run_handler http r l p u hmac s env call_next id_here identity headers w')
        → Refines

  finalize_response-IsRefusal :
      (refusal : Response)
      → IsRefusal http r l p u hmac s env refusal
      → IsRefusal http r l p u hmac s env
          (finalize_response http r l p u hmac s env id_here refusal)
  unfolding finalize_response
  finalize_response-IsRefusal refusal h =
      rw (finalize_response, http.status-set_header s.request_id_header id_here refusal) h

  finalize_response-id :
      (response : Response)
      → http.header s.request_id_header (finalize_response http r l p u hmac s env id_here response)
        ≡ some id_here
  unfolding finalize_response
  finalize_response-id response = http.header-set_header s.request_id_header id_here response

  abbrev Admits : World (r.State) (l.Key) → Identity × List (Text × Text) → Type 0
  Admits w' (identity, _) = Admission r l p u hmac s env request w identity w'

  -- What the check of the metrics route leaves.
  abbrev MetricsPassed : World (r.State) (l.Key) → Unit {0} → Type 0
  MetricsPassed w' _ =
      (w' ≡ w)
      × (((s.metrics_enabled && text_eq request.path s.metrics_path && is_production_like u s)
            ≡ false)
          ⊎ (is_token s.metrics_token (request.header s.metrics_token_header) ≡ true))

  ended :
      (x : World (r.State) (l.Key) × Result Response (Identity × List (Text × Text)))
      → Ends (Refuses http r l p u hmac s env) Admits x
      → ((call_next : Handler http r l p u hmac s env)
          → dispatch http r l p u hmac s env call_next request w
            ≡ proceed http r l p u hmac s env call_next id_here x)
      → Refines
  ended (w', err refusal) h runs =
      refused w' (finalize_response http r l p u hmac s env id_here refusal)
        (finalize_response-IsRefusal refusal h) (finalize_response-id refusal) runs
  ended (w', ok (identity, headers)) h runs = handled identity headers w' h runs

  -- If the cache of keys agrees with the key table, a request either is refused with 401, 429 or 503
  -- and its identifier, and no handler runs, whatever the handler is; or its handler runs, once, for a
  -- caller that the specification admits: on a route for users by a verified token, on a route for
  -- keys by an active key of the table whose digest is that of the header, both only if the limiter,
  -- where it applies, has answered and allowed it, and on the metrics route of a server in staging or
  -- production only with its token.
  pub dispatch-Refines : Agrees w.database w.cache → Refines
  unfolding dispatch admit
  dispatch-Refines agrees =
      ended (admit http r l p u hmac s env request id_here w)
        (Ends-then (Refuses http r l p u hmac s env) MetricsPassed Admits _ _
          (check_metrics-Ends http r l p u hmac s env request id_here w)
          (λ _ w' (same, metrics).
            subst
              (λ x.
                Ends (Refuses http r l p u hmac s env) Admits
                  (admit_caller http r l p u hmac s env request id_here x))
              (sym same)
              (admit_caller-Ends http r l p u hmac s env request id_here w agrees metrics)))
        (λ call_next. refl)

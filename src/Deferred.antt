-- ===== src/Deferred.antt =====
-- packages/rsocket-core/src/Deferred.ts: something that is closed once, and tells its callbacks.
pub mod Calls
use rsocket_js.Common.{Bool, true, false, Option, none, List, [], ◌∷◌, ◌++◌, map}
use rsocket_js.Node.{Error}

-- A callback is a name of type K; the calls of an operation are listed with their argument.
pub record Deferred (K : Type 0) : Type 0 where
  pub done : Bool
  pub error : Option Error
  pub on_close_callbacks : List K

abbrev pub new_deferred : {K : Type 0} → Deferred K
new_deferred = record { done = false; error = none; on_close_callbacks = [] }

abbrev pub Calls : Type 0 → Type 0
Calls K = List (K × Option Error)

abbrev pub call_all : {K : Type 0} → Option Error → List K → Calls K
call_all e = map (λ callback. (callback, e))

-- The second closing only warns.
unfoldable pub close : {K : Type 0} → Option Error → Deferred K → Deferred K × Calls K
close e d = elim d.done [
  | true ↦ (d, [])
  | false ↦ (record d { done = true; error = e }, call_all e d.on_close_callbacks)
]

unfoldable pub on_close : {K : Type 0} → K → Deferred K → Deferred K × Calls K
on_close callback d = elim d.done [
  | true ↦ (d, (callback, d.error) ∷ [])
  | false ↦ (record d { on_close_callbacks = d.on_close_callbacks ++ (callback ∷ []) }, [])
]

pub data Operation (K : Type 0) : Type 0 where
  closing : Option Error → Operation K
  registering : K → Operation K

unfoldable pub perform : {K : Type 0} → Operation K → Deferred K → Deferred K × Calls K
perform (closing e) d = close e d
perform (registering callback) d = on_close callback d

-- All calls of a sequence of operations.
unfoldable pub perform_all : {K : Type 0} → List (Operation K) → Deferred K → Calls K
perform_all [] d = []
perform_all (o ∷ operations) d = let (d', calls) = perform o d in calls ++ perform_all operations d'

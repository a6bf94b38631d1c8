-- ===== src/Deferred/Calls.antt =====
-- packages/rsocket-core/src/Deferred.ts: each callback is called once.
use rsocket_js.Common.{
  true, false, Option, none, some, List, [], ◌∷◌, ◌++◌, ◌≡◌, refl, sym, ap, ◌∙◌, append_assoc,
}
use rsocket_js.Node.{Error}
use rsocket_js.Deferred.{
  new_deferred, Calls, call_all, close, on_close, Operation, closing, registering, perform,
  perform_all,
}

-- The callbacks that the operations register, in order, and the error of the first closing.
abbrev pub registered : {K : Type 0} → List (Operation K) → List K
registered [] = []
registered (closing e ∷ operations) = registered operations
registered (registering callback ∷ operations) = callback ∷ registered operations

abbrev pub first_closing : {K : Type 0} → List (Operation K) → Option (Option Error)
first_closing [] = none
first_closing (closing e ∷ operations) = some e
first_closing (registering callback ∷ operations) = first_closing operations

abbrev pub calls_of : {K : Type 0} → Option (Option Error) → List K → Calls K
calls_of none callbacks = []
calls_of (some e) callbacks = call_all e callbacks

module _ {K : Type 0} where
  call_all-append :
      (e : Option Error) (xs ys : List K) → call_all e (xs ++ ys) ≡ call_all e xs ++ call_all e ys
  call_all-append e [] ys = refl
  call_all-append e (x ∷ xs) ys = ap (◌∷◌ (x, e)) (call_all-append e xs ys)

  perform_all-closed :
      (operations : List (Operation K)) (e : Option Error) (callbacks : List K)
      → perform_all operations (record { done = true; error = e; on_close_callbacks = callbacks })
        ≡ call_all e (registered operations)
  unfolding perform_all perform close on_close
  perform_all-closed [] e callbacks = refl
  perform_all-closed (closing e' ∷ operations) e callbacks =
      perform_all-closed operations e callbacks
  perform_all-closed (registering callback ∷ operations) e callbacks =
      ap (◌∷◌ (callback, e)) (perform_all-closed operations e callbacks)

  perform_all-open :
      (operations : List (Operation K)) (e : Option Error) (callbacks : List K)
      → perform_all operations (record { done = false; error = e; on_close_callbacks = callbacks })
        ≡ calls_of (first_closing operations) (callbacks ++ registered operations)
  unfolding perform_all perform close on_close
  perform_all-open [] e callbacks = refl
  perform_all-open (closing e' ∷ operations) e callbacks =
      ap (◌++◌ (call_all e' callbacks)) (perform_all-closed operations e' callbacks)
      ∙ sym (call_all-append e' callbacks (registered operations))
  perform_all-open (registering callback ∷ operations) e callbacks =
      perform_all-open operations e (callbacks ++ (callback ∷ []))
      ∙ ap (calls_of (first_closing operations))
          (append_assoc callbacks (callback ∷ []) (registered operations))

-- Over any sequence of closings and registrations, before and after the first closing, each registered
-- callback is called once, in the order of registration and with the error of the first closing; none
-- is called where nothing closes.
pub perform_all-new_deferred :
    {K : Type 0} (operations : List (Operation K))
    → perform_all operations new_deferred
      ≡ calls_of (first_closing operations) (registered operations)
perform_all-new_deferred operations = perform_all-open operations none []

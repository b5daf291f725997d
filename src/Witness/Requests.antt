-- ===== src/Witness/Requests.antt =====
-- Requests that succeed and requests that fail.
use spyne.Prelude.{nat_eq, ℕ, ◌≡◌, refl, true, List, [], ◌∷◌}
use spyne.Prelude.Exec.{err, raise}
use spyne.Fault.{other, is_subclass, new_fault}
use spyne.Prelude.Dict.{get}
use spyne.Evmgr.{fire_all}
use spyne.Context.{event_eq, Event-discrete, to_list, method_exception_object}
use spyne.Application.{Env, fire_event, call_wrapper}
use spyne.Application.Request.{
  process_request, on_exception, call_method, adapt_in_object, request_body,
  get_fault_string_from_exception,
}
use spyne.Application.Outcome.{is_orderly, begin, process_request-is_orderly}
use spyne.Application.Containment.{RaisedByReport, process_request-contained, on_exception-hides}
use spyne.Witness.{list_set, env, request}

process_request-is_orderly_example :
    is_orderly (process_request list_set env (begin (request 2))).1.fired ≡ true
process_request-is_orderly_example = process_request-is_orderly list_set env (request 2)

-- an application whose handler 9 of `method_exception_object` raises
abbrev failing : Env (List ℕ)
failing = record env {
  event_manager = record { handlers = (method_exception_object, 9 ∷ []) ∷ [] };
  handler = λ h e. raise (other "HandlerError");
}

failing_raises :
    (process_request list_set failing (begin (request 2))).0 ≡ err (other "HandlerError")
unfolding process_request request_body on_exception fire_event call_method call_wrapper fire_all get
    is_subclass new_fault Event-discrete adapt_in_object to_list get_fault_string_from_exception
failing_raises = refl

process_request-contained_example : RaisedByReport list_set failing (other "HandlerError")
process_request-contained_example =
    process_request-contained list_set failing (begin (request 2)) (other "HandlerError")
      failing_raises refl

on_exception-hides_example :
    on_exception list_set env (other "secret") (begin (request 1))
    ≡ on_exception list_set env (other "") (begin (request 1))
on_exception-hides_example = on_exception-hides list_set env "secret" "" (begin (request 1)) refl

-- ===== src/Application/Request.antt =====
-- `Application.process_request` of spyne/application.py.
use spyne.Prelude.{nat_eq, ℕ, true, ◌||◌, not, String, Option, none, some, leb, if◌then◌else◌}
use spyne.Prelude.Exec.{raise, gets, modify, try_except, ◌>>=◌, ◌>>◌}
use spyne.Fault.{
  Exn, fault_exn, other, system, Fault, fault, redirect, builtin, is_subclass, new_fault,
  is_exception,
}
use spyne.Evmgr.{OrderedSet}
use spyne.Context.{
  Val, null, nil, seq, singleton, BodyStyle, bare, empty, Event, method_call, method_return_object,
  method_redirect, method_redirect_exception, method_exception_object, Descriptor, MethodContext,
  Action, on_ctx,
}
use spyne.Application.{Env, is_wrapped, fire_event, call_wrapper}

-- The in object as a sequence of arguments, by the body style.
unfoldable pub adapt_in_object : BodyStyle → Val → Val
adapt_in_object bare v = singleton v
adapt_in_object empty v = seq nil
adapt_in_object _ v = v

-- The out object as a sequence of return values.
unfoldable pub wrap_out_object : BodyStyle → ℕ → Val → Val
wrap_out_object style out_count v =
    if not (is_wrapped style) || leb out_count 1 then singleton v else v

-- the module's `get_fault_string_from_exception`, which
-- `return_traceback_in_unhandled_exceptions` replaces
unfoldable pub get_fault_string_from_exception : {S : Type 0} → Env S → Exn → String
get_fault_string_from_exception env e =
    if env.return_traceback then env.traceback e else "Internal Error"

-- `Fault('Server', get_fault_string_from_exception(e))`
abbrev pub server_fault : {S : Type 0} → Env S → Exn → Fault
server_fault env e =
    new_fault (builtin fault) "Fault" "Server" (get_fault_string_from_exception env e) none

module _ {S : Type 0} (os : OrderedSet ℕ S) (env : Env S) where
  abbrev update : (MethodContext S → MethodContext S) → Action S (Unit {0})
  update f = modify λ s. record s { ctx = f s.ctx }

  abbrev point_to_output : Action S (Unit {0})
  point_to_output = update λ c. record c { at_output = true }

  unfoldable pub call_method : Descriptor S → Action S (Unit {0})
  call_method d = do
    update (λ c. record c { in_object = adapt_in_object d.body_style c.in_object })
    out ← call_wrapper os env d
    update (λ c. record c { out_object = wrap_out_object d.body_style d.out_count out })

  abbrev pub call_described : Option (Descriptor S) → Action S (Unit {0})
  call_described none = raise (other "AttributeError")
  call_described (some d) = call_method d

  -- the body of the `try` statement; without a descriptor the first use of it raises
  unfoldable pub request_body : Action S (Unit {0})
  request_body = do
    fire_event os env method_call
    d ← gets (λ s. s.ctx.descriptor)
    call_described d
    point_to_output
    fire_event os env method_return_object

  -- the body of `except Redirect`
  unfoldable pub redirect_body : Fault → Action S (Unit {0})
  redirect_body e = do
    on_ctx (env.do_redirect e)
    update (λ c. record c { out_object = singleton null })
    point_to_output
    fire_event os env method_redirect

  abbrev pub fail : Fault → Event → Action S (Unit {0})
  fail e event = do
    update (λ c. record c { out_error = some (fault_exn e) })
    fire_event os env event

  unfoldable pub on_redirect_exception : Exn → Action S (Unit {0})
  on_redirect_exception e =
      if is_exception e then fail (server_fault env e) method_redirect_exception else raise e

  -- The `except` clauses, in their order. A fault code is a text here, so that `Fault.__init__` has
  -- accepted it and the test of it, which only chooses what is logged, cannot raise.
  unfoldable pub on_exception : Exn → Action S (Unit {0})
  on_exception (fault_exn e) =
      if is_subclass e.cls redirect
      then try_except (redirect_body e) on_redirect_exception
      else fail e method_exception_object
  on_exception (other e) = fail (server_fault env (other e)) method_exception_object
  on_exception (system e) = raise (system e)

  unfoldable pub process_request : Action S (Unit {0})
  process_request = try_except request_body on_exception

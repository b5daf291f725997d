-- ===== src/Application.antt =====
-- spyne/application.py: `process_request` and `call_wrapper`, with `call_wrapper` of
-- spyne/service.py. What the user supplies comes in `Env`.
pub mod Setup
pub mod Request
pub mod Quiet
pub mod Outcome
pub mod Containment
use spyne.Prelude.{
  ℕ, Bool, true, false, not, ◌&&◌, is_none, String, Option, none, some, List, [], ◌∷◌, ◌++◌, leb,
  nat_eq, if◌then◌else◌,
}
use spyne.Prelude.Exec.{
  Exec, Result, ok, err, pure, raise, lift, gets, modify, try_except, ◌>>=◌, ◌>>◌,
}
use spyne.Fault.{
  Exn, fault_exn, other, system, Fault, fault, redirect, respawn, invalid_input, builtin,
  is_subclass, new_fault, class_code,
}
use spyne.Evmgr.{OrderedSet, EventManager, fire_all}
use spyne.Context.{
  event_eq, Val, null, ignored, scalar, object, seq, Vals, nil, cons, singleton, to_list, BodyStyle,
  wrapped, empty, bare, out_bare, empty_out_bare, Event, method_call, method_return_object,
  method_redirect, method_redirect_exception, method_exception_object, Descriptor, MethodContext,
  Firing, State, Action, on_ctx,
}

-- An argument of a user function.
pub data Arg : Type 0 where
  context : Arg
  value : Val → Arg

-- What the application is configured with. `handler`, `call`, `when`, `respawn` and `do_redirect`
-- are the user's event handlers, service functions, `_when` callables, `__respawn__` methods and
-- `Redirect.do_redirect`; `traceback` is what `traceback.format_exc` returns.
pub record Env (S : Type 0) : Type 0 where
  pub event_manager : EventManager Event S
  pub handler : ℕ → Event → Exec (MethodContext S) Exn (Unit {0})
  pub call : ℕ → List Arg → Exec (MethodContext S) Exn Val
  pub when : ℕ → Val → Exec (MethodContext S) Exn Bool
  pub respawn : ℕ → Exec (MethodContext S) Exn (Option Val)
  pub do_redirect : Fault → Exec (MethodContext S) Exn (Unit {0})
  pub orig : ℕ → Option ℕ
  -- whether `return_traceback_in_unhandled_exceptions` was called
  pub return_traceback : Bool
  pub traceback : Exn → String

-- the values that `tuple(v)` lists; it raises TypeError on what is no sequence
abbrev pub to_args : Val → Result Exn (List Val)
to_args (seq vs) = ok (to_list vs)
to_args _ = err (other "TypeError")

abbrev pub values : List Val → List Arg
values [] = []
values (v ∷ vs) = value v ∷ values vs

abbrev tail : List Val → List Val
tail [] = []
tail (v ∷ vs) = vs

abbrev pub is_wrapped : BodyStyle → Bool
is_wrapped wrapped = true
is_wrapped _ = false

abbrev or_self : ℕ → Option ℕ → ℕ
or_self c none = c
or_self c (some o) = o

-- `InvalidRequestError("Invalid object state for request")` and `RespawnError(...)`. The text of
-- the second names the class and the filters, and is not modelled.
abbrev pub invalid_state : Fault
invalid_state =
    new_fault (builtin invalid_input) "Fault" "Client.InvalidInput"
      "('Invalid object state for request', '')" none

abbrev pub not_respawned : Fault
not_respawned =
    new_fault (builtin respawn) "Fault" "Client.ResourceNotFound" "Requested resource not found"
      none

module _ {S : Type 0} (os : OrderedSet ℕ S) (env : Env S) where
  open env use {event_manager, handler, call, when, respawn, do_redirect, orig}

  managers : Option (Descriptor S) → List (EventManager Event S)
  managers none = event_manager ∷ []
  managers (some d) = event_manager ∷ d.event_managers

  record_firing : Event → Action S (Unit {0})
  record_firing event =
      modify λ s. record s { fired = s.fired ++ record { event = event; seen = s.ctx } ∷ [] }

  -- `MethodContext.fire_event`
  unfoldable pub fire_event : Event → Action S (Unit {0})
  unfolding record_firing managers
  fire_event event s =
      (do record_firing event; on_ctx (fire_all os handler (managers s.ctx.descriptor) event)) s

  -- `ctx.function(*args)`, where `args` is what the caller of the wrapper passes, if anything
  unfoldable pub service_call : Descriptor S → Option (List Arg) → Option ℕ → Action S Val
  service_call d args none = pure null
  service_call d (some given) (some f) = on_ctx (call f given)
  service_call d none (some f) = do
    v ← gets (λ s. s.ctx.in_object)
    in_object ← lift (to_args v)
    on_ctx (call f (if d.no_ctx then values in_object else context ∷ values in_object))

  -- `call_wrapper` of spyne/service.py
  unfoldable pub service_call_wrapper : Descriptor S → Option (List Arg) → Action S Val
  unfolding service_call
  service_call_wrapper d args = do f ← gets (λ s. s.ctx.function); service_call d args f

  -- the arguments from the request that are left for a member method
  unfoldable pub member_args : Descriptor S → List Val → List Val
  member_args d args = if is_wrapped d.body_style && leb d.in_count 1 then [] else tail args

  -- the test of `_when`
  unfoldable pub check_when : Option ℕ → Val → Action S (Unit {0})
  check_when none inst = pure tt
  check_when (some w) inst = do
    allowed ← on_ctx (when w inst)
    if allowed then pure tt else raise (fault_exn invalid_state)

  unfoldable pub call_function : List Arg → Option ℕ → Action S Val
  call_function given none = raise (other "TypeError")
  call_function given (some f) = on_ctx (call f given)

  -- `ctx.function(*args)`, through the service class if there is one
  unfoldable pub call_given : Descriptor S → List Arg → Action S Val
  unfolding call_function service_call_wrapper
  call_given d given =
      if is_none d.service_class
      then (do f ← gets (λ s. s.ctx.function); call_function given f)
      else service_call_wrapper d (some given)

  -- the part of `call_wrapper` for a member method of a class, from `__respawn__` on
  unfoldable pub call_member : Descriptor S → Option Val → Action S Val
  unfolding member_args check_when call_given
  call_member d none = raise (fault_exn not_respawned)
  call_member d (some inst) = do
    in_object ← gets (λ s. s.ctx.in_object)
    args ← lift (to_args in_object)
    check_when d.when inst
    let rest = values (member_args d args)
    let given = if d.no_ctx then value inst ∷ rest else value inst ∷ context ∷ rest
    call_given d given

  unfoldable pub call_with : Descriptor S → Option ℕ → Action S Val
  unfolding call_member service_call_wrapper
  call_with d none = pure null
  call_with d (some f) =
      if d.no_self
      then (if is_none d.service_class
          then raise (other "AssertionError")
          else service_call_wrapper d none)
      else (do
        inst ← on_ctx (respawn (or_self d.parent_class (orig d.parent_class)))
        call_member d inst)

  -- `Application.call_wrapper`, where `d` is `ctx.descriptor`
  unfoldable pub call_wrapper : Descriptor S → Action S Val
  unfolding call_with
  call_wrapper d = do f ← gets (λ s. s.ctx.function); call_with d f

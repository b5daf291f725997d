-- ===== src/Application/Containment.antt =====
-- Which exceptions leave `process_request`, and what a caught one tells the client.
use spyne.Prelude.{
  nat_eq, ℕ, ◌≡◌, refl, ◌⊎◌, inl, inr, arith, true, false, String, some, is_none, Bool-cases,
}
use spyne.Prelude.Exec.{Result, ok, err, catch_result}
use spyne.Fault.{is_subclass, redirect, Exn, fault_exn, other, system, Fault, is_exception}
use spyne.Evmgr.{OrderedSet}
use spyne.Context.{method_redirect_exception, method_exception_object, State}
use spyne.Application.{Env, fire_event}
use spyne.Application.Request.{
  request_body, redirect_body, on_redirect_exception, on_exception, process_request,
  get_fault_string_from_exception, fail,
}

module _ {S : Type 0} (os : OrderedSet ℕ S) (env : Env S) where
  -- A handler of an event that reports an error raised `e`, and the error was set by then.
  abbrev pub RaisedByReport : Exn → Type 0
  RaisedByReport e =
      (t : State S) × (is_none t.ctx.out_error ≡ false)
      × (((fire_event os env method_exception_object t).0 ≡ err e)
          ⊎ ((fire_event os env method_redirect_exception t).0 ≡ err e))

  abbrev failed : Fault → State S → State S
  failed f s = record s { ctx = record s.ctx { out_error = some (fault_exn f) } }

  fail_object :
      (f : Fault) (s : State S) (e : Exn)
      → (fail os env f method_exception_object s).0 ≡ err e
      → RaisedByReport e
  fail_object f s e p = (failed f s, refl, inl p)

  fail_redirect :
      (f : Fault) (s : State S) (e : Exn)
      → (fail os env f method_redirect_exception s).0 ≡ err e
      → RaisedByReport e
  fail_redirect f s e p = (failed f s, refl, inr p)

  redirect_contained :
      (r : Result Exn (Unit {0})) (s : State S) (e : Exn)
      → (catch_result r (on_redirect_exception os env) s).0 ≡ err e
      → is_exception e ≡ true
      → RaisedByReport e
  unfolding on_redirect_exception
  redirect_contained (ok a) s e p h = cc
  redirect_contained (err (fault_exn f)) s e p h = fail_redirect _ s e p
  redirect_contained (err (other f)) s e p h = fail_redirect _ s e p
  redirect_contained (err (system f)) s e p h = ground arith

  on_exception-contained :
      (x : Exn) (s : State S) (e : Exn)
      → (on_exception os env x s).0 ≡ err e
      → is_exception e ≡ true
      → RaisedByReport e
  unfolding on_exception
  on_exception-contained (fault_exn f) s e p h = elim (Bool-cases (is_subclass f.cls redirect)) [
    | inl is_redirect ↦
        redirect_contained (redirect_body os env f s).0 (redirect_body os env f s).1 e
          (rw is_redirect at p) h
    | inr is_plain ↦ fail_object f s e (rw is_plain at p)
  ]
  on_exception-contained (other f) s e p h = fail_object _ s e p
  on_exception-contained (system f) s e p h = ground arith

  caught-contained :
      (r : Result Exn (Unit {0})) (s : State S) (e : Exn)
      → (catch_result r (on_exception os env) s).0 ≡ err e
      → is_exception e ≡ true
      → RaisedByReport e
  caught-contained (ok a) s e p h = cc
  caught-contained (err x) s e p h = on_exception-contained x s e p h

  -- An exception that leaves `process_request` is one that no `except` clause names (SystemExit and
  -- the like), or was raised by a handler of the event that reports the error, after the error was
  -- set: neither the user's function nor any other handler can make it raise an Exception.
  pub process_request-contained :
      (s : State S) (e : Exn)
      → (process_request os env s).0 ≡ err e
      → is_exception e ≡ true
      → RaisedByReport e
  unfolding process_request
  process_request-contained s e p h =
      caught-contained (request_body os env s).0 (request_body os env s).1 e p h

  -- Unless tracebacks are asked for, the client learns nothing of an exception that is no Fault:
  -- two of them are answered by the same actions, with the same error in the context.
  pub on_exception-hides :
      (e e' : String) (s : State S)
      → env.return_traceback ≡ false
      → on_exception os env (other e) s ≡ on_exception os env (other e') s
  unfolding on_exception get_fault_string_from_exception
  on_exception-hides e e' s h = rw h

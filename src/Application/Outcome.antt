-- ===== src/Application/Outcome.antt =====
-- What `process_request` leaves behind, on every branch.
use spyne.Prelude.{
  nat_eq, ℕ, ◌≡◌, refl, arith, Bool, true, false, ◌&&◌, Option, none, some, is_none, not, List, [],
  ◌∷◌,
}
use spyne.Prelude.Exec.{Result, ok, err, catch_result}
use spyne.Fault.{Exn, fault_exn, other, system}
use spyne.Evmgr.{OrderedSet}
use spyne.Context.{
  Val, null, seq, cons, nil, Event, method_call, method_return_object, method_redirect,
  method_redirect_exception, method_exception_object, Descriptor, MethodContext, Firing, State,
}
use spyne.Application.{Env, fire_event}
use spyne.Application.Quiet.{call_wrapper-IsQuiet}
use spyne.Application.Request.{
  adapt_in_object, call_method, call_described, request_body, redirect_body, on_redirect_exception,
  on_exception, process_request,
}

abbrev is_call : Event → Bool
is_call method_call = true
is_call _ = false

abbrev is_return : Event → Bool
is_return method_return_object = true
is_return _ = false

abbrev is_redirected : Val → Bool
is_redirected (seq (cons null nil)) = true
is_redirected _ = false

-- What the handlers of an event may rely on in the context.
abbrev pub is_announced : Event → {S : Type 0} → MethodContext S → Bool
is_announced method_return_object c = c.at_output
is_announced method_redirect c = c.at_output && is_redirected c.out_object
is_announced method_exception_object c = not (is_none c.out_error)
is_announced method_redirect_exception c = not (is_none c.out_error)
is_announced _ c = true

-- Which event may come after which.
abbrev pub may_follow : Event → Event → Bool
may_follow method_call method_return_object = true
may_follow method_call method_redirect = true
may_follow method_call method_redirect_exception = true
may_follow method_call method_exception_object = true
may_follow method_return_object method_redirect = true
may_follow method_return_object method_redirect_exception = true
may_follow method_return_object method_exception_object = true
may_follow method_redirect method_redirect_exception = true
may_follow _ _ = false

abbrev pub is_orderly_after : {S : Type 0} → Event → List (Firing S) → Bool
is_orderly_after e [] = true
is_orderly_after e (f ∷ fs) =
    may_follow e f.event && is_announced f.event f.seen && is_orderly_after f.event fs

-- The events of a whole request: `method_call`, then others as `may_follow` allows.
abbrev pub is_orderly : {S : Type 0} → List (Firing S) → Bool
is_orderly [] = false
is_orderly (f ∷ fs) = is_call f.event && is_orderly_after f.event fs

abbrev pub begin : {S : Type 0} → MethodContext S → State S
begin c = record { ctx = c; fired = [] }

-- What the body of the `try` statement fires.
abbrev is_body : {S : Type 0} → List (Firing S) → Bool
is_body (f ∷ []) = is_call f.event
is_body (f ∷ g ∷ []) = is_call f.event && is_return g.event && g.seen.at_output
is_body _ = false

abbrev prepared : {S : Type 0} → Descriptor S → State S → State S
prepared d s = record s {
  ctx = record s.ctx { in_object = adapt_in_object d.body_style s.ctx.in_object };
}

module _ {S : Type 0} (os : OrderedSet ℕ S) (env : Env S) where
  fired-call_method : (d : Descriptor S) (s : State S) → (call_method os env d s).1.fired ≡ s.fired
  unfolding call_method
  fired-call_method d s = ground (arith, (call_wrapper-IsQuiet os env d).at (prepared d s))

  described-fired :
      (d : Option (Descriptor S)) (s : State S) → (call_described os env d s).1.fired ≡ s.fired
  described-fired none s = refl
  described-fired (some d) s = fired-call_method d s

  -- the events of the body of the `try` statement
  request_body-is_body :
      (c : MethodContext S) → is_body (request_body os env (begin c)).1.fired ≡ true
  unfolding request_body fire_event
  request_body-is_body c =
      let s = (fire_event os env method_call (begin c)).1 in
      ground (arith, described-fired s.ctx.descriptor s)

  on_exception-is_orderly :
      (e : Exn) (s : State S) (fs : List (Firing S))
      → s.fired ≡ fs
      → is_body fs ≡ true
      → is_orderly (on_exception os env e s).1.fired ≡ true
  unfolding redirect_body on_redirect_exception on_exception fire_event
  on_exception-is_orderly e s [] p h = cc
  on_exception-is_orderly (fault_exn e) s (f ∷ []) p h = ground arith
  on_exception-is_orderly (fault_exn e) s (f ∷ g ∷ []) p h = ground arith
  on_exception-is_orderly (other e) s (f ∷ []) p h = ground arith
  on_exception-is_orderly (other e) s (f ∷ g ∷ []) p h = ground arith
  on_exception-is_orderly (system e) s fs p h = ground arith
  on_exception-is_orderly e s (f ∷ g ∷ k ∷ fs) p h = cc

  is_body→is_orderly : (fs : List (Firing S)) → is_body fs ≡ true → is_orderly fs ≡ true
  is_body→is_orderly [] h = cc
  is_body→is_orderly (f ∷ []) h = ground arith
  is_body→is_orderly (f ∷ g ∷ []) h = ground arith
  is_body→is_orderly (f ∷ g ∷ k ∷ fs) h = cc

  caught-is_orderly :
      (r : Result Exn (Unit {0})) (s : State S)
      → is_body s.fired ≡ true
      → is_orderly (catch_result r (on_exception os env) s).1.fired ≡ true
  caught-is_orderly (ok a) s h = is_body→is_orderly s.fired h
  caught-is_orderly (err e) s h = on_exception-is_orderly e s s.fired refl h

  -- The events that a request fires come in this order, whatever the handlers and the user code do
  -- to the context and whatever they raise: `method_call` first, then `method_return_object`,
  -- `method_redirect`, `method_redirect_exception` and `method_exception_object` as `may_follow`
  -- allows. When the handlers of one run, the context is as `is_announced` says: it points to the
  -- output protocol for the first two of these (with an empty answer for the redirect), and it has
  -- an error for the other two.
  pub process_request-is_orderly :
      (c : MethodContext S) → is_orderly (process_request os env (begin c)).1.fired ≡ true
  unfolding process_request
  process_request-is_orderly c =
      caught-is_orderly (request_body os env (begin c)).0 _ (request_body-is_body c)

-- ===== src/Server/Wsgi.antt =====
-- spyne/server/wsgi.py: `handle_rpc` and `handle_error`, with `process_contexts` of
-- spyne/auxproc/_base.py.
pub mod Url
pub mod Wsdl
pub mod Input
pub mod Query
pub mod Silence
pub mod Responses
use Prim.Native.String.{len}
use spyne.Prelude.{
  nat_eq, ℕ, ◌+◌, Bool, true, false, ◌||◌, String, Option, none, some, is_none, List, [], ◌∷◌, ◌++◌,
  if◌then◌else◌,
}
use spyne.Prelude.Exec.{
  Exec, Result, ok, err, pure, raise, lift, gets, modify, try_except, ◌>>=◌, ◌>>◌,
}
use spyne.Fault.{Exn, Fault, new_fault, builtin, fault, fault_exn, other, system, is_exception}
use spyne.Evmgr.{OrderedSet, EventManager}
use spyne.Evmgr
use spyne.Context.{
  event_eq, Val, null, ignored, scalar, object, seq, nil, cons, Event, wsgi_call, wsgi_exception,
  wsgi_return, wsgi_close, method_context_closed, MethodContext, State, Action, on_ctx,
}
use spyne.Application.{Env}
use spyne.Server.{Protocol, generate_contexts, get_in_object, get_out_object, get_out_string_pull}

-- What the WSGI application is given: `reconstruct` reads the body of the request, `fault_code` is
-- the output protocol's `fault_to_http_response_code`, `decorate` sets the headers of HttpRpc and
-- applies MTOM, `join` is `''.join`, `close_files` closes the files of the context, and the next
-- three are the auxiliary processors. `start_error` is what the server's `start_response` raises for a
-- status and the headers of a context, as PEP 3333 lets it do. `first_step` is the step of `next` that
-- the only result of a method makes if it is a generator, and does nothing otherwise. `fault_string` is
-- `get_fault_string_from_exception` as this module has imported it by its name, so that switching
-- tracebacks on does not change it.
pub record Wsgi (S : Type 0) : Type 0 where
  pub server_events : EventManager Event S
  pub chunked : Bool
  pub reconstruct : Exec (MethodContext S) Exn (Unit {0})
  pub fault_code : Exn → ℕ
  pub decorate : Exec (MethodContext S) Exn (Unit {0})
  pub join : List String → Result Exn String
  pub close_files : Exec (MethodContext S) Exn (Unit {0})
  pub initialize_context : MethodContext S → Option Exn → Exec (MethodContext S) Exn (Unit {0})
  pub process_exceptions : MethodContext S → Bool
  pub process_context : MethodContext S → Exec (MethodContext S) Exn (Unit {0})
  pub start_error : Option ℕ → MethodContext S → Option Exn
  pub first_step : Val → Exec (MethodContext S) Exn (Unit {0})
  pub fault_string : Exn → String

-- The state of the pipeline, and the status codes that `start_response` was called with.
pub record WsgiState (S : Type 0) : Type 0 where
  pub state : State S
  pub started : List (Option ℕ)

abbrev pub WsgiAction : Type 0 → Type 0 → Type 0
WsgiAction S A = Exec (WsgiState S) Exn A

abbrev pub on_state : {S A : Type 0} → Action S A → WsgiAction S A
on_state m w = ((m w.state).0, record w { state = (m w.state).1 })

abbrev pub update : {S : Type 0} → (MethodContext S → MethodContext S) → WsgiAction S (Unit {0})
update f = on_state (modify λ s. record s { ctx = f s.ctx })

abbrev pub get_ctx : {S : Type 0} → WsgiAction S (MethodContext S)
get_ctx = gets λ w. w.state.ctx

abbrev or_code : Option ℕ → ℕ → Option ℕ
or_code none code = some code
or_code (some c) code = some c

abbrev pub unless_error : Option Exn → Result Exn (Unit {0})
unless_error none = ok tt
unless_error (some e) = err e

-- `list(p_ctx.out_string)`, or TypeError on None
abbrev chunks : Option (List String) → Result Exn (List String)
chunks none = err (other "TypeError")
chunks (some l) = ok l

-- `sum(len(s) for s in ...)`
unfoldable pub total_length : List String → ℕ
total_length [] = 0
total_length (s ∷ l) = len s + total_length l

module _ {S : Type 0} (os : OrderedSet ℕ S) (env : Env S) (prot : Protocol S) (wsgi : Wsgi S) where
  open wsgi use {
    server_events, chunked, reconstruct, fault_code, decorate, join, close_files,
    initialize_context, process_exceptions, process_context, start_error, first_step, fault_string,
  }

  -- `self.event_manager.fire_event(event, ctx)`
  abbrev pub fire_server : Event → WsgiAction S (Unit {0})
  fire_server event = on_state (on_ctx (Evmgr.fire_event os env.handler server_events event))

  -- `process_contexts`
  unfoldable pub process_contexts :
      List (MethodContext S) → Option Exn → Exec (MethodContext S) Exn (Unit {0})
  process_contexts [] error = pure tt
  process_contexts (c ∷ contexts) error = do
    initialize_context c error
    (if is_none error || process_exceptions c then process_context c else pure tt)
    process_contexts contexts error

  abbrev ignore_exceptions : Exn → Exec (MethodContext S) Exn (Unit {0})
  ignore_exceptions e = if is_exception e then pure tt else raise e

  -- the auxiliary methods, whose exceptions are reported and ignored
  unfoldable pub run_auxiliary : List (MethodContext S) → Option Exn → WsgiAction S (Unit {0})
  run_auxiliary others error =
      on_state (on_ctx (try_except (process_contexts others error) ignore_exceptions))

  abbrev pub set_length : List String → WsgiAction S (Unit {0})
  set_length l = update (λ c. record c { content_length = some (total_length l) })

  -- `start_response(code, ...)`, a call that counts whether or not it raises
  abbrev pub start_with : Option ℕ → WsgiAction S (Unit {0})
  start_with code = do
    modify λ w. record w { started = w.started ++ code ∷ [] }
    c ← get_ctx
    lift (unless_error (start_error code c))

  -- `start_response(p_ctx.transport.resp_code, ...)`
  abbrev pub start_response : WsgiAction S (Unit {0})
  start_response = do c ← get_ctx; start_with c.resp_code

  -- `MethodContext.close`, without the garbage collection
  abbrev pub close : Exec (MethodContext S) Exn (Unit {0})
  close = do
    Evmgr.fire_event os env.handler env.event_manager method_context_closed
    close_files
    modify λ c. record c { is_closed = true }

  -- `__finalize`, whose result is built before the body is returned
  unfoldable pub finalize : WsgiAction S (Unit {0})
  finalize = do on_state (on_ctx close); fire_server wsgi_close

  -- the response code, unless the user has set one
  abbrev pub set_code : ℕ → WsgiAction S (Unit {0})
  set_code code = update (λ c. record c { resp_code = or_code c.resp_code code })

  abbrev pub out_chunks : WsgiAction S (List String)
  out_chunks = do c ← get_ctx; lift (chunks c.out_string)

  unfoldable pub handle_error : List (MethodContext S) → Exn → WsgiAction S (Option (List String))
  unfolding run_auxiliary finalize
  handle_error others error = do
    set_code (fault_code error)
    on_state (get_out_string_pull os env prot)
    l ← out_chunks
    set_length l
    fire_server wsgi_exception
    start_response
    run_auxiliary others (some error)
    body ← gets (λ w. w.state.ctx.out_string)
    finalize
    pure body

  -- `next(iter(p_ctx.out_object))`, after the assertion that it is not None, and the code of the user
  -- up to the first `yield` if the only result is a generator
  abbrev pub check_out_object : Val → WsgiAction S (Unit {0})
  check_out_object null = raise (other "AssertionError")
  check_out_object (seq nil) = raise (other "StopIteration")
  check_out_object (seq (cons v nil)) = on_state (on_ctx (first_step v))
  check_out_object (seq (cons v vs)) = pure tt
  check_out_object _ = raise (other "TypeError")

  -- the body of the response, in one piece if it is not chunked
  abbrev pub make_body : WsgiAction S (Unit {0})
  make_body = if chunked then update (λ c. record c { content_length = none }) else (do
    l ← out_chunks
    joined ← lift (join l)
    update (λ c. record c { out_string = some (joined ∷ []) }))

  -- the length of the body, if it has one
  abbrev pub measure : Option (List String) → WsgiAction S (Unit {0})
  measure none = pure tt
  measure (some l) = set_length l

  -- `handle_rpc` from `fire_event('wsgi_return')` on, with the headers before it
  unfoldable pub send_response : List (MethodContext S) → WsgiAction S (Option (List String))
  unfolding run_auxiliary finalize
  send_response others = do
    on_state (on_ctx decorate)
    fire_server wsgi_return
    make_body
    c ← get_ctx
    measure c.out_string
    start_response
    body ← gets (λ w. w.state.ctx.out_string)
    finalize
    run_auxiliary others none
    pure body

  -- `get_out_string`, and the exception that it ended by
  abbrev pub try_print : WsgiAction S (Option Exn)
  try_print =
      try_except (do on_state (get_out_string_pull os env prot); pure none)
        (λ e. if is_exception e then pure (some e) else raise e)

  -- `Fault('Server', get_fault_string_from_exception(e))`
  abbrev print_fault : Exn → Fault
  print_fault e = new_fault (builtin fault) "Fault" "Server" (fault_string e) none

  -- the `except` clause for it, or the rest of `handle_rpc`
  abbrev pub respond : List (MethodContext S) → Option Exn → WsgiAction S (Option (List String))
  respond others none = send_response others
  respond others (some e) = do
    update (λ c. record c { out_error = some (fault_exn (print_fault e)) })
    handle_error others (fault_exn (print_fault e))

  -- the answer once `get_out_object` is done
  unfoldable pub answer : List (MethodContext S) → Option Exn → WsgiAction S (Option (List String))
  unfolding handle_error send_response
  answer others (some error) = handle_error others error
  answer others none = do
    c ← get_ctx
    check_out_object c.out_object
    set_code 200
    failure ← try_print
    respond others failure

  -- `handle_rpc` once `get_in_object` is done
  unfoldable pub execute : List (MethodContext S) → Option Exn → WsgiAction S (Option (List String))
  unfolding answer
  execute others (some error) = handle_error others error
  execute others none = do
    on_state (get_out_object os env prot)
    c ← get_ctx
    answer others c.out_error

  -- an error of `generate_contexts` is answered before anything is deserialised
  abbrev pub read_in_object : Option Exn → WsgiAction S (Unit {0})
  read_in_object none = on_state (get_in_object os env prot)
  read_in_object (some error) = pure tt

  -- `handle_rpc` once the contexts are there; `p_ctx` is the first of them
  unfoldable pub dispatch : List (MethodContext S) → WsgiAction S (Option (List String))
  unfolding execute
  dispatch [] = raise (other "IndexError")
  dispatch (p_ctx ∷ others) = do
    update (λ _. p_ctx)
    read_in_object p_ctx.in_error
    c ← get_ctx
    execute others c.in_error

  unfoldable pub handle_rpc : WsgiAction S (Option (List String))
  unfolding dispatch
  handle_rpc = do
    fire_server wsgi_call
    on_state (on_ctx reconstruct)
    contexts ← on_state (generate_contexts os env prot)
    dispatch contexts

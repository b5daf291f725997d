-- ===== src/Server/Wsgi/Responses.antt =====
-- How often `handle_rpc` calls `start_response`.
use spyne.Prelude.{
  nat_eq, ℕ, ◌+◌, ◌≡◌, refl, ap, arith, true, false, String, Option, none, some, List, [], ◌∷◌,
  length,
}
use spyne.Prelude.Exec.{ok, err, continue, ◌>>◌}
use spyne.Fault.{Exn, is_exception}
use spyne.Evmgr.{OrderedSet}
use spyne.Context.{Val, null, seq, nil, cons, MethodContext}
use spyne.Application.{Env}
use spyne.Server.{Protocol}
use spyne.Server.Wsgi.{
  Wsgi, WsgiState, WsgiAction, finalize, measure, handle_error, send_response, answer, execute,
  dispatch, handle_rpc, run_auxiliary, start_response, respond, unless_error, check_out_object,
  read_in_object,
}
use spyne.Server.Wsgi.Silence.{
  IsSilent, IsQuiet, AnswersOnce, AnswersOnce-raise, AnswersOnce-bind, silent_rules, quiet_rules,
  Answered-ok, IsQuiet-continue, Answered-err, begun, finished,
}

module _ {S : Type 0} (os : OrderedSet ℕ S) (env : Env S) (prot : Protocol S) (wsgi : Wsgi S) where
  run_auxiliary-raises :
      (others : List (MethodContext S)) (error : Option Exn) (w : WsgiState S) (e : Exn)
      → (run_auxiliary os env prot wsgi others error w).0 ≡ err e
      → is_exception e ≡ false
  unfolding run_auxiliary
  run_auxiliary-raises others error w e p = ground arith

  -- No handler of the events by which a context is closed raises an Exception, nor does the closing
  -- of its files.
  abbrev pub ClosesQuietly : Type 0
  ClosesQuietly =
      (w : WsgiState S) (e : Exn) → (finalize os env prot wsgi w).0 ≡ err e → is_exception e ≡ false

  -- The server's `start_response` raises no Exception.
  abbrev pub StartsQuietly : Type 0
  StartsQuietly =
      (code : Option ℕ) (c : MethodContext S) (e : Exn)
      → wsgi.start_error code c ≡ some e
      → is_exception e ≡ false

  abbrev Quietly : Type 0
  Quietly = ClosesQuietly × StartsQuietly

  unless_error-err :
      (o : Option Exn) (e : Exn)
      → ((x : Exn) → o ≡ some x → is_exception x ≡ false)
      → unless_error o ≡ err e
      → is_exception e ≡ false
  unless_error-err none e h p = cc
  unless_error-err (some x) e h p = ground (arith, h x refl)

  run_auxiliary-IsQuiet :
      (others : List (MethodContext S)) (error : Option Exn)
      → IsQuiet Quietly (run_auxiliary os env prot wsgi others error)
  unfolding run_auxiliary
  run_auxiliary-IsQuiet others error = record {
    at = λ w. refl;
    only = λ w e q. run_auxiliary-raises others error w e;
  }

  finalize-IsSilent : IsSilent (finalize os env prot wsgi)
  unfolding finalize
  finalize-IsSilent = search silent_rules

  finalize-IsQuiet : IsQuiet Quietly (finalize os env prot wsgi)
  finalize-IsQuiet = record { at = finalize-IsSilent.at; only = λ w e q. q.0 w e }

  unquiet :
      (c : MethodContext S) (e : Exn)
      → Quietly
      → unless_error (wsgi.start_error c.resp_code c) ≡ err e
      → is_exception e ≡ false
  unquiet c e q p = unless_error-err (wsgi.start_error c.resp_code c) e (q.1 c.resp_code c) p

  -- what follows the call of `start_response`
  finish :
      {A : Type 0} (m : WsgiAction S A)
      → IsQuiet Quietly m
      → AnswersOnce Quietly (start_response os env prot wsgi >> m)
  finish m k = record {
    at = λ w.
        let c = w.state.ctx in
        let r = unless_error (wsgi.start_error c.resp_code c) in
        let rest = IsQuiet-continue r (λ _. m) (unquiet c) (λ _. k) in
        finished (continue r (λ _. m) (begun w)).0 w (continue r (λ _. m) (begun w)).1 c.resp_code
          (rest.at (begun w)) (rest.only (begun w));
  }

  handle_error-AnswersOnce :
      (others : List (MethodContext S)) (error : Exn)
      → AnswersOnce Quietly (handle_error os env prot wsgi others error)
  unfolding handle_error
  handle_error-AnswersOnce others error =
      search
        (
          silent_rules, AnswersOnce-bind, finish, quiet_rules, run_auxiliary-IsQuiet,
          finalize-IsQuiet,
        )
        depth 14

  measure-IsSilent : (l : Option (List String)) → IsSilent (measure os env prot wsgi l)
  measure-IsSilent none = search silent_rules
  measure-IsSilent (some l) = search silent_rules

  send_response-AnswersOnce :
      (others : List (MethodContext S))
      → AnswersOnce Quietly (send_response os env prot wsgi others)
  unfolding send_response
  send_response-AnswersOnce others =
      search
        (
          silent_rules, AnswersOnce-bind, measure-IsSilent, finish, quiet_rules,
          run_auxiliary-IsQuiet, finalize-IsQuiet,
        )
        depth 14

  respond-AnswersOnce :
      (others : List (MethodContext S)) (e : Option Exn)
      → AnswersOnce Quietly (respond os env prot wsgi others e)
  respond-AnswersOnce others none = send_response-AnswersOnce others
  respond-AnswersOnce others (some e) =
      search (silent_rules, AnswersOnce-bind, handle_error-AnswersOnce)

  check_out_object-IsSilent : (v : Val) → IsSilent (check_out_object os env prot wsgi v)
  check_out_object-IsSilent (seq nil) = search silent_rules
  check_out_object-IsSilent (seq (cons v nil)) = search silent_rules
  check_out_object-IsSilent (seq (cons v (cons x vs))) = search silent_rules
  check_out_object-IsSilent null = search silent_rules
  check_out_object-IsSilent _ = search silent_rules

  answer-AnswersOnce :
      (others : List (MethodContext S)) (e : Option Exn)
      → AnswersOnce Quietly (answer os env prot wsgi others e)
  unfolding answer
  answer-AnswersOnce others (some e) = handle_error-AnswersOnce others e
  answer-AnswersOnce others none =
      search (silent_rules, AnswersOnce-bind, check_out_object-IsSilent, respond-AnswersOnce) depth
        9

  execute-AnswersOnce :
      (others : List (MethodContext S)) (e : Option Exn)
      → AnswersOnce Quietly (execute os env prot wsgi others e)
  unfolding execute
  execute-AnswersOnce others (some e) = handle_error-AnswersOnce others e
  execute-AnswersOnce others none =
      search (silent_rules, AnswersOnce-bind, answer-AnswersOnce) depth 7

  read_in_object-IsSilent : (e : Option Exn) → IsSilent (read_in_object os env prot wsgi e)
  read_in_object-IsSilent none = search silent_rules
  read_in_object-IsSilent (some e) = search silent_rules

  dispatch-AnswersOnce :
      (contexts : List (MethodContext S)) → AnswersOnce Quietly (dispatch os env prot wsgi contexts)
  unfolding dispatch
  dispatch-AnswersOnce [] = AnswersOnce-raise _ _
  dispatch-AnswersOnce (p_ctx ∷ others) =
      search (silent_rules, AnswersOnce-bind, read_in_object-IsSilent, execute-AnswersOnce) depth 9

  handle_rpc-AnswersOnce : AnswersOnce Quietly (handle_rpc os env prot wsgi)
  unfolding handle_rpc
  handle_rpc-AnswersOnce = search (silent_rules, AnswersOnce-bind, dispatch-AnswersOnce) depth 9

  -- If `handle_rpc` returns a body, it has called `start_response` exactly once, whatever the user
  -- code, the handlers, the protocols and the auxiliary methods do.
  pub handle_rpc-returned :
      (w w' : WsgiState S) (body : Option (List String))
      → handle_rpc os env prot wsgi w ≡ (ok body, w')
      → length w'.started ≡ length w.started + 1
  handle_rpc-returned w w' body e =
      Answered-ok Quietly w (handle_rpc os env prot wsgi w).1 w' (handle_rpc os env prot wsgi w).0
        (ap (λ p. p.0) e) (ap (λ p. p.1) e) (handle_rpc-AnswersOnce.at w)

  -- Where neither the closing of the context nor the server's `start_response` raises an Exception,
  -- `handle_rpc` has not called `start_response` if it raises an Exception itself.
  pub handle_rpc-raised :
      (w w' : WsgiState S) (e : Exn)
      → ClosesQuietly
      → StartsQuietly
      → handle_rpc os env prot wsgi w ≡ (err e, w')
      → is_exception e ≡ true
      → w'.started ≡ w.started
  handle_rpc-raised w w' e closes starts p h =
      Answered-err Quietly w (handle_rpc os env prot wsgi w).1 w' (handle_rpc os env prot wsgi w).0
        (ap (λ q. q.0) p) (ap (λ q. q.1) p) (closes, starts) h (handle_rpc-AnswersOnce.at w)

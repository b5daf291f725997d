-- ===== src/Witness/Answers.antt =====
-- Requests over WSGI.
use spyne.Prelude.{false, nat_eq, ◌≡◌, refl, ℕ, List, [], ◌∷◌, length, some}
use spyne.Prelude.Dict.{get}
use spyne.Prelude.Exec.{ok, err}
use spyne.Fault.{other}
use spyne.Evmgr
use spyne.Context.{Event-discrete, to_list}
use spyne.Application.{fire_event, call_wrapper}
use spyne.Application.Request.{
  process_request, request_body, call_method, adapt_in_object, wrap_out_object,
}
use spyne.Server.{
  generate_contexts, get_in_object, get_out_object, get_out_string_pull, drop_ignored,
}
use spyne.Server.Wsgi.{Wsgi, WsgiState, handle_rpc, total_length, process_contexts, finalize}
use spyne.Server.Wsgi.Responses.{
  handle_rpc-returned, handle_rpc-raised, ClosesQuietly, StartsQuietly,
}
use spyne.Witness.{list_set, env, protocol, wsgi, fresh}

abbrev end : WsgiState (List ℕ)
end = (handle_rpc list_set env protocol wsgi (fresh 1)).1

returned : handle_rpc list_set env protocol wsgi (fresh 1) ≡ (ok (some ("5" ∷ [])), end)
unfolding handle_rpc generate_contexts get_in_object get_out_object get_out_string_pull
    process_request request_body call_method call_wrapper fire_event Evmgr.fire_event Evmgr.fire_all
    get Event-discrete adapt_in_object wrap_out_object to_list drop_ignored total_length
    process_contexts finalize
returned = refl

handle_rpc-returned_example : length end.started ≡ 1
handle_rpc-returned_example =
    handle_rpc-returned list_set env protocol wsgi (fresh 1) end (some ("5" ∷ [])) returned

-- the server with `chunked=False`, whose `''.join` refuses the bytes it is given
abbrev joining : Wsgi (List ℕ)
joining = record wsgi { chunked = false; join = λ _. err (other "TypeError") }

abbrev broken : WsgiState (List ℕ)
broken = (handle_rpc list_set env protocol joining (fresh 1)).1

raised : handle_rpc list_set env protocol joining (fresh 1) ≡ (err (other "TypeError"), broken)
unfolding handle_rpc generate_contexts get_in_object get_out_object get_out_string_pull
    process_request request_body call_method call_wrapper fire_event Evmgr.fire_event Evmgr.fire_all
    get Event-discrete adapt_in_object wrap_out_object to_list drop_ignored total_length
    process_contexts finalize
raised = refl

closes_quietly : ClosesQuietly list_set env protocol joining
unfolding finalize Evmgr.fire_event Evmgr.fire_all get
closes_quietly w e p = cc

starts_quietly : StartsQuietly list_set env protocol joining
starts_quietly code c e p = cc

handle_rpc-raised_example : broken.started ≡ []
handle_rpc-raised_example =
    handle_rpc-raised list_set env protocol joining (fresh 1) broken (other "TypeError")
      closes_quietly starts_quietly raised refl

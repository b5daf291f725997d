-- ===== src/Server/Wsgi/Wsdl.antt =====
-- spyne/server/wsgi.py: `handle_wsdl_request` and `__call__`, for one request at a time. The
-- interface document of spyne/interface/wsdl is a parameter.
pub mod Cached
use Prim.Native.String.{len, ◌++◌ as ◌+s+◌}
use text.Mathlib.Text.{◌==◌ as str_eq, starts_with}
use spyne.Prelude.{
  ℕ, nat_eq, ◌+◌, ◌≡◌, refl, ap, sym, ◌∙◌, arith, Bool, true, false, not, ◌&&◌, ◌||◌, String,
  string_eq, Option, none, some, is_none, List, [], ◌∷◌, ◌++◌, length, if◌then◌else◌,
}
use spyne.Prelude.Dict
use spyne.Prelude.Dict.{Dict}
use spyne.Prelude.Exec.{
  Exec, Result, ok, err, pure, raise, lift, gets, modify, try_except, ◌>>=◌, ◌>>◌,
}
use spyne.Fault.{Exn, other, is_exception}
use spyne.Evmgr.{OrderedSet}
use spyne.Context.{MethodContext, State, on_ctx, Event, wsdl, wsdl_exception}
use spyne.Application.{Env}
use spyne.Server.{Protocol}
use spyne.Server.Wsgi.{
  Wsgi, WsgiState, WsgiAction, on_state, close, fire_server, start_with, handle_rpc,
}
use spyne.Server.Wsgi.Url.{Texts, Environ, reconstruct_url, is_wsdl_request}

-- `self.doc.wsdl11`, whose state is a `D`.
pub record WsdlDocument (D : Type 0) : Type 0 where
  pub get_interface_document : D → Option String
  pub build_interface_document : String → Exec D Exn (Unit {0})

-- The state of a server that also describes itself: `cached` is `self._wsdl`, and the context in
-- `server` is the new one that `handle_wsdl_request` makes.
pub record WsdlState (S D : Type 0) : Type 0 where
  pub server : WsgiState S
  pub cached : Option String
  pub document : D

abbrev pub WsdlAction : Type 0 → Type 0 → Type 0 → Type 0
WsdlAction S D A = Exec (WsdlState S D) Exn A

abbrev or_type_error : Option String → Result Exn String
or_type_error none = err (other "TypeError")
or_type_error (some s) = ok s

-- `wsgi_url`, or the reconstructed URL up to '.wsdl'
abbrev given_url : Texts → Option String → Result Exn String → Result Exn String
given_url texts none (ok url) = ok (texts.before url ".wsdl")
given_url texts none (err e) = err e
given_url texts (some u) url = ok u

-- HTTP_404 and HTTP_500 of spyne/const/http.py, which are the bodies too
abbrev pub http_404 : String
http_404 = "404 Not Found"

abbrev pub http_500 : String
http_500 = "500 Internal Server Error"

module _ {S D : Type 0} (os : OrderedSet ℕ S) (env : Env S) (prot : Protocol S) (wsgi : Wsgi S)
    (doc : Option (WsdlDocument D)) where
  abbrev pub on_server : {A : Type 0} → WsgiAction S A → WsdlAction S D A
  on_server m w = ((m w.server).0, record w { server = (m w.server).1 })

  abbrev pub on_document : {A : Type 0} → Exec D Exn A → WsdlAction S D A
  on_document m w = ((m w.document).0, record w { document = (m w.document).1 })

  -- `start_response` with a status of its own
  abbrev pub start : ℕ → WsdlAction S D (Unit {0})
  start code = on_server (start_with os env prot wsgi (some code))

  -- `self._wsdl = self.doc.wsdl11.get_interface_document()`
  abbrev pub fetch : WsdlDocument D → WsdlAction S D (Unit {0})
  fetch d = modify λ w. record w { cached = d.get_interface_document w.document }

  abbrev pub fetch_if_none : WsdlDocument D → Option String → WsdlAction S D (Unit {0})
  fetch_if_none d none = fetch d
  fetch_if_none d (some s) = pure tt

  -- the body of the `try`; the lock is taken before it and released after it
  abbrev build : WsdlDocument D → String → WsdlAction S D (Unit {0})
  build d url = do on_document (d.build_interface_document url); fetch d

  abbrev pub build_if_none : WsdlDocument D → String → Option String → WsdlAction S D (Unit {0})
  build_if_none d url none = build d url
  build_if_none d url (some s) = pure tt

  abbrev pub update_ctx : (MethodContext S → MethodContext S) → WsdlAction S D (Unit {0})
  update_ctx f = on_server (on_state (on_ctx (modify f)))

  -- from `fire_event('wsdl')` on, whose handlers may change the document of the context;
  -- `len(None)` is a TypeError
  abbrev pub fire_wsdl : WsdlAction S D String
  fire_wsdl = do
    on_server (fire_server os env prot wsgi wsdl)
    document ← gets (λ w. w.server.state.ctx.transport_wsdl)
    body ← lift (or_type_error document)
    update_ctx (λ c. record c { content_length = some (len body) })
    start 200
    on_server (on_state (on_ctx (close os env prot wsgi)))
    pure body

  -- The last assignment of `ctx.transport.wsdl`. Those before it assign what `self._wsdl` is by then,
  -- and None where a failure follows, as a new context has.
  abbrev pub send_wsdl : Option String → WsdlAction S D String
  send_wsdl document = do update_ctx (λ c. record c { transport_wsdl = document }); fire_wsdl

  abbrev pub try_build : WsdlDocument D → String → Option String → WsdlAction S D (Option Exn)
  try_build d url cached' =
      try_except (do build_if_none d url cached'; pure none)
        (λ e. if is_exception e then pure (some e) else raise e)

  abbrev pub answer_wsdl : Option Exn → WsdlAction S D String
  answer_wsdl none = do wsdl' ← gets (λ w. w.cached); send_wsdl wsdl'
  answer_wsdl (some e) = do
    on_server (fire_server os env prot wsgi wsdl_exception)
    start 500
    pure http_500

  abbrev pub describe : Option (WsdlDocument D) → String → WsdlAction S D String
  describe none url = do start 404; pure http_404
  describe (some d) url = do
    before ← gets (λ w. w.cached)
    fetch_if_none d before
    cached' ← gets (λ w. w.cached)
    failure ← try_build d url cached'
    answer_wsdl failure

  unfoldable pub handle_wsdl_request : String → WsdlAction S D String
  handle_wsdl_request url = describe doc url

  abbrev either_answer : Bool → String → WsdlAction S D (Option (List String))
  either_answer true url = do body ← handle_wsdl_request url; pure (some (body ∷ []))
  either_answer false url = on_server (handle_rpc os env prot wsgi)

  -- `__call__`
  unfoldable pub call : Texts → Environ → Option String → WsdlAction S D (Option (List String))
  unfolding handle_wsdl_request reconstruct_url is_wsdl_request
  call texts environ wsgi_url = do
    url ← lift (given_url texts wsgi_url (reconstruct_url texts environ).0)
    is_wsdl ← lift (is_wsdl_request texts environ).0
    either_answer is_wsdl (texts.before (texts.before url "?") ".wsdl")

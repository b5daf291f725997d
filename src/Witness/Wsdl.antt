-- ===== src/Witness/Wsdl.antt =====
-- A server that describes itself with one document.
use spyne.Prelude.{ℕ, ◌≡◌, ◌≢◌, refl, some, none, String, Option, List}
use spyne.Prelude.Exec.{ok}
use spyne.Evmgr
use spyne.Context.{Event-discrete}
use spyne.Application.{fire_event}
use spyne.Server.Wsgi.{finalize}
use spyne.Prelude.Dict.{get}
use spyne.Server.Wsgi.Wsdl.{WsdlDocument, WsdlState, handle_wsdl_request, http_500}
use spyne.Server.Wsgi.Wsdl.Cached.{handle_wsdl_request_once, Keeps, KeepsDocument}
use spyne.Witness.{list_set, env, protocol, wsgi, fresh}

-- The state of the document is the text that was built last.
abbrev document : WsdlDocument (Option String)
document = record {
  get_interface_document = λ d. d;
  build_interface_document = λ url d. (ok tt, some "<definitions/>");
}

abbrev idle : WsdlState (List ℕ) (Option String)
idle = record { server = fresh 1; cached = none; document = none }

abbrev described : WsdlState (List ℕ) (Option String)
described = (handle_wsdl_request list_set env protocol wsgi (some document) "u" idle).1

answered :
    (handle_wsdl_request list_set env protocol wsgi (some document) "u" idle).0
    ≡ ok "<definitions/>"
unfolding handle_wsdl_request fire_event Evmgr.fire_event Evmgr.fire_all get Event-discrete finalize
answered = refl

differs : "<definitions/>" ≢ http_500
differs e = cc

keeps_document : KeepsDocument list_set env protocol wsgi document
unfolding Evmgr.fire_event Evmgr.fire_all get
keeps_document c = refl

-- the server when the second request comes, in a context of its own
abbrev next : WsdlState (List ℕ) (Option String)
next = record described { server = fresh 2 }

handle_wsdl_request_once_example :
    Keeps list_set env protocol wsgi document "<definitions/>" next
      (handle_wsdl_request list_set env protocol wsgi (some document) "v" next)
handle_wsdl_request_once_example =
    handle_wsdl_request_once list_set env protocol wsgi document idle (fresh 2) "u" "v"
      "<definitions/>" keeps_document answered differs

-- ===== src/Fault/Http.antt =====
-- `fault_to_http_response_code` of spyne/protocol/_outbase.py and spyne/protocol/soap/soap11.py.
use spyne.Prelude.{ℕ, ◌≡◌, refl, Option, String, if◌then◌else◌}
use spyne.Fault.{
  Builtin, fault, invalid_credentials, request_too_long, request_not_allowed, internal,
  resource_not_found, respawn, builtin, is_subclass, new_fault, class_code, Exn, fault_exn,
  is_client,
}

-- The constants of spyne/const/http.py that the function returns, as the numbers they begin with.

unfoldable pub fault_to_http_response_code : Exn → ℕ
unfolding is_subclass
fault_to_http_response_code (fault_exn f) =
    if is_subclass f.cls request_too_long
    then 413
    else if is_subclass f.cls resource_not_found
    then 404
    else if is_subclass f.cls request_not_allowed
    then 405
    else if is_subclass f.cls invalid_credentials
    then 401
    else if is_client f
    then 400
    else 500
fault_to_http_response_code _ = 500

-- spyne/protocol/soap/soap11.py answers every fault alike.
unfoldable pub soap11_fault_to_http_response_code : Exn → ℕ
soap11_fault_to_http_response_code _ = 500

-- What error.py raises: a fault whose class is `b`, with the code that the class sets.
abbrev pub raised : Builtin → String → Option String → Exn
raised b faultstring detail =
    fault_exn (new_fault (builtin b) "Fault" (class_code b) faultstring detail)

-- The status that each class of error.py is answered with.
abbrev pub status_of : Builtin → ℕ
status_of fault = 500
status_of internal = 500
status_of request_too_long = 413
status_of resource_not_found = 404
status_of respawn = 404
status_of request_not_allowed = 405
status_of invalid_credentials = 401
status_of _ = 400

-- Every exception of error.py, with any fault string and detail, gets the status of its class;
-- RespawnError gets that of the class it derives from.
pub fault_to_http_response_code-raised :
    (b : Builtin) (faultstring : String) (detail : Option String)
    → fault_to_http_response_code (raised b faultstring detail) ≡ status_of b
unfolding fault_to_http_response_code new_fault class_code is_client
fault_to_http_response_code-raised fault s d = refl
fault_to_http_response_code-raised _ s d = refl

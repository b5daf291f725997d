-- ===== src/Witness/Faults.antt =====
-- Faults and their HTTP status.
use spyne.Prelude.{none, some}
use spyne.Fault.{Fault, builtin, derived, argument, fault_exn}
use spyne.Fault.Http.{fault_to_http_response_code}
use spyne.Fault.Status.{HasStatus, fault_to_http_response_code-HasStatus}

-- a fault of the user's own class below ArgumentError, with a code of its own
abbrev custom : Fault
custom = record {
  cls = derived (builtin argument);
  faultcode = "Server.Custom";
  faultstring = "x";
  faultactor = some "";
  detail = none;
}

fault_to_http_response_code-HasStatus_example :
    HasStatus custom (fault_to_http_response_code (fault_exn custom))
fault_to_http_response_code-HasStatus_example = fault_to_http_response_code-HasStatus custom

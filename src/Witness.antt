-- ===== src/Witness.antt =====
-- Concrete inputs for the theorems: an ordered set, an application with one method, a server.
mod Faults
mod Events
mod Requests
mod Answers
mod Numbers
mod Bodies
mod Protocols
mod Interfaces
mod Wsdl
mod Documents
mod Setups
mod Patterns
mod Durations
mod Queries
mod Classes
mod Trees
mod Orders
mod Loops
use spyne.Prelude.{
  nat_eq, ℕ, ◌≡◌, refl, ◌=?◌, Eq, arith, Bool, true, false, ◌||◌, List, [], ◌∷◌, ◌++◌, contains,
  if◌then◌else◌, Option, none, some,
}
use spyne.Prelude.Exec.{Result, ok, err, pure, raise}
use spyne.Fault.{other}
use spyne.Evmgr.{OrderedSet, EventManager}
use spyne.Context.{
  Event, Val, null, seq, nil, cons, scalar, BodyStyle, wrapped, Descriptor, MethodContext,
}
use spyne.Application.{Env}
use spyne.Server.{Protocol}
use spyne.Server.Wsgi.{Wsgi, WsgiState}

abbrev pub discard : List ℕ → ℕ → List ℕ
discard [] k = []
discard (x ∷ s) k = let rest = discard s k in if x =? k then rest else x ∷ rest

pub contains-discard :
    (s : List ℕ) (k j : ℕ) → contains (discard s k) j ≡ (if k =? j then false else contains s j)
contains-discard [] k j = ground arith
contains-discard (x ∷ s) k j = ground (arith, contains-discard s k j)

abbrev pub list_set : OrderedSet ℕ (List ℕ)
list_set = record {
  empty = [];
  add = λ s k. if contains s k then s else s ++ k ∷ [];
  discard = discard;
  to_list = λ s. s;
  to_list-empty = refl;
  to_list-add = λ s k. refl;
  contains-discard = contains-discard;
}

abbrev pub no_handlers : EventManager Event (List ℕ)
no_handlers = record { handlers = [] }

-- An application whose function 1 returns 5, and whose other functions raise ValueError.
abbrev pub env : Env (List ℕ)
env = record {
  event_manager = no_handlers;
  handler = λ h e. pure tt;
  call = λ f args. if f =? 1 then pure (scalar 5) else raise (other "ValueError");
  when = λ w v. pure true;
  respawn = λ c. pure none;
  do_redirect = λ f. pure tt;
  orig = λ c. none;
  return_traceback = false;
  traceback = λ e. "Traceback";
}

abbrev pub method : ℕ → Descriptor (List ℕ)
method f = record {
  function = some f;
  body_style = wrapped;
  in_count = 1;
  out_count = 1;
  no_self = true;
  no_ctx = false;
  service_class = some 7;
  parent_class = 0;
  when = none;
  event_managers = [];
}

abbrev pub request : ℕ → MethodContext (List ℕ)
request f = record {
  descriptor = some (method f);
  function = some f;
  method_request_string = "f";
  in_object = seq (cons (scalar 3) nil);
  out_object = null;
  in_error = none;
  out_error = none;
  at_output = false;
  out_document = none;
  out_string = none;
  resp_code = none;
  content_length = none;
  transport_wsdl = none;
  is_closed = false;
}

abbrev pub protocol : Protocol (List ℕ)
protocol = record {
  decompose = pure tt;
  generate = λ c. (ok (c ∷ []), c);
  deserialize = pure tt;
  serialize = pure tt;
  create_out_string = λ c. (ok tt, record c { out_string = some ("5" ∷ []) });
}

abbrev pub wsgi : Wsgi (List ℕ)
wsgi = record {
  server_events = no_handlers;
  chunked = true;
  reconstruct = pure tt;
  fault_code = λ e. 500;
  decorate = pure tt;
  close_files = pure tt;
  join = λ l. err (other "TypeError");
  initialize_context = λ c e. pure tt;
  process_exceptions = λ c. false;
  process_context = λ c. pure tt;
  start_error = λ code c. none;
  first_step = λ v. pure tt;
  fault_string = λ e. "Internal Error";
}

abbrev pub fresh : ℕ → WsgiState (List ℕ)
fresh f = record { state = record { ctx = request f; fired = [] }; started = [] }

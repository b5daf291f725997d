-- ===== src/Context.antt =====
-- The method context (spyne/context.py) and the method descriptor (spyne/descriptor.py), as far as
-- the request pipeline reads and writes them.
use spyne.Prelude.{ℕ, Bool, String, Option, some, List, [], ◌∷◌, Eq, eq_of_discrete}
use spyne.Prelude.Exec.{Exec}
use spyne.Fault.{Exn}
use spyne.Evmgr.{EventManager}

-- Python values that pass through the pipeline. `object` is an instance that the pipeline does not
-- look into, `scalar` a number, `ignored` an instance of `Ignored`, `seq` a list or a tuple.
mutual
  pub data Val : Type 0 where
    null ignored : Val
    scalar object : ℕ → Val
    seq : Vals → Val

  pub data Vals : Type 0 where
    nil : Vals
    cons : Val → Vals → Vals

abbrev pub singleton : Val → Val
singleton v = seq (cons v nil)

unfoldable pub to_list : Vals → List Val
to_list nil = []
to_list (cons v vs) = v ∷ to_list vs

-- The BODY_STYLE_* marker classes.
pub data BodyStyle : Type 0 where
  wrapped empty bare out_bare empty_out_bare : BodyStyle

-- The events that the pipeline fires, and those of the user's own.
pub data Event : Type 0 where
  method_context_closed method_call method_return_object method_redirect : Event
  method_redirect_exception method_exception_object : Event
  method_return_document method_exception_document : Event
  method_return_string method_exception_string : Event
  wsgi_call wsgi_exception wsgi_return wsgi_close wsdl wsdl_exception : Event

unfoldable pub Event-discrete : Discrete Event
Event-discrete = hlevel

instance abbrev pub event_eq : Eq Event
event_eq = eq_of_discrete Event-discrete

-- `MethodDescriptor`. `S` represents the ordered sets of the event managers. A class, a user
-- function and a `_when` callable are known by a number.
pub record Descriptor (S : Type 0) : Type 0 where
  pub function : Option ℕ
  pub body_style : BodyStyle
  -- len(in_message.get_flat_type_info(in_message)), len(out_message._type_info)
  pub in_count : ℕ
  pub out_count : ℕ
  pub no_self : Bool
  pub no_ctx : Bool
  pub service_class : Option ℕ
  pub parent_class : ℕ
  pub when : Option ℕ
  pub event_managers : List (EventManager Event S)

-- `MethodContext`. `at_output` tells whether `ctx.protocol` is `ctx.outprot_ctx` by now.
pub record MethodContext (S : Type 0) : Type 0 where
  pub descriptor : Option (Descriptor S)
  pub function : Option ℕ
  pub method_request_string : String
  pub in_object : Val
  pub out_object : Val
  pub in_error : Option Exn
  pub out_error : Option Exn
  pub at_output : Bool
  pub out_document : Option Val
  pub out_string : Option (List String)
  -- `ctx.transport.resp_code` and `ctx.transport.resp_headers['Content-Length']`
  pub resp_code : Option ℕ
  pub content_length : Option ℕ
  -- `ctx.transport.wsdl`
  pub transport_wsdl : Option String
  pub is_closed : Bool

-- One call of `fire_event`, with the context as the handlers get it.
pub record Firing (S : Type 0) : Type 0 where
  pub event : Event
  pub seen : MethodContext S

-- The context, and the events that were fired for it so far. The second is no state of the
-- program: it records what an observer that is registered for every event would see.
pub record State (S : Type 0) : Type 0 where
  pub ctx : MethodContext S
  pub fired : List (Firing S)

abbrev pub Action : Type 0 → Type 0 → Type 0
Action S A = Exec (State S) Exn A

module _ {S A : Type 0} where
  -- code of the user, which has the context in its hands
  abbrev pub on_ctx : Exec (MethodContext S) Exn A → Action S A
  on_ctx m s = ((m s.ctx).0, record s { ctx = (m s.ctx).1 })

-- the setter of `ctx.descriptor`, which sets `ctx.function` too
unfoldable pub set_descriptor : {S : Type 0} → MethodContext S → Descriptor S → MethodContext S
set_descriptor c d = record c { descriptor = some d; function = d.function }

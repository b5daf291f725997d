-- ===== src/Server.antt =====
-- spyne/server/_base.py: the steps of `ServerBase` that take a request from bytes to bytes. The
-- protocols' parsing and printing are the methods of a `Protocol`, code of the modelled program
-- that is not modelled here, or of the user.
pub mod Http
pub mod Wsgi
use spyne.Prelude.{
  nat_eq, ℕ, Bool, true, false, ◌&&◌, ◌||◌, not, String, Option, none, some, is_none, List, [], ◌∷◌,
  leb, if◌then◌else◌,
}
use spyne.Prelude.Exec.{Exec, Result, ok, err, pure, raise, gets, modify, try_except, ◌>>=◌, ◌>>◌}
use spyne.Fault.{Exn, fault_exn, other, system, Fault}
use spyne.Evmgr.{OrderedSet}
use spyne.Context.{
  Val, null, ignored, nil, cons, seq, singleton, Event, method_exception_object,
  method_return_document, method_exception_document, method_return_string, method_exception_string,
  Descriptor, MethodContext, State, Action, on_ctx,
}
use spyne.Application.{Env, fire_event}
use spyne.Application.Request.{process_request}

-- The methods of the input and of the output protocol that the server calls. `decompose` stands for
-- `create_in_document` followed by `decompose_incoming_envelope`, `generate` for
-- `generate_method_contexts`, whose result is the contexts as their descriptors.
pub record Protocol (S : Type 0) : Type 0 where
  pub decompose : Exec (MethodContext S) Exn (Unit {0})
  pub generate : Exec (MethodContext S) Exn (List (MethodContext S))
  pub deserialize : Exec (MethodContext S) Exn (Unit {0})
  pub serialize : Exec (MethodContext S) Exn (Unit {0})
  pub create_out_string : Exec (MethodContext S) Exn (Unit {0})

module _ {S : Type 0} (os : OrderedSet ℕ S) (env : Env S) (prot : Protocol S) where
  abbrev pub update : (MethodContext S → MethodContext S) → Action S (Unit {0})
  update f = modify λ s. record s { ctx = f s.ctx }

  -- `ctx.in_object = None; ctx.in_error = e; ctx.out_error = e` and the event
  abbrev pub fail_in : Fault → Action S (Unit {0})
  fail_in e = do
    update (λ c. record c {
      in_object = null;
      in_error = some (fault_exn e);
      out_error = some (fault_exn e);
    })
    fire_event os env method_exception_object

  -- The `except Fault` clause.
  abbrev pub on_fault : Exn → Action S (Unit {0})
  on_fault (fault_exn e) = fail_in e
  on_fault (other e) = raise (other e)
  on_fault (system e) = raise (system e)

  abbrev contexts_of_fault : Exn → Action S (List (MethodContext S))
  contexts_of_fault e = do on_fault e; gets (λ s. s.ctx ∷ [])

  unfoldable pub generate_contexts : Action S (List (MethodContext S))
  generate_contexts = try_except (do on_ctx prot.decompose; on_ctx prot.generate) contexts_of_fault

  unfoldable pub get_in_object : Action S (Unit {0})
  get_in_object = try_except (on_ctx prot.deserialize) on_fault

  -- what becomes of an out object that the user replaced by `Ignored`
  unfoldable pub drop_ignored : Val → Val
  drop_ignored (seq (cons ignored vs)) = singleton null
  drop_ignored ignored = seq nil
  drop_ignored v = v

  abbrev process_or_raise : Option Exn → Action S (Unit {0})
  process_or_raise none = process_request os env
  process_or_raise (some e) = raise e

  unfoldable pub get_out_object : Action S (Unit {0})
  get_out_object = do
    e ← gets (λ s. s.ctx.in_error)
    process_or_raise e
    update (λ c. record c { out_object = drop_ignored c.out_object })

  abbrev fire_either : Event → Event → Action S (Unit {0})
  fire_either on_return on_error = do
    e ← gets (λ s. s.ctx.out_error)
    fire_event os env (if is_none e then on_return else on_error)

  abbrev or_empty : Option (List String) → Option (List String)
  or_empty none = some ("" ∷ [])
  or_empty (some s) = some s

  unfoldable pub finalize_context : Action S (Unit {0})
  finalize_context = do
    fire_either method_return_document method_exception_document
    on_ctx prot.create_out_string
    fire_either method_return_string method_exception_string
    update (λ c. record c { out_string = or_empty c.out_string })

  abbrev serialize_if_needed : Option Val → Action S (Unit {0})
  serialize_if_needed none = on_ctx prot.serialize
  serialize_if_needed (some doc) = pure tt

  abbrev write_unless_set : Option (List String) → Action S (Unit {0})
  write_unless_set (some s) = pure tt
  write_unless_set none = do
    doc ← gets (λ s. s.ctx.out_document)
    serialize_if_needed doc
    finalize_context

  -- `get_out_string_pull` for a protocol whose `serialize` is no generator
  unfoldable pub get_out_string_pull : Action S (Unit {0})
  unfolding finalize_context
  get_out_string_pull = do s ← gets (λ s. s.ctx.out_string); write_unless_set s

-- ===== src/Lib.antt =====
-- Spyne: the core of the RPC framework.
--
-- An application (spyne/application.py) joins services, an input protocol and an output protocol.
-- A server (spyne/server) makes a method context of each request, has the input protocol find the
-- method and its arguments, calls `process_request`, has the output protocol print the answer, and
-- sends it. Along the way the context passes through the event managers of the application, the
-- service and the method. The interface (spyne/interface/_base.py) is built once, before the first
-- request: it holds the table from names to methods and the prefixes of namespaces.
--
-- Files, with the code that each is about:
--   Fault               spyne/model/fault.py, spyne/error.py, and the HTTP status of a fault in
--                       spyne/protocol/_outbase.py and spyne/protocol/soap/soap11.py
--   Evmgr               spyne/evmgr.py: registration, removal and firing of handlers
--   Context             spyne/context.py: the fields of a method context, the log of events
--   Application         spyne/application.py, spyne/service.py: `call_wrapper`
--   Application/Request `process_request`, on every branch
--   Application/Setup   `check_unique_method_keys` and `reinitialize`
--   Server              spyne/server/_base.py: the pipeline that servers pull an answer through
--   Server/Wsgi         spyne/server/wsgi.py: `handle_rpc`, `handle_error`, `__finalize`
--   Server/Wsgi/Input   the body of a request, chunk by chunk
--   Server/Wsgi/Query   `_parse_qs`
--   Server/Wsgi/Url     `_reconstruct_url`, `is_wsdl_request`
--   Server/Wsgi/Wsdl    `handle_wsdl_request` and `__call__`
--   Server/Http         spyne/server/http.py: `match_pattern`
--   Model/Simple        spyne/model/_base.py: validation that all simple types share
--   Model/Number        spyne/model/primitive/number.py: validation
--   Model/Complex       spyne/model/complex.py: the tables of members, `_get_flat_type_info`
--   Model/Complex/Order    the order of fields that the metaclass applies
--   Model/Complex/Simple   `get_simple_type_info_with_prot`
--   Protocol/Durations  spyne/protocol/_outbase.py and spyne/protocol/_inbase.py: durations
--   Protocol/Fields     spyne/protocol/_base.py: `sort_fields`
--   Protocol/Methods    `generate_method_contexts`, `get_call_handles`, `get_polymorphic_target`
--   Protocol/Translation  the translation of names of classes and members
--   Protocol/Sparse     spyne/protocol/dictdoc/simple.py: `_s2cmi` and the slots of an array
--   Protocol/Frequencies  spyne/protocol/dictdoc/_base.py: `_check_freq_dict`
--   Protocol/Hier       spyne/protocol/dictdoc/hier.py: `_doc_to_object` and `_from_dict_value`
--   Interface/Prefixes  spyne/interface/_base.py: `get_namespace_prefix`
--   Interface/Routes    `process_method` and the loops of `populate_interface` that call it
--   Util/Odict          spyne/util/odict.py
--   Util/Cdict          spyne/util/cdict.py
-- Modules below these hold proofs. Prelude has the helpers they share: dictionaries as association
-- lists (Dict), integers over the native naturals (Int), and actions with a state that may raise
-- (Exec). Witness applies the theorems to concrete inputs.
--
-- Code that may raise is an action of Exec: a state, and a result that is a value or an exception;
-- what was done to the state before an exception stays done. User code, handlers and protocols are
-- any actions on the context. The ordered set of the event manager is an interface of operations
-- and laws, and so is the stream that a body is read from.
--
-- Loops run on fuel where they are not structural. The body of a request gets one round for each
-- byte that is left and one more, and each round that goes on takes a byte. The search for a free
-- prefix gets one round more than there are prefixes, and no two rounds try the same one. A lookup
-- in a class dictionary, and `_get_flat_type_info`, get one round more than the number of the class,
-- as the bases of a class are older than the class and have smaller numbers. The walk over the
-- members of members gets one round for each member that a class has, as no class is expanded
-- twice. These are proved to end within it. The recursion of `_doc_to_object` ends within the rank of
-- a type where the types of members have lower ranks; where a type contains itself there are
-- documents on which it does not end at all.
--
-- Not modelled: lxml and the protocols built on it, regular expressions (parameters where the code
-- uses them), floats, dates, the rest of the metaclass that builds complex types, `customize` and
-- the variants that it registers, the memoising decorators, what SQLAlchemy does to instances,
-- other transports than WSGI, the clients, and the relational store. Of hierarchical documents, the
-- readers of simple types are parameters, and files and the printing of objects are left out.
-- Logging is left out everywhere. A handler that changes the listeners of the event that is being
-- fired is not modelled, and neither are threads that wait for the lock of the interface document.
pub mod Prelude
pub mod Fault
pub mod Evmgr
pub mod Context
pub mod Application
pub mod Server
pub mod Model
pub mod Protocol
pub mod Util
pub mod Interface
mod Witness

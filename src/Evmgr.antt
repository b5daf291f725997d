-- ===== src/Evmgr.antt =====
-- spyne/evmgr.py: the event manager, and `MethodContext.fire_event` of spyne/context.py.
-- Handlers are kept in the ordered set of spyne/util/oset.py, a copy of a published recipe, which
-- enters as an interface with the behaviour that evmgr.py's documentation relies on.
pub mod Laws
use spyne.Prelude.{
  ℕ, ◌≡◌, Bool, true, false, Option, none, some, List, [], ◌∷◌, ◌++◌, contains, Eq, ◌=?◌,
  if◌then◌else◌,
}
use spyne.Prelude.Dict
use spyne.Prelude.Dict.{Dict}
use spyne.Prelude.Exec.{Result, ok, err, Exec, pure, ◌>>=◌, ◌>>◌}

-- An ordered set of `K`s that `S` represents; `discard` drops a key if it is there.
pub record OrderedSet (K S : Type 0) ⦃e : Eq K⦄ : Type 0 where
  pub empty : S
  pub add : S → K → S
  pub discard : S → K → S
  pub to_list : S → List K
  pub to_list-empty : to_list empty ≡ []
  pub to_list-add :
      (s : S) (k : K)
      → to_list (add s k) ≡ (if contains (to_list s) k then to_list s else to_list s ++ k ∷ [])
  pub contains-discard :
      (s : S) (k j : K)
      → contains (to_list (discard s k)) j ≡ (if k =? j then false else contains (to_list s) j)

-- `EventManager`; the parent is only kept for reference.
pub record EventManager (K S : Type 0) : Type 0 where
  pub handlers : Dict K S

-- KeyError of `dict.__delitem__`, of `dict.__getitem__` and of `MutableSet.remove`.
pub data KeyError : Type 0 where
  no_event no_handler : KeyError

abbrev or_new {ℓ} : {S : Type ℓ} → Option S → S → S
or_new none new = new
or_new (some s) new = s

module _ {K H S : Type 0} ⦃k : Eq K⦄ ⦃h : Eq H⦄ (os : OrderedSet H S) where
  -- the listeners of an event, in the order in which they run
  abbrev pub listeners : EventManager K S → K → List H
  listeners m event_name = os.to_list (or_new (Dict.get m.handlers event_name) os.empty)

  unfoldable pub add_listener : EventManager K S → K → H → EventManager K S
  add_listener m event_name handler =
      let handlers = or_new (Dict.get m.handlers event_name) os.empty in
      record { handlers = Dict.put m.handlers event_name (os.add handlers handler) }

  -- `self.handlers[event_name].remove(handler)`
  abbrev remove_handler : EventManager K S → K → H → Option S → Result KeyError (EventManager K S)
  remove_handler m event_name handler none = err no_event
  remove_handler m event_name handler (some s) =
      if contains (os.to_list s) handler
      then ok (record { handlers = Dict.put m.handlers event_name (os.discard s handler) })
      else err no_handler

  abbrev delete_event : EventManager K S → K → Option S → Result KeyError (EventManager K S)
  delete_event m event_name none = err no_event
  delete_event m event_name (some s) = ok (record { handlers = Dict.remove m.handlers event_name })

  unfoldable pub del_listener : EventManager K S → K → Option H → Result KeyError (EventManager K S)
  del_listener m event_name none = delete_event m event_name (Dict.get m.handlers event_name)
  del_listener m event_name (some handler) =
      remove_handler m event_name handler (Dict.get m.handlers event_name)

  module _ {C E : Type 0} (run : H → K → Exec C E (Unit {0})) where
    -- the loop of `fire_event`; an exception ends it
    pub run_all : K → List H → Exec C E (Unit {0})
    run_all event_name [] = pure tt
    run_all event_name (handler ∷ handlers) = do run handler event_name; run_all event_name handlers

    unfoldable pub fire_event : EventManager K S → K → Exec C E (Unit {0})
    unfolding run_all
    fire_event m event_name = run_all event_name (listeners m event_name)

    -- `MethodContext.fire_event`: the application's manager, then those of the descriptor
    unfoldable pub fire_all : List (EventManager K S) → K → Exec C E (Unit {0})
    unfolding fire_event
    fire_all [] event_name = pure tt
    fire_all (m ∷ managers) event_name = do fire_event m event_name; fire_all managers event_name

-- ===== src/Witness/Events.antt =====
-- Listeners of the events 1 and 2.
use spyne.Prelude.{nat_eq, ℕ, ◌≡◌, refl, List, [], ◌∷◌, ◌++◌, some}
use spyne.Prelude.Dict
use spyne.Prelude.Exec.{Exec, ok, modify, ◌>>◌}
use spyne.Evmgr.{EventManager, add_listener, del_listener, fire_event}
use spyne.Evmgr.Laws.{fire_event-add_listener}
use spyne.Witness.{list_set}

abbrev manager : EventManager ℕ (List ℕ)
manager = record { handlers = (1, 10 ∷ 11 ∷ []) ∷ [] }

-- a handler notes its name
abbrev note : ℕ → ℕ → Exec (List ℕ) ℕ (Unit {0})
note handler event = modify λ seen. seen ++ handler ∷ []

abbrev smaller : EventManager ℕ (List ℕ)
smaller = record { handlers = (1, 11 ∷ []) ∷ [] }

removed : del_listener list_set manager 1 (some 10) ≡ ok smaller
unfolding del_listener Dict.get Dict.put
removed = refl

fire_event-add_listener_example :
    fire_event list_set note (add_listener list_set manager 1 12) 1 []
    ≡ (fire_event list_set note manager 1 >> note 12 1) []
unfolding Dict.get
fire_event-add_listener_example = fire_event-add_listener list_set note manager 1 12 []

-- The handlers run in the order of registration, a second registration changes nothing.
registration_order :
    fire_event list_set note (add_listener list_set (add_listener list_set manager 1 12) 1 10) 1 []
    ≡ (ok tt, 10 ∷ 11 ∷ 12 ∷ [])
unfolding fire_event add_listener Dict.get Dict.put
registration_order = refl

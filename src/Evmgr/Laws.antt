-- ===== src/Evmgr/Laws.antt =====
-- Registration, removal and the order in which the handlers run.
use spyne.Prelude.{
  ◌≡◌, refl, false, some, List, [], ◌∷◌, ◌++◌, arith, contains, Eq, ◌=?◌, if◌then◌else◌, ◌&&◌,
  Bool-cases, inl, inr, beq_refl,
}
use spyne.Prelude.Dict
use spyne.Prelude.Dict.{get-put}
use spyne.Prelude.Exec.{ok, is_ok, Exec, ◌>>◌}
use spyne.Evmgr.{
  OrderedSet, EventManager, or_new, listeners, add_listener, del_listener, run_all, fire_event,
}

module _ {K H S : Type 0} ⦃k : Eq K⦄ ⦃h : Eq H⦄ (os : OrderedSet H S) where
  -- The listeners of event `j` after `handler` is registered for `event_name`: those of the
  -- event get it at their end unless it is among them, and those of any other event stay.
  pub listeners-add_listener :
      (m : EventManager K S) (event_name j : K) (handler : H)
      → listeners os (add_listener os m event_name handler) j ≡ (
          if event_name =? j
          then (if contains (listeners os m j) handler
              then listeners os m j
              else listeners os m j ++ handler ∷ [])
          else listeners os m j)
  unfolding add_listener
  listeners-add_listener m event_name j handler =
      let s = or_new (Dict.get m.handlers event_name) os.empty in
      ground (
        arith,
        k.beq_iff event_name j,
        get-put m.handlers event_name j (os.add s handler),
        os.to_list-add s handler,
      )

  -- `del_listener` with a handler succeeds exactly on a handler that is registered.
  pub is_ok-del_listener :
      (m : EventManager K S) (event_name : K) (handler : H)
      → is_ok (del_listener os m event_name (some handler))
        ≡ contains (listeners os m event_name) handler
  unfolding del_listener
  is_ok-del_listener m event_name handler = ground (arith, os.to_list-empty)

  -- After a removal that succeeds the handler is no listener of the event, and every other
  -- registration stays.
  pub listeners-del_listener :
      (m m' : EventManager K S) (event_name j : K) (handler other : H)
      → del_listener os m event_name (some handler) ≡ ok m'
      → contains (listeners os m' j) other ≡ (
          if (event_name =? j) && (handler =? other)
          then false
          else contains (listeners os m j) other)
  unfolding del_listener
  listeners-del_listener m m' event_name j handler other e =
      let s = or_new (Dict.get m.handlers event_name) os.empty in
      ground (
        arith,
        k.beq_iff event_name j,
        get-put m.handlers event_name j (os.discard s handler),
        os.contains-discard s handler other,
      )

  module _ {C E : Type 0} (run : H → K → Exec C E (Unit {0})) where
    run_all-append :
        (event_name : K) (xs ys : List H) (c : C)
        → run_all os run event_name (xs ++ ys) c
          ≡ (run_all os run event_name xs >> run_all os run event_name ys) c
    unfolding run_all
    run_all-append event_name [] ys c = refl
    run_all-append event_name (x ∷ xs) ys c =
        ground (arith, run_all-append event_name xs ys (run x event_name c).1)

    -- Firing an event after `handler` was registered for it does what firing it did before, and
    -- then, if nothing raised and the handler is new, runs the handler: handlers run in the order
    -- in which they were added, and one that is added twice runs once.
    pub fire_event-add_listener :
        (m : EventManager K S) (event_name : K) (handler : H) (c : C)
        → fire_event os run (add_listener os m event_name handler) event_name c ≡ (
            if contains (listeners os m event_name) handler
            then fire_event os run m event_name c
            else (fire_event os run m event_name >> run handler event_name) c)
    unfolding fire_event
    fire_event-add_listener m event_name handler c =
        rw (listeners-add_listener m event_name event_name handler, beq_refl event_name)
          (elim (Bool-cases (contains (listeners os m event_name) handler)) [
            | inl old ↦ rw old
            | inr new ↦
                rw (new, run_all-append event_name _ (handler ∷ []) c)
                  (unfold run_all in ground arith)
          ])

-- ===== src/Application/Setup/Once.antt =====
-- What spyne/application.py makes sure of before the first request: keys that differ, and objects
-- that are initialised once.
use spyne.Prelude.{
  ℕ, nat_eq, String, string_eq, ◌≡◌, refl, sym, ap, ◌∙◌, arith, true, false, ◌||◌, not, ◌&&◌,
  Option, none, some, is_none, List, [], ◌∷◌, ◌++◌, contains, Distinct, ◌=?◌, Option-cases,
  Bool-cases, inl, inr, eq_of_beq, beq_refl,
}
use spyne.Prelude.Dict
use spyne.Prelude.Dict.{Dict, get-put}
use spyne.Prelude.Exec.{Exec, Result, ok, err, pure, continue, ◌>>=◌}
use spyne.Application.Setup.{
  Descriptor, SetupError, method_already_exists, Keys, check_methods, check_services,
  check_unique_method_keys, initialize_once, initialize_all, reinitialize, each, keys_of, all_keys,
}

-- Each differs from all before it, and from those in `seen`.
abbrev pub AllNew : List String → List String → Type 0
AllNew seen [] = Unit
AllNew seen (k ∷ l) = (contains seen k ≡ false) × AllNew (k ∷ seen) l

-- The keys are new, or the error names the first that is not.
abbrev pub Verdict : List String → List String → Result SetupError (Unit {0}) → Type 0
Verdict seen keys (ok a) = AllNew seen keys
Verdict seen keys (err (method_already_exists k)) =
    (before after : List String) × (keys ≡ before ++ k ∷ after)
    × AllNew seen before
    × ((contains before k || contains seen k) ≡ true)

Verdict-cons :
    (seen keys : List String) (k : String) (r : Result SetupError (Unit {0}))
    → contains seen k ≡ false
    → Verdict (k ∷ seen) keys r
    → Verdict seen (k ∷ keys) r
Verdict-cons seen keys k (ok a) e h = (e, h)
Verdict-cons seen keys k (err (method_already_exists j)) e (before, after, split, new, old) =
    (k ∷ before, after, ap (λ l. k ∷ l) split, (e, new), ground (arith, old))

-- The table has the keys in `seen`.
abbrev Holds : Keys → List String → Type 0
Holds keys seen = (k : String) → is_none (Dict.get keys k) ≡ not (contains seen k)

put-Holds :
    (keys : Keys) (seen : List String) (k : String) (v : ℕ)
    → Holds keys seen
    → Holds (Dict.put keys k v) (k ∷ seen)
put-Holds keys seen k v h j = ground (arith, get-put keys k j v, h j)

check_methods-Verdict :
    (methods : List Descriptor) (rest : Keys → Result SetupError (Unit {0})) (keys : Keys)
    (seen l : List String)
    → Holds keys seen
    → ((keys' : Keys) (seen' : List String) → Holds keys' seen' → Verdict seen' l (rest keys'))
    → Verdict seen (keys_of methods ++ l) (check_methods methods rest keys)
unfolding check_methods
check_methods-Verdict [] rest keys seen l h k = k keys seen h
check_methods-Verdict (d ∷ methods) rest keys seen l h k =
    elim (Option-cases (Dict.get keys d.internal_key)) [
      | inl absent ↦ rw absent (
          Verdict-cons seen (keys_of methods ++ l) d.internal_key _
            (ground (arith, h d.internal_key, absent))
            (check_methods-Verdict methods rest (Dict.put keys d.internal_key d.id)
              (d.internal_key ∷ seen) l (put-Holds keys seen d.internal_key d.id h) k))
      | inr (other, found) ↦
          rw found ([], keys_of methods ++ l, refl, tt, ground (arith, h d.internal_key, found))
    ]

check_services-Verdict :
    (services : List (List Descriptor)) (keys : Keys) (seen : List String)
    → Holds keys seen
    → Verdict seen (all_keys services) (check_services services keys)
unfolding check_services
check_services-Verdict [] keys seen h = tt
check_services-Verdict (s ∷ services) keys seen h =
    check_methods-Verdict s (check_services services) keys seen (all_keys services) h
      (check_services-Verdict services)

-- The check passes exactly when each internal key differs from all before it, in the order of the
-- services; else it raises MethodAlreadyExistsError with the first key that was there before.
pub check_unique_method_keys-Verdict :
    (services : List (List Descriptor))
    → Verdict [] (all_keys services) (check_unique_method_keys services)
unfolding check_unique_method_keys Dict.get
check_unique_method_keys-Verdict services = check_services-Verdict services [] [] (λ k. refl)

abbrev pub present : Option ℕ → List ℕ → List ℕ
present none l = l
present (some x) l = x ∷ l

-- the objects to initialise, in the order in which they are met
abbrev pub objects : List Descriptor → List ℕ
objects [] = []
objects (d ∷ methods) = present d.aux (present d.service_class (objects methods))

old_member :
    (seen l xs : List ℕ) (x y : ℕ)
    → contains seen x ≡ true
    → contains l y ≡ (contains xs y && not (contains seen y))
    → contains l y ≡ (contains (x ∷ xs) y && not (contains seen y))
old_member seen l xs x y old h = elim (Bool-cases (x =? y)) [
  | inl same ↦
      let there : contains seen y ≡ true = ap (contains seen) (sym (eq_of_beq x y same)) ∙ old in
      ground (arith, same, there, h)
  | inr other ↦ ground (arith, other, h)
]

new_member :
    (seen l xs : List ℕ) (x y : ℕ)
    → contains seen x ≡ false
    → contains l y ≡ (contains xs y && not (contains (x ∷ seen) y))
    → contains (x ∷ l) y ≡ (contains (x ∷ xs) y && not (contains seen y))
new_member seen l xs x y new h = elim (Bool-cases (x =? y)) [
  | inl same ↦
      let absent : contains seen y ≡ false = ap (contains seen) (sym (eq_of_beq x y same)) ∙ new in
      ground (arith, same, absent, h)
  | inr other ↦ ground (arith, other, h)
]

module _ {S E : Type 0} (initialize : ℕ → Exec S E (Unit {0})) where
  -- From `seen` on, the action initialises each of the objects that is new, once.
  abbrev pub InitializesOnce : List ℕ → List ℕ → Exec S E (Unit {0}) → Type 0
  InitializesOnce seen xs m =
      (l : List ℕ) × Distinct l
      × ((x : ℕ) → contains l x ≡ (contains xs x && not (contains seen x)))
      × ((s : S) → m s ≡ each initialize l s)

  continue-again :
      (r : Result E (Unit {0})) (seen : List ℕ) (m : List ℕ → Exec S E (Unit {0}))
      (n : Exec S E (Unit {0})) (s : S)
      → ((t : S) → m seen t ≡ n t)
      → continue {E = E} (continue r (λ _. pure seen) s).0 m (continue r (λ _. pure seen) s).1
        ≡ continue r (λ _. n) s
  continue-again (ok a) seen m n s h = h s
  continue-again (err e) seen m n s h = refl

  initialize_once-InitializesOnce :
      (seen : List ℕ) (o : Option ℕ) (xs : List ℕ) (m : List ℕ → Exec S E (Unit {0}))
      → ((seen' : List ℕ) → InitializesOnce seen' xs (m seen'))
      → InitializesOnce seen (present o xs) (initialize_once initialize seen o >>= m)
  unfolding initialize_once
  initialize_once-InitializesOnce seen none xs m h = h seen
  initialize_once-InitializesOnce seen (some x) xs m h = elim (Bool-cases (contains seen x)) [
    | inl old ↦
        let (l, distinct, members, same) = h seen in
        (l, distinct, λ y. old_member seen l xs x y old (members y), rw old same)
    | inr new ↦
        let (l, distinct, members, same) = h (x ∷ seen) in
        (
          x ∷ l,
          (ground (arith, members x, beq_refl x), distinct),
          λ y. new_member seen l xs x y new (members y),
          rw new (λ s.
              continue-again (initialize x s).0 (x ∷ seen) m (each initialize l) (initialize x s).1
                same),
        )
  ]

  initialize_all-InitializesOnce :
      (methods : List Descriptor) (seen : List ℕ)
      → InitializesOnce seen (objects methods) (initialize_all initialize methods seen)
  unfolding initialize_all
  initialize_all-InitializesOnce [] seen = ([], tt, λ x. refl, λ s. refl)
  initialize_all-InitializesOnce (d ∷ methods) seen =
      initialize_once-InitializesOnce seen d.aux (present d.service_class (objects methods))
        (λ seen'.
          initialize_once initialize seen' d.service_class >>= initialize_all initialize methods)
        (λ seen'.
          initialize_once-InitializesOnce seen' d.service_class (objects methods)
            (initialize_all initialize methods) (initialize_all-InitializesOnce methods))

  -- `reinitialize` calls `initialize` on a list of objects, one after the other until one raises:
  -- the auxiliary processors and the service classes of all methods, each of them once.
  pub reinitialize-InitializesOnce :
      (methods : List Descriptor)
      → (l : List ℕ) × Distinct l
        × ((x : ℕ) → contains l x ≡ contains (objects methods) x)
        × ((s : S) → reinitialize initialize methods s ≡ each initialize l s)
  unfolding reinitialize
  reinitialize-InitializesOnce methods =
      let (l, distinct, members, same) = initialize_all-InitializesOnce methods [] in
      (l, distinct, λ x. ground (arith, members x), same)

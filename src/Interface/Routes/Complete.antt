-- ===== src/Interface/Routes/Complete.antt =====
-- What the tables of methods hold once spyne/interface/_base.py has filled them.
use mathlib.Core.Path.{subst}
use spyne.Prelude.{
  eq_of_beq, beq_refl, ℕ, nat_eq, String, string_eq, ◌≡◌, refl, sym, ◌⊎◌, inl, inr, arith, Bool,
  false, Option, none, some, is_none, List, [], ◌∷◌, ◌++◌, ◌=?◌, if◌then◌else◌, All, All-append,
  Option-cases, Bool-cases, if_elim,
}
use spyne.Prelude.Dict
use spyne.Prelude.Dict.{Dict, get-put}
use spyne.Prelude.Exec.{Result, ok, err, pure, raise, continue}
use spyne.Interface.Routes.{
  Class, Method, Routes, Routing, RouteError, add_route, or_empty, register, process_method,
  process_methods, populate_routes, public_methods, static_methods, assertion_error, method_key,
  gen_interface_key, compatible, known_or_register,
}

-- The first method may be primary or auxiliary, all others are auxiliary.
abbrev pub IsRoute : List Method → Type 0
IsRoute [] = ⊥
IsRoute (m ∷ ms) = All (λ x. is_none x.aux ≡ false) ms

abbrev pub Member : Method → List Method → Type 0
Member m [] = ⊥
Member m (x ∷ l) = (x ≡ m) ⊎ Member m l

-- Every route is as above, and every method of the table by keys is on some route.
pub record IsComplete (r : Routes) : Type 0 where
  pub routes :
      (name : String) (l : List Method) → Dict.get r.service_method_map name ≡ some l → IsRoute l
  pub routed :
      (key : String) (m : Method)
      → Dict.get r.method_id_map key ≡ some m
      → (name : String) × Member m (or_empty (Dict.get r.service_method_map name))

Member-append : (m : Method) (l r : List Method) → Member m l → Member m (l ++ r)
Member-append m [] r h = absurd h
Member-append m (x ∷ l) r (inl e) = inl e
Member-append m (x ∷ l) r (inr h) = inr (Member-append m l r h)

Member-last : (m : Method) (l : List Method) → Member m (l ++ m ∷ [])
Member-last m [] = inl refl
Member-last m (x ∷ l) = inr (Member-last m l)

-- What `add_route` makes of a list that is a route, or empty.
record Extends (m : Method) (old new : List Method) : Type 0 where
  route : IsRoute new
  kept : (x : Method) → Member x old → Member x new
  added : Member m new

add_route-Extends :
    (val : List Method) (m : Method)
    → ((v : Method) (vs : List Method) → val ≡ v ∷ vs → IsRoute val)
    → (add_route val m val).0 ≡ ok tt
    → Extends m val (add_route val m val).1
unfolding add_route
add_route-Extends [] m h e = record { route = tt; kept = λ x b. absurd b; added = inl refl }
add_route-Extends (v ∷ val) m h e = elim (Bool-cases (is_none m.aux)) [
  | inl primary ↦ absurd (ground arith)
  | inr auxiliary ↦ rw auxiliary (record {
    route = All-append (λ x. is_none x.aux ≡ false) val (m ∷ []) (h v val refl) (auxiliary, tt);
    kept = λ x b. Member-append x (v ∷ val) (m ∷ []) b;
    added = Member-last m (v ∷ val);
  })
]

already_valid :
    (r : Routes) (name : String)
    → IsComplete r
    → (v : Method) (vs : List Method) → or_empty (Dict.get r.service_method_map name) ≡ v ∷ vs
    → IsRoute (or_empty (Dict.get r.service_method_map name))
already_valid r name h v vs e = elim (Option-cases (Dict.get r.service_method_map name)) [
  | inl absent ↦ absurd (ground (arith, absent))
  | inr (l, found) ↦ rw found (h.routes name l found)
]

-- the list for a name after one list has changed
put_at :
    (d : Dict String (List Method)) (name n : String) (new : List Method)
    → or_empty (Dict.get (Dict.put d name new) n)
      ≡ (if name =? n then new else or_empty (Dict.get d n))
put_at d name n new = ground (arith, get-put d name n new)

-- what was on a route is on it still
kept_at :
    (d : Dict String (List Method)) (m : Method) (name n : String) (new : List Method)
    → ((x : Method) → Member x (or_empty (Dict.get d name)) → Member x new)
    → Member m (or_empty (Dict.get d n))
    → Member m (or_empty (Dict.get (Dict.put d name new) n))
kept_at d m name n new kept h = rw (put_at d name n new) (
    if_elim (Member m) (name =? n) new (or_empty (Dict.get d n))
      (λ same.
        kept m (subst (λ j. Member m (or_empty (Dict.get d j))) (sym (eq_of_beq name n same)) h))
      (λ _. h))

-- the tables that `register` leaves
abbrev registered : Routes → String → String → Method → List Method → Routes
registered r key name m new = record {
  method_id_map = Dict.put r.method_id_map key m;
  service_method_map = Dict.put r.service_method_map name new;
}

module _ (r : Routes) (key name : String) (m : Method) (new : List Method) (h : IsComplete r)
    (x : Extends m (or_empty (Dict.get r.service_method_map name)) new) where
  registered_routes :
      (n : String) (l : List Method)
      → Dict.get (registered r key name m new).service_method_map n ≡ some l
      → IsRoute l
  registered_routes n l e = elim (Bool-cases (name =? n)) [
    | inl same ↦
        subst IsRoute (ground (arith, same, get-put r.service_method_map name n new)) x.route
    | inr other ↦ h.routes n l (ground (arith, other, get-put r.service_method_map name n new))
  ]

  registered_routed :
      (k : String) (m' : Method)
      → Dict.get (registered r key name m new).method_id_map k ≡ some m'
      → (n : String) × Member m'
          (or_empty (Dict.get (registered r key name m new).service_method_map n))
  registered_routed k m' e = elim (Bool-cases (key =? k)) [
    | inl same ↦
        let it_is : m ≡ m' = ground (arith, same, get-put r.method_id_map key k m) in
        (
          name,
          rw (put_at r.service_method_map name name new, beq_refl name)
              (subst (λ y. Member y new) it_is x.added),
        )
    | inr other ↦
        let (n, old) = h.routed k m' (ground (arith, other, get-put r.method_id_map key k m)) in
        (n, kept_at r.service_method_map m' name n new x.kept old)
  ]

  registered-IsComplete : IsComplete (registered r key name m new)
  registered-IsComplete = record { routes = registered_routes; routed = registered_routed }

module _ (first : String → String) (tns : String) where
  known_or_register-IsComplete :
      (r : Routes) (s : Class) (m : Method) (key : String) (known : Option Method)
      → IsComplete r
      → (known_or_register first tns s m key known r).0 ≡ ok tt
      → IsComplete (known_or_register first tns s m key known r).1
  unfolding register
  known_or_register-IsComplete r s m key (some other) h e =
      if_elim (λ action. IsComplete (action r).1) (compatible s other.parent_class) (pure tt)
        (raise assertion_error) (λ _. h) (λ _. h)
  known_or_register-IsComplete r s m key none h e =
      let name = method_key first tns s m in
      registered-IsComplete r key name m _ h (
        add_route-Extends (or_empty (Dict.get r.service_method_map name)) m (already_valid r name h)
          e)

  process_method-IsComplete :
      (r : Routes) (s : Class) (m : Method)
      → IsComplete r
      → (process_method first tns s m r).0 ≡ ok tt
      → IsComplete (process_method first tns s m r).1
  unfolding process_method
  process_method-IsComplete r s m h e =
      known_or_register-IsComplete r s m (gen_interface_key first s m)
        (Dict.get r.method_id_map (gen_interface_key first s m)) h e

  then-IsComplete :
      (result : Result RouteError (Unit {0})) (r : Routes) (n : Routing)
      → (result ≡ ok tt → IsComplete r)
      → ((r' : Routes) → IsComplete r' → (n r').0 ≡ ok tt → IsComplete (n r').1)
      → (continue result (λ _. n) r).0 ≡ ok tt
      → IsComplete (continue result (λ _. n) r).1
  then-IsComplete (ok a) r n h k e = k r (h refl) e
  then-IsComplete (err x) r n h k e = cc

  process_methods-IsComplete :
      (methods : List (Class × Method)) (r : Routes)
      → IsComplete r
      → (process_methods first tns methods r).0 ≡ ok tt
      → IsComplete (process_methods first tns methods r).1
  unfolding process_methods
  process_methods-IsComplete [] r h e = h
  process_methods-IsComplete ((s, m) ∷ methods) r h e =
      then-IsComplete (process_method first tns s m r).0 (process_method first tns s m r).1
        (process_methods first tns methods) (process_method-IsComplete r s m h)
        (λ r'. process_methods-IsComplete methods r') e

  -- If the call routes are filled without an error, in tables that were complete (empty ones, say),
  -- every method of the table by keys can be reached by some name, and the methods of a name are
  -- auxiliary, but for the first.
  pub populate_routes-IsComplete :
      (classes : ℕ → Class) (static_when : Method → Bool) (services : List (Class × List Method))
      (member_methods : List (Class × Method)) (r : Routes)
      → IsComplete r
      → (populate_routes first tns classes static_when services member_methods r).0 ≡ ok tt
      → IsComplete (populate_routes first tns classes static_when services member_methods r).1
  unfolding populate_routes
  populate_routes-IsComplete classes static_when services member_methods r h e =
      then-IsComplete (process_methods first tns (public_methods first tns services) r).0
        (process_methods first tns (public_methods first tns services) r).1
        (process_methods first tns (static_methods first tns classes static_when member_methods))
        (process_methods-IsComplete (public_methods first tns services) r h)
        (process_methods-IsComplete (static_methods first tns classes static_when member_methods)) e

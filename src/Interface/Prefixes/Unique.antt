-- ===== src/Interface/Prefixes/Unique.antt =====
-- The two tables of prefixes of spyne/interface/_base.py agree, whatever is asked of them.
use mathlib.Core.Path.{subst}
use mathlib.Core.Option.{some-injective}
use spyne.Prelude.{
  ◌↔◌, ℕ, suc, ◌≡◌, refl, ap, sym, ◌∙◌, arith, String, string_eq, true, none, some, is_none, [],
  ◌∷◌, length, All, Option-cases, inl, inr,
}
use spyne.Prelude.Dict
use spyne.Prelude.Dict.{Dict, get-put, get-remove}
use spyne.Interface.Prefixes.{
  Namespaces, default_nsmap, invert, reset_interface, get_namespace_prefix,
}
use spyne.Interface.Prefixes.Free.{free_counter_total, free_counter-is_none}

-- Every prefix of `prefmap` stands for its namespace.
pub record IsConsistent (n : Namespaces) : Type 0 where
  pub bound : (ns p : String) → Dict.get n.prefmap ns ≡ some p → Dict.get n.nsmap p ≡ some ns

abbrev Inverts : Dict String String → Dict String String → Type 0
Inverts d acc = (ns p : String) → Dict.get acc ns ≡ some p → Dict.get d p ≡ some ns

invert-Inverts :
    (d items acc : Dict String String)
    → All (λ x. Dict.get d x.0 ≡ some x.1) items
    → Inverts d acc
    → Inverts d (invert items acc)
unfolding invert
invert-Inverts d [] acc a h = h
invert-Inverts d ((k, v) ∷ items) acc a h =
    invert-Inverts d items (Dict.put acc v k) a.1
      (λ ns p e. ground (arith, get-put acc v ns k, string_eq.beq_iff v ns, h ns p, a.0))

default_entries : All (λ x. Dict.get default_nsmap x.0 ≡ some x.1) default_nsmap
unfolding Dict.get
default_entries = search depth 30

default_Inverts : Inverts default_nsmap (invert default_nsmap [])
unfolding Dict.get
default_Inverts = invert-Inverts default_nsmap default_nsmap [] default_entries nothing
  where
    nothing : (ns p : String) → Dict.get [] ns ≡ some p → Dict.get default_nsmap p ≡ some ns
    nothing ns p e = cc e

tns_unused : Dict.get default_nsmap "tns" ≡ none
unfolding Dict.get
tns_unused = refl

-- The tables that `reset_interface` leaves are consistent, for any target namespace, one of the
-- default table included.
reset_interface-IsConsistent : (tns : String) (c : ℕ) → IsConsistent (reset_interface tns c)
unfolding reset_interface
reset_interface-IsConsistent tns c = record {
  bound = λ ns p e. ground (
    arith,
    get-put (invert default_nsmap []) tns ns "tns",
    get-put default_nsmap "tns" p tns,
    string_eq.beq_iff tns ns,
    string_eq.beq_iff "tns" p,
    default_Inverts ns p,
    tns_unused,
  );
}

module _ (prefix : ℕ → String) (prefix_injective : (a b : ℕ) → prefix a ≡ prefix b → a ≡ b) where
  -- A prefix is always found. What was bound stays bound, and the namespace has the prefix from
  -- then on.
  abbrev pub Assigns : Namespaces → String → String × Namespaces → Type 0
  Assigns n ns r =
      IsConsistent r.1
      × (Dict.get r.1.prefmap ns ≡ some r.0)
      × ((ns' p : String) → Dict.get n.prefmap ns' ≡ some p → Dict.get r.1.prefmap ns' ≡ some p)
      × ((p ns' : String) → Dict.get n.nsmap p ≡ some ns' → Dict.get r.1.nsmap p ≡ some ns')

  new_prefix :
      (n : Namespaces) (ns p : String) (c : ℕ)
      → IsConsistent n
      → Dict.get n.prefmap ns ≡ none
      → is_none (Dict.get n.nsmap p) ≡ true
      → Assigns n ns (
        p,
        record { nsmap = Dict.put n.nsmap p ns; prefmap = Dict.put n.prefmap ns p; ns_counter = c },
      )
  new_prefix n ns p c h absent free = (
    record {
      bound = λ j q e. ground (
        arith,
        get-put n.prefmap ns j p,
        get-put n.nsmap p q ns,
        h.bound j q,
        string_eq.beq_iff ns j,
        string_eq.beq_iff p q,
      );
    },
    ground (arith, get-put n.prefmap ns ns p, string_eq.beq_iff ns ns),
    λ j q e. ground (arith, get-put n.prefmap ns j p, string_eq.beq_iff ns j),
    λ q j e. ground (arith, get-put n.nsmap p q ns, string_eq.beq_iff p q),
  )

  get_namespace_prefix-Assigns :
      (n : Namespaces) (ns : String)
      → IsConsistent n
      → (r : String × Namespaces) × (get_namespace_prefix prefix n ns ≡ some r) × Assigns n ns r
  unfolding get_namespace_prefix
  get_namespace_prefix-Assigns n ns h = elim (Option-cases (Dict.get n.prefmap ns)) [
    | inr (p, known) ↦ ((p, n), rw known refl, (h, known, λ j q e. e, λ q j e. e))
    | inl absent ↦
        let (c, found) =
          free_counter_total prefix prefix_injective (suc (length n.nsmap)) n.nsmap n.ns_counter
            (omega arith) in
        (
          _,
          rw (absent, found) refl,
          new_prefix n ns (prefix c) (suc c) h absent
              (free_counter-is_none prefix (suc (length n.nsmap)) n.nsmap n.ns_counter c found),
        )
  ]

  -- What any calls of `get_namespace_prefix` make of a fresh interface for `tns`.
  pub data Asked (tns : String) : Namespaces → Type 0 where
    fresh : (c : ℕ) → Asked tns (reset_interface tns c)
    ask :
        {n m : Namespaces} (ns p : String)
        → Asked tns n
        → get_namespace_prefix prefix n ns ≡ some (p, m)
        → Asked tns m

  Asked-IsConsistent : {tns : String} {n : Namespaces} → Asked tns n → IsConsistent n
  Asked-IsConsistent (fresh c) = reset_interface-IsConsistent _ c
  Asked-IsConsistent (ask {n = n} {m = m} ns p a e) =
      let (r, e', assigned) = get_namespace_prefix-Assigns n ns (Asked-IsConsistent a) in
      subst IsConsistent (ap (λ q. q.1) (some-injective _ _ (sym e' ∙ e))) assigned.0

  -- After any calls, `get_namespace_prefix` ends with a prefix for any namespace. The namespace has
  -- it from then on, it is the prefix of no other namespace, and all other prefixes stay.
  pub get_namespace_prefix_unique :
      {tns : String} {n : Namespaces} (ns : String)
      → Asked tns n
      → (p : String) × (m : Namespaces) × (get_namespace_prefix prefix n ns ≡ some (p, m))
        × ((ns' : String) → (Dict.get m.prefmap ns' ≡ some p) ↔ (ns' ≡ ns))
        × ((ns' q : String) → Dict.get n.prefmap ns' ≡ some q → Dict.get m.prefmap ns' ≡ some q)
  get_namespace_prefix_unique {n = n} ns a =
      let ((p, m), e, (valid, has_it, kept, _)) =
        get_namespace_prefix-Assigns n ns (Asked-IsConsistent a) in
      (
        p,
        m,
        e,
        λ j. (
          λ same. sym (some-injective _ _ (sym (valid.bound ns p has_it) ∙ valid.bound j p same)),
          λ same. ap (Dict.get m.prefmap) same ∙ has_it,
        ),
        kept,
      )

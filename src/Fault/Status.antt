-- ===== src/Fault/Status.antt =====
-- The HTTP status of a fault, by the class that it derives from and its code:
-- `fault_to_http_response_code` of spyne/protocol/_outbase.py.
use text.Mathlib.Text.{◌==◌ as str_eq}
use text.Mathlib.TextBridge.{IsPrefix}
use text.Mathlib.TextEquality.{eq_iff, starts_with_iff}
use mathlib.Core.Path.{subst}
use spyne.Prelude.{
  ℕ, nat_eq, ◌≡◌, ◌⊎◌, inl, inr, refl, sym, ap, ◌∙◌, arith, true, false, ◌==◌, Option, none, some,
  String, Bool-cases, eq_of_beq, beq_refl, if_elim, if◌then◌else◌,
}
use spyne.Fault.{
  Builtin, fault, invalid_credentials, request_too_long, request_not_allowed, argument,
  invalid_input, missing_field, validation, internal, resource_not_found, respawn,
  resource_already_exists, redirect, index, base, below, FaultClass, builtin, derived, is_subclass,
  Fault, fault_exn, is_client,
}
use spyne.Fault.Http.{fault_to_http_response_code}

-- A class is one of error.py, or derives from it by the bases that the `class` statements name.
pub data IsA : FaultClass → Builtin → Type 0 where
  itself : {b : Builtin} → IsA (builtin b) b
  by_base : {b c d : Builtin} → base b ≡ some c → IsA (builtin c) d → IsA (builtin b) d
  by_derived : {c : FaultClass} {b : Builtin} → IsA c b → IsA (derived c) b

-- The code 'Client', or one below it.
pub data IsClientCode : String → Type 0 where
  client : IsClientCode "Client"
  below_client : {s : String} → IsPrefix "Client." s → IsClientCode s

-- The class has a status of its own.
pub data HasOwnStatus (c : FaultClass) : ℕ → Type 0 where
  too_long : IsA c request_too_long → HasOwnStatus c 413
  not_found : IsA c resource_not_found → HasOwnStatus c 404
  not_allowed : IsA c request_not_allowed → HasOwnStatus c 405
  bad_credentials : IsA c invalid_credentials → HasOwnStatus c 401

-- The status of a fault.
pub data HasStatus (f : Fault) : ℕ → Type 0 where
  own : {n : ℕ} → HasOwnStatus f.cls n → HasStatus f n
  client_error : ((n : ℕ) → ¬ (HasOwnStatus f.cls n)) → IsClientCode f.faultcode → HasStatus f 400
  server_error :
      ((n : ℕ) → ¬ (HasOwnStatus f.cls n)) → ¬ (IsClientCode f.faultcode) → HasStatus f 500

abbrev of_index : ℕ → Builtin
of_index n =
    if n == 0
    then fault
    else if n == 1
    then invalid_credentials
    else if n == 2
    then request_too_long
    else if n == 3
    then request_not_allowed
    else if n == 4
    then argument
    else if n == 5
    then invalid_input
    else if n == 6
    then missing_field
    else if n == 7
    then validation
    else if n == 8
    then internal
    else if n == 9
    then resource_not_found
    else if n == 10
    then respawn
    else if n == 11
    then resource_already_exists
    else redirect

of_index-index : (b : Builtin) → of_index (index b) ≡ b
of_index-index fault = refl
of_index-index _ = refl

index_injective : (b c : Builtin) → (index b == index c) ≡ true → b ≡ c
index_injective b c h =
    sym (of_index-index b) ∙ ap of_index (eq_of_beq (index b) (index c) h) ∙ of_index-index c

same-IsA : (b c : Builtin) → (index b == index c) ≡ true → IsA (builtin b) c
same-IsA b c h = subst (λ x. IsA (builtin b) x) (index_injective b c h) itself

IsA-fault : (b : Builtin) → IsA (builtin b) fault
IsA-fault fault = itself
IsA-fault missing_field = by_base refl (by_base refl itself)
IsA-fault respawn = by_base refl (by_base refl itself)
IsA-fault _ = by_base refl itself

below-IsA :
    (b : Builtin) (o : Option Builtin) (c : Builtin)
    → base b ≡ o
    → below o c ≡ true
    → IsA (builtin b) c
below-IsA b none c e h = absurd (cc h)
below-IsA b (some d) c e h = elim (Bool-cases (index d == index c)) [
  | inl same ↦ by_base e (same-IsA d c same)
  | inr other ↦
      subst (λ x. IsA (builtin b) x) (index_injective fault c (ground (arith, other, h)))
        (by_base e (IsA-fault d))
]

is_subclass-IsA : (c : FaultClass) (b : Builtin) → is_subclass c b ≡ true → IsA c b
unfolding is_subclass
is_subclass-IsA (builtin b) c h = elim (Bool-cases (index b == index c)) [
  | inl same ↦ same-IsA b c same
  | inr other ↦ below-IsA b (base b) c refl (ground (arith, other, h))
]
is_subclass-IsA (derived d) c h = by_derived (is_subclass-IsA d c h)

-- The bases of a base are none, or `Fault`.
base_of_base : (b c : Builtin) → base b ≡ some c → (base c ≡ none) ⊎ (base c ≡ some fault)
base_of_base b fault e = inl refl
base_of_base fault missing_field e = absurd (cc e)
base_of_base fault respawn e = absurd (cc e)
base_of_base missing_field missing_field e = absurd (cc e)
base_of_base missing_field respawn e = absurd (cc e)
base_of_base respawn missing_field e = absurd (cc e)
base_of_base respawn respawn e = absurd (cc e)
base_of_base _ missing_field e = absurd (cc e)
base_of_base _ respawn e = absurd (cc e)
base_of_base b _ e = inr refl

is_subclass_by_base :
    (b c d : Builtin)
    → base b ≡ some c
    → is_subclass (builtin c) d ≡ true
    → is_subclass (builtin b) d ≡ true
unfolding is_subclass
is_subclass_by_base b c d e h = elim (base_of_base b c e) [
  | inl top ↦ rw e (ground (arith, rw top at h))
  | inr second ↦ rw e (ground (arith, rw second at h))
]

IsA-is_subclass : {c : FaultClass} {b : Builtin} → IsA c b → is_subclass c b ≡ true
unfolding is_subclass
IsA-is_subclass (itself {b}) = ground (arith, beq_refl (index b))
IsA-is_subclass (by_base {b} {c} {d} e h) = is_subclass_by_base b c d e (IsA-is_subclass h)
IsA-is_subclass (by_derived h) = IsA-is_subclass h

is_client-IsClientCode : (f : Fault) → is_client f ≡ true → IsClientCode f.faultcode
unfolding is_client
is_client-IsClientCode f h = elim (Bool-cases (str_eq f.faultcode "Client")) [
  | inl same ↦ subst IsClientCode (sym ((eq_iff f.faultcode "Client").0 same)) client
  | inr other ↦ below_client ((starts_with_iff f.faultcode "Client.").0 (ground (arith, other, h)))
]

IsClientCode-is_client :
    (f : Fault) (s : String) → f.faultcode ≡ s → IsClientCode s → is_client f ≡ true
unfolding is_client
IsClientCode-is_client f s e client = ground (arith, (eq_iff f.faultcode "Client").1 e)
IsClientCode-is_client f s e (below_client p) =
    ground (arith, rw (sym e) at ((starts_with_iff s "Client.").1 p))

no_own_status :
    (c : FaultClass)
    → is_subclass c request_too_long ≡ false
    → is_subclass c resource_not_found ≡ false
    → is_subclass c request_not_allowed ≡ false
    → is_subclass c invalid_credentials ≡ false
    → (n : ℕ) → ¬ (HasOwnStatus c n)
no_own_status c p q r s n (too_long h) = cc (sym p ∙ IsA-is_subclass h)
no_own_status c p q r s n (not_found h) = cc (sym q ∙ IsA-is_subclass h)
no_own_status c p q r s n (not_allowed h) = cc (sym r ∙ IsA-is_subclass h)
no_own_status c p q r s n (bad_credentials h) = cc (sym s ∙ IsA-is_subclass h)

-- A protocol that answers faults by this function, as all but those of SOAP do, gives a fault the
-- status of the class that it derives from, in any number of steps; a fault whose class has none
-- gets 400 if its code is 'Client' or begins with 'Client.', and else 500.
pub fault_to_http_response_code-HasStatus :
    (f : Fault) → HasStatus f (fault_to_http_response_code (fault_exn f))
unfolding fault_to_http_response_code
fault_to_http_response_code-HasStatus f =
    if_elim (HasStatus f) (is_subclass f.cls request_too_long) _ _
      (λ h. own (too_long (is_subclass-IsA f.cls request_too_long h)))
      (λ p.
        if_elim (HasStatus f) (is_subclass f.cls resource_not_found) _ _
          (λ h. own (not_found (is_subclass-IsA f.cls resource_not_found h)))
          (λ q.
            if_elim (HasStatus f) (is_subclass f.cls request_not_allowed) _ _
              (λ h. own (not_allowed (is_subclass-IsA f.cls request_not_allowed h)))
              (λ r.
                if_elim (HasStatus f) (is_subclass f.cls invalid_credentials) _ _
                  (λ h. own (bad_credentials (is_subclass-IsA f.cls invalid_credentials h)))
                  (λ s.
                    if_elim (HasStatus f) (is_client f) _ _
                      (λ h. client_error (no_own_status f.cls p q r s) (is_client-IsClientCode f h))
                      (λ h.
                        server_error (no_own_status f.cls p q r s)
                          (λ k. cc (sym h ∙ IsClientCode-is_client f f.faultcode refl k)))))))

-- ===== src/Model/Complex/Simple/Ends.antt =====
-- The loop of `get_simple_type_info_with_prot` in spyne/model/complex.py ends.
use mathlib.Core.Path.{subst}
use spyne.Prelude.{
  ℕ, zero, suc, nat_eq, string_eq, ◌≡◌, ◌<◌, ◌≤◌, ◌+◌, refl, sym, ap, ◌∙◌, inl, inr, arith, String,
  Bool, true, false, Option, List, [], ◌∷◌, ◌++◌, All, All-append, contains, length, length-append,
  ◌=?◌, if◌then◌else◌, Option-cases, Bool-cases, beq_refl, eq_of_beq,
}
use spyne.Prelude.Dict
use spyne.Prelude.Exec.{Result, ok, err, with_ok}
use spyne.Util.Odict.{Odict}
use spyne.Util.Odict.Laws.{IsValid, assigned, setitem-IsValid}
use spyne.Model.Complex.Simple.{
  ModelType, Element, Entry, Walk, SimpleError, conflict, join, is_array_type, entries, element,
  expand, store_element, visit, walk_from,
}

-- The members of the classes below `n` that are not expanded yet.
abbrev pub owed : (ℕ → ℕ) → List ℕ → ℕ → ℕ
owed len tags zero = 0
owed len tags (suc n) = (if contains tags n then 0 else len n) + owed len tags n

owed_same :
    (len : ℕ → ℕ) (tags : List ℕ) (v n : ℕ) → n ≤ v → owed len (v ∷ tags) n ≡ owed len tags n
owed_same len tags v zero le = refl
owed_same len tags v (suc n) le = ground (arith, le, owed_same len tags v n (omega (arith, le)))

owed_top :
    (len : ℕ → ℕ) (tags : List ℕ) (n : ℕ)
    → contains tags n ≡ false
    → len n + owed len (n ∷ tags) (suc n) ≡ owed len tags (suc n)
owed_top len tags n new = ground (arith, new, beq_refl n, owed_same len tags n n (omega arith))

below_other : (v n : ℕ) → v < suc n → (v =? n) ≡ false → v < n
below_other v n lt differ = ground (arith, lt, differ)

pub owed_expanded :
    (len : ℕ → ℕ) (tags : List ℕ) (v n : ℕ)
    → v < n
    → contains tags v ≡ false
    → len v + owed len (v ∷ tags) n ≡ owed len tags n
owed_expanded len tags v zero lt new = absurd (omega (arith, lt))
owed_expanded len tags v (suc n) lt new = elim (Bool-cases (v =? n)) [
  | inl same ↦
      subst
        (λ m. contains tags m ≡ false → len m + owed len (m ∷ tags) (suc n) ≡ owed len tags (suc n))
        (sym (eq_of_beq v n same)) (owed_top len tags n) new
  | inr differ ↦ ground (arith, differ, owed_expanded len tags v n (below_other v n lt differ) new)
]

pub length-entries :
    (prot : Option (ℕ → Option String)) (parent : ℕ) (keys prefix : List String) (flags : List Bool)
    (flag : ℕ → Bool) (fti : List (String × ℕ))
    → length (entries prot parent keys prefix flags flag fti) ≡ length fti
unfolding entries
length-entries prot parent keys prefix flags flag [] = refl
length-entries prot parent keys prefix flags flag ((k, v) ∷ fti) =
    ap suc (length-entries prot parent keys prefix flags flag fti)

abbrev pub TypesBelow : ℕ → List (String × ℕ) → Type 0
TypesBelow n = All (λ kv. kv.1 < n)

abbrev pub QueueBelow : ℕ → List Entry → Type 0
QueueBelow n = All (λ e. e.type < n)

pub entries-QueueBelow :
    (n : ℕ) (prot : Option (ℕ → Option String)) (parent : ℕ) (keys prefix : List String)
    (flags : List Bool) (flag : ℕ → Bool) (fti : List (String × ℕ))
    → TypesBelow n fti
    → QueueBelow n (entries prot parent keys prefix flags flag fti)
unfolding entries
entries-QueueBelow n prot parent keys prefix flags flag [] h = tt
entries-QueueBelow n prot parent keys prefix flags flag ((k, v) ∷ fti) h =
    (h.0, entries-QueueBelow n prot parent keys prefix flags flag fti h.1)

-- A table, or the error for a name that is taken.
pub data Ends : Result SimpleError (Odict String Element) → Type 0 where
  done : (r : Odict String Element) → IsValid r → Ends (ok r)
  conflicts : (path : List String) → Ends (err (conflict path))

-- What a visit leaves, for the classes below `n` with as many members as `len` has.
pub data Visited (len : ℕ → ℕ) (n bound : ℕ) : Result SimpleError Walk → Type 0 where
  stored :
      (w : Walk)
      → IsValid w.retval
      → QueueBelow n w.queue
      → length w.queue + owed len w.tags n ≤ bound
      → Visited len n bound (ok w)
  taken : (path : List String) → Visited len n bound (err (conflict path))

module _ (prot : Option (ℕ → Option String)) (hier_delim : String) (types : ℕ → ModelType)
    (fti : ℕ → Result SimpleError (List (String × ℕ))) (unwrap : ℕ → Result SimpleError ℕ)
    (len : ℕ → ℕ) (n : ℕ) where
  -- Below `n`, types have members and elements that are below `n` too.
  pub record IsClosed : Type 0 where
    pub members :
        (v : ℕ)
        → v < n
        → (l : List (String × ℕ)) × (fti v ≡ ok l) × (length l ≡ len v) × TypesBelow n l
    pub unwraps : (v : ℕ) → v < n → (u : ℕ) × (unwrap v ≡ ok u) × (u < n)

  store_element-Visited :
      (entry : Entry) (v : ℕ) (can_be_empty : Bool) (w : Walk)
      → IsValid w.retval
      → (retval : Odict String Element) × (store_element prot hier_delim types fti unwrap entry v
            can_be_empty w
          ≡ ok (record w { retval = retval }))
        × IsValid retval
  store_element-Visited entry v can_be_empty w valid =
      let key = join hier_delim entry.prefix in
      let (made, kept) = setitem-IsValid w.retval key (element entry v can_be_empty) valid in
      (assigned w.retval key (element entry v can_be_empty), rw made refl, kept)

  expand-Visited :
      (entry : Entry) (v : ℕ) (w : Walk)
      → IsClosed
      → v < n
      → IsValid w.retval
      → QueueBelow n w.queue
      → Visited len n
          (length w.queue + owed len w.tags n)
          (expand prot hier_delim types fti unwrap entry v w)
  expand-Visited entry v w closed lt valid below = elim (Bool-cases (contains w.tags v)) [
    | inl old ↦ rw old (stored w valid below (omega arith))
    | inr new ↦
        let (l, made, size, types_below) = closed.members v lt in
        let flag : ℕ → Bool = λ v2. is_array_type (types v) in
        let more = entries prot v entry.keys entry.prefix entry.is_array flag l in
        let count : length more ≡ len v =
          length-entries prot v entry.keys entry.prefix entry.is_array flag l ∙ size in
        rw (new, made)
          (stored (record w { tags = v ∷ w.tags; queue = w.queue ++ more }) valid
            (All-append (λ e. e.type < n) w.queue more below
              (entries-QueueBelow n prot v entry.keys entry.prefix entry.is_array flag l
                types_below))
            (omega (arith, length-append w.queue more, count, owed_expanded len w.tags v n lt new)))
  ]

  visit-Visited :
      (entry : Entry) (v : ℕ) (w : Walk)
      → IsClosed
      → v < n
      → IsValid w.retval
      → QueueBelow n w.queue
      → Visited len n
          (length w.queue + owed len w.tags n)
          (visit prot hier_delim types fti unwrap entry v w)
  unfolding visit
  visit-Visited entry v w closed lt valid below = elim (Bool-cases ((types v).complex)) [
    | inl e ↦
        let (retval, made, valid') = store_element-Visited entry v true w valid in
        rw (e, made) (expand-Visited entry v (record w { retval = retval }) closed lt valid' below)
    | inr e ↦ elim (Option-cases (Dict.get w.retval.dict (join hier_delim entry.prefix))) [
      | inl free ↦
          let (retval, made, valid') = store_element-Visited entry v false w valid in
          rw (e, free, made) (stored (record w { retval = retval }) valid' below (omega arith))
      | inr (value, used) ↦ rw (e, used) (taken value.path)
    ]
  ]

  then_walk :
      (fuel : ℕ) {bound : ℕ} (r : Result SimpleError Walk)
      → Visited len n bound r
      → ((w : Walk)
          → IsValid w.retval
          → QueueBelow n w.queue
          → length w.queue + owed len w.tags n ≤ bound
          → Ends (walk_from prot hier_delim types fti unwrap fuel w.retval w.tags w.queue))
      → Ends
          (with_ok r (λ w. walk_from prot hier_delim types fti unwrap fuel w.retval w.tags w.queue))
  then_walk fuel (ok w) (stored w' valid below le) walk = walk w valid below le
  then_walk fuel (err e) (taken path) walk = conflicts path

  -- Fuel for the entries in the queue and for the members of the classes that are not expanded yet
  -- is enough.
  pub walk_from-Ends :
      (fuel : ℕ) (retval : Odict String Element) (tags : List ℕ) (queue : List Entry)
      → IsClosed
      → IsValid retval
      → QueueBelow n queue
      → length queue + owed len tags n ≤ fuel
      → Ends (walk_from prot hier_delim types fti unwrap fuel retval tags queue)
  unfolding walk_from
  walk_from-Ends zero retval tags [] closed valid below le = done retval valid
  walk_from-Ends (suc fuel) retval tags [] closed valid below le = done retval valid
  walk_from-Ends zero retval tags (entry ∷ queue) closed valid below le = absurd (omega (arith, le))
  walk_from-Ends (suc fuel) retval tags (entry ∷ queue) closed valid below le =
      let (v, unwrapped, lt) = closed.unwraps entry.type below.0 in
      let w : Walk = record { retval = retval; tags = tags; queue = queue } in
      rw unwrapped (
        then_walk fuel (visit prot hier_delim types fti unwrap entry v w)
          (visit-Visited entry v w closed lt valid below.1)
          (λ w' valid' below' le'.
            walk_from-Ends fuel w'.retval w'.tags w'.queue closed valid' below'
              (omega (arith, le, le'))))

-- ===== src/Model/Complex/Simple/Paths.antt =====
-- What `get_simple_type_info_with_prot` of spyne/model/complex.py finds.
use mathlib.Core.Path.{subst}
use mathlib.Core.Option.{some-injective}
use spyne.Prelude.{
  ℕ, zero, suc, nat_eq, string_eq, ◌≡◌, refl, sym, ap, ◌∙◌, inl, inr, arith, String, Bool, true,
  false, Option, some, List, [], ◌∷◌, ◌++◌, All, All-append, contains, ◌=?◌, Option-cases,
  Bool-cases, eq_of_beq,
}
use spyne.Prelude.Dict
use spyne.Prelude.Dict.{get-put}
use spyne.Prelude.Exec.{Result, ok, with_ok_cases, map_err_cases, ok_injective}
use spyne.Util.Odict.{Odict, setitem, checked, name}
use spyne.Model.Complex.Simple.{
  ModelType, Element, Entry, Walk, SimpleError, from_odict, join, is_array_type, sub_name, entries,
  element, expand, store_element, visit, walk_from,
}

setitem-dict :
    (d d' : Odict String Element) (k : String) (v : Element)
    → setitem d (name k) v ≡ ok d'
    → d'.dict ≡ Dict.put d.dict k v
unfolding setitem checked
setitem-dict d d' k v h = ground (arith, h)

module _ (prot : Option (ℕ → Option String)) (hier_delim : String) (types : ℕ → ModelType)
    (fti : ℕ → Result SimpleError (List (String × ℕ))) (unwrap : ℕ → Result SimpleError ℕ)
    (HasFlat : ℕ → String → ℕ → Type 0) (cls : ℕ) where
  -- Names of members lead from `cls` to a member of a class, through the types of the members
  -- before. Beside them are the names that they go by.
  pub data Leads : List String → List String → ℕ → ℕ → Type 0 where
    here : {k : String} {t : ℕ} → HasFlat cls k t → Leads (k ∷ []) (sub_name prot k t ∷ []) cls t
    further :
        {keys prefix : List String} {parent t u : ℕ} {k : String} {t' : ℕ}
        → Leads keys prefix parent t
        → unwrap t ≡ ok u
        → (types u).complex ≡ true
        → HasFlat u k t'
        → Leads (keys ++ k ∷ []) (prefix ++ sub_name prot k t' ∷ []) u t'

  -- An element that stands for the member that its path leads to, under the joined name.
  pub record Stands (key : String) (e : Element) : Type 0 where
    pub names : List String
    pub type : ℕ
    pub leads : Leads e.path names e.parent type
    pub key_is : key ≡ join hier_delim names
    pub type_is : unwrap type ≡ ok e.type
    pub empty_is : e.can_be_empty ≡ (types e.type).complex

  abbrev pub Queued : Entry → Type 0
  Queued entry = Leads entry.keys entry.prefix entry.parent entry.type

  abbrev pub AllStand : Odict String Element → Type 0
  AllStand d = (key : String) (e : Element) → Dict.get d.dict key ≡ some e → Stands key e

  entries-Queued :
      {keys prefix : List String} {parent t u : ℕ} (flags : List Bool) (flag : ℕ → Bool)
      (l : List (String × ℕ))
      → Leads keys prefix parent t
      → unwrap t ≡ ok u
      → (types u).complex ≡ true
      → All (λ kv. HasFlat u kv.0 kv.1) l
      → All Queued (entries prot u keys prefix flags flag l)
  unfolding entries
  entries-Queued flags flag [] leads e complex h = tt
  entries-Queued flags flag ((k, v) ∷ l) leads e complex h =
      (further leads e complex h.0, entries-Queued flags flag l leads e complex h.1)

  pub entries_top :
      (flag : ℕ → Bool) (l : List (String × ℕ))
      → All (λ kv. HasFlat cls kv.0 kv.1) l
      → All Queued (entries prot cls [] [] [] flag l)
  unfolding entries
  entries_top flag [] h = tt
  entries_top flag ((k, v) ∷ l) h = (here h.0, entries_top flag l h.1)

  -- A walk whose table and queue are sound.
  pub record Sound (w : Walk) : Type 0 where
    pub stand : AllStand w.retval
    pub queued : All Queued w.queue

  stand_put :
      (d d' : Odict String Element) (key : String) (e : Element)
      → AllStand d
      → Stands key e
      → d'.dict ≡ Dict.put d.dict key e
      → AllStand d'
  stand_put d d' key e stand new put k x found = elim (Bool-cases (key =? k)) [
    | inl same ↦
        let stored : Dict.get d'.dict k ≡ some e =
          ap (λ z. Dict.get z k) put ∙ get-put d.dict key k e ∙ rw same refl in
        subst (λ z. Stands k z) (some-injective _ _ (sym stored ∙ found))
          (subst (λ j. Stands j e) (eq_of_beq key k same) new)
    | inr differ ↦
        let kept : Dict.get d'.dict k ≡ Dict.get d.dict k =
          ap (λ z. Dict.get z k) put ∙ get-put d.dict key k e ∙ rw differ refl in
        stand k x (sym kept ∙ found)
  ]

  store_element-Sound :
      (entry : Entry) (v : ℕ) (b : Bool) (w w' : Walk)
      → Queued entry
      → unwrap entry.type ≡ ok v
      → b ≡ (types v).complex
      → Sound w
      → store_element prot hier_delim types fti unwrap entry v b w ≡ ok w'
      → Sound w'
  store_element-Sound entry v b w w' leads e be sound h =
      let key = join hier_delim entry.prefix in
      let (retval, made, rest) = with_ok_cases _ (λ r. ok (record w { retval = r })) w' h in
      let put =
        setitem-dict w.retval retval key (element entry v b)
          (map_err_cases from_odict _ retval made) in
      subst Sound (ok_injective _ _ rest) (record {
        stand =
            stand_put w.retval retval key (element entry v b) sound.stand
              (record {
                names = entry.prefix;
                type = entry.type;
                leads = leads;
                key_is = refl;
                type_is = e;
                empty_is = be;
              })
              put;
        queued = sound.queued;
      })

  -- `fti` lists members that the classes have.
  pub record ListsMembers : Type 0 where
    pub lists : (u : ℕ) (l : List (String × ℕ)) → fti u ≡ ok l → All (λ kv. HasFlat u kv.0 kv.1) l

  expand-Sound :
      (entry : Entry) (v : ℕ) (w w' : Walk)
      → ListsMembers
      → Queued entry
      → unwrap entry.type ≡ ok v
      → (types v).complex ≡ true
      → Sound w
      → expand prot hier_delim types fti unwrap entry v w ≡ ok w'
      → Sound w'
  expand-Sound entry v w w' flat leads e complex sound h = elim (Bool-cases (contains w.tags v)) [
    | inl old ↦ subst Sound (ok_injective w w' (rw old at h)) sound
    | inr new ↦
        let (l, listed, made) = with_ok_cases (fti v) _ w' (rw new at h) in
        let more =
          entries prot v entry.keys entry.prefix entry.is_array (λ v2. is_array_type (types v)) l in
        subst Sound (ok_injective _ _ made) (record {
          stand = sound.stand;
          queued = All-append Queued w.queue more sound.queued (
              entries-Queued entry.is_array (λ v2. is_array_type (types v)) l leads e complex
                (flat.lists v l listed));
        })
  ]

  visit-Sound :
      (entry : Entry) (v : ℕ) (w w' : Walk)
      → ListsMembers
      → Queued entry
      → unwrap entry.type ≡ ok v
      → Sound w
      → visit prot hier_delim types fti unwrap entry v w ≡ ok w'
      → Sound w'
  unfolding visit
  visit-Sound entry v w w' flat leads e sound h = elim (Bool-cases ((types v).complex)) [
    | inl complex ↦
        let (w1, stored, expanded) =
          with_ok_cases (store_element prot hier_delim types fti unwrap entry v true w)
            (expand prot hier_delim types fti unwrap entry v) w' (rw complex at h) in
        expand-Sound entry v w1 w' flat leads e complex
          (store_element-Sound entry v true w w1 leads e (sym complex) sound stored) expanded
    | inr simple ↦ elim (Option-cases (Dict.get w.retval.dict (join hier_delim entry.prefix))) [
      | inl free ↦
          store_element-Sound entry v false w w' leads e (sym simple) sound (rw (simple, free) at h)
      | inr (value, used) ↦ absurd (cc (rw (simple, used) at h))
    ]
  ]

  -- The elements of a table that the loop returns stand for members.
  pub walk_from-AllStand :
      (fuel : ℕ) (retval r : Odict String Element) (tags : List ℕ) (queue : List Entry)
      → ListsMembers
      → AllStand retval
      → All Queued queue
      → walk_from prot hier_delim types fti unwrap fuel retval tags queue ≡ ok r
      → AllStand r
  unfolding walk_from
  walk_from-AllStand zero retval r tags [] flat stand queued h =
      subst AllStand (ok_injective retval r h) stand
  walk_from-AllStand (suc fuel) retval r tags [] flat stand queued h =
      subst AllStand (ok_injective retval r h) stand
  walk_from-AllStand zero retval r tags (entry ∷ queue) flat stand queued h = absurd (cc h)
  walk_from-AllStand (suc fuel) retval r tags (entry ∷ queue) flat stand queued h =
      let (v, unwrapped, rest) = with_ok_cases (unwrap entry.type) _ r h in
      let (w, visited, walked) =
        with_ok_cases (visit prot hier_delim types fti unwrap entry v _) _ r rest in
      let sound =
        visit-Sound entry v _ w flat queued.0 unwrapped
          (record { stand = stand; queued = queued.1 }) visited in
      walk_from-AllStand fuel w.retval r w.tags w.queue flat sound.stand sound.queued walked

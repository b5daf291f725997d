-- ===== src/Protocol/Hier/Finish.antt =====
-- The recursion of `_doc_to_object` in spyne/protocol/dictdoc/hier.py ends where no type has members
-- of its own type, at whatever depth.
use spyne.Prelude.{
  ℕ, nat_eq, string_eq, ◌≡◌, refl, ap, String, Bool, true, false, not, ◌&&◌, Option, none, some,
  List, [], ◌∷◌, if◌then◌else◌,
}
use spyne.Prelude.Exec.{Result, ok, err, with_ok, map_err}
use spyne.Model.Complex.{TypeInfo}
use spyne.Protocol.Hier.{
  Key, text, bytes, Doc, null, scalar, seq, dict, Value, nothing, simple, instance_of, list, raw,
  HierError, out_of_fuel, validation, type_error, from_flat, from_odict, from_freq, exn, check,
  Kind, any, array, complex, unicode, other, Types, Protocol,
}
use spyne.Protocol.Hier.Lookup.{
  flat, find_member, elements, to_append, decoded, decoded_or_raise, key_name, zip_or_raise,
  included, flat_members, pairs, or_self,
}
use spyne.Protocol.Hier.Read.{
  Filling, validate, read_kind, read_leaf, from_dict_value, read_all, append_all, read_value,
  fill_found, fill_named, fill, read_members, finish_instance, fill_instance,
}

-- The result is no lack of fuel.
pub record Finishes {A : Type 0} (r : Result HierError A) : Type 0 where
  pub never : r ≡ err out_of_fuel → ⊥

pub done : {A : Type 0} (a : A) → Finishes {A = A} (ok a)
done a = record { never = λ e. cc e }

pub raised : {A : Type 0} (x : HierError) → (x ≡ out_of_fuel → ⊥) → Finishes {A = A} (err x)
raised x h = record { never = λ e. h (cc e) }

pub with_ok-Finishes :
    {A B : Type 0} (r : Result HierError A) (f : A → Result HierError B)
    → Finishes r
    → ((a : A) → r ≡ ok a → Finishes (f a))
    → Finishes (with_ok r f)
with_ok-Finishes (ok a) f h k = k a refl
with_ok-Finishes (err x) f h k = raised x (λ e. h.never (ap err e))

pub if-Finishes :
    {A : Type 0} (b : Bool) (x y : Result HierError A)
    → Finishes x
    → Finishes y
    → Finishes (if b then x else y)
if-Finishes true x y hx hy = hx
if-Finishes false x y hx hy = hy

pub map_err-Finishes :
    {E A : Type 0} (f : E → HierError) (r : Result E A)
    → ((e : E) → f e ≡ out_of_fuel → ⊥)
    → Finishes (map_err f r)
map_err-Finishes f (ok a) h = done a
map_err-Finishes f (err e) h = raised (f e) (h e)

check-Finishes : (b : Bool) → Finishes (check b)
check-Finishes true = done tt
check-Finishes false = raised validation (λ e. cc e)

decoded_or_raise-Finishes : (o : Option String) → Finishes (decoded_or_raise o)
decoded_or_raise-Finishes none = raised validation (λ e. cc e)
decoded_or_raise-Finishes (some k) = done (some k)

decoded-Finishes : (decode : Option (ℕ → Option String)) (b : ℕ) → Finishes (decoded decode b)
decoded-Finishes none b = done none
decoded-Finishes (some decode) b = decoded_or_raise-Finishes (decode b)

module _ (p : Protocol) (t : Types) where
  validate-Finishes : (c : ℕ) (d : Doc) → Finishes (validate p t c d)
  unfolding validate
  validate-Finishes c d =
      if-Finishes _ _ _ (done tt)
        (if-Finishes _ _ _ (check-Finishes (p.is_unicode_source d)) (done tt))

  read_leaf-Finishes : (c : ℕ) (d : Doc) → Finishes (read_leaf p t c d)
  read_leaf-Finishes c d =
      with_ok-Finishes _ _ (check-Finishes _)
        (λ u e. map_err-Finishes exn (p.from_leaf c d) (λ x e. cc e))

  key_name-Finishes : (k : Key) → Finishes (key_name p t k)
  key_name-Finishes (text k) = done (some k)
  key_name-Finishes (bytes b) = decoded-Finishes p.decode_key b

  flat-Finishes : (c : ℕ) → Finishes (flat t c)
  flat-Finishes c = map_err-Finishes from_flat _ (λ x e. cc e)

  pub flat_members-Finishes : (r : TypeInfo) → Finishes (flat_members t r)
  flat_members-Finishes r = map_err-Finishes from_odict _ (λ x e. cc e)

  zipped-Finishes :
      (r : TypeInfo) (docs : Option (List Doc))
      → Finishes (with_ok (flat_members t r) (λ members. zip_or_raise (included t members) docs))
  zipped-Finishes r none =
      with_ok-Finishes _ _ (flat_members-Finishes r) (λ m e. raised validation (λ x. cc x))
  zipped-Finishes r (some docs) = with_ok-Finishes _ _ (flat_members-Finishes r) (λ m e. done _)

  pairs-Finishes : (r : TypeInfo) (d : Doc) → Finishes (pairs p t r d)
  pairs-Finishes r (dict entries) = done _
  pairs-Finishes r null = zipped-Finishes r (elements p t null)
  pairs-Finishes r (scalar s) = zipped-Finishes r (elements p t (scalar s))
  pairs-Finishes r (seq docs) = zipped-Finishes r (elements p t (seq docs))

  module _ (rec : ℕ → Doc → Result HierError Value) where
    read_kind-Finishes :
        (k : Kind) (c : ℕ) (d : Doc)
        → ((d' : Doc) → Finishes (rec c d'))
        → Finishes (read_kind p t rec k c d)
    read_kind-Finishes any c d h = done (raw d)
    read_kind-Finishes array c d h = h d
    read_kind-Finishes complex c d h = h d
    read_kind-Finishes unicode c d h = read_leaf-Finishes c _
    read_kind-Finishes other c d h = read_leaf-Finishes c _

    from_dict_value-Finishes :
        (c : ℕ) (d : Doc)
        → ((d' : Doc) → Finishes (rec c d'))
        → Finishes (from_dict_value p t rec c d)
    unfolding from_dict_value
    from_dict_value-Finishes c d h =
        with_ok-Finishes _ _ (if-Finishes p.soft _ _ (validate-Finishes c d) (done tt)) (λ u e.
          with_ok-Finishes _ _ (map_err-Finishes exn (p.cast c d) (λ x e. cc e)) (λ parsed e'.
            with_ok-Finishes _ _ (read_kind-Finishes (t.kind c) c parsed h) (λ v e''.
              with_ok-Finishes _ _ (check-Finishes (not (p.soft && not (p.validate_native c v))))
                (λ w x. done v))))

    pub read_all-Finishes :
        (c : ℕ) (docs : List Doc)
        → ((d' : Doc) → Finishes (rec c d'))
        → Finishes (read_all p t rec c docs)
    unfolding read_all
    read_all-Finishes c [] h = done []
    read_all-Finishes c (d ∷ docs) h =
        with_ok-Finishes _ _ (from_dict_value-Finishes c d h)
          (λ v e. with_ok-Finishes _ _ (read_all-Finishes c docs h) (λ vs e'. done _))

    to_append-Finishes : (o : Option Value) → Finishes (to_append o)
    to_append-Finishes none = done []
    to_append-Finishes (some nothing) = done []
    to_append-Finishes (some (simple n)) = raised type_error (λ e. cc e)
    to_append-Finishes (some (raw d)) = raised type_error (λ e. cc e)
    to_append-Finishes (some (list vs)) = done _
    to_append-Finishes (some (instance_of c f)) = raised type_error (λ e. cc e)

    append_all-Finishes :
        (m : ℕ) (o : Option Value) (docs : Option (List Doc))
        → ((d' : Doc) → Finishes (rec m d'))
        → Finishes (append_all p t rec m o docs)
    append_all-Finishes m o none h = raised type_error (λ e. cc e)
    append_all-Finishes m o (some []) h = done _
    append_all-Finishes m o (some (d ∷ docs)) h =
        with_ok-Finishes _ _ (to_append-Finishes o)
          (λ before e. with_ok-Finishes _ _ (read_all-Finishes m (d ∷ docs) h) (λ vs e'. done _))

    read_value-Finishes :
        (m : ℕ) (o : Option Value) (d : Doc)
        → ((d' : Doc) → Finishes (rec m d'))
        → Finishes (read_value p t rec m o d)
    unfolding read_value
    read_value-Finishes m o d h =
        if-Finishes _ _ _ (append_all-Finishes m o (elements p t d) h)
          (from_dict_value-Finishes m d h)

    fill_found-Finishes :
        (d : Doc) (f : Filling) (o : Option (ℕ × String))
        → ((m : ℕ) (k : String) (d' : Doc) → o ≡ some (m, k) → Finishes (rec m d'))
        → Finishes (fill_found p t rec d f o)
    fill_found-Finishes d f none h = done f
    fill_found-Finishes d f (some (m, k)) h =
        if-Finishes _ _ _ (done f)
          (with_ok-Finishes _ _ (read_value-Finishes m _ d (λ d'. h m k d' refl)) (λ v e. done _))

    fill_named-Finishes :
        (r : TypeInfo) (d : Doc) (f : Filling) (o : Option String)
        → ((m : ℕ) (n k : String) (d' : Doc)
            → find_member t r n ≡ some (m, k)
            → Finishes (rec m d'))
        → Finishes (fill_named p t rec r d f o)
    fill_named-Finishes r d f none h = done f
    fill_named-Finishes r d f (some n) h =
        fill_found-Finishes d f (find_member t r n) (λ m k d' e. h m n k d' e)

    fill-Finishes :
        (r : TypeInfo) (ps : List (Key × Doc)) (f : Filling)
        → ((m : ℕ) (n k : String) (d' : Doc)
            → find_member t r n ≡ some (m, k)
            → Finishes (rec m d'))
        → Finishes (fill p t rec r ps f)
    unfolding fill
    fill-Finishes r [] f h = done f
    fill-Finishes r ((k, d) ∷ rest) f h = with_ok-Finishes _ _ (key_name-Finishes k) (λ name e.
        with_ok-Finishes _ _ (fill_named-Finishes r d f name h)
          (λ f' e'. fill-Finishes r rest f' h))

    finish_instance-Finishes :
        (c : ℕ) (r : TypeInfo) (f : Filling) → Finishes (finish_instance p t c r f)
    unfolding finish_instance
    finish_instance-Finishes c r f = with_ok-Finishes _ _ (flat_members-Finishes r) (λ members e.
        with_ok-Finishes _ _
          (if-Finishes (p.soft && (t.attrs c).validate_freq) _ _
            (map_err-Finishes from_freq _ (λ x e. cc e)) (done tt))
          (λ u e'. done _))

    pub read_members-Finishes :
        (c : ℕ) (d : Doc)
        → ((r : TypeInfo) (m : ℕ) (n k : String) (d' : Doc)
            → flat t c ≡ ok r
            → find_member t r n ≡ some (m, k)
            → Finishes (rec m d'))
        → Finishes (read_members p t rec c d)
    unfolding read_members fill_instance
    read_members-Finishes c d h =
        with_ok-Finishes _ _ (flat-Finishes (or_self c (t.orig c))) (λ own e1.
          with_ok-Finishes _ _ (flat_members-Finishes own) (λ own_members e2.
            with_ok-Finishes _ _ (flat-Finishes c) (λ r e3.
              with_ok-Finishes _ _ (pairs-Finishes r d) (λ ps e4.
                with_ok-Finishes _ _ (fill-Finishes r ps _ (λ m n k d'. h r m n k d' e3))
                  (λ f e5. finish_instance-Finishes c r f)))))

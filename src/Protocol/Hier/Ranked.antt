-- ===== src/Protocol/Hier/Ranked.antt =====
-- `_doc_to_object` of spyne/protocol/dictdoc/hier.py, for types that do not contain themselves.
use mathlib.Core.Path.{subst}
use mathlib.Core.Option.{some-injective}
use spyne.Prelude.{
  ℕ, zero, suc, nat_eq, string_eq, ◌≡◌, ◌<◌, ◌≤◌, refl, ap, ◌∙◌, inl, inr, arith, String, Bool,
  true, false, not, ◌&&◌, ◌||◌, Option, none, some, List, [], ◌∷◌, contains, ◌=?◌, if◌then◌else◌,
  Bool-cases, beq_refl,
}
use spyne.Prelude.Exec.{Result, ok, err, with_ok, with_ok_cases, ok_injective}
use spyne.Model.Complex.{TypeInfo}
use spyne.Protocol.Hier.{
  Key, text, bytes, Doc, null, scalar, seq, dict, entry, end, Value, nothing, list, no_values,
  HierError, validation, not_single, from_odict, exn, Kind, any, array, complex, unicode, other,
  Types, Protocol,
}
use spyne.Protocol.Hier.Lookup.{
  flat, serializer, find_member, named_subclass, choose_class, unwrap, elements, is_null, name_of,
  checked_subclass, only_one, is_empty,
}
use spyne.Protocol.Hier.Read.{read_members, read_unwrapped, read_array, read_object, doc_to_object}
use spyne.Protocol.Hier.Finish.{
  Finishes, done, raised, with_ok-Finishes, if-Finishes, map_err-Finishes, read_all-Finishes,
  read_members-Finishes,
}

only_one-Finishes : (l : List (String × ℕ)) → Finishes (only_one l)
only_one-Finishes [] = raised not_single (λ e. cc e)
only_one-Finishes ((k, t) ∷ []) = done t
only_one-Finishes (x ∷ y ∷ l) = raised not_single (λ e. cc e)

module _ (p : Protocol) (t : Types) where
  -- The type of a member, and of the items of an Array, is of a lower rank than the class, and no
  -- subclass is of a higher one.
  pub record IsRanked (rank : ℕ → ℕ) : Type 0 where
    pub item_rank : (c e : ℕ) → t.kind c ≡ array → serializer t c ≡ ok e → rank e < rank c
    pub member_rank :
        (c : ℕ) (r : TypeInfo) (m : ℕ) (n k : String)
        → flat t c ≡ ok r
        → find_member t r n ≡ some (m, k)
        → rank m < rank c
    pub subclass_rank : (c s : ℕ) → contains (t.subclasses c) s ≡ true → rank s ≤ rank c

  named_subclass-contains :
      (l : List ℕ) (n : String) (s : ℕ) → named_subclass t l n ≡ some s → contains l s ≡ true
  unfolding named_subclass
  named_subclass-contains [] n s e = absurd (cc e)
  named_subclass-contains (x ∷ l) n s e = elim (Bool-cases (t.type_name x =? n)) [
    | inl same ↦
        let eq : x ≡ s = some-injective _ _ (rw same at e) in
        subst (λ y. (x =? y) || contains l y ≡ true) eq (ground (arith, beq_refl x))
    | inr differ ↦
        let rest : named_subclass t l n ≡ some s = rw differ at e in
        ground (arith, named_subclass-contains l n s rest)
  ]

  -- A class that is chosen, if the choice raises nothing, has a rank that is not above a bound.
  pub record Chooses (rank : ℕ → ℕ) (bound : ℕ) (r : Result HierError ℕ) : Type 0 where
    pub finishes : Finishes r
    pub low : (s : ℕ) → r ≡ ok s → rank s ≤ bound

  Chooses-ok : (rank : ℕ → ℕ) (bound c : ℕ) → rank c ≤ bound → Chooses rank bound (ok c)
  Chooses-ok rank bound c le = record {
    finishes = done c;
    low = λ s e. subst (λ x. rank x ≤ bound) (ok_injective c s e) le;
  }

  Chooses-err : (rank : ℕ → ℕ) (bound : ℕ) → Chooses rank bound (err validation)
  Chooses-err rank bound = record {
    finishes = raised validation (λ e. cc e);
    low = λ s e. absurd (cc e);
  }

  Chooses-if :
      (rank : ℕ → ℕ) (bound : ℕ) (b : Bool) (x y : Result HierError ℕ)
      → Chooses rank bound x
      → Chooses rank bound y
      → Chooses rank bound (if b then x else y)
  Chooses-if rank bound true x y hx hy = hx
  Chooses-if rank bound false x y hx hy = hy

  checked_subclass-Chooses :
      (rank : ℕ → ℕ) (c : ℕ) (o : Option ℕ)
      → ((s : ℕ) → o ≡ some s → rank s ≤ rank c)
      → Chooses rank (rank c) (checked_subclass t c o)
  checked_subclass-Chooses rank c none h = Chooses-err rank (rank c)
  checked_subclass-Chooses rank c (some s) h =
      Chooses-if rank (rank c) (t.is_subclass s c) _ _ (Chooses-ok rank (rank c) s (h s refl))
        (Chooses-err rank (rank c))

  choose_class-Chooses :
      (rank : ℕ → ℕ) (c : ℕ) (n : String)
      → IsRanked rank
      → Chooses rank (rank c) (choose_class t c n)
  unfolding choose_class
  choose_class-Chooses rank c n h =
      Chooses-if rank (rank c) (not (t.type_name c =? n) && not (is_empty t (t.subclasses c))) _ _
        (checked_subclass-Chooses rank c (named_subclass t (t.subclasses c) n)
          (λ s e. h.subclass_rank c s (named_subclass-contains (t.subclasses c) n s e)))
        (Chooses-ok rank (rank c) c (omega arith))

  serializer-Finishes : (c : ℕ) → Finishes (serializer t c)
  serializer-Finishes c =
      with_ok-Finishes _ _ (map_err-Finishes from_odict _ (λ x e. cc e))
        (λ l e. only_one-Finishes l)

  name_of-Finishes : (k : Key) → Finishes (name_of p t k)
  name_of-Finishes (text k) = done k
  name_of-Finishes (bytes b) = map_err-Finishes exn (p.decode_name b) (λ x e. cc e)

  module _ (rec : ℕ → Doc → Result HierError Value) (rank : ℕ → ℕ) (h : IsRanked rank) where
    -- what is known of the calls for types of a lower rank
    refused :
        {c : ℕ}
        → Finishes {A = Option (ℕ × Doc)} (err validation)
          × ((s : ℕ) (d' : Doc)
              → ◌≡◌ {A = Result HierError (Option (ℕ × Doc))} (err validation) (ok (some (s, d')))
              → rank s ≤ rank c)
    refused = (raised validation (λ e. cc e), λ s d' e. absurd (cc e))

    pub record Below (bound : ℕ) : Type 0 where
      pub finish : (m : ℕ) (d : Doc) → rank m < bound → Finishes (rec m d)

    read_members_ranked :
        (c : ℕ) (d : Doc) (bound : ℕ)
        → Below bound
        → rank c ≤ bound
        → Finishes (read_members p t rec c d)
    read_members_ranked c d bound below le =
        read_members-Finishes p t rec c d
          (λ r m n k d' e f. below.finish m d' (omega (arith, le, h.member_rank c r m n k e f)))

    unwrap_ranked :
        (c : ℕ) (d : Doc)
        → Finishes (unwrap p t c d)
          × ((s : ℕ) (d' : Doc) → unwrap p t c d ≡ ok (some (s, d')) → rank s ≤ rank c)
    unfolding unwrap
    unwrap_ranked c null = refused
    unwrap_ranked c (scalar s) = refused
    unwrap_ranked c (seq docs) = refused
    unwrap_ranked c (dict end) = (done none, λ s d' e. absurd (cc e))
    unwrap_ranked c (dict (entry k d end)) = (
      with_ok-Finishes _ _ (name_of-Finishes k) (λ n e.
          with_ok-Finishes _ _ (choose_class-Chooses rank c n h).finishes (λ cls f. done _)),
      λ s d' e.
          let (n, named, rest) = with_ok_cases (name_of p t k) _ _ e in
          let (cls, chosen, made) = with_ok_cases (choose_class t c n) _ _ rest in
          subst (λ x. rank x ≤ rank c)
            (ap (λ z. z.0) (some-injective _ _ (ok_injective (some (cls, d)) (some (s, d')) made)))
            ((choose_class-Chooses rank c n h).low cls chosen),
    )
    unwrap_ranked c (dict (entry k d (entry k' d' rest))) = refused

    unwrapped_ranked :
        (c : ℕ) (o : Option (ℕ × Doc))
        → Below (rank c)
        → ((s : ℕ) (d' : Doc) → o ≡ some (s, d') → rank s ≤ rank c)
        → Finishes (read_unwrapped p t rec o)
    unwrapped_ranked c none below low = done nothing
    unwrapped_ranked c (some (s, d')) below low =
        read_members_ranked s d' (rank c) below (low s d' refl)

    read_array_ranked :
        (e bound : ℕ) (o : Option (List Doc))
        → Below bound
        → rank e < bound
        → Finishes (read_array p t rec e o)
    read_array_ranked e bound none below lt = raised validation (λ x. cc x)
    read_array_ranked e bound (some docs) below lt =
        with_ok-Finishes _ _ (read_all-Finishes p t rec e docs (λ d. below.finish e d lt))
          (λ vs x. done _)

    instance_ranked :
        (k : Kind) (c : ℕ) (d : Doc)
        → Below (rank c)
        → Finishes (
            if p.ignore_wrappers || (t.attrs c).not_wrapped
            then read_members p t rec c d
            else with_ok (unwrap p t c d) (read_unwrapped p t rec))
    instance_ranked k c d below =
        if-Finishes (p.ignore_wrappers || (t.attrs c).not_wrapped) _ _
          (read_members_ranked c d (rank c) below (omega arith))
          (with_ok-Finishes _ _ (unwrap_ranked c d).0 (λ o e.
            unwrapped_ranked c o below (λ s d' f. (unwrap_ranked c d).1 s d' (e ∙ ap ok f))))

    read_object_ranked :
        (k : Kind) (c : ℕ) (d : Doc)
        → t.kind c ≡ k
        → Below (rank c)
        → Finishes (read_object p t rec k c d)
    unfolding read_object
    read_object_ranked any c d e below =
        with_ok-Finishes _ _ (map_err-Finishes exn (p.cast c d) (λ x y. cc y)) (λ v f. done _)
    read_object_ranked array c d e below =
        with_ok-Finishes _ _ (map_err-Finishes exn (p.cast c d) (λ x y. cc y)) (λ v f.
          with_ok-Finishes _ _ (serializer-Finishes c)
            (λ i g. read_array_ranked i (rank c) (elements p t v) below (h.item_rank c i e g)))
    read_object_ranked complex c d e below = instance_ranked complex c d below
    read_object_ranked unicode c d e below = instance_ranked unicode c d below
    read_object_ranked other c d e below = instance_ranked other c d below

  -- Where the types of members and of items of an Array are of a lower rank than the class that has
  -- them, and no subclass is of a higher rank than its class: `_doc_to_object` ends for any document
  -- and any operations of types, within a depth of one more than the rank of the class.
  pub doc_to_object-Finishes :
      (rank : ℕ → ℕ) (fuel c : ℕ) (d : Doc)
      → IsRanked rank
      → rank c < fuel
      → Finishes (doc_to_object p t fuel c d)
  unfolding doc_to_object
  doc_to_object-Finishes rank zero c d h lt = absurd (omega (arith, lt))
  doc_to_object-Finishes rank (suc fuel) c d h lt =
      if-Finishes (is_null d) _ _ (done (list no_values)) (
        read_object_ranked (doc_to_object p t fuel) rank h (t.kind c) c d refl (record {
          finish = λ m d' below. doc_to_object-Finishes rank fuel m d' h (omega (arith, lt, below));
        }))

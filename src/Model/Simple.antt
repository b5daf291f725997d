-- ===== src/Model/Simple.antt =====
-- `ModelBase` and `SimpleModel` of spyne/model/_base.py: what every simple type checks. `None` is
-- `none`; the native values `V` come with Python's `==`.
use spyne.Prelude.{
  ℕ, Bool, true, false, ◌&&◌, ◌||◌, not, Option, none, some, is_none, List, [], ◌∷◌, length, ◌==◌,
}

-- The attributes that the checks read: `nullable`, which is also `nillable`, and `values`.
pub record SimpleAttributes (V : Type 0) : Type 0 where
  pub nullable : Bool
  pub values : Option (List V)

-- The getter of `nullable`: the class's own setting, or the default of the whole module.
unfoldable pub get_nullable : Option Bool → Bool → Bool
get_nullable none nullable_default = nullable_default
get_nullable (some own) nullable_default = own

module _ {V : Type 0} where
  -- `ModelBase.validate_string`, on the length of the text, or on None
  unfoldable pub validate_string : SimpleAttributes V → Option ℕ → Bool
  validate_string attrs value = attrs.nullable || not (is_none value)

  -- `ModelBase.validate_native`
  unfoldable pub validate_native_base : SimpleAttributes V → Option V → Bool
  validate_native_base attrs value = attrs.nullable || not (is_none value)

-- `same` is Python's `==` on the native values.
module _ {V : Type 0} (same : V → V → Bool) where
  -- `v in vs`
  unfoldable pub is_in : List V → V → Bool
  is_in [] v = false
  is_in (x ∷ vs) v = same x v || is_in vs v

  abbrev among : Bool → List V → Option V → Bool
  among nillable vs none = nillable
  among nillable vs (some v) = is_in vs v

  abbrev unconstrained : Option (List V) → Bool
  unconstrained none = true
  unconstrained (some vs) = length vs == 0

  abbrev listed : Option (List V) → List V
  listed none = []
  listed (some vs) = vs

  -- `SimpleModel.validate_native`
  unfoldable pub validate_native : SimpleAttributes V → Option V → Bool
  unfolding validate_native_base is_in
  validate_native attrs value =
      validate_native_base attrs value
      && (unconstrained attrs.values || among attrs.nullable (listed attrs.values) value)

-- ===== src/Witness/Numbers.antt =====
-- Integers at the ends of their types.
use spyne.Prelude.{ℕ, ◌≡◌, ◌↔◌, ◌^◌, ◌≤◌, ◌<◌, true, some, refl, arith}
use spyne.Prelude.Int.{pos, negsuc}
use spyne.Model.Number.{
  int, default, bounded_validate_native, bounded_unsigned_validate_native, positive_validate_native,
  lt, is_integral,
}
use spyne.Model.Number.Bounds.{bounded_validate_native_iff, bounded_unsigned_validate_native_iff}

bounded_validate_native_iff_example :
    (bounded_validate_native 8 default (some (int (negsuc 127))) ≡ true)
    ↔ ((128 ≤ 2 ^ 7) × (0 < 2 ^ 7))
bounded_validate_native_iff_example = bounded_validate_native_iff 7 (negsuc 127) (omega arith)

bounded_unsigned_validate_native_iff_example :
    (bounded_unsigned_validate_native 8 default (some (int (pos 255))) ≡ true)
    ↔ (◌≡◌ {A = ℕ} 0 0 × (256 < 256))
bounded_unsigned_validate_native_iff_example = bounded_unsigned_validate_native_iff 8 (pos 255)

seven_is_positive : positive_validate_native default (some (int (pos 7))) ≡ true
unfolding positive_validate_native is_integral lt
seven_is_positive = refl

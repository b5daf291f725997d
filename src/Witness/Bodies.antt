-- ===== src/Witness/Bodies.antt =====
-- A body of three bytes that arrives one byte at a time.
use spyne.Prelude.{
  ℕ, zero, suc, ◌≡◌, ◌≤◌, ◌<◌, refl, none, some, List, [], ◌∷◌, ◌++◌, length, Option, arith,
}
use spyne.Prelude.Int.{pos}
use spyne.Server.Wsgi.Input.{InputStream, bytes, read_body, read_body-Delivers, Delivers, too_long}

abbrev next_byte : List ℕ → ℕ → Option (List ℕ) × List ℕ
next_byte [] n = (none, [])
next_byte (b ∷ l) zero = (some [], b ∷ l)
next_byte (b ∷ l) (suc n) = (some (b ∷ []), l)

next_byte-remaining : (l : List ℕ) (n : ℕ) → bytes (next_byte l n).0 ++ (next_byte l n).1 ≡ l
next_byte-remaining [] n = refl
next_byte-remaining (b ∷ l) zero = refl
next_byte-remaining (b ∷ l) (suc n) = refl

length-next_byte : (l : List ℕ) (n : ℕ) → length (bytes (next_byte l n).0) ≤ n
length-next_byte [] n = omega arith
length-next_byte (b ∷ l) zero = omega arith
length-next_byte (b ∷ l) (suc n) = omega arith

next_byte_end : (l : List ℕ) (n : ℕ) → 0 < n → bytes (next_byte l n).0 ≡ [] → l ≡ []
next_byte_end [] n h e = refl
next_byte_end (b ∷ l) zero h e = absurd (omega arith)
next_byte_end (b ∷ l) (suc n) h e = cc

abbrev trickle : InputStream (List ℕ)
trickle = record {
  remaining = λ l. l;
  read = next_byte;
  read-remaining = next_byte-remaining;
  length-read = length-next_byte;
  read_end = next_byte_end;
}

read_body-Delivers_example :
    ((10 < 3)
      → read_body trickle 10 2 (pos 3) (7 ∷ 8 ∷ 9 ∷ [])
        ≡ record { chunks = []; ending = too_long; stream = 7 ∷ 8 ∷ 9 ∷ [] })
    × ((3 ≤ 10)
        → Delivers trickle 10 2 3
            (7 ∷ 8 ∷ 9 ∷ [])
            (read_body trickle 10 2 (pos 3) (7 ∷ 8 ∷ 9 ∷ [])))
read_body-Delivers_example = read_body-Delivers trickle 10 2 (pos 3) (7 ∷ 8 ∷ 9 ∷ []) (omega arith)

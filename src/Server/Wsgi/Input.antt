-- ===== src/Server/Wsgi/Input.antt =====
-- spyne/server/wsgi.py: `__wsgi_input_to_iterable`, the generator that reads the body of a request.
-- `wsgi.input` and the builtin `int` are parameters.
use Prim.Native.Nat.{min}
use mathlib.Core.Path.{subst}
use spyne.Prelude.{
  if_elim, tests, lt→ltb, ℕ, zero, suc, ◌+◌, ◌-◌, ◌≡◌, ◌≤◌, ◌<◌, refl, ap, sym, ◌∙◌, arith, ltb,
  String, Option, none, some, List, [], ◌∷◌, ◌++◌, length, take, All, if◌then◌else◌, ◌==◌,
}
use Prim.Native.String.{len}
use spyne.Prelude.Int.{ℤ, pos, pos_part}
use spyne.Prelude.Exec.{Result, ok, err}
use spyne.Fault.{Exn, other}

abbrev pub bytes : Option (List ℕ) → List ℕ
bytes none = []
bytes (some data') = data'

-- The file-like object `wsgi.input`: `remaining` is what it has not delivered yet. As PEP 3333 has
-- it, `read(n)` returns the next bytes, n at most, and none only if nothing is left.
pub record InputStream (R : Type 0) : Type 0 where
  pub remaining : R → List ℕ
  pub read : R → ℕ → Option (List ℕ) × R
  pub read-remaining : (r : R) (n : ℕ) → bytes (read r n).0 ++ remaining (read r n).1 ≡ remaining r
  pub length-read : (r : R) (n : ℕ) → length (bytes (read r n).0) ≤ n
  pub read_end : (r : R) (n : ℕ) → 0 < n → bytes (read r n).0 ≡ [] → remaining r ≡ []

-- How the generator ends.
pub data Ending : Type 0 where
  complete too_long out_of_fuel : Ending

-- What it yields, how it ends, and the stream that it leaves.
pub record Body (R : Type 0) : Type 0 where
  pub chunks : List (List ℕ)
  pub ending : Ending
  pub stream : R

abbrev pub flatten : List (List ℕ) → List ℕ
flatten [] = []
flatten (c ∷ l) = c ++ flatten l

abbrev yield_chunk : {R : Type 0} → List ℕ → Body R → Body R
yield_chunk chunk body = record body { chunks = chunk ∷ body.chunks }

-- `length`, from the header CONTENT_LENGTH and `self.max_content_length`; None is a ValueError.
unfoldable pub content_length : (String → Option ℤ) → ℕ → Option String → Option ℤ
content_length int max_content_length none = some (pos max_content_length)
content_length int max_content_length (some header) =
    if len header == 0 then some (pos 0) else int header

module _ {R : Type 0} (s : InputStream R) (max_content_length block_length : ℕ) where
  -- `if data is None or len(data) == 0: break`, and the rest of the loop on what was read
  abbrev after_read : (ℕ → R → Body R) → ℕ → List ℕ → R → Body R
  after_read rest bytes_read [] r = record { chunks = []; ending = complete; stream = r }
  after_read rest bytes_read (b ∷ data') r =
      yield_chunk (b ∷ data') (rest (bytes_read + length (b ∷ data')) r)

  abbrev read_chunk : (ℕ → R → Body R) → ℕ → R → ℕ → Body R
  read_chunk rest bytes_read r bytes_to_read =
      if ltb max_content_length (bytes_to_read + bytes_read)
      then record { chunks = []; ending = too_long; stream = r }
      else after_read rest bytes_read (bytes (s.read r bytes_to_read).0) (s.read r bytes_to_read).1

  -- the `while` loop
  unfoldable pub read_loop : ℕ → ℕ → ℕ → R → Body R
  read_loop zero length' bytes_read r = record { chunks = []; ending = out_of_fuel; stream = r }
  read_loop (suc fuel) length' bytes_read r =
      let rest = read_loop fuel length' in
      if ltb bytes_read length'
      then read_chunk rest bytes_read r (min block_length (length' - bytes_read))
      else record { chunks = []; ending = complete; stream = r }

  -- the generator, for a length that is known; one that is negative reads nothing, as 0 does
  unfoldable pub read_body : ℤ → R → Body R
  unfolding read_loop
  read_body length' r =
      if ltb max_content_length (pos_part length')
      then record { chunks = []; ending = too_long; stream = r }
      else read_loop (pos_part length' + 1) (pos_part length') 0 r

abbrev body_or_error : {R : Type 0} → (ℤ → Body R) → Option ℤ → Result Exn (Body R)
body_or_error read none = err (other "ValueError")
body_or_error read (some length') = ok (read length')

-- `__wsgi_input_to_iterable`
unfoldable pub wsgi_input_to_iterable :
    {R : Type 0}
    → InputStream R
    → ℕ
    → ℕ
    → (String → Option ℤ)
    → Option String
    → R
    → Result Exn (Body R)
unfolding read_body content_length
wsgi_input_to_iterable s max_content_length block_length int header r =
    body_or_error (λ length'. read_body s max_content_length block_length length' r)
      (content_length int max_content_length header)

take-append :
    {A : Type 0} (xs ys : List A) (m : ℕ)
    → length xs ≤ m
    → take m (xs ++ ys) ≡ xs ++ take (m - length xs) ys
take-append [] ys m h = ap (λ k. take k ys) (omega arith)
take-append (x ∷ xs) ys zero h = absurd (omega arith)
take-append (x ∷ xs) ys (suc m) h =
    ap (λ l. x ∷ l) (take-append xs ys m (omega arith) ∙ ap (λ k. xs ++ take k ys) (omega arith))

take-nil : {A : Type 0} (m : ℕ) → take {A = A} m [] ≡ []
take-nil zero = refl
take-nil (suc m) = refl

module _ {R : Type 0} (s : InputStream R) (max_content_length block_length : ℕ) where
  -- The body is what `wanted` bytes of the stream are, in chunks that are neither empty nor longer
  -- than a block.
  abbrev pub Delivers : ℕ → R → Body R → Type 0
  Delivers wanted r body =
      (body.ending ≡ complete)
      × (flatten body.chunks ≡ take wanted (s.remaining r))
      × All (λ c. (0 < length c) × (length c ≤ block_length)) body.chunks

  after_read-Delivers :
      (rest : ℕ → R → Body R) (bytes_read wanted n : ℕ) (data' : List ℕ) (r r' : R)
      → 0 < n
      → n ≤ wanted
      → n ≤ block_length
      → length data' ≤ n
      → data' ++ s.remaining r' ≡ s.remaining r
      → (data' ≡ [] → s.remaining r ≡ [])
      → (0 < length data'
          → Delivers (wanted - length data') r' (rest (bytes_read + length data') r'))
      → Delivers wanted r (after_read s max_content_length block_length rest bytes_read data' r')
  after_read-Delivers rest bytes_read wanted n [] r r' h0 h1 h2 h3 e end d =
      (refl, rw (end refl) (sym (take-nil wanted)), tt)
  after_read-Delivers rest bytes_read wanted n (b ∷ data') r r' h0 h1 h2 h3 e end d =
      let (p, q, a) = d (omega arith) in
      (
        p,
        ap (λ l. (b ∷ data') ++ l) q
            ∙ sym (take-append (b ∷ data') (s.remaining r') wanted (omega arith))
            ∙ ap (take wanted) e,
        ((omega arith, omega arith), a),
      )

  read_loop-Delivers :
      (fuel length' bytes_read : ℕ) (r : R)
      → 0 < block_length
      → length' ≤ max_content_length
      → length' - bytes_read < fuel
      → Delivers
          (length' - bytes_read)
          r
          (read_loop s max_content_length block_length fuel length' bytes_read r)
  unfolding read_loop
  read_loop-Delivers zero length' bytes_read r hb hm hf = absurd (omega arith)
  read_loop-Delivers (suc fuel) length' bytes_read r hb hm hf =
      let wanted = length' - bytes_read in
      let n = min block_length wanted in
      if_elim (Delivers wanted r) (ltb bytes_read length') _ _
        (λ more.
          if_elim (Delivers wanted r) (ltb max_content_length (n + bytes_read)) _ _
            (λ over. absurd (omega (tests, over, more)))
            (λ _.
              after_read-Delivers (read_loop s max_content_length block_length fuel length')
                bytes_read wanted n (bytes (s.read r n).0) r (s.read r n).1 (omega (tests, more))
                (omega arith) (omega arith) (s.length-read r n) (s.read-remaining r n)
                (s.read_end r n (omega (tests, more)))
                (λ some_read.
                  subst
                    (λ k. Delivers k (s.read r n).1 (
                      read_loop s max_content_length block_length fuel length'
                        (bytes_read + length (bytes (s.read r n).0)) (s.read r n).1))
                    (omega arith)
                    (read_loop-Delivers fuel length' (bytes_read + length (bytes (s.read r n).0))
                      (s.read r n).1 hb hm (omega (tests, more))))))
        (λ done.
          let none_left : 0 ≡ length' - bytes_read = omega (tests, done) in
          (refl, ap (λ k. take k (s.remaining r)) none_left, tt))

  -- A request whose length is over the limit ends in RequestTooLongError with nothing read. Any
  -- other delivers the first `length` bytes of the stream, or all it has if these are fewer, in
  -- chunks that are neither empty nor longer than a block, whatever the reads return at a time.
  pub read_body-Delivers :
      (length' : ℤ) (r : R)
      → 0 < block_length
      → ((max_content_length < pos_part length')
          → read_body s max_content_length block_length length' r
            ≡ record { chunks = []; ending = too_long; stream = r })
        × (pos_part length' ≤ max_content_length
            → Delivers (pos_part length') r (read_body s max_content_length block_length length' r))
  unfolding read_body
  read_body-Delivers length' r hb = (
    λ over. rw (lt→ltb max_content_length (pos_part length') over),
    λ fits.
        if_elim (Delivers (pos_part length') r) (ltb max_content_length (pos_part length')) _ _
          (λ over. absurd (omega (tests, over)))
          (λ _.
            subst
              (λ k. Delivers k r (
                read_loop s max_content_length block_length (pos_part length' + 1)
                  (pos_part length') 0 r))
              (omega arith)
              (read_loop-Delivers (pos_part length' + 1) (pos_part length') 0 r hb fits
                (omega arith))),
  )

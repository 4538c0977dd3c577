-- ===== src/Prelude/Bytes.antt =====
-- Buffers of bytes, and the packed little-endian structs that are laid over them.
use Prim.Native.Nat.{◌/◌}
use mathlib.Core.List.{append_assoc}
use ndfex.Prelude.{
  ℕ, zero, suc, ◌+◌, ◌*◌, ◌%◌, ◌≤◌, ◌≡◌, refl, sym, ap, ◌∙◌, List, [], ◌∷◌, ◌++◌, arith,
}

unfoldable pub length {ℓ} : {A : Type ℓ} → List A → ℕ
length [] = 0
length (x ∷ xs) = suc (length xs)

-- `buf + n`, and `std::vector::erase` of the first n.
unfoldable pub drop {ℓ} : {A : Type ℓ} → ℕ → List A → List A
drop zero xs = xs
drop (suc n) [] = []
drop (suc n) (x ∷ xs) = drop n xs

pub length-append {ℓ} : {A : Type ℓ} (xs ys : List A) → length (xs ++ ys) ≡ length xs + length ys
unfolding length
length-append [] ys = omega arith
length-append (x ∷ xs) ys = omega (arith, length-append xs ys)

pub drop-append {ℓ} : {A : Type ℓ} (xs ys : List A) → drop (length xs) (xs ++ ys) ≡ ys
unfolding length drop
drop-append [] ys = refl
drop-append (x ∷ xs) ys = drop-append xs ys

pub length-drop-le {ℓ} :
    {A : Type ℓ} (n : ℕ) (xs : List A) → n ≤ length xs → length (drop n xs) + n ≡ length xs
unfolding length drop
length-drop-le zero xs h = omega arith
length-drop-le (suc n) [] h = absurd (omega arith)
length-drop-le (suc n) (x ∷ xs) h = omega (arith, length-drop-le n xs (omega arith))

drop-nil : (k : ℕ) → drop {A = ℕ} k [] ≡ []
unfolding drop
drop-nil zero = refl
drop-nil (suc k) = refl

pub drop-drop : (k n : ℕ) (buf : List ℕ) → drop k (drop n buf) ≡ drop (n + k) buf
unfolding drop
drop-drop k zero buf = let sums : k ≡ 0 + k = omega arith in ap (λ j. drop j buf) sums
drop-drop k (suc n) [] = drop-nil k ∙ sym (drop-nil (suc n + k))
drop-drop k (suc n) (x ∷ xs) =
    let sums : suc (n + k) ≡ suc n + k = omega arith in
    drop-drop k n xs ∙ ap (λ j. drop j (x ∷ xs)) sums

-- The bytes of a number of `w` bytes, lowest first.
unfoldable pub bytes : ℕ → ℕ → List ℕ
bytes zero n = []
bytes (suc w) n = n % 256 ∷ bytes w (n / 256)

-- A number of `w` bytes, and what is behind it.
unfoldable pub read : ℕ → List ℕ → ℕ × List ℕ
read zero buf = (0, buf)
read (suc w) [] = (0, [])
read (suc w) (b ∷ buf) = let (n, rest) = read w buf in (b + 256 * n, rest)

-- The number has no more than `w` bytes.
abbrev pub Fits : ℕ → ℕ → Type 0
Fits zero n = n ≡ 0
Fits (suc w) n = Fits w (n / 256)

pub read-bytes : (w n : ℕ) (rest : List ℕ) → Fits w n → read w (bytes w n ++ rest) ≡ (n, rest)
unfolding read bytes
read-bytes zero n rest h = ap (λ k. (k, rest)) (sym h)
read-bytes (suc w) n rest h = rw (read-bytes w (n / 256) rest h) (ap (λ k. (k, rest)) (omega arith))

pub length-bytes : (w n : ℕ) → length (bytes w n) ≡ w
unfolding length bytes
length-bytes zero n = refl
length-bytes (suc w) n = omega (arith, length-bytes w (n / 256))

-- A struct: the widths of its fields, and their values.
abbrev pub Layout : Type 0
Layout = List ℕ

unfoldable pub encode : Layout → List ℕ → List ℕ
encode [] vs = []
encode (w ∷ ws) [] = []
encode (w ∷ ws) (v ∷ vs) = bytes w v ++ encode ws vs

-- The fields of the struct that stands at the start of a buffer, and what is behind it.
unfoldable pub decode : Layout → List ℕ → List ℕ × List ℕ
decode [] buf = ([], buf)
decode (w ∷ ws) buf =
    let (v, rest) = read w buf in let (vs, rest') = decode ws rest in (v ∷ vs, rest')

-- Every value fits its field, and each field has one.
abbrev pub AllFit : Layout → List ℕ → Type 0
AllFit [] [] = Unit {0}
AllFit [] (v ∷ vs) = ⊥
AllFit (w ∷ ws) [] = ⊥
AllFit (w ∷ ws) (v ∷ vs) = Fits w v × AllFit ws vs

pub decode-encode :
    (ws : Layout) (vs rest : List ℕ) → AllFit ws vs → decode ws (encode ws vs ++ rest) ≡ (vs, rest)
unfolding decode encode
decode-encode [] [] rest h = refl
decode-encode [] (v ∷ vs) rest h = absurd h
decode-encode (w ∷ ws) [] rest h = absurd h
decode-encode (w ∷ ws) (v ∷ vs) rest (fit, fits) =
    rw
      (
        append_assoc (bytes w v) (encode ws vs) rest,
        read-bytes w v (encode ws vs ++ rest) fit,
        decode-encode ws vs rest fits,
      )
      refl

abbrev pub size : Layout → ℕ
size [] = 0
size (w ∷ ws) = w + size ws

pub length-encode :
    (ws : Layout) (vs : List ℕ) → length vs ≡ length ws → length (encode ws vs) ≡ size ws
unfolding length encode
length-encode [] vs h = refl
length-encode (w ∷ ws) [] h = absurd (omega (arith, h))
length-encode (w ∷ ws) (v ∷ vs) h = omega (
  arith,
  length-append (bytes w v) (encode ws vs),
  length-bytes w v,
  length-encode ws vs (omega (arith, h)),
)

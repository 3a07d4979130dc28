-- ===== src/Output/Bytes.antt =====
-- Fixed-width integers as the bytes that a little-endian build stores (`*(uint16_t *) last = n` and the like), and
-- how a reader takes them back.
use drizzle_nginx_module.Prelude.{
  ℕ, zero, suc, ◌+◌, ◌*◌, ◌/◌, ◌%◌, ◌<◌, ◌≡◌, refl, ap, true, List, [], ◌∷◌, ◌++◌, Option, none,
  some, length, length-append, take, drop, take-append_of_length, drop-append_of_length, leb,
  if◌then◌else◌, arith,
}

-- The low `k` bytes of `n`, lowest first.
unfoldable pub le_bytes : ℕ → ℕ → List ℕ
le_bytes zero n = []
le_bytes (suc k) n = (n % 256) ∷ le_bytes k (n / 256)

pub of_le : List ℕ → ℕ
of_le [] = 0
of_le (b ∷ bs) = b + 256 * of_le bs

pub length-le_bytes : (k n : ℕ) → length (le_bytes k n) ≡ k
unfolding le_bytes
length-le_bytes zero n = refl
length-le_bytes (suc k) n = ap suc (length-le_bytes k (n / 256))

-- `256 ^ k`, by recursion on `k`.
abbrev pub bytes_range : ℕ → ℕ
bytes_range zero = 1
bytes_range (suc k) = 256 * bytes_range k

pub of_le-le_bytes : (k n : ℕ) → n < bytes_range k → of_le (le_bytes k n) ≡ n
unfolding of_le le_bytes
of_le-le_bytes zero n h = omega arith
of_le-le_bytes (suc k) n h = omega (arith, of_le-le_bytes k (n / 256) (omega arith))

-- A reader: the next `k` bytes, and what follows; `none` if there are fewer.
abbrev pub Reader : Type 0 → Type 0
Reader A = List ℕ → Option (A × List ℕ)

pub read_bytes : ℕ → Reader (List ℕ)
read_bytes k bs = if leb k (length bs) then some (take k bs, drop k bs) else none

pub read_int : ℕ → Reader ℕ
unfolding read_bytes
read_int k bs = elim (read_bytes k bs) [ none ↦ none | some (xs, rest) ↦ some (of_le xs, rest) ]

pub read_bytes-append :
    (k : ℕ) (xs rest : List ℕ) → length xs ≡ k → read_bytes k (xs ++ rest) ≡ some (xs, rest)
unfolding read_bytes
read_bytes-append k xs rest e =
    let fits : leb k (length (xs ++ rest)) ≡ true = ground (arith, length-append xs rest) in
    rw (fits, take-append_of_length k xs rest e, drop-append_of_length k xs rest e)

pub read_int-le_bytes :
    (k n : ℕ) (rest : List ℕ)
    → n < bytes_range k
    → read_int k (le_bytes k n ++ rest) ≡ some (n, rest)
unfolding read_int
read_int-le_bytes k n rest h =
    rw (
      read_bytes-append k (le_bytes k n) rest (length-le_bytes k n),
      of_le-le_bytes k n h,
      read_int,
    )

pub read_int-byte : (b : ℕ) (rest : List ℕ) → read_int 1 (b ∷ rest) ≡ some (b, rest)
unfolding read_int read_bytes of_le
read_int-byte b rest = ground arith

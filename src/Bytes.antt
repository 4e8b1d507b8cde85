-- ===== src/Bytes.antt =====
-- Memory as a list of bytes, and the numbers that ntohs, ntohl, htons and htonl carry across it.
use Prim.Native.Nat.add
use jrtplib.Prelude.{
  All, >>=-eq-ok, ok-injective, ℕ, zero, suc, ◌+◌, ◌*◌, ◌/◌, ◌%◌, ◌≤◌, ◌<◌, ◌≡◌, refl, ap, List, [],
  ◌∷◌, ◌++◌, arith, length, get_elem?, take, drop, Option, none, some, Outcome, ok, fault, ◌>>=◌,
  if◌then◌else◌, ltb, take-length-append, drop-length-append, length-append, le→ltb, Option-cases,
  inl, inr, false,
}

abbrev pub IsByte : ℕ → Type 0
IsByte b = b < 256

abbrev pub or_fault {ℓ} : {A : Type ℓ} → Option A → Outcome A
or_fault none = fault
or_fault (some a) = ok a

-- `mem[i]`.
unfoldable pub byte_at : List ℕ → ℕ → Outcome ℕ
byte_at mem i = or_fault (get_elem? mem i)

-- The 16-bit number in network byte order at `mem + i`.
unfoldable pub u16_at : List ℕ → ℕ → Outcome ℕ
unfolding byte_at
u16_at mem i = do a ← byte_at mem i; b ← byte_at mem (i + 1); ok (a * 256 + b)

-- The 32-bit number in network byte order at `mem + i`.
unfoldable pub u32_at : List ℕ → ℕ → Outcome ℕ
unfolding u16_at
u32_at mem i = do a ← u16_at mem i; b ← u16_at mem (i + 2); ok (a * 65536 + b)

-- `memcpy` of `n` bytes from `mem + i`.
unfoldable pub bytes_at : List ℕ → ℕ → ℕ → Outcome (List ℕ)
bytes_at mem i n = if ltb (length mem) (i + n) then fault else ok (take n (drop i mem))

-- The bytes that storing `htons(n)` and `htonl(n)` writes.
unfoldable pub put_u16 : ℕ → List ℕ
put_u16 n = (n / 256 % 256) ∷ (n % 256) ∷ []

unfoldable pub put_u32 : ℕ → List ℕ
put_u32 n = (n / 16777216 % 256) ∷ (n / 65536 % 256) ∷ (n / 256 % 256) ∷ (n % 256) ∷ []

pub get_elem?-append :
    (xs ys : List ℕ) (k : ℕ) → get_elem? (xs ++ ys) (length xs + k) ≡ get_elem? ys k
get_elem?-append [] ys k = ground arith
get_elem?-append (x ∷ xs) ys k = rw add.suc (get_elem?-append xs ys k)

pub byte_at-append :
    (xs ys : List ℕ) (k i : ℕ) → i ≡ length xs + k → byte_at (xs ++ ys) i ≡ byte_at ys k
unfolding byte_at
byte_at-append xs ys k i e = ground (arith, get_elem?-append xs ys k)

pub u16_at-append :
    (xs ys : List ℕ) (k i : ℕ) → i ≡ length xs + k → u16_at (xs ++ ys) i ≡ u16_at ys k
unfolding u16_at
u16_at-append xs ys k i e =
    rw (byte_at-append xs ys k i e, byte_at-append xs ys (k + 1) (i + 1) (omega arith)) refl

pub u32_at-append :
    (xs ys : List ℕ) (k i : ℕ) → i ≡ length xs + k → u32_at (xs ++ ys) i ≡ u32_at ys k
unfolding u32_at
u32_at-append xs ys k i e =
    rw (u16_at-append xs ys k i e, u16_at-append xs ys (k + 2) (i + 2) (omega arith)) refl

pub drop-append : (xs ys : List ℕ) (k : ℕ) → drop (length xs + k) (xs ++ ys) ≡ drop k ys
drop-append [] ys k = rw add.zero refl
drop-append (x ∷ xs) ys k = rw add.suc (drop-append xs ys k)

-- Reading back what was stored.
pub u16_at-put_u16 : (n : ℕ) (rest : List ℕ) → n < 65536 → u16_at (put_u16 n ++ rest) 0 ≡ ok n
unfolding u16_at put_u16
u16_at-put_u16 n rest h = ap ok (omega arith)

pub u32_at-put_u32 : (n : ℕ) (rest : List ℕ) → n < 4294967296 → u32_at (put_u32 n ++ rest) 0 ≡ ok n
unfolding u32_at put_u32
u32_at-put_u32 n rest h = ap ok (omega arith)

pub bytes_at-append :
    (xs ys zs : List ℕ) (i n : ℕ)
    → i ≡ length xs
    → n ≡ length ys
    → bytes_at (xs ++ (ys ++ zs)) i n ≡ ok ys
unfolding bytes_at
bytes_at-append xs ys zs i n ei en =
    let inside : ltb (length (xs ++ (ys ++ zs))) (length xs + length ys) ≡ false =
      le→ltb _ _ (omega (arith, length-append xs (ys ++ zs), length-append ys zs)) in
    rw (ei, en, inside, drop-length-append xs (ys ++ zs), take-length-append ys zs) refl

-- A read lies inside the memory or faults.
pub byte_at-lt : (mem : List ℕ) (i : ℕ) → i < length mem → (b : ℕ) × (byte_at mem i ≡ ok b)
unfolding byte_at
byte_at-lt [] i h = elim h [ ]
byte_at-lt (x ∷ xs) zero h = (x, refl)
byte_at-lt (x ∷ xs) (suc i) h = byte_at-lt xs i (omega arith)

pub byte_at-ge : (mem : List ℕ) (i : ℕ) → length mem ≤ i → byte_at mem i ≡ fault
unfolding byte_at
byte_at-ge [] i h = refl
byte_at-ge (x ∷ xs) zero h = absurd (omega arith)
byte_at-ge (x ∷ xs) (suc i) h = byte_at-ge xs i (omega arith)

pub u16_at-lt : (mem : List ℕ) (i : ℕ) → i + 1 < length mem → (n : ℕ) × (u16_at mem i ≡ ok n)
unfolding u16_at
u16_at-lt mem i h =
    let (a, ea) = byte_at-lt mem i (omega arith) in
    let (b, eb) = byte_at-lt mem (i + 1) h in (a * 256 + b, rw (ea, eb) refl)

pub u16_at-ge : (mem : List ℕ) (i : ℕ) → length mem ≤ i + 1 → u16_at mem i ≡ fault
unfolding u16_at
u16_at-ge mem i h = elim (Option-cases (get_elem? mem i)) [
  | inl e ↦ rw e refl
  | inr (a, e) ↦ rw (e, byte_at-ge mem (i + 1) h) refl
]

pub u32_at-lt : (mem : List ℕ) (i : ℕ) → i + 3 < length mem → (n : ℕ) × (u32_at mem i ≡ ok n)
unfolding u32_at
u32_at-lt mem i h =
    let (a, ea) = u16_at-lt mem i (omega arith) in
    let (b, eb) = u16_at-lt mem (i + 2) (omega arith) in (a * 65536 + b, rw (ea, eb) refl)

pub length-put_u32 : (n : ℕ) → length (put_u32 n) ≡ 4
unfolding put_u32
length-put_u32 n = refl

pub length-put_u16 : (n : ℕ) → length (put_u16 n) ≡ 2
unfolding put_u16
length-put_u16 n = refl

-- What is read from bytes has the width of the read.
pub byte_at-IsByte :
    (mem : List ℕ) (i : ℕ) {b : ℕ} → All IsByte mem → byte_at mem i ≡ ok b → b < 256
unfolding byte_at
byte_at-IsByte [] i r e = cc
byte_at-IsByte (x ∷ xs) zero r e = ground arith
byte_at-IsByte (x ∷ xs) (suc i) r e = byte_at-IsByte xs i r.1 e

pub u16_at_bound : (mem : List ℕ) (i : ℕ) {n : ℕ} → All IsByte mem → u16_at mem i ≡ ok n → n < 65536
unfolding u16_at
u16_at_bound mem i r e =
    let (a, ea, e1) = >>=-eq-ok (byte_at mem i) _ e in
    let (b, eb, e2) = >>=-eq-ok (byte_at mem (i + 1)) _ e1 in
    omega (arith, ok-injective e2, byte_at-IsByte mem i r ea, byte_at-IsByte mem (i + 1) r eb)

-- A read that succeeds lies inside.
pub byte_at_inside : (mem : List ℕ) (i : ℕ) {b : ℕ} → byte_at mem i ≡ ok b → i < length mem
unfolding byte_at
byte_at_inside [] i e = cc
byte_at_inside (x ∷ xs) zero e = omega arith
byte_at_inside (x ∷ xs) (suc i) e = omega (arith, byte_at_inside xs i e)

pub u16_at_inside : (mem : List ℕ) (i : ℕ) {n : ℕ} → u16_at mem i ≡ ok n → i + 1 < length mem
unfolding u16_at
u16_at_inside mem i e =
    let (a, ea, e1) = >>=-eq-ok (byte_at mem i) _ e in
    let (b, eb, e2) = >>=-eq-ok (byte_at mem (i + 1)) _ e1 in byte_at_inside mem (i + 1) eb

pub bytes_at-le :
    (mem : List ℕ) (i n : ℕ) → i + n ≤ length mem → bytes_at mem i n ≡ ok (take n (drop i mem))
unfolding bytes_at
bytes_at-le mem i n h = rw (le→ltb (length mem) (i + n) h) refl

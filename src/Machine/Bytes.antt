-- ===== src/Machine/Bytes.antt =====
-- Byte memory: blocks of bytes and little-endian numbers.

use cheshire_fork.Base.{
  ℕ, zero, suc, ◌+◌, ◌-◌, ◌*◌, ◌≤◌, ◌<◌, ◌≡◌, refl, arith, Bool, ◌&&◌, List, [], ◌∷◌, ltb, leb,
  ◌==◌, if◌then◌else◌, tabulate, ◌⊎◌, inl, inr,
}

abbrev pub Mem : Type 0
Mem = ℕ → ℕ

-- `n` bytes at `a` and on, as a little-endian number.
unfoldable pub load_le : ℕ → Mem → ℕ → ℕ
load_le zero f a = 0
load_le (suc n) f a = f a + 256 * load_le n f (a + 1)

abbrev pub load32 : Mem → ℕ → ℕ
load32 = load_le 4

abbrev pub load64 : Mem → ℕ → ℕ
load64 = load_le 8

-- Memory after the bytes of the list have been written to `a` and on.
unfoldable pub store_bytes : ℕ → List ℕ → Mem → Mem
store_bytes a [] f = f
store_bytes a (x ∷ xs) f = store_bytes (a + 1) xs (λ q. if q == a then x else f q)

abbrev pub in_range : ℕ → ℕ → ℕ → Bool
in_range a n q = leb a q && ltb q (a + n)

-- `g` is `f` with the `n` bytes of `src` from `s` on copied to `a` and on.
abbrev pub IsCopied : (src : Mem) (s a n : ℕ) (f g : Mem) → Type 0
IsCopied src s a n f g = (q : ℕ) → g q ≡ (if in_range a n q then src (s + (q - a)) else f q)

pub load_le_ext :
    (n : ℕ) (f g : Mem) (a b : ℕ)
    → ((i : ℕ) → i < n → f (a + i) ≡ g (b + i))
    → load_le n f a ≡ load_le n g b
unfolding load_le
load_le_ext zero f g a b h = refl
load_le_ext (suc n) f g a b h =
    ground (arith, h 0 (omega arith), load_le_ext n f g (a + 1) (b + 1) (λ i p. next i p))
  where
    next : (i : ℕ) → i < n → f (a + 1 + i) ≡ g (b + 1 + i)
    next i p = ground (arith, h (i + 1) (omega arith))

-- A number read back from a block that was copied.
pub load_le-IsCopied :
    (n k : ℕ) (src : Mem) (s a len : ℕ) (f g : Mem)
    → IsCopied src s a len f g
    → k + n ≤ len
    → load_le n g (a + k) ≡ load_le n src (s + k)
load_le-IsCopied n k src s a len f g c h =
    load_le_ext n g src (a + k) (s + k) λ i p. ground (arith, c (a + k + i))

pub store_bytes-tabulate :
    (src : Mem) (s a n : ℕ) (f : Mem) → IsCopied src s a n f (store_bytes a (tabulate src s n) f)
unfolding store_bytes
store_bytes-tabulate src s a zero f q = ground arith
store_bytes-tabulate src s a (suc n) f q =
    ground
      (arith, store_bytes-tabulate src (s + 1) (a + 1) n (λ q'. if q' == a then src s else f q') q)

-- `memcpy(dst, src, n)`.
unfoldable pub copy : (dst src n : ℕ) → Mem → Mem
copy dst src n f q = if in_range dst n q then f (src + (q - dst)) else f q

pub load_le-IsCopied_start :
    (n : ℕ) (src : Mem) (s a len : ℕ) (f g : Mem)
    → IsCopied src s a len f g
    → n ≤ len
    → load_le n g a ≡ load_le n src s
load_le-IsCopied_start n src s a len f g c h =
    load_le_ext n g src a s λ i p. ground (arith, c (a + i))

pub IsCopied-zero : (src : Mem) (s a : ℕ) (f : Mem) → IsCopied src s a 0 f f
IsCopied-zero src s a f q = ground arith

-- Two copies, the second right behind the first or empty, are one.
pub IsCopied-append :
    (src : Mem) (s a n s2 a2 r total : ℕ) (f g k : Mem)
    → IsCopied src s a n f g
    → IsCopied src s2 a2 r g k
    → total ≡ n + r
    → (r ≡ 0) ⊎ ((s2 ≡ s + n) × (a2 ≡ a + n))
    → IsCopied src s a total f k
IsCopied-append src s a n s2 a2 r total f g k first second e (inl none_left) q =
    ground (arith, first q, second q)
IsCopied-append src s a n s2 a2 r total f g k first second e (inr (es, ea)) q =
    rw (second q, es, ea, e) (ground (arith, first q))

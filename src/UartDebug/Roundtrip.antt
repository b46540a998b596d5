-- ===== src/UartDebug/Roundtrip.antt =====
-- Data that is written by the debug server of sw/lib/hal/uart_debug.c and read back.

use cheshire_fork.Base.{
  ℕ, ◌+◌, ◌≤◌, ◌<◌, ◌≡◌, ◌∙◌, refl, arith, List, [], ◌∷◌, ◌++◌, tabulate, length, u8, ◌==◌,
  if◌then◌else◌, ◌⊎◌, inl, inr,
}
use cheshire_fork.Machine.{Machine, Cmd, ◌>>◌}
use cheshire_fork.Machine.Bytes.{Mem, store_bytes}
use cheshire_fork.Machine.Returns
use cheshire_fork.Machine.Returns.{Returns, returns}
use cheshire_fork.Mmio.{Bus}
use cheshire_fork.Uart.{read_byte}
use cheshire_fork.Uart.Stream.{Line, IsUart}
use cheshire_fork.Uart.Input.{read_byte_lem}
use cheshire_fork.UartDebug.{Slots, ack, eot, cmd_read, serve_read, serve_write}
use cheshire_fork.UartDebug.Session.{value, store_bytes_below, serve_read-sent, serve_write-stored}

-- Every element is a byte.
abbrev pub AreBytes : List ℕ → Type 0
AreBytes [] = Unit {0}
AreBytes (x ∷ xs) = (x < 256) × AreBytes xs

store_bytes_outside :
    (a q : ℕ) (xs : List ℕ) (f : Mem) → (q < a) ⊎ (a + length xs ≤ q) → store_bytes a xs f q ≡ f q
unfolding store_bytes
store_bytes_outside a q [] f h = refl
store_bytes_outside a q (x ∷ xs) f (inl h) = ground (
  arith,
  store_bytes_outside (a + 1) q xs (λ q'. if q' == a then x else f q') (inl (omega arith)),
)
store_bytes_outside a q (x ∷ xs) f (inr h) = ground (
  arith,
  store_bytes_outside (a + 1) q xs (λ q'. if q' == a then x else f q') (inr (omega arith)),
)

-- Stored bytes are what is read from their place.
pub read_back :
    (a i : ℕ) (xs : List ℕ) (f g : Mem)
    → AreBytes xs
    → ((k : ℕ) → k < length xs → g (a + (i + k)) ≡ store_bytes (a + i) xs f (a + (i + k)))
    → tabulate (λ q. u8 (g (a + q))) i (length xs) ≡ xs
unfolding store_bytes
read_back a i [] f g bytes same = refl
read_back a i (x ∷ xs) f g (small, bytes) same =
    let next : Mem = λ q'. if q' == a + i then x else f q' in
    let place : a + (i + 1) ≡ a + i + 1 = omega arith in
    let head : u8 (g (a + i)) ≡ x =
      ground (arith, same 0 (omega arith), store_bytes_below (a + i + 1) (a + i) xs next) in
    let tail : tabulate (λ q. u8 (g (a + q))) (i + 1) (length xs) ≡ xs =
      read_back a (i + 1) xs next g bytes λ k h.
        let shift : i + 1 + k ≡ i + (k + 1) = omega arith in
        rw (place, shift) (same (k + 1) (omega arith)) in
    rw (head, tail) refl

-- A place of `n` bytes at `a` and one of eight bytes at `slot`.
abbrev pub AreApart : (a n slot : ℕ) → Type 0
AreApart a n slot = (a + n ≤ slot) ⊎ (slot + 8 ≤ a)

side :
    (a n slot k : ℕ) (bs : List ℕ)
    → AreApart a n slot
    → length bs ≡ 8
    → k < n
    → (a + k < slot) ⊎ (slot + length bs ≤ a + k)
side a n slot k bs (inl h) e small = inl (omega arith)
side a n slot k bs (inr h) e small = inr (omega arith)

-- Stored bytes outlive two stores of eight bytes elsewhere.
dump_lem :
    (a sa sl : ℕ) (addr len xs : List ℕ) (f h : Mem)
    → length addr ≡ 8
    → length len ≡ 8
    → AreBytes xs
    → AreApart a (length xs) sa
    → AreApart a (length xs) sl
    → f ≡ store_bytes a xs h
    → tabulate (λ q. u8 (store_bytes sl len (store_bytes sa addr f) (a + q))) 0 (length xs) ≡ xs
dump_lem a sa sl addr len xs f h addr_8 len_8 bytes apart_a apart_l e =
    read_back a 0 xs h (store_bytes sl len (store_bytes sa addr f)) bytes λ k small.
      let start : a + 0 ≡ a = omega arith in
      let index : 0 + k ≡ k = omega arith in
      rw (index, start)
        (store_bytes_outside sl (a + k) len (store_bytes sa addr f)
            (side a (length xs) sl k len apart_l len_8 small)
          ∙ store_bytes_outside sa (a + k) addr f
              (side a (length xs) sa k addr apart_a addr_8 small)
          ∙ rw e refl)

module _ {D : Type 0} {bus : Bus D} {base patience : ℕ} {l : Line D}
    (u : IsUart bus base patience l) (invoke : ℕ → Cmd D ℕ) (s : Slots) (fuel : ℕ)
    (enough : patience ≤ fuel) where
  -- Data that a WRITE command has stored is what a READ command of the same place that follows it
  -- sends, if it does not overlap the server's own copies of the arguments.
  pub serve_read-serve_write :
      (addr len xs rest : List ℕ) (m : Machine D)
      → l.Ok m.dev
      → length addr ≡ 8
      → length len ≡ 8
      → value len ≡ length xs
      → AreBytes xs
      → AreApart (value addr) (length xs) s.addr
      → AreApart (value addr) (length xs) s.len
      → l.input m.dev ≡ addr ++ (len ++ (xs ++ (cmd_read ∷ (addr ++ (len ++ rest)))))
      → Returns
          (λ _ m'.
            l.Ok m'.dev
            × (l.sent m'.dev ≡ l.sent m.dev ++ (ack ∷ eot ∷ []) ++ (ack ∷ (xs ++ (eot ∷ []))))
            × (l.input m'.dev ≡ rest))
          ((serve_write bus base invoke s fuel
              >> read_byte bus base fuel
              >> serve_read bus base invoke s fuel)
            m)
  serve_read-serve_write addr len xs rest m ok addr_8 len_8 same bytes apart_addr apart_len
        pending =
      Returns.bind
        {P = λ _ m2.
          l.Ok m2.dev
          × (l.sent m2.dev ≡ l.sent m.dev ++ (ack ∷ eot ∷ []))
          × (l.input m2.dev ≡ addr ++ (len ++ rest))
          × (m2.mem
              ≡ store_bytes (value addr) xs
                  (store_bytes s.len len (store_bytes s.addr addr m.mem)))}
        (Returns.bind
          (serve_write-stored u invoke s fuel enough addr len xs
            (cmd_read ∷ (addr ++ (len ++ rest))) m ok addr_8 len_8 same pending)
          λ _ m1 (ok1, s1, i1, f1).
            Returns.mono (read_byte_lem u fuel cmd_read (addr ++ (len ++ rest)) m1 enough ok1 i1)
              λ c m2 (e, ok2, s2, i2, f2). (ok2, s2 ∙ s1, i2, f2 ∙ f1))
        λ c m2 (ok2, s2, i2, f2).
          Returns.mono (serve_read-sent u invoke s fuel enough addr len rest m2 ok2 addr_8 len_8 i2)
            λ _ m3 (ok3, s3, i3, f3).
              let dumped =
                dump_lem (value addr) s.addr s.len addr len xs m2.mem
                  (store_bytes s.len len (store_bytes s.addr addr m.mem)) addr_8 len_8 bytes
                  apart_addr apart_len f2 in
              (ok3, s3 ∙ rw (s2, same, dumped) refl, i3)

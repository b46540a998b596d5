-- ===== src/UartDebug/Session.antt =====
-- Commands of sw/lib/hal/uart_debug.c over a UART with a line.
use mathlib.Core.Path.{subst}
use mathlib.Core.List.{append_assoc}
use cheshire_fork.Base.{
  ℕ, ◌+◌, ◌*◌, ◌==◌, if◌then◌else◌, ◌≤◌, ◌<◌, ◌≡◌, ◌∙◌, refl, arith, List, [], ◌∷◌, ◌++◌, tabulate,
  length, u8,
}
use cheshire_fork.Machine.{Machine, Cmd}
use cheshire_fork.Machine.Bytes.{Mem, store_bytes, load_le}
use cheshire_fork.Machine.Returns
use cheshire_fork.Machine.Returns.{Returns, returns}
use cheshire_fork.Mmio.{Bus}
use cheshire_fork.Uart.{read_str}
use cheshire_fork.Uart.Stream.{Line, IsUart, write_byte_lem, write_str-sent}
use cheshire_fork.Uart.Input.{read_str-input}
use cheshire_fork.UartDebug.{Slots, ack, eot, read_arg, serve_read, serve_write}

-- The eight bytes of a 64-bit argument, the lowest first.
abbrev pub arg_bytes : (b0 b1 b2 b3 b4 b5 b6 b7 : ℕ) → List ℕ
arg_bytes b0 b1 b2 b3 b4 b5 b6 b7 = b0 ∷ b1 ∷ b2 ∷ b3 ∷ b4 ∷ b5 ∷ b6 ∷ b7 ∷ []

-- The number that bytes stand for, the lowest first.
unfoldable pub value : List ℕ → ℕ
value [] = 0
value (x ∷ xs) = x + 256 * value xs

pub store_bytes_below : (a q : ℕ) (xs : List ℕ) (f : Mem) → q < a → store_bytes a xs f q ≡ f q
unfolding store_bytes
store_bytes_below a q [] f h = refl
store_bytes_below a q (x ∷ xs) f h =
    ground (arith, store_bytes_below (a + 1) q xs (λ q'. if q' == a then x else f q') (omega arith))

load_le-store_bytes :
    (a : ℕ) (xs : List ℕ) (f : Mem) → load_le (length xs) (store_bytes a xs f) a ≡ value xs
unfolding load_le store_bytes value
load_le-store_bytes a [] f = refl
load_le-store_bytes a (x ∷ xs) f = ground (
  arith,
  store_bytes_below (a + 1) a xs (λ q. if q == a then x else f q),
  load_le-store_bytes (a + 1) xs (λ q. if q == a then x else f q),
)

module _ {D : Type 0} {bus : Bus D} {base patience : ℕ} {l : Line D}
    (u : IsUart bus base patience l) (invoke : ℕ → Cmd D ℕ) (s : Slots) (fuel : ℕ)
    (enough : patience ≤ fuel) where
  pub read_arg_lem :
      (slot : ℕ) (bytes rest : List ℕ) (m : Machine D)
      → l.Ok m.dev
      → length bytes ≡ 8
      → l.input m.dev ≡ bytes ++ rest
      → Returns
          (λ v m'.
            (v ≡ value bytes)
            × l.Ok m'.dev
            × (l.sent m'.dev ≡ l.sent m.dev)
            × (l.input m'.dev ≡ rest)
            × (m'.mem ≡ store_bytes slot bytes m.mem))
          (read_arg bus base invoke s fuel slot m)
  unfolding read_arg
  read_arg_lem slot bytes rest m ok eight pending =
      Returns.bind
        (subst
          (λ n.
            Returns
              (λ _ m'.
                l.Ok m'.dev
                × (l.sent m'.dev ≡ l.sent m.dev)
                × (l.input m'.dev ≡ rest)
                × (m'.mem ≡ store_bytes slot bytes m.mem))
              (read_str bus base fuel slot n m))
          eight (read_str-input u fuel slot bytes rest m enough ok pending))
        λ _ m1 (ok1, s1, i1, f1). returns (
          rw f1 (
              subst (λ n. load_le n (store_bytes slot bytes m.mem) slot ≡ value bytes) eight
                (load_le-store_bytes slot bytes m.mem)),
          ok1,
          s1,
          i1,
          f1,
        )

  -- A WRITE command behind its opcode: its two arguments of eight bytes, the second of which is the
  -- length of the data, and the data. The server returns with the data stored at the address that
  -- the first argument gives, has sent an acknowledgement and the end mark, and leaves the rest of
  -- the input.
  pub serve_write-stored :
      (addr len xs rest : List ℕ) (m : Machine D)
      → l.Ok m.dev
      → length addr ≡ 8
      → length len ≡ 8
      → value len ≡ length xs
      → l.input m.dev ≡ addr ++ (len ++ (xs ++ rest))
      → Returns
          (λ _ m'.
            l.Ok m'.dev
            × (l.sent m'.dev ≡ l.sent m.dev ++ (ack ∷ eot ∷ []))
            × (l.input m'.dev ≡ rest)
            × (m'.mem
                ≡ store_bytes
                    (value addr)
                    xs
                    (store_bytes s.len len (store_bytes s.addr addr m.mem))))
          (serve_write bus base invoke s fuel m)
  unfolding serve_write
  serve_write-stored addr len xs rest m ok addr_8 len_8 same pending =
      Returns.bind (read_arg_lem s.addr addr (len ++ (xs ++ rest)) m ok addr_8 pending)
        λ a m1 (ea, ok1, s1, i1, f1).
          Returns.bind (read_arg_lem s.len len (xs ++ rest) m1 ok1 len_8 i1)
            λ n m2 (en, ok2, s2, i2, f2).
              Returns.bind (write_byte_lem u fuel ack m2 enough ok2) λ _ m3 (ok3, s3, i3, f3).
                rw (ea, en, same)
                  (Returns.bind (read_str-input u fuel (value addr) xs rest m3 enough ok3 (i3 ∙ i2))
                    λ _ m4 (ok4, s4, i4, f4).
                      Returns.mono (write_byte_lem u fuel eot m4 enough ok4)
                        λ _ m5 (ok5, s5, i5, f5). (
                          ok5,
                          s5
                              ∙ rw (s4, s3, s2, s1)
                                  (append_assoc (l.sent m.dev) (ack ∷ []) (eot ∷ [])),
                          i5 ∙ i4,
                          f5 ∙ f4 ∙ rw (f3, f2, f1) refl,
                        ))

  -- A READ command behind its opcode: the server returns once it has sent an acknowledgement, the
  -- bytes of memory that the two arguments select, and the end mark. Memory differs from before
  -- only in the server's copies of the arguments.
  pub serve_read-sent :
      (addr len rest : List ℕ) (m : Machine D)
      → l.Ok m.dev
      → length addr ≡ 8
      → length len ≡ 8
      → l.input m.dev ≡ addr ++ (len ++ rest)
      → (let f = store_bytes s.len len (store_bytes s.addr addr m.mem) in
          Returns
            (λ _ m'.
              l.Ok m'.dev
              × (l.sent m'.dev
                  ≡ l.sent m.dev
                    ++ (ack
                        ∷ (tabulate (λ q. u8 (f (value addr + q))) 0 (value len) ++ (eot ∷ []))))
              × (l.input m'.dev ≡ rest)
              × (m'.mem ≡ f))
            (serve_read bus base invoke s fuel m))
  unfolding serve_read
  serve_read-sent addr len rest m ok addr_8 len_8 pending =
      Returns.bind (read_arg_lem s.addr addr (len ++ rest) m ok addr_8 pending)
        λ a m1 (ea, ok1, s1, i1, f1).
          Returns.bind (read_arg_lem s.len len rest m1 ok1 len_8 i1) λ n m2 (en, ok2, s2, i2, f2).
            Returns.bind (write_byte_lem u fuel ack m2 enough ok2) λ _ m3 (ok3, s3, i3, f3).
              rw (ea, en)
                (Returns.bind (write_str-sent u fuel (value addr) (value len) m3 enough ok3)
                  λ _ m4 (ok4, s4, i4, f4).
                    Returns.mono (write_byte_lem u fuel eot m4 enough ok4) λ _ m5 (ok5, s5, i5, f5).
                      let f = store_bytes s.len len (store_bytes s.addr addr m.mem) in
                      let all : m3.mem ≡ f = f3 ∙ f2 ∙ rw f1 refl in
                      let dump = tabulate (λ q. u8 (f (value addr + q))) 0 (value len) in
                      (
                        ok5,
                        s5
                            ∙ rw (s4, s3, s2, s1, all)
                                (append_assoc (l.sent m.dev ++ (ack ∷ [])) dump (eot ∷ [])
                                  ∙ append_assoc (l.sent m.dev) (ack ∷ []) (dump ++ (eot ∷ []))),
                        i5 ∙ i4 ∙ i3 ∙ i2,
                        f5 ∙ f4 ∙ all,
                      ))

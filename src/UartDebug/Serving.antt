-- ===== src/UartDebug/Serving.antt =====
-- `uart_debug_serve` of sw/lib/hal/uart_debug.c against its protocol.
use mathlib.Core.Path.{subst}
use mathlib.Core.List.{append_assoc, append-nil}
use cheshire_fork.Base.{
  ℕ, zero, suc, ◌+◌, ◌^◌, ◌<◌, ◌≤◌, ◌≡◌, refl, sym, ◌∙◌, arith, List, [], ◌∷◌, ◌++◌, tabulate,
  length, u8, u32,
}
use cheshire_fork.Machine.{Machine, Cmd}
use cheshire_fork.Machine.Bytes.{Mem, store_bytes}
use cheshire_fork.Machine.Returns.{Returns, Exits, Exits-bind, Exits-check_call}
use cheshire_fork.Mmio.{Bus}
use cheshire_fork.SdCard.Frame.{bytes_of}
use cheshire_fork.Uart.Stream.{Line, IsUart, write_byte_lem, write_str-sent}
use cheshire_fork.Uart.Input.{read_byte_lem}
use cheshire_fork.UartDebug.{
  Slots, ack, eoc, cmd_read, cmd_write, cmd_exec, serve_exec, serve_loop, serve,
}
use cheshire_fork.UartDebug.Session.{read_arg_lem, serve_write-stored, serve_read-sent}
use cheshire_fork.UartDebug.Roundtrip.{AreBytes, read_back}
use cheshire_fork.UartDebug.Protocol.{
  Request, dump, load, Fits, AllFit, encode, encode_all, arguments, apply, apply_all, reply,
  reply_all, length-bytes_of, value_8,
}

-- The state of the connection: what has been sent, what is to come, and memory.
pub record Stands {D : Type 0} (l : Line D) (sent input : List ℕ) (f : Mem) (m : Machine D)
    : Type 0 where
  pub ok : l.Ok m.dev
  pub has_sent : l.sent m.dev ≡ sent
  pub has_input : l.input m.dev ≡ input
  pub has_mem : m.mem ≡ f

four : (x : ℕ) → AreBytes (bytes_of 4 x)
unfolding bytes_of
four x = omega arith

-- The four bytes of a number that has been stored are what a string write sends.
sent_back :
    (x a : ℕ) (f : Mem)
    → x < 2 ^ 32
    → tabulate (λ q. u8 (store_bytes a (bytes_of 4 x) f (a + q))) 0 4 ≡ bytes_of 4 x
sent_back x a f small =
    let bytes : AreBytes (bytes_of 4 x) = four x in
    let none : a + 0 ≡ a = omega arith in
    subst (λ n. tabulate (λ q. u8 (store_bytes a (bytes_of 4 x) f (a + q))) 0 n ≡ bytes_of 4 x)
      (length-bytes_of 4 x)
      (read_back a 0 (bytes_of 4 x) f (store_bytes a (bytes_of 4 x) f) bytes
        λ k below. rw none refl)

module _ {D : Type 0} {bus : Bus D} {base patience : ℕ} {l : Line D}
    (u : IsUart bus base patience l) (invoke : ℕ → Cmd D ℕ) (s : Slots) (fuel : ℕ)
    (enough : patience ≤ fuel) where
  -- A request is answered, and the loop goes on.
  request_lem :
      (r : Request) (n : ℕ) (sent rest : List ℕ) (f : Mem) (m : Machine D)
      (Q : ℕ → Machine D → Type 0)
      → Fits r
      → Stands l sent (encode r rest) f m
      → ((m' : Machine D)
          → Stands l (sent ++ reply s r f) rest (apply s r f) m'
          → Exits Q (serve_loop bus base invoke s fuel n m'))
      → Exits Q (serve_loop bus base invoke s fuel (suc n) m)
  unfolding serve_loop encode reply apply arguments
  request_lem (dump addr len) n sent rest f m Q (fa, fl) st next =
      Exits-bind (read_byte_lem u fuel cmd_read _ m enough st.ok st.has_input)
        λ c m1 (e, ok1, s1, i1, f1). rw e (
          Exits-bind
            (serve_read-sent u invoke s fuel enough (bytes_of 8 addr) (bytes_of 8 len) rest m1 ok1
              (length-bytes_of 8 addr) (length-bytes_of 8 len) i1)
            λ _ m2 (ok2, s2, i2, f2). next m2 (record {
              ok = ok2;
              has_sent =
                  s2 ∙ rw (s1, st.has_sent, f1, st.has_mem, value_8 addr fa, value_8 len fl) refl;
              has_input = i2;
              has_mem = f2 ∙ rw (f1, st.has_mem) refl;
            }))
  request_lem (load addr xs) n sent rest f m Q (fa, fl) st next =
      Exits-bind (read_byte_lem u fuel cmd_write _ m enough st.ok st.has_input)
        λ c m1 (e, ok1, s1, i1, f1). rw e (
          Exits-bind
            (serve_write-stored u invoke s fuel enough (bytes_of 8 addr) (bytes_of 8 (length xs)) xs
              rest m1 ok1 (length-bytes_of 8 addr) (length-bytes_of 8 (length xs))
              (value_8 (length xs) fl) i1)
            λ _ m2 (ok2, s2, i2, f2). next m2 (record {
              ok = ok2;
              has_sent = s2 ∙ rw (s1, st.has_sent) refl;
              has_input = i2;
              has_mem = f2 ∙ rw (f1, st.has_mem, value_8 addr fa) refl;
            }))

  requests_lem :
      (rs : List Request) (n : ℕ) (sent rest : List ℕ) (f : Mem) (m : Machine D)
      (Q : ℕ → Machine D → Type 0)
      → AllFit rs
      → length rs < n
      → Stands l sent (encode_all rs rest) f m
      → ((k : ℕ) (m' : Machine D)
          → Stands l (sent ++ reply_all s rs f) rest (apply_all s rs f) m'
          → Exits Q (serve_loop bus base invoke s fuel (suc k) m'))
      → Exits Q (serve_loop bus base invoke s fuel n m)
  unfolding encode_all reply_all apply_all
  requests_lem rs zero sent rest f m Q fit more st next = absurd (omega (arith, more))
  requests_lem [] (suc n) sent rest f m Q fit more st next =
      next n m (subst (λ t. Stands l t rest f m) (sym (append-nil sent)) st)
  requests_lem (r ∷ rs) (suc n) sent rest f m Q (fit, fits) more st next =
      request_lem r n sent (encode_all rs rest) f m Q fit st λ m1 st1.
        requests_lem rs n (sent ++ reply s r f) rest (apply s r f) m1 Q fits (omega (arith, more))
          st1
          λ k m2 st2. next k m2 (
            subst (λ t. Stands l t rest (apply_all s rs (apply s r f)) m2)
              (append_assoc sent (reply s r f) (reply_all s rs (apply s r f))) st2)

  -- The argument of an EXEC, its acknowledgement, the call, and the report of the 32-bit result.
  exec_lem :
      (addr result : ℕ) (sent rest : List ℕ) (f g : Mem) (m : Machine D)
      → addr < 2 ^ 64
      → Stands l sent (bytes_of 8 addr ++ rest) f m
      → ((m' : Machine D)
          → Stands l (sent ++ ack ∷ []) rest (store_bytes s.addr (bytes_of 8 addr) f) m'
          → Returns
              (λ r m''. (r ≡ result) × Stands l (sent ++ ack ∷ []) rest g m'')
              (invoke addr m'))
      → Exits
          (λ c m'.
            (c ≡ u32 result)
            × Stands l
                (sent ++ (ack ∷ eoc ∷ bytes_of 4 (u32 result)))
                rest
                (store_bytes s.ret (bytes_of 4 (u32 result)) g)
                m')
          (serve_exec bus base invoke s fuel m)
  unfolding serve_exec
  exec_lem addr result sent rest f g m fits st runs =
      Exits-bind
        (read_arg_lem u invoke s fuel enough s.addr (bytes_of 8 addr) rest m st.ok
          (length-bytes_of 8 addr) st.has_input)
        λ a m1 (ea, ok1, s1, i1, f1).
          Exits-bind (write_byte_lem u fuel ack m1 enough ok1) λ _ m2 (ok2, s2, i2, f2).
            rw (ea, value_8 addr fits)
              (Exits-bind
                (runs m2 (record {
                  ok = ok2;
                  has_sent = s2 ∙ rw (s1, st.has_sent) refl;
                  has_input = i2 ∙ i1;
                  has_mem = f2 ∙ f1 ∙ rw st.has_mem refl;
                }))
                λ r m3 (er, st3). rw er (
                  Exits-bind (write_byte_lem u fuel eoc m3 enough st3.ok) λ _ m4 (ok4, s4, i4, f4).
                    Exits-bind
                      (write_str-sent u fuel s.ret 4
                        (record m4 { mem = store_bytes s.ret (bytes_of 4 (u32 result)) m4.mem })
                        enough ok4)
                      λ _ m5 (ok5, s5, i5, f5). Exits-check_call (u32 result) m5 (
                        omega arith,
                        record {
                          ok = ok5;
                          has_sent =
                              s5
                              ∙ rw
                                  (
                                    sent_back (u32 result) s.ret m4.mem (omega arith),
                                    s4,
                                    st3.has_sent,
                                  )
                                  (append_assoc (sent ++ ack ∷ []) (eoc ∷ [])
                                      (bytes_of 4 (u32 result))
                                    ∙ append_assoc sent (ack ∷ []) (eoc ∷ bytes_of 4 (u32 result)));
                          has_input = i5 ∙ i4 ∙ st3.has_input;
                          has_mem = f5 ∙ rw (f4, st3.has_mem) refl;
                        },
                      )))

  -- A whole connection, against the protocol. The client sends dumps and loads in any number and
  -- order, and at last an EXEC; the code at its address returns, and leaves the connection as it
  -- was. The server has then sent an acknowledgement, the reply to each request from memory as the
  -- requests before it left it, and the acknowledgement, the end mark and the 32-bit result of the
  -- EXEC; it returns that result, and memory is as the requests, the code, and the server's own
  -- copies of arguments and result leave it.
  pub serve-protocol :
      (rs : List Request) (commands addr result : ℕ) (rest : List ℕ) (g : Mem) (m : Machine D)
      → l.Ok m.dev
      → AllFit rs
      → addr < 2 ^ 64
      → length rs < commands
      → l.input m.dev ≡ encode_all rs (cmd_exec ∷ (bytes_of 8 addr ++ rest))
      → (let sent = l.sent m.dev ++ ack ∷ [] ++ reply_all s rs m.mem ++ ack ∷ [] in
          let f = store_bytes s.addr (bytes_of 8 addr) (apply_all s rs m.mem) in
          (m' : Machine D)
          → Stands l sent rest f m'
          → Returns (λ r m''. (r ≡ result) × Stands l sent rest g m'') (invoke addr m'))
      → (let sent = l.sent m.dev ++ ack ∷ [] ++ reply_all s rs m.mem in
          Exits
            (λ c m'.
              (c ≡ u32 result)
              × Stands l
                  (sent ++ (ack ∷ eoc ∷ bytes_of 4 (u32 result)))
                  rest
                  (store_bytes s.ret (bytes_of 4 (u32 result)) g)
                  m')
            (serve bus base invoke s fuel commands m))
  unfolding serve serve_loop
  serve-protocol rs commands addr result rest g m ok fit fits more pending runs =
      Exits-bind (write_byte_lem u fuel ack m enough ok) λ _ m1 (ok1, s1, i1, f1).
        requests_lem rs commands (l.sent m.dev ++ ack ∷ []) (cmd_exec ∷ (bytes_of 8 addr ++ rest))
          m.mem m1 _ fit more
          (record { ok = ok1; has_sent = s1; has_input = i1 ∙ pending; has_mem = f1 })
          λ k m2 st2.
            Exits-bind
              (read_byte_lem u fuel cmd_exec (bytes_of 8 addr ++ rest) m2 enough st2.ok
                st2.has_input)
              λ c m3 (e, ok3, s3, i3, f3). rw e (
                exec_lem addr result _ rest (apply_all s rs m.mem) g m3 fits
                  (record {
                    ok = ok3;
                    has_sent = s3 ∙ st2.has_sent;
                    has_input = i3;
                    has_mem = f3 ∙ st2.has_mem;
                  })
                  runs)

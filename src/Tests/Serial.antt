-- ===== src/Tests/Serial.antt =====
-- The UART and the debug server on a small console.
use Prim.Native.Nat.{bit_and}
use cheshire_fork.Base.{
  ◌⊎◌, ℕ, zero, suc, ◌+◌, ◌≤◌, ◌<◌, ◌≡◌, refl, arith, List, [], ◌∷◌, ◌++◌, ◌==◌, if◌then◌else◌, u8,
  u32, ap, inl, inr,
}
use cheshire_fork.UartDebug.Roundtrip.{serve_read-serve_write}
use cheshire_fork.Machine.{◌>>◌, Machine, Cmd, pure, done}
use cheshire_fork.Machine.Bytes.{Mem, store_bytes}
use cheshire_fork.Machine.Returns.{Returns, returns, Exits}
use cheshire_fork.Mmio.{Bus}
use cheshire_fork.SdCard.Frame.{bytes_of}
use cheshire_fork.UartDebug.Protocol.{Request, dump, load, encode_all, apply_all, reply_all}
use cheshire_fork.UartDebug.Serving.{Stands, serve-protocol}
use cheshire_fork.Uart.{read_byte, read_str, line_status, data_ready, thr_empty}
use cheshire_fork.Uart.Stream.{Line, IsUart}
use cheshire_fork.Uart.Input.{read_str-input}
use cheshire_fork.UartDebug.{
  Slots, cmd_read, cmd_exec, ack, eot, eoc, serve, serve_read, serve_write,
}
use cheshire_fork.UartDebug.Session.{value}

-- A console that is busy for two reads of the status after each byte that it has sent.
record Console : Type 0 where
  pub sent : List ℕ
  pub input : List ℕ
  pub busy : ℕ

abbrev flags : List ℕ → ℕ
flags [] = 0x20
flags (x ∷ xs) = 0x21

abbrev tick : ℕ → Console → ℕ × Console
tick zero d = (flags d.input, d)
tick (suc n) d = (0, record d { busy = n })

abbrev pop : List ℕ → Console → ℕ × Console
pop [] d = (0, d)
pop (x ∷ xs) d = (x, record d { input = xs })

abbrev console_bus : Bus Console
console_bus = record {
  read8 = λ a d. if a == 0x3000 + line_status then tick d.busy d else pop d.input d;
  read32 = λ a d. (0, d);
  write8 = λ a byte d. record d { sent = d.sent ++ (byte ∷ []); busy = 2 };
  write32 = λ a value d. d;
}

abbrev console_line : Line Console
console_line = record {
  Ok = λ d. d.busy ≤ 2;
  Empty = λ d. Unit {0};
  Full = λ d. Unit {0};
  sent = λ d. d.sent;
  input = λ d. d.input;
  send_wait = λ d. d.busy;
  input_wait = λ d. d.busy;
}

-- What the status read at `d` must give.
abbrev IsStatus : Console → ℕ × Console → Type 0
IsStatus d (s, d') =
    (d'.busy ≤ 2)
    × (d'.sent ≡ d.sent)
    × (d'.input ≡ d.input)
    × (if bit_and s thr_empty == 0 then d'.busy < d.busy else Unit {0})
    × (if bit_and s data_ready == 0 then (d.input ≡ []) ⊎ (d'.busy < d.busy) else Unit {0})

tick_law :
    (sent input : List ℕ) (busy : ℕ)
    → busy ≤ 2
    → IsStatus
        (record { sent = sent; input = input; busy = busy })
        (tick busy (record { sent = sent; input = input; busy = busy }))
tick_law sent [] zero h = (h, refl, refl, tt, inl refl)
tick_law sent (x ∷ xs) zero h = (h, refl, refl, tt, tt)
tick_law sent input (suc n) h = (omega arith, refl, refl, omega arith, inr (omega arith))

console-IsUart : IsUart console_bus 0x3000 3 console_line
console-IsUart = record {
  send_bound = λ d ok. omega arith;
  input_bound = λ d ok. omega arith;
  status = λ d ok. tick_law d.sent d.input d.busy ok;
  accept = λ d byte ok empty small. (omega arith, refl, refl);
  deliver = λ d byte rest ok full e. rw e (ok, refl, refl, refl);
}

-- A console that has sent one byte, with bytes to come.
abbrev start : List ℕ → Machine Console
start input = record {
  mem = λ q. u8 (q + 7);
  dev = record { sent = 0x21 ∷ []; input = input; busy = 2 };
}

read_str-input_example :
    Returns
      (λ _ m'.
        console_line.Ok m'.dev
        × (m'.dev.sent ≡ 0x21 ∷ [])
        × (m'.dev.input ≡ 7 ∷ [])
        × (m'.mem ≡ store_bytes 0x200 (5 ∷ 6 ∷ []) (start (5 ∷ 6 ∷ 7 ∷ [])).mem))
      (read_str console_bus 0x3000 4 0x200 2 (start (5 ∷ 6 ∷ 7 ∷ [])))
read_str-input_example =
    read_str-input console-IsUart 4 0x200 (5 ∷ 6 ∷ []) (7 ∷ []) (start (5 ∷ 6 ∷ 7 ∷ []))
      (omega arith) (omega arith) refl

abbrev slots : Slots
slots = record { addr = 0x800; len = 0x808; ret = 0x810 }

abbrev addr_arg : List ℕ
addr_arg = 0 ∷ 1 ∷ 0 ∷ 0 ∷ 0 ∷ 0 ∷ 0 ∷ 0 ∷ []

abbrev len_arg : List ℕ
len_arg = 2 ∷ 0 ∷ 0 ∷ 0 ∷ 0 ∷ 0 ∷ 0 ∷ 0 ∷ []

abbrev no_code : ℕ → Cmd Console ℕ
no_code a = pure 0

abbrev session : List ℕ
session =
    addr_arg
    ++ (len_arg ++ ((0xAA ∷ 0xBB ∷ []) ++ (cmd_read ∷ (addr_arg ++ (len_arg ++ (9 ∷ []))))))

serve_read-serve_write_example :
    Returns
      (λ _ m'.
        console_line.Ok m'.dev
        × (m'.dev.sent
            ≡ (0x21 ∷ []) ++ (ack ∷ eot ∷ []) ++ (ack ∷ ((0xAA ∷ 0xBB ∷ []) ++ (eot ∷ []))))
        × (m'.dev.input ≡ 9 ∷ []))
      ((serve_write console_bus 0x3000 no_code slots 4
          >> read_byte console_bus 0x3000 4
          >> serve_read console_bus 0x3000 no_code slots 4)
        (start session))
unfolding value
serve_read-serve_write_example =
    serve_read-serve_write console-IsUart no_code slots 4 (omega arith) addr_arg len_arg
      (0xAA ∷ 0xBB ∷ []) (9 ∷ []) (start session) (omega arith) refl refl refl
      (omega arith, (omega arith, tt)) (inl (omega arith)) (inl (omega arith)) refl

-- A load of two bytes at 0x100, a dump of them, and the call of code that writes a byte at 0x300
-- and returns 5.
abbrev requests : List Request
requests = load 0x100 (0xAA ∷ 0xBB ∷ []) ∷ dump 0x100 2 ∷ []

abbrev stores_5 : ℕ → Cmd Console ℕ
stores_5 a m = done 5 (record m { mem = store_bytes 0x300 (1 ∷ []) m.mem })

abbrev whole : List ℕ
whole = encode_all requests (cmd_exec ∷ (bytes_of 8 0x200 ++ (9 ∷ [])))

-- Memory before the call.
abbrev called_mem : Mem
called_mem = store_bytes 0x800 (bytes_of 8 0x200) (apply_all slots requests (start whole).mem)

serve-protocol_example :
    (let sent = (0x21 ∷ []) ++ ack ∷ [] ++ reply_all slots requests (start whole).mem in
      Exits
        (λ c m'.
          (c ≡ u32 5)
          × Stands console_line
              (sent ++ (ack ∷ eoc ∷ bytes_of 4 (u32 5)))
              (9 ∷ [])
              (store_bytes 0x810 (bytes_of 4 (u32 5)) (store_bytes 0x300 (1 ∷ []) called_mem))
              m')
        (serve console_bus 0x3000 stores_5 slots 4 3 (start whole)))
serve-protocol_example =
    serve-protocol console-IsUart stores_5 slots 4 (omega arith) requests 3 0x200 5 (9 ∷ [])
      (store_bytes 0x300 (1 ∷ []) called_mem) (start whole) (omega arith) (omega arith)
      (omega arith) (omega arith) refl
      λ m' st. returns (
        refl,
        record {
          ok = st.ok;
          has_sent = st.has_sent;
          has_input = st.has_input;
          has_mem = ap (store_bytes 0x300 (1 ∷ [])) st.has_mem;
        },
      )

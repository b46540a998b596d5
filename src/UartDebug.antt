-- ===== src/UartDebug.antt =====
-- sw/lib/hal/uart_debug.c: the debug server that loads, dumps and runs code over the UART.
pub mod Session
pub mod Roundtrip
pub mod Protocol
pub mod Serving
use cheshire_fork.Base.{ℕ, zero, suc, Bool, false, not, ◌==◌, if◌then◌else◌, u32}
use cheshire_fork.Machine.{
  Cmd, diverge, ◌>>=◌, ◌>>◌, pure, throw, check_call, check_assert, mem_of, set_mem,
}
use cheshire_fork.Machine.Bytes.{load64, store_bytes}
use cheshire_fork.Mmio.{Bus, get8}
use cheshire_fork.SdCard.Frame.{bytes_of}
use cheshire_fork.Uart.{rbr, uart_init, read_ready, write_byte, write_str, read_byte, read_str}

-- `uart_debug_opcode_t`.
abbrev pub cmd_read : ℕ
cmd_read = 0x11

abbrev pub cmd_write : ℕ
cmd_write = 0x12

abbrev pub cmd_exec : ℕ
cmd_exec = 0x13

abbrev pub ack : ℕ
ack = 0x06

abbrev pub eot : ℕ
eot = 0x04

abbrev pub eoc : ℕ
eoc = 0x14

-- The stack slots of the locals `addr`, `len` and `ret`.
pub record Slots : Type 0 where
  pub addr : ℕ
  pub len : ℕ
  pub ret : ℕ

module _ {D : Type 0} (bus : Bus D) (base : ℕ) where
  -- `uart_debug_init`.
  unfoldable pub debug_init : (core_freq : ℕ) → Cmd D (Unit {0})
  debug_init core_freq = do
    check_assert 0x11 (not (base == 0))
    check_assert 0x12 (not (core_freq == 0))
    uart_init bus base core_freq 115200

  -- `uart_debug_check`: the byte is taken from the buffer only if there is one.
  unfoldable pub debug_check : Cmd D Bool
  debug_check = do
    ready ← read_ready bus base
    if ready then (do byte ← get8 bus base rbr; pure (byte == ack)) else pure false

  -- `invoke` is the call of loaded code; `fuel` bounds each wait for the line.
  module _ (invoke : ℕ → Cmd D ℕ) (s : Slots) (fuel : ℕ) where
    unfoldable pub read_arg : (slot : ℕ) → Cmd D ℕ
    read_arg slot = do read_str bus base fuel slot 8; f ← mem_of; pure (load64 f slot)

    -- READ addr64 len64 -> ACK str EOT
    unfoldable pub serve_read : Cmd D (Unit {0})
    unfolding read_arg
    serve_read = do
      addr ← read_arg s.addr
      len ← read_arg s.len
      write_byte bus base fuel ack
      write_str bus base fuel addr len
      write_byte bus base fuel eot

    -- WRITE addr64 len64 (-> ACK) str (-> EOT)
    unfoldable pub serve_write : Cmd D (Unit {0})
    unfolding read_arg
    serve_write = do
      addr ← read_arg s.addr
      len ← read_arg s.len
      write_byte bus base fuel ack
      read_str bus base fuel addr len
      write_byte bus base fuel eot

    -- EXEC addr64 (-> ACK) execute; the 32-bit result is sent, and returned.
    unfoldable pub serve_exec : Cmd D (Unit {0})
    unfolding read_arg bytes_of
    serve_exec = do
      addr ← read_arg s.addr
      write_byte bus base fuel ack
      result ← invoke addr
      let ret = u32 result
      write_byte bus base fuel eoc
      f ← mem_of
      set_mem (store_bytes s.ret (bytes_of 4 ret) f)
      write_str bus base fuel s.ret 4
      check_call ret

    -- The command loop, on fuel for the commands.
    unfoldable pub serve_loop : ℕ → Cmd D (Unit {0})
    unfolding serve_read serve_write serve_exec
    serve_loop zero = diverge
    serve_loop (suc n) = do
      cmd ← read_byte bus base fuel
      let next = serve_loop n
      if cmd == cmd_read
          then serve_read >> next
          else if cmd == cmd_write
          then serve_write >> next
          else if cmd == cmd_exec
          then serve_exec
          else throw 1

    -- `uart_debug_serve`.
    unfoldable pub serve : (commands : ℕ) → Cmd D (Unit {0})
    unfolding serve_loop
    serve commands = do write_byte bus base fuel ack; serve_loop commands

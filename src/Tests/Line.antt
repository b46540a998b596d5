-- ===== src/Tests/Line.antt =====
-- The set-up of a 16550 whose state is its registers.
use cheshire_fork.Base.{◌+◌, ◌-◌, ◌≡◌, ap, arith, []}
use cheshire_fork.Machine.{Machine}
use cheshire_fork.Machine.Returns.{Returns}
use cheshire_fork.Mmio.{Bus}
use cheshire_fork.Uart.{uart_init}
use cheshire_fork.Uart.Setup.{Registers, register_write, Is16550, IsSetUp, uart_init-IsSetUp}

abbrev bus : Bus Registers
bus = record {
  read8 = λ a d. (0, d);
  read32 = λ a d. (0, d);
  write8 = λ a byte d. register_write (a - 0x3002000) byte d;
  write32 = λ a value d. d;
}

bus-Is16550 : Is16550 bus 0x3002000 (λ d. d)
bus-Is16550 = record {
  writes = λ offset byte d.
      let e : 0x3002000 + offset - 0x3002000 ≡ offset = omega arith in
      ap (λ n. register_write n byte d) e;
}

abbrev reset : Machine Registers
reset = record {
  mem = λ a. 0;
  dev = record {
    interrupts = 15;
    fifo = 0;
    line = 0;
    modem = 0;
    divisor_low = 0;
    divisor_high = 0;
    sent = [];
  };
}

uart_init-IsSetUp_example :
    Returns
      (λ _ m'. IsSetUp 50000000 115200 reset.dev m'.dev × (m'.mem ≡ reset.mem))
      (uart_init bus 0x3002000 50000000 115200 reset)
uart_init-IsSetUp_example =
    uart_init-IsSetUp bus-Is16550 50000000 115200 reset (omega arith) (omega arith) (omega arith)

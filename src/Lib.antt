-- ===== src/Lib.antt =====
-- The boot software of Cheshire, a RISC-V SoC: the code that sw/ and hw/bootrom/ run on the core
-- between reset and the launch of a payload.
--
-- Parts, and the files that model them
--
--   Machine      the machine that the C code runs on: a byte memory and the state `D` of all
--                devices. A command returns normally (`done`), returns a nonzero error code
--                (`fail`; the macros CHECK_CALL and CHECK_ASSERT of sw/include/util.h), or waits for
--                interrupts for ever (`halt`), or has used up its fuel (`spin`). Machine.Bytes has blocks of memory and little-endian
--                numbers, Machine.Returns total correctness.
--   Mmio         register accesses (sw/include/util.h, sw/include/params.h, sw/include/regs)
--   SpiHost      the interface of OpenTitan's SPI host driver, a parameter
--   Crc          the checksums of sw/lib/hal/spi_sdcard.c, and bit-serial definitions of them
--   SdCard       sw/lib/hal/spi_sdcard.c: frames, commands, initialisation, block reads
--   Flash        sw/lib/hal/spi_s25fs512s.c: the NOR flash
--   Reader       `gpt_read_t` of sw/include/gpt.h: the interface by which the boot code reads a
--                disk, with the storage drivers behind it
--   Gpt          sw/lib/gpt.c: signature, partition search, boot from a partition or a raw disk
--   Uart         sw/lib/dif/uart.c: the console's registers, bytes and strings
--   UartDebug    sw/lib/hal/uart_debug.c: the debug server (read, write, execute)
--   Clint        sw/lib/dif/clint.c: time, waiting, and the measurement of the core's frequency.
--                `IsTicking` is a clock that goes on with the reads, and `IsPaced` a core whose cycle
--                counter keeps pace with the clock.
--   Eeprom       sw/lib/hal/i2c_24fc1025.c: the I2C EEPROM. OpenTitan's I2C host is a parameter, and
--                the record `IsEeprom` is the host as a state machine with an EEPROM behind it.
--   BootRom      hw/bootrom/cheshire_bootrom.c: the boot modes and the ROM's `main`
--   Loader       sw/boot/zsl.c: the zero-stage loader
--   Smp          sw/include/smp.h: the barrier that holds all harts but one at boot. The list of
--                harts of `run` is the order in which they take their steps.
--   Elf          target/sim/src/elfloader.cpp: the ELF loader of the simulation's test bench
--   Tests        concrete runs and instances
--
-- How the parts interact: gpt.c calls a storage driver through a read callback; a driver calls the
-- SPI host driver. In the model a callback is a function argument, and the record `Reads`
-- is what gpt.c and the loader ask of one. The debug server calls the UART; the record `IsUart` is a
-- UART whose waits end.
--
-- Conventions. Numbers are natural numbers with the wrap-around of `uint64_t` and `uint32_t`
-- written out. `int` return values are bit patterns. A local variable that a callee fills through a
-- pointer stands in memory at an address of `Frame` where a reader fills it, and is the returned
-- list of bytes where the SPI host fills it. A handle's driver state is part of the devices.
-- Where one expression reads two device registers (`clint_get_mtime`, `boot_passive`), C leaves their
-- order to the compiler, and the model reads from left to right. The ELF loader has no result
-- (`none`) where an assertion fails or the `int` counter of `write` overflows.
--
-- Fuel. The loops over a request or a table recur on what is left. The SD card's `chunk_loop` has
-- 513 rounds, and `read_loop` and the EEPROM's `chunk_loop` have `len + 1`, enough for every FIFO
-- depth above 0. The loops that wait for a device without a bound in the source (`op_cond_loop`,
-- `poll_wip`, `wait_for`, `wait_levels`, the loops of Clint, `serve_loop`, `passive_loop`) take
-- their fuel as an argument.
--
-- Not modelled: the assembly (sw/lib/crt0.S, hw/bootrom/cheshire_bootrom.S) but for the
-- barrier; its `boot_next_stage` is a parameter; the hardware description; the vector tests in
-- sw/tests, which are inline assembly; generated register headers but for the offsets used; the
-- SPI and I2C drivers that are fetched from OpenTitan, which are parameters; console output of the
-- loader. What is undefined in C enters as a value of the record `Undefined`.
mod Base
pub mod BootRom
pub mod Clint
pub mod Crc
pub mod Eeprom
pub mod Elf
pub mod Flash
pub mod Gpt
pub mod Loader
pub mod Machine
pub mod Mmio
pub mod Reader
pub mod SdCard
pub mod Smp
pub mod SpiHost
mod Tests
pub mod Uart
pub mod UartDebug

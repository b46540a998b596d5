-- ===== src/Tests.antt =====
-- Concrete runs, and each theorem at an input where its hypotheses hold.
mod Disk
mod Checksums
mod Partitions
mod Storage
mod Card
mod Serial
mod Boot
mod Elf
mod Clock
mod Harts
mod FlashBoot
mod CardBoot
mod Bench
mod EepromBoot
mod Line
mod Passive
mod Launch
mod Latch
mod NoCard
mod Late

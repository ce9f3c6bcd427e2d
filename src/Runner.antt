-- ===== src/Runner.antt =====
-- tools/qemu-test/src/main.rs: builds the test application, puts it on a disk image, starts the emulator
-- and waits for a marker in its serial log. Here the program is built for Linux (`cfg!` of macOS is
-- false). What it prints is left out: an error is a `Fault`, which stands for its message.
pub mod Host
pub mod Images
pub mod Markers
pub mod Exits
mod Tests

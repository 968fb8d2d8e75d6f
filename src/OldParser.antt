-- ===== src/OldParser.antt =====
-- main/parser-oldbitch1.c: the older packet parser. The build compiles it beside main/parser.c, whose
-- entry point and two extractors it declares under the same names.
pub mod Fields
pub mod Packet
pub mod Braces
pub mod Lines
pub mod Effects
pub mod Bounds
mod Tests

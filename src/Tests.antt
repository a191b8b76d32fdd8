-- ===== src/Tests.antt =====
-- Tests of the definitions, and the theorems at concrete inputs.
mod Ascii
mod Lexing
mod Tables
mod Typing
mod Rules
mod Importing
mod Parsing
mod Printing
mod Inspecting

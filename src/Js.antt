-- ===== src/Js.antt =====
-- What the program uses of JavaScript: strings, objects, and numbers as an interface.
pub mod Text
pub mod Bytes
pub mod Object
pub mod Number

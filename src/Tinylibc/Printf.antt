-- ===== src/Tinylibc/Printf.antt =====
-- rflpc17xx/tinylibc/printf.c. A text is the list of its characters up to the NUL, which the list
-- does not hold. What is handed to the putchar function is collected in order.
mod Numbers
mod Convert
pub mod Decimal
pub mod Output
pub mod Loop
pub mod Hexa
unfoldable pub use Numbers.*
unfoldable pub use Convert.*

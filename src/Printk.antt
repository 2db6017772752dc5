-- ===== src/Printk.antt =====
-- kernel/printk.c: formatting into a buffer, and the console that shows the result.
pub mod Buffer
pub mod Number
pub mod Format
pub mod Vsnprintf
mod Room
mod Growth
pub mod Console
pub mod Font
mod Tests

-- ===== src/Philosophers.antt =====
-- The dining philosophers of lab09/zad3a and lab09/zad3b: five threads, five forks, each a mutex.
pub mod Table
pub mod Ownership
pub mod Asymmetric
pub mod Counted
mod Examples

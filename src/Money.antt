-- ===== src/Money.antt =====
-- Package money, internal/money/money.go: every amount is an int64 of minor units, so the
-- functions work on integers whose sums and products wrap round at 64 bits.
pub mod Rounding
pub mod Totals
pub mod Format
pub mod Rental

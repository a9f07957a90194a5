-- ===== src/PayRef.antt =====
-- Package payref, internal/payref/payref.go: the reference and the codes that an invoice is paid
-- with. Text is the list of its code points; what is indexed by bytes is digits by then.
pub mod CheckDigit
pub mod Reference
pub mod Payment

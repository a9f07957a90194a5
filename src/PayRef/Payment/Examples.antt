-- ===== src/PayRef/Payment/Examples.antt =====
-- Codes of internal/payref/payref.go at concrete invoices.
use free_sms.Common.{true, ◌⊎◌, ◌≡◌, refl}
use free_sms.Common.Text.{text_eq, codes, trim, trim_left, without}
use free_sms.PayRef.Payment.{giro_of, no_giro}
use free_sms.PayRef.Payment.Account.{IsGiro, giro_of-IsGiro}

-- A telephone number after a bankgiro does not join it.
with_telephone :
    giro_of (codes "bankgiro") (codes "Bg 123-4567 070123456")
    ≡ record { kind = codes "BG"; account = codes "123-4567" }
unfolding giro_of without trim trim_left
with_telephone = refl

too_short : giro_of (codes "bankgiro") (codes "12 34-5") ≡ no_giro
unfolding giro_of without trim trim_left
too_short = refl

giro_of-IsGiro_example :
    (giro_of (codes "plusgiro") (codes "12 34 56-7") ≡ no_giro)
    ⊎ (text_eq (codes "plusgiro") (codes "bankgiro") ≡ true)
      × IsGiro (codes "BG") 7 (giro_of (codes "plusgiro") (codes "12 34 56-7"))
    ⊎ (text_eq (codes "plusgiro") (codes "plusgiro") ≡ true)
      × IsGiro (codes "PG") 2 (giro_of (codes "plusgiro") (codes "12 34 56-7"))
giro_of-IsGiro_example = giro_of-IsGiro (codes "plusgiro") (codes "12 34 56-7")

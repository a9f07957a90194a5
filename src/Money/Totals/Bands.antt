-- ===== src/Money/Totals/Bands.antt =====
-- The bands of `Compute`: one for each rate in use, and together they are the totals.
use free_sms.Common.{
  ◌≡◌, refl, sym, ap, subst, ◌∙◌, Bool, true, false, List, [], ◌∷◌, ◌++◌, if◌then◌else◌, ◌&&◌, ◌||◌,
  arith, Bool-cases, inl, inr,
}
use free_sms.Common.Int.{
  ℤ, pos, add64, add64_assoc, add64_comm, eqb_ℤ, add64-Fits, add64_zero, add64_zero_right,
}
use free_sms.Money.Rounding.{line_net, vat}
use free_sms.Money.Totals.{Line, VatBand, has_band, band_of, add_to_band, Sums, add_line, add_lines}
use free_sms.Money.Totals.Sort.{eqb_ℤ→eq, sum_over, has, IsFresh, sum_over-append, has-append}

-- The amounts of a line, and those of all the charged lines at one rate, in their order.
abbrev pub net_of : Line → ℤ
net_of l = line_net l.quantity_milli l.unit_price_minor

abbrev pub tax_of : Line → ℤ
tax_of l = vat (net_of l) l.vat_rate_basis

abbrev pub uses : ℤ → Line → Bool
uses rate l = l.charged_to_customer && eqb_ℤ l.vat_rate_basis rate

abbrev pub sum_from : (Line → ℤ) → (Line → Bool) → ℤ → List Line → ℤ
sum_from amount counts start [] = start
sum_from amount counts start (l ∷ ls) =
    sum_from amount counts (if counts l then add64 start (amount l) else start) ls

abbrev pub some_line : (Line → Bool) → List Line → Bool
some_line counts [] = false
some_line counts (l ∷ ls) = counts l || some_line counts ls

-- What a rate's band becomes when amounts are added to one.
band_of-add_to_band :
    (r rate net tax : ℤ) (bs : List VatBand)
    → let old = band_of bs r in
      band_of (add_to_band rate net tax bs) r ≡ (
        if eqb_ℤ rate r
        then record old { net_minor = add64 old.net_minor net; vat_minor = add64 old.vat_minor tax }
        else old)
unfolding band_of add_to_band
band_of-add_to_band r rate net tax [] = ground (arith, eqb_ℤ→eq rate r)
band_of-add_to_band r rate net tax (b ∷ bs) = ground (arith, band_of-add_to_band r rate net tax bs)

has_band-add_to_band :
    (r rate net tax : ℤ) (bs : List VatBand)
    → has_band r (add_to_band rate net tax bs) ≡ (eqb_ℤ rate r || has_band r bs)
unfolding has_band add_to_band
has_band-add_to_band r rate net tax [] = ground arith
has_band-add_to_band r rate net tax (b ∷ bs) =
    ground (arith, has_band-add_to_band r rate net tax bs)

-- What the loop keeps: the rates are those of the map, each once, and the sums are those of the
-- bands.
pub record IsSummed (s : Sums) : Type 0 where
  pub keys : (r : ℤ) → has r s.rates ≡ has_band r s.by_rate
  pub fresh : IsFresh s.rates
  pub nets : sum_over (λ r. (band_of s.by_rate r).net_minor) s.rates ≡ s.net
  pub taxes : sum_over (λ r. (band_of s.by_rate r).vat_minor) s.rates ≡ s.tax

pub IsFresh-append :
    (rs : List ℤ) (r : ℤ) → IsFresh rs → has r rs ≡ false → IsFresh (rs ++ (r ∷ []))
IsFresh-append [] r _ _ = (refl, tt)
IsFresh-append (q ∷ qs) r (f, fs) e =
    (rw (has-append q qs (r ∷ [])) (ground arith), IsFresh-append qs r fs (ground arith))

band_of_missing :
    (r : ℤ) (bs : List VatBand)
    → has_band r bs ≡ false
    → band_of bs r ≡ record { rate_basis_points = r; net_minor = pos 0; vat_minor = pos 0 }
unfolding band_of has_band
band_of_missing r [] e = refl
band_of_missing r (b ∷ bs) e = ground (arith, band_of_missing r bs)

-- A sum over rates of amounts that grow at one rate only.
module _ (rate d : ℤ) (f g : ℤ → ℤ)
    (grows : (r : ℤ) → g r ≡ (if eqb_ℤ rate r then add64 (f r) d else f r)) where
  sum_over_same : (rs : List ℤ) → has rate rs ≡ false → sum_over g rs ≡ sum_over f rs
  sum_over_same [] _ = refl
  sum_over_same (q ∷ qs) e = ground (arith, grows q, sum_over_same qs)

  sum_over_grown :
      (rs : List ℤ) → IsFresh rs → has rate rs ≡ true → sum_over g rs ≡ add64 (sum_over f rs) d
  sum_over_grown [] _ e = cc
  sum_over_grown (q ∷ qs) (new, fresh) e = elim (Bool-cases (eqb_ℤ q rate)) [
    | inl same ↦
        let at : q ≡ rate = eqb_ℤ→eq q rate same in
        let rest : has rate qs ≡ false = subst (λ r. has r qs ≡ false) at new in
        let here : g q ≡ add64 (f q) d = ground (arith, grows q) in
        rw (here, sum_over_same qs rest)
          (add64_assoc (f q) d (sum_over f qs)
            ∙ ap (add64 (f q)) (add64_comm d (sum_over f qs))
            ∙ sym (add64_assoc (f q) (sum_over f qs) d))
    | inr other ↦
        let here : g q ≡ f q = ground (arith, grows q) in
        rw (here, sum_over_grown qs fresh (ground arith))
          (sym (add64_assoc (f q) (sum_over f qs) d))
  ]

  sum_over_added :
      (rs : List ℤ)
      → has rate rs ≡ false
      → f rate ≡ pos 0
      → sum_over g (rs ++ (rate ∷ [])) ≡ add64 (sum_over f rs) d
  sum_over_added rs e z =
      let here : g rate ≡ add64 (pos 0) d = ground (arith, grows rate) in
      rw (sum_over-append g rs (rate ∷ []), sum_over_same rs e, here)
        (ap (add64 (sum_over f rs)) (
            add64_comm (add64 (pos 0) d) (pos 0)
            ∙ add64_zero (add64 (pos 0) d) (add64-Fits (pos 0) d))
          ∙ add64_zero_right (sum_over f rs) d)

net_grows :
    (l : Line) (bs : List VatBand) (r : ℤ)
    → (band_of (add_to_band l.vat_rate_basis (net_of l) (tax_of l) bs) r).net_minor ≡ (
        if eqb_ℤ l.vat_rate_basis r
        then add64 (band_of bs r).net_minor (net_of l)
        else (band_of bs r).net_minor)
net_grows l bs r = rw band_of-add_to_band (ground arith)

tax_grows :
    (l : Line) (bs : List VatBand) (r : ℤ)
    → (band_of (add_to_band l.vat_rate_basis (net_of l) (tax_of l) bs) r).vat_minor ≡ (
        if eqb_ℤ l.vat_rate_basis r
        then add64 (band_of bs r).vat_minor (tax_of l)
        else (band_of bs r).vat_minor)
tax_grows l bs r = rw band_of-add_to_band (ground arith)

keys_old :
    (s : Sums) (rate r : ℤ)
    → IsSummed s
    → has_band rate s.by_rate ≡ true
    → has r s.rates ≡ (eqb_ℤ rate r || has_band r s.by_rate)
keys_old s rate r v old = elim (Bool-cases (eqb_ℤ rate r)) [
  | inl e ↦ rw e (v.keys r ∙ sym (ap (λ q. has_band q s.by_rate) (eqb_ℤ→eq rate r e)) ∙ old)
  | inr e ↦ rw e (v.keys r)
]

add_line-IsSummed : (s : Sums) (l : Line) → IsSummed s → IsSummed (add_line s l)
unfolding add_line
add_line-IsSummed s l v = elim (Bool-cases l.charged_to_customer) [
  | inr e ↦ rw e v
  | inl e ↦
      let rate = l.vat_rate_basis in
      elim (Bool-cases (has_band rate s.by_rate)) [
        | inl old ↦
            rw (e, old)
              (record {
                keys = λ r. rw has_band-add_to_band (keys_old s rate r v old);
                fresh = v.fresh;
                nets =
                    sum_over_grown rate (net_of l) _ _ (net_grows l s.by_rate) s.rates v.fresh
                      (v.keys rate ∙ old)
                    ∙ ap (λ z. add64 z (net_of l)) v.nets;
                taxes =
                    sum_over_grown rate (tax_of l) _ _ (tax_grows l s.by_rate) s.rates v.fresh
                      (v.keys rate ∙ old)
                    ∙ ap (λ z. add64 z (tax_of l)) v.taxes;
              })
        | inr new ↦
            rw (e, new)
              (record {
                keys = λ r.
                    rw (has-append r s.rates (rate ∷ []), has_band-add_to_band, v.keys r)
                      (ground arith);
                fresh = IsFresh-append s.rates rate v.fresh (v.keys rate ∙ new);
                nets =
                    sum_over_added rate (net_of l) _ _ (net_grows l s.by_rate) s.rates
                      (v.keys rate ∙ new)
                      (ap (λ b. b.net_minor) (band_of_missing rate s.by_rate new))
                    ∙ ap (λ z. add64 z (net_of l)) v.nets;
                taxes =
                    sum_over_added rate (tax_of l) _ _ (tax_grows l s.by_rate) s.rates
                      (v.keys rate ∙ new)
                      (ap (λ b. b.vat_minor) (band_of_missing rate s.by_rate new))
                    ∙ ap (λ z. add64 z (tax_of l)) v.taxes;
              })
      ]
]

pub add_lines-IsSummed : (ls : List Line) (s : Sums) → IsSummed s → IsSummed (add_lines s ls)
unfolding add_lines
add_lines-IsSummed [] s v = v
add_lines-IsSummed (l ∷ ls) s v = add_lines-IsSummed ls (add_line s l) (add_line-IsSummed s l v)

band_of-add_line :
    (r : ℤ) (s : Sums) (l : Line)
    → let old = band_of s.by_rate r in
      band_of (add_line s l).by_rate r ≡ (
        if uses r l
        then record old {
          net_minor = add64 old.net_minor (net_of l);
          vat_minor = add64 old.vat_minor (tax_of l);
        }
        else old)
unfolding add_line
band_of-add_line r s l = elim (Bool-cases l.charged_to_customer) [
  | inl e ↦ rw (e, band_of-add_to_band) refl
  | inr e ↦ rw e
]

has_band-add_line :
    (r : ℤ) (s : Sums) (l : Line)
    → has_band r (add_line s l).by_rate ≡ (uses r l || has_band r s.by_rate)
unfolding add_line
has_band-add_line r s l = elim (Bool-cases l.charged_to_customer) [
  | inl e ↦ rw (e, has_band-add_to_band) refl
  | inr e ↦ rw e
]

-- Each band holds the sums of its rate's lines.
pub band_of-add_lines :
    (r : ℤ) (ls : List Line) (s : Sums)
    → let old = band_of s.by_rate r in
      let new = band_of (add_lines s ls).by_rate r in
      (new.rate_basis_points ≡ old.rate_basis_points)
      × (new.net_minor ≡ sum_from net_of (uses r) old.net_minor ls)
      × (new.vat_minor ≡ sum_from tax_of (uses r) old.vat_minor ls)
unfolding add_lines
band_of-add_lines r [] s = (refl, refl, refl)
band_of-add_lines r (l ∷ ls) s =
    ground (arith, band_of-add_lines r ls (add_line s l), band_of-add_line r s l)

pub has_band-add_lines :
    (r : ℤ) (ls : List Line) (s : Sums)
    → has_band r (add_lines s ls).by_rate ≡ (has_band r s.by_rate || some_line (uses r) ls)
unfolding add_lines
has_band-add_lines r [] s = ground arith
has_band-add_lines r (l ∷ ls) s =
    rw (has_band-add_lines r ls (add_line s l), has_band-add_line r s l) (ground arith)

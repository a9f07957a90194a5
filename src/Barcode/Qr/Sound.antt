-- ===== src/Barcode/Qr/Sound.antt =====
-- What a reader gets from the codewords that internal/barcode/qr.go writes: the data, in words of
-- the Reed-Solomon code.
use free_sms.Common.{
  ℕ, zero, suc, ◌+◌, ◌*◌, ◌≤◌, ◌<◌, ◌≡◌, refl, sym, ◌∙◌, ap, subst, Bool, true, ◌&&◌, ◌||◌, ltb,
  ◌==◌, ==_iff, List, [], ◌∷◌, ◌++◌, append-nil, map, length, length-append, All, All-append,
  All-take, All-drop, all_below, all_below-at, drop, arith,
}
use free_sms.Barcode.Qr.{
  Row, row_of, data_codewords, divisor, group_blocks, blocks_of, columns, interleave, remainder,
}
use free_sms.Barcode.Qr.Codeword.{
  IsByte, IsCodeword, value_from, alpha, value-remainder, length-remainder,
}
use free_sms.Barcode.Qr.Reader.{deal, deal-columns, after_columns-columns}
use free_sms.Barcode.Qr.Blocks.{
  read_blocks, read_ec, join, together, rounds, lengths_of, lengths_of-rounds, All-lengths,
  lengths-blocks_of, join-blocks_of,
}

unfoldable pub bytes_below : List ℕ → Bool
bytes_below [] = true
bytes_below (b ∷ bs) = ltb b 256 && bytes_below bs

pub bytes_below-IsByte : (bs : List ℕ) → bytes_below bs ≡ true → All IsByte bs
unfolding bytes_below
bytes_below-IsByte [] h = tt
bytes_below-IsByte (b ∷ bs) h = (ground (arith, h), bytes_below-IsByte bs (ground (arith, h)))

abbrev root_at : ℕ → ℕ → Bool
root_at n i = value_from (alpha i) 1 (divisor n) == 0

ec_works : ℕ → Bool
ec_works n =
    ltb 0 n && ((length (divisor n) == n) && (bytes_below (divisor n) && all_below n (root_at n)))

-- Every version's divisor has its degree and its roots.
table_works : all_below 21 (λ v. (v == 0) || ec_works (row_of v).ec) ≡ true
unfolding row_of divisor value_from alpha ec_works bytes_below
table_works = refl

version_works : (v : ℕ) → 0 < v → v ≤ 20 → ec_works (row_of v).ec ≡ true
version_works v p h =
    let here =
      all_below-at 21 v (λ v. (v == 0) || ec_works (row_of v).ec) table_works (omega (arith, h)) in
    ground (arith, here, p)

All-group :
    (n k a : ℕ) (bytes : List ℕ) → All IsByte bytes → All (All IsByte) (group_blocks n k a bytes)
unfolding group_blocks
All-group zero k a bytes h = tt
All-group (suc n) k a bytes h =
    (All-take IsByte k (drop a bytes) (All-drop IsByte a bytes h), All-group n k (a + k) bytes h)

All-blocks_of : (b : Row) (bytes : List ℕ) → All IsByte bytes → All (All IsByte) (blocks_of b bytes)
unfolding blocks_of
All-blocks_of b bytes h =
    All-append (All IsByte) (group_blocks b.blocks b.words 0 bytes)
      (group_blocks b.more_blocks b.more_words (b.blocks * b.words) bytes)
      (All-group b.blocks b.words 0 bytes h)
      (All-group b.more_blocks b.more_words (b.blocks * b.words) bytes h)

-- The error correction of each block.
abbrev rems : ℕ → List (List ℕ) → List (List ℕ)
rems n data_blocks = map (λ block. remainder block (divisor n)) data_blocks

module _ (n : ℕ) (works : ec_works n ≡ true) where
  degree : length (divisor n) ≡ n
  unfolding ec_works
  degree = ground (arith, works)

  lengths-rems :
      (data_blocks : List (List ℕ))
      → map length (rems n data_blocks) ≡ map (λ l. n) (map length data_blocks)
  lengths-rems [] = refl
  lengths-rems (b ∷ data_blocks) =
      cc (length-remainder (divisor n) b, degree, lengths-rems data_blocks)

  rems-fit : (data_blocks : List (List ℕ)) → All (λ b. length b ≤ n) (rems n data_blocks)
  rems-fit [] = tt
  rems-fit (b ∷ data_blocks) =
      (omega (arith, length-remainder (divisor n) b, degree), rems-fit data_blocks)

  remainder-IsCodeword :
      (block : List ℕ) → All IsByte block → IsCodeword n (block ++ remainder block (divisor n))
  unfolding ec_works IsCodeword
  remainder-IsCodeword block h i lt =
      let below : all_below n (root_at n) ≡ true = ground (arith, works) in
      let root =
        (==_iff (value_from (alpha i) 1 (divisor n)) 0).0 (all_below-at n i (root_at n) below lt) in
      value-remainder (alpha i) (divisor n) block (omega (arith, degree, lt))
        (bytes_below-IsByte (divisor n) (ground (arith, works))) h root

  All-together :
      (data_blocks : List (List ℕ))
      → All (All IsByte) data_blocks
      → All (IsCodeword n) (together data_blocks (rems n data_blocks))
  All-together [] _ = tt
  All-together (b ∷ data_blocks) (hb, h) = (remainder-IsCodeword b hb, All-together data_blocks h)

  lengths-together :
      (data_blocks : List (List ℕ))
      → map length (together data_blocks (rems n data_blocks))
        ≡ map (λ l. l + n) (map length data_blocks)
  lengths-together [] = refl
  lengths-together (b ∷ data_blocks) = cc (
    length-append b (remainder b (divisor n)),
    length-remainder (divisor n) b,
    degree,
    lengths-together data_blocks,
  )

module _ (v : ℕ) (first : 0 < v) (last : v ≤ 20) (bytes : List ℕ)
    (full : length bytes ≡ data_codewords v) where
  abbrev data_blocks : List (List ℕ)
  data_blocks = blocks_of (row_of v) bytes

  words_full :
      length bytes
      ≡ (row_of v).blocks * (row_of v).words + (row_of v).more_blocks * (row_of v).more_words
  unfolding data_codewords
  words_full = full

  abbrev ecs : List ℕ
  ecs = columns (row_of v).ec 0 (rems (row_of v).ec data_blocks)

  lens : map length data_blocks ≡ lengths_of (row_of v)
  lens = lengths-blocks_of (row_of v) bytes words_full

  fit : All (λ b. length b ≤ rounds (row_of v)) data_blocks
  fit =
      All-lengths (rounds (row_of v)) data_blocks
        (subst (All (λ l. l ≤ rounds (row_of v))) (sym lens) (lengths_of-rounds (row_of v)))

  read_blocks-interleave : read_blocks v (interleave v bytes) ≡ data_blocks
  unfolding read_blocks interleave
  read_blocks-interleave =
      ap (λ ls. deal (rounds (row_of v)) ls (columns (rounds (row_of v)) 0 data_blocks ++ ecs))
        (sym lens)
      ∙ deal-columns (rounds (row_of v)) data_blocks ecs fit

  read_ec-interleave : read_ec v (interleave v bytes) ≡ rems (row_of v).ec data_blocks
  unfolding read_ec interleave
  read_ec-interleave =
      let n = (row_of v).ec in
      let works = version_works v first last in
      cc (
        lens,
        after_columns-columns (rounds (row_of v)) data_blocks ecs,
        append-nil ecs,
        lengths-rems n works data_blocks,
        deal-columns n (rems n data_blocks) [] (rems-fit n works data_blocks),
      )

-- Of the codewords of a version from 1 to 20, made of as many data bytes as the version holds, a
-- reader that knows the lengths of the standard's table gets blocks of data, which joined are the
-- data, and the error correction of each; each block with its error correction is zero, as a
-- polynomial over the field of 256 elements, at as many powers of 2 as it has words of error
-- correction, and their lengths are the table's.
pub interleave-IsCodeword :
    (v : ℕ) (bytes : List ℕ)
    → 0 < v
    → v ≤ 20
    → length bytes ≡ data_codewords v
    → All IsByte bytes
    → let words = interleave v bytes in
      let codewords = together (read_blocks v words) (read_ec v words) in
      (join (read_blocks v words) ≡ bytes)
      × All (IsCodeword (row_of v).ec) codewords
      × (map length codewords ≡ map (λ l. l + (row_of v).ec) (lengths_of (row_of v)))
interleave-IsCodeword v bytes first last full h =
    let n = (row_of v).ec in
    let works = version_works v first last in
    let data_blocks = blocks_of (row_of v) bytes in
    let full' = words_full v first last bytes full in
    rw (read_blocks-interleave v first last bytes full, read_ec-interleave v first last bytes full)
      (
        join-blocks_of (row_of v) bytes full',
        All-together n works data_blocks (All-blocks_of (row_of v) bytes h),
        lengths-together n works data_blocks ∙ ap (map (λ l. l + n)) (lens v first last bytes full),
      )

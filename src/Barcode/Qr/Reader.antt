-- ===== src/Barcode/Qr/Reader.antt =====
-- A reader of the codewords that internal/barcode/qr.go interleaves, and what it gets back.
use free_sms.Common.{
  ℕ, zero, suc, ◌-◌, ◌≤◌, ◌≡◌, refl, List, [], ◌∷◌, ◌++◌, append_assoc, map, length, drop, All,
  arith,
}
use free_sms.Barcode.Qr.{column, columns}

-- The words of one column go to the blocks that are not full.
abbrev give : List ℕ → List ℕ → List (List ℕ) → List (List ℕ)
give lens words [] = []
give [] words (b ∷ blocks) = b ∷ blocks
give (zero ∷ lens) words (b ∷ blocks) = b ∷ give lens words blocks
give (suc l ∷ lens) [] (b ∷ blocks) = b ∷ give lens [] blocks
give (suc l ∷ lens) (w ∷ words) (b ∷ blocks) = (w ∷ b) ∷ give lens words blocks

-- What is left of the words, after a column.
abbrev after_column : List ℕ → List ℕ → List ℕ
after_column [] words = words
after_column (zero ∷ lens) words = after_column lens words
after_column (suc l ∷ lens) words = after_column lens (drop 1 words)

-- The blocks of these lengths, whose columns come one after the other: `n` columns.
unfoldable pub deal : ℕ → List ℕ → List ℕ → List (List ℕ)
deal zero lens words = map (λ l. []) lens
deal (suc n) lens words = give lens words (deal n (map (λ l. l - 1) lens) (after_column lens words))

-- What is left of the words, after `n` columns.
unfoldable pub after_columns : ℕ → List ℕ → List ℕ → List ℕ
after_columns zero lens words = words
after_columns (suc n) lens words = after_columns n (map (λ l. l - 1) lens) (after_column lens words)

abbrev tails : List (List ℕ) → List (List ℕ)
tails blocks = map (drop 1) blocks

column-tails : (i : ℕ) (blocks : List (List ℕ)) → column (suc i) blocks ≡ column i (tails blocks)
unfolding column
column-tails i [] = refl
column-tails i ([] ∷ blocks) = column-tails i blocks
column-tails i ((w ∷ b) ∷ blocks) = rw (column-tails i blocks)

columns-tails :
    (n i : ℕ) (blocks : List (List ℕ)) → columns n (suc i) blocks ≡ columns n i (tails blocks)
unfolding columns
columns-tails zero i blocks = refl
columns-tails (suc n) i blocks = rw (column-tails i blocks, columns-tails n (suc i) blocks)

one_less : (n : ℕ) → suc n - 1 ≡ n
one_less n = omega arith

lengths_tails :
    (blocks : List (List ℕ)) → map length (tails blocks) ≡ map (λ l. l - 1) (map length blocks)
lengths_tails [] = refl
lengths_tails ([] ∷ blocks) = rw (lengths_tails blocks)
lengths_tails ((w ∷ b) ∷ blocks) = cc (lengths_tails blocks, one_less (length b))

after_column-column :
    (blocks : List (List ℕ)) (rest : List ℕ)
    → after_column (map length blocks) (column 0 blocks ++ rest) ≡ rest
unfolding column
after_column-column [] rest = refl
after_column-column ([] ∷ blocks) rest = after_column-column blocks rest
after_column-column ((w ∷ b) ∷ blocks) rest = after_column-column blocks rest

give-column :
    (blocks : List (List ℕ)) (rest : List ℕ)
    → give (map length blocks) (column 0 blocks ++ rest) (tails blocks) ≡ blocks
unfolding column
give-column [] rest = refl
give-column ([] ∷ blocks) rest = rw (give-column blocks rest)
give-column ((w ∷ b) ∷ blocks) rest = rw (give-column blocks rest)

all_empty :
    (blocks : List (List ℕ))
    → All (λ b. length b ≤ 0) blocks
    → map (λ l. []) (map length blocks) ≡ blocks
all_empty [] _ = refl
all_empty ([] ∷ blocks) (_, h) = rw (all_empty blocks h)
all_empty ((w ∷ b) ∷ blocks) (h, _) = absurd (omega (arith, h))

shorter_tails :
    (n : ℕ) (blocks : List (List ℕ))
    → All (λ b. length b ≤ suc n) blocks
    → All (λ b. length b ≤ n) (tails blocks)
shorter_tails n [] _ = tt
shorter_tails n ([] ∷ blocks) (_, h) = (omega arith, shorter_tails n blocks h)
shorter_tails n ((w ∷ b) ∷ blocks) (p, h) = (omega (arith, p), shorter_tails n blocks h)

-- With a column for every word of the longest block, each block is read back.
pub deal-columns :
    (n : ℕ) (blocks : List (List ℕ)) (rest : List ℕ)
    → All (λ b. length b ≤ n) blocks
    → deal n (map length blocks) (columns n 0 blocks ++ rest) ≡ blocks
unfolding deal columns
deal-columns zero blocks rest h = all_empty blocks h
deal-columns (suc n) blocks rest h =
    let next = columns n 1 blocks ++ rest in
    cc (
      append_assoc (column 0 blocks) (columns n 1 blocks) rest,
      lengths_tails blocks,
      after_column-column blocks next,
      columns-tails n 0 blocks,
      deal-columns n (tails blocks) rest (shorter_tails n blocks h),
      give-column blocks next,
    )

-- With a column for every word of the longest block, what follows the columns is left.
pub after_columns-columns :
    (n : ℕ) (blocks : List (List ℕ)) (rest : List ℕ)
    → after_columns n (map length blocks) (columns n 0 blocks ++ rest) ≡ rest
unfolding after_columns columns
after_columns-columns zero blocks rest = refl
after_columns-columns (suc n) blocks rest =
    let next = columns n 1 blocks ++ rest in
    cc (
      append_assoc (column 0 blocks) (columns n 1 blocks) rest,
      lengths_tails blocks,
      after_column-column blocks next,
      columns-tails n 0 blocks,
      after_columns-columns n (tails blocks) rest,
    )

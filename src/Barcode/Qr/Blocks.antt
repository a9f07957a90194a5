-- ===== src/Barcode/Qr/Blocks.antt =====
-- That the codewords of internal/barcode/qr.go hold the data in blocks that are words of the
-- Reed-Solomon code.
use free_sms.Common.{
  ℕ, zero, suc, ◌+◌, ◌*◌, ◌≤◌, ◌≡◌, refl, sym, ◌∙◌, ap, max, List, [], ◌∷◌, ◌++◌, append_assoc,
  append-nil, map, length, length-drop, take, drop, replicate, All, All-append, take-append-drop,
  arith,
}
use free_sms.Barcode.Qr.{Row, row_of, group_blocks, blocks_of}
use free_sms.Barcode.Qr.Reader.{deal, after_columns}

-- The lengths of the blocks of a version, as the standard's table has them.
abbrev pub lengths_of : Row → List ℕ
lengths_of b = replicate b.blocks b.words ++ replicate b.more_blocks b.more_words

abbrev pub rounds : Row → ℕ
rounds b = max b.more_words b.words

-- The data blocks, then the error correction of each, as the codewords have them.
unfoldable pub read_blocks : ℕ → List ℕ → List (List ℕ)
unfolding deal row_of
read_blocks v words = deal (rounds (row_of v)) (lengths_of (row_of v)) words

unfoldable pub read_ec : ℕ → List ℕ → List (List ℕ)
unfolding deal after_columns row_of
read_ec v words =
    let b = row_of v in
    deal b.ec (map (λ l. b.ec) (lengths_of b)) (after_columns (rounds b) (lengths_of b) words)

abbrev pub join : List (List ℕ) → List ℕ
join [] = []
join (b ∷ blocks) = b ++ join blocks

-- Each block with its error correction.
abbrev pub together : List (List ℕ) → List (List ℕ) → List (List ℕ)
together [] ecs = []
together (b ∷ blocks) [] = []
together (b ∷ blocks) (e ∷ ecs) = (b ++ e) ∷ together blocks ecs

length-take : (n : ℕ) (xs : List ℕ) → n ≤ length xs → length (take n xs) ≡ n
length-take zero xs h = refl
length-take (suc n) [] h = absurd (omega (arith, h))
length-take (suc n) (x ∷ xs) h = omega (arith, length-take n xs (omega (arith, h)))

lengths-group :
    (n k a : ℕ) (bytes : List ℕ)
    → a + n * k ≤ length bytes
    → map length (group_blocks n k a bytes) ≡ replicate n k
unfolding group_blocks
lengths-group zero k a bytes h = refl
lengths-group (suc n) k a bytes h = cc (
  length-take k (drop a bytes) (grind (arith, length-drop a bytes)),
  lengths-group n k (a + k) bytes (grind arith),
)

zero_plus : (k : ℕ) → k ≡ 0 + k
zero_plus k = omega arith

suc_plus : (a k : ℕ) → suc a + k ≡ suc (a + k)
suc_plus a k = omega arith

drop_nil : (k : ℕ) → drop {A = ℕ} k [] ≡ []
drop_nil zero = refl
drop_nil (suc k) = refl

drop-drop : (a k : ℕ) (xs : List ℕ) → drop k (drop a xs) ≡ drop (a + k) xs
drop-drop zero k xs = ap (λ n. drop n xs) (zero_plus k)
drop-drop (suc a) k [] = drop_nil k ∙ sym (drop_nil (suc a + k))
drop-drop (suc a) k (x ∷ xs) = cc (drop-drop a k xs, suc_plus a k)

join-append : (bs cs : List (List ℕ)) → join (bs ++ cs) ≡ join bs ++ join cs
join-append [] cs = refl
join-append (b ∷ bs) cs = rw (join-append bs cs) (sym (append_assoc b (join bs) (join cs)))

group_end : (n k a : ℕ) → a + suc n * k ≡ a + k + n * k
group_end n k a = grind arith

-- The blocks of a group and what follows them are the bytes from where the group begins.
join-group :
    (n k a : ℕ) (bytes : List ℕ)
    → join (group_blocks n k a bytes) ++ drop (a + n * k) bytes ≡ drop a bytes
unfolding group_blocks
join-group zero k a bytes = ap (λ n. drop n bytes) (omega arith)
join-group (suc n) k a bytes = cc (
  group_end n k a,
  append_assoc (take k (drop a bytes)) (join (group_blocks n k (a + k) bytes))
      (drop (a + k + n * k) bytes),
  join-group n k (a + k) bytes,
  drop-drop a k bytes,
  take-append-drop k (drop a bytes),
)

drop_all : (xs : List ℕ) → drop (length xs) xs ≡ []
drop_all [] = refl
drop_all (x ∷ xs) = drop_all xs

-- The blocks are the data, in order.
pub join-blocks_of :
    (b : Row) (bytes : List ℕ)
    → length bytes ≡ b.blocks * b.words + b.more_blocks * b.more_words
    → join (blocks_of b bytes) ≡ bytes
unfolding blocks_of
join-blocks_of b bytes h =
    let few = group_blocks b.blocks b.words 0 bytes in
    let many = group_blocks b.more_blocks b.more_words (b.blocks * b.words) bytes in
    cc (
      join-append few many,
      join-group b.blocks b.words 0 bytes,
      join-group b.more_blocks b.more_words (b.blocks * b.words) bytes,
      zero_plus (b.blocks * b.words),
      h,
      drop_all bytes,
      append-nil (join many),
    )

map-append : (xs ys : List (List ℕ)) → map length (xs ++ ys) ≡ map length xs ++ map length ys
map-append [] ys = refl
map-append (x ∷ xs) ys = rw (map-append xs ys)

pub lengths-blocks_of :
    (b : Row) (bytes : List ℕ)
    → length bytes ≡ b.blocks * b.words + b.more_blocks * b.more_words
    → map length (blocks_of b bytes) ≡ lengths_of b
unfolding blocks_of
lengths-blocks_of b bytes h =
    let few = group_blocks b.blocks b.words 0 bytes in
    let many = group_blocks b.more_blocks b.more_words (b.blocks * b.words) bytes in
    cc (
      map-append few many,
      lengths-group b.blocks b.words 0 bytes (omega (arith, h)),
      lengths-group b.more_blocks b.more_words (b.blocks * b.words) bytes (omega (arith, h)),
    )

All-replicate : (m n k : ℕ) → k ≤ m → All (λ l. l ≤ m) (replicate n k)
All-replicate m zero k h = tt
All-replicate m (suc n) k h = (h, All-replicate m n k h)

pub All-lengths :
    (m : ℕ) (blocks : List (List ℕ))
    → All (λ l. l ≤ m) (map length blocks)
    → All (λ b. length b ≤ m) blocks
All-lengths m [] _ = tt
All-lengths m (b ∷ blocks) (p, h) = (p, All-lengths m blocks h)

pub lengths_of-rounds : (b : Row) → All (λ l. l ≤ rounds b) (lengths_of b)
lengths_of-rounds b =
    All-append (λ l. l ≤ rounds b) (replicate b.blocks b.words)
      (replicate b.more_blocks b.more_words)
      (All-replicate (rounds b) b.blocks b.words (omega arith))
      (All-replicate (rounds b) b.more_blocks b.more_words (omega arith))

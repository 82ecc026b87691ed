-- ===== src/Codec/Pack/Columns.antt =====
-- The layers of a chunk: rows cut into columns and put together again.
use skip_zfp.Prelude.{
  ℕ, zero, suc, ◌+◌, ◌-◌, ◌*◌, ◌/◌, ◌%◌, ◌≤◌, ◌<◌, ◌≡◌, refl, sym, ap, ap₂, ◌∙◌, List, [], ◌∷◌,
  ◌++◌, map, zip, flat_map, take, drop, slice, init, length, replicate, sum, cumsum_from,
  take-append-drop, drop-drop, take-append, drop-append, length-append, length-slice, All, All-map,
  arith, ok, sequence, sequence-cons, Result, ◌>>=◌, sum-cons, ◌==◌, false,
}
use native.Mathlib.Nat.{mul-mod_right, mul-div_right}
use skip_zfp.Codec.MetaPack.{reshape}
use skip_zfp.Codec.MetaPack.Rows.{reshape-flat_map, length-flat_map_of}
use skip_zfp.Codec.Pack.{reshape_rows, cut_pairs, by_layer, beside, hjoin, rows_of}

-- the starts and ends of columns of these widths, from `a` on
pairs_from : ℕ → List ℕ → List (ℕ × ℕ)
pairs_from a [] = []
pairs_from a (b ∷ bs) = (a, a + b) ∷ pairs_from (a + b) bs

cuts-pairs_from :
    (a : ℕ) (bs : List ℕ) → zip (init (a ∷ cumsum_from a bs)) (cumsum_from a bs) ≡ pairs_from a bs
unfolding cumsum_from pairs_from
cuts-pairs_from a [] = refl
cuts-pairs_from a (b ∷ bs) = ap (λ ps. (a, a + b) ∷ ps) (cuts-pairs_from (a + b) bs)

cut_pairs-pairs_from : (bs : List ℕ) → cut_pairs bs ≡ pairs_from 0 bs
unfolding cut_pairs cumsum_from
cut_pairs-pairs_from bs = cuts-pairs_from 0 bs

-- One part of a reshape that does not fail.
pub reshape_rows_lem :
    (n k : ℕ) (xs : List ℕ) → 0 < n → length xs ≡ n * k → reshape_rows n xs ≡ ok (reshape n k xs)
unfolding reshape_rows
reshape_rows_lem n k xs h e =
    let m : length xs % n ≡ 0 = ap (λ (t : ℕ). t % n) e ∙ mul-mod_right n k in
    let d : length xs / n ≡ k = ap (λ (t : ℕ). t / n) e ∙ mul-div_right k h in
    let z : (n == 0) ≡ false = ground arith in rw (z, m, d)

beside-map :
    (f g : List ℕ → List ℕ) (rows : List (List ℕ))
    → beside (map f rows) (map g rows) ≡ map (λ r. f r ++ g r) rows
beside-map f g [] = refl
beside-map f g (r ∷ rows) = ap (λ rs. (f r ++ g r) ∷ rs) (beside-map f g rows)

map-All :
    (f g : List ℕ → List ℕ) (rows : List (List ℕ))
    → All (λ r. f r ≡ g r) rows
    → map f rows ≡ map g rows
map-All f g [] h = refl
map-All f g (r ∷ rows) (e, h) = ap₂ (λ a b. a ∷ b) e (map-All f g rows h)

-- the bytes of the columns from `a` on
columns_from : ℕ → List ℕ → List (List ℕ) → List ℕ
unfolding pairs_from
columns_from a bs rows = flat_map (λ ab. flat_map (λ r. slice r ab.0 ab.1) rows) (pairs_from a bs)

last_column :
    (a : ℕ) (rows : List (List ℕ))
    → All (λ r. length r ≡ a) rows
    → replicate (length rows) [] ≡ map (drop a) rows
last_column a [] h = refl
last_column a (r ∷ rows) (e, h) =
    ap₂ (λ x y. x ∷ y) (sym (drop_end a r (omega arith))) (last_column a rows h)
  where
    drop_end : (k : ℕ) (xs : List ℕ) → length xs ≤ k → drop k xs ≡ []
    drop_end zero [] p = refl
    drop_end zero (x ∷ xs) p = absurd (omega arith)
    drop_end (suc k) [] p = refl
    drop_end (suc k) (x ∷ xs) p = drop_end k xs (omega arith)

join_slice : (a b : ℕ) (r : List ℕ) → slice r a (a + b) ++ drop (a + b) r ≡ drop a r
join_slice a b r =
    let e : a + b - a ≡ b = omega arith in
    ap₂ (λ x y. x ++ y) (ap (λ k. take k (drop a r)) e) (sym (drop-drop a b (a + b) r refl))
    ∙ take-append-drop b (drop a r)

all_join :
    (a b : ℕ) (rows : List (List ℕ))
    → All (λ r. slice r a (a + b) ++ drop (a + b) r ≡ drop a r) rows
all_join a b [] = tt
all_join a b (r ∷ rows) = (join_slice a b r, all_join a b rows)

by_layer-columns :
    (sizes : List ℕ) (rows : List (List ℕ)) → by_layer sizes rows ≡ columns_from 0 sizes rows
unfolding by_layer columns_from
by_layer-columns sizes rows =
    ap (λ ps. flat_map (λ ab. flat_map (λ r. slice r ab.0 ab.1) rows) ps)
      (cut_pairs-pairs_from sizes)

map_id : (rows : List (List ℕ)) → map (drop 0) rows ≡ rows
map_id [] = refl
map_id (r ∷ rows) = ap (λ rs. r ∷ rs) (map_id rows)

-- the parts that rows_of reads, from the byte `at` on
parts_from : ℕ → ℕ → List ℕ → List ℕ → List (Result (List (List ℕ)))
unfolding pairs_from
parts_from n at bs buf =
    map (λ ab. reshape_rows n (slice buf ab.0 ab.1)) (pairs_from at (map (λ b. n * b) bs))

record Joined (n at a : ℕ) (bs buf : List ℕ) (rows : List (List ℕ)) : Type 0 where
  pub parts : List (List (List ℕ))
  pub read : sequence (parts_from n at bs buf) ≡ ok parts
  pub joined : hjoin n parts ≡ map (drop a) rows

module _ (rows : List (List ℕ)) (buf : List ℕ) where
  column : ℕ → ℕ → List ℕ
  column a b = flat_map (λ r. slice r a (a + b)) rows

  column_lengths :
      (a b w : ℕ)
      → a + b ≤ w
      → (rs : List (List ℕ)) → All (λ r. length r ≡ w) rs
      → All (λ r. length (slice r a (a + b)) ≡ b) rs
  column_lengths a b w le rs h =
      All-map (λ r. length r ≡ w) (λ r. length (slice r a (a + b)) ≡ b)
        (λ r e. length-slice r a (a + b) (omega arith) ∙ (omega arith)) rs h

  join_columns :
      (at a : ℕ) (bs : List ℕ)
      → 0 < length rows
      → All (λ r. length r ≡ a + sum bs) rows
      → drop at buf ≡ columns_from a bs rows
      → Joined (length rows) at a bs buf rows
  unfolding hjoin sum columns_from parts_from pairs_from column
  join_columns at a [] some_row h e = record {
    parts = [];
    read = refl;
    joined =
        last_column a rows
          (All-map (λ r. length r ≡ a + 0) (λ r. length r ≡ a) (λ r p. omega arith) rows h);
  }
  join_columns at a (b ∷ bs) some_row h e =
      let n = length rows in
      let col = column a b in
      let lens = column_lengths a b (a + sum (b ∷ bs)) (omega (arith, sum-cons b bs)) rows h in
      let len : n * b ≡ length col =
        sym (length-flat_map_of (λ r. slice r a (a + b)) b rows lens) in
      let here : slice buf at (at + n * b) ≡ col =
        ap₂ (λ k xs. take k xs) (omega arith) e
        ∙ take-append (n * b) col (columns_from (a + b) bs rows) len in
      let next : drop (at + n * b) buf ≡ columns_from (a + b) bs rows =
        sym (drop-drop at (n * b) (at + n * b) buf refl)
        ∙ ap (drop (n * b)) e
        ∙ drop-append (n * b) col (columns_from (a + b) bs rows) len in
      let rest =
        join_columns (at + n * b) (a + b) bs some_row
          (All-map (λ r. length r ≡ a + sum (b ∷ bs)) (λ r. length r ≡ a + b + sum bs)
            (λ r p. omega (arith, sum-cons b bs)) rows h)
          next in
      record {
        parts = map (λ r. slice r a (a + b)) rows ∷ rest.parts;
        read =
            sequence-cons (reshape_rows n (slice buf at (at + n * b)))
              (parts_from n (at + n * b) bs buf) (map (λ r. slice r a (a + b)) rows) rest.parts
              (ap (reshape_rows n) here
                ∙ reshape_rows_lem n b col some_row (sym len)
                ∙ ap ok (reshape-flat_map (λ r. slice r a (a + b)) b rows lens))
              rest.read;
        joined =
            ap (beside (map (λ r. slice r a (a + b)) rows)) rest.joined
            ∙ beside-map (λ r. slice r a (a + b)) (drop (a + b)) rows
            ∙ map-All (λ r. slice r a (a + b) ++ drop (a + b) r) (drop a) rows (all_join a b rows);
      }

-- The rows come back from the bytes that by_layer makes of them.
pub rows_of-by_layer :
    (sizes : List ℕ) (rows : List (List ℕ))
    → 0 < length rows
    → All (λ r. length r ≡ sum sizes) rows
    → rows_of (length rows) sizes (by_layer sizes rows) ≡ ok rows
unfolding rows_of parts_from
rows_of-by_layer sizes rows some_row h =
    let j =
      join_columns rows (by_layer sizes rows) 0 0 sizes some_row
        (All-map (λ r. length r ≡ sum sizes) (λ r. length r ≡ 0 + sum sizes) (λ r p. omega arith)
          rows h)
        (by_layer-columns sizes rows) in
    ap
      (λ ps.
        sequence (map (λ ab. reshape_rows (length rows) (slice (by_layer sizes rows) ab.0 ab.1)) ps)
        >>= λ parts. ok (hjoin (length rows) parts))
      (cut_pairs-pairs_from (map (λ b. length rows * b) sizes))
    ∙ ap (λ (t : Result (List (List (List ℕ)))). t >>= λ parts. ok (hjoin (length rows) parts))
        j.read
    ∙ ap ok (j.joined ∙ map_id rows)

length-columns_from :
    (rows : List (List ℕ)) (w a : ℕ) (bs : List ℕ)
    → All (λ r. length r ≡ w) rows
    → a + sum bs ≤ w
    → length (columns_from a bs rows) ≡ length rows * sum bs
unfolding columns_from pairs_from sum
length-columns_from rows w a [] h le = omega arith
length-columns_from rows w a (b ∷ bs) h le =
    let col = flat_map (λ r. slice r a (a + b)) rows in
    let own : length col ≡ length rows * b =
      length-flat_map_of (λ r. slice r a (a + b)) b rows
        (column_lengths rows [] a b w (omega (arith, sum-cons b bs)) rows h) in
    let rest = length-columns_from rows w (a + b) bs h (omega (arith, sum-cons b bs)) in
    length-append col (columns_from (a + b) bs rows)
    ∙ ap₂ (λ (x y : ℕ). x + y) own rest
    ∙ sum_of (length rows) b (sum bs)
  where
    sum_of : (n x y : ℕ) → n * x + n * y ≡ n * (x + y)
    sum_of n x y = grind arith

-- Every row takes the bytes of all layers.
pub length-by_layer :
    (sizes : List ℕ) (rows : List (List ℕ))
    → All (λ r. length r ≡ sum sizes) rows
    → length (by_layer sizes rows) ≡ length rows * sum sizes
length-by_layer sizes rows h =
    ap length (by_layer-columns sizes rows)
    ∙ length-columns_from rows (sum sizes) 0 sizes h (omega arith)

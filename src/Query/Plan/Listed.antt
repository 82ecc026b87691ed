-- ===== src/Query/Plan/Listed.antt =====
-- The list of plan_blocks is in strictly ascending order, and its ids are those of blocks of the
-- array.
use skip_zfp.Prelude.{
  ℕ, zero, suc, ◌+◌, ◌*◌, ◌^◌, ◌≤◌, ◌<◌, ◌≡◌, refl, Bool, true, List, [], ◌∷◌, ◌++◌, length,
  flat_map, range_from, arith, All, All-append, All-map, Bool-cases, inl, inr,
}
use skip_zfp.Query.Merge.{Ids, sort_key, is_ascending}
use skip_zfp.Query.Classify.{State}
use skip_zfp.Query.Plan.{is_listed, list_blocks}

-- ascending, with sort keys from `m` on
abbrev AscendsFrom : ℕ → Ids → Type 0
AscendsFrom m [] = Unit
AscendsFrom m (x ∷ ids) = (m ≤ sort_key x) × AscendsFrom (sort_key x + 1) ids

AscendsFrom-le : (m n : ℕ) (ids : Ids) → m ≤ n → AscendsFrom n ids → AscendsFrom m ids
AscendsFrom-le m n [] h a = tt
AscendsFrom-le m n (x ∷ ids) h (a, as') = (omega arith, as')

AscendsFrom-is_ascending : (m : ℕ) (ids : Ids) → AscendsFrom m ids → is_ascending ids ≡ true
unfolding is_ascending
AscendsFrom-is_ascending m [] a = refl
AscendsFrom-is_ascending m (x ∷ []) a = refl
AscendsFrom-is_ascending m (x ∷ y ∷ ids) (a, b) =
    ground (arith, AscendsFrom-is_ascending (sort_key x + 1) (y ∷ ids) b, b.0)

-- One chunk's blocks, in front of those of later chunks.
list_blocks-AscendsFrom :
    (keep_in : Bool) (cid b : ℕ) (ss : List State) (rest : Ids)
    → b + length ss ≤ 2 ^ 32
    → AscendsFrom ((cid + 1) * 2 ^ 32) rest
    → AscendsFrom (sort_key (cid, b)) (list_blocks keep_in cid b ss ++ rest)
unfolding list_blocks
list_blocks-AscendsFrom keep_in cid b [] rest h a =
    AscendsFrom-le (sort_key (cid, b)) ((cid + 1) * 2 ^ 32) rest (omega arith) a
list_blocks-AscendsFrom keep_in cid b (s ∷ ss) rest h a =
    let ih = list_blocks-AscendsFrom keep_in cid (b + 1) ss rest (omega arith) a in
    elim (Bool-cases (is_listed keep_in s)) [
      | inl listed ↦ rw listed (
        omega arith,
        AscendsFrom-le (sort_key (cid, b) + 1) (sort_key (cid, b + 1))
            (list_blocks keep_in cid (b + 1) ss ++ rest) (omega arith) ih,
      )
      | inr skipped ↦ rw skipped (
          AscendsFrom-le (sort_key (cid, b)) (sort_key (cid, b + 1))
            (list_blocks keep_in cid (b + 1) ss ++ rest) (omega arith) ih)
    ]

module _ (keep_in : Bool) (states : ℕ → List State) where
  abbrev pub listed_from : ℕ → ℕ → Ids
  listed_from c n = flat_map (λ k. list_blocks keep_in k 0 (states k)) (range_from c n)

  module _ (small : (c : ℕ) → length (states c) ≤ 2 ^ 32) where
    listed_from-AscendsFrom : (c n : ℕ) → AscendsFrom (c * 2 ^ 32) (listed_from c n)
    unfolding range_from
    listed_from-AscendsFrom c zero = tt
    listed_from-AscendsFrom c (suc n) =
        AscendsFrom-le (c * 2 ^ 32) (sort_key (c, 0)) (listed_from c (suc n)) (omega arith) (
          list_blocks-AscendsFrom keep_in c 0 (states c) (listed_from (c + 1) n)
            (omega (arith, small c)) (listed_from-AscendsFrom (c + 1) n))

    pub listed-is_ascending : (n : ℕ) → is_ascending (listed_from 0 n) ≡ true
    listed-is_ascending n =
        AscendsFrom-is_ascending (0 * 2 ^ 32) (listed_from 0 n) (listed_from-AscendsFrom 0 n)

-- The ids of a chunk's list are blocks of that chunk.
list_blocks-All :
    (keep_in : Bool) (cid b : ℕ) (ss : List State) (j : ℕ)
    → b + length ss ≡ j
    → All (λ x. (x.0 ≡ cid) × (x.1 < j)) (list_blocks keep_in cid b ss)
unfolding list_blocks
list_blocks-All keep_in cid b [] j e = tt
list_blocks-All keep_in cid b (s ∷ ss) j e =
    let ih = list_blocks-All keep_in cid (b + 1) ss j (omega arith) in
    elim (Bool-cases (is_listed keep_in s)) [
      | inl listed ↦ rw listed ((refl, omega arith), ih)
      | inr skipped ↦ rw skipped ih
    ]

pub listed-All :
    (keep_in : Bool) (states : ℕ → List State) (k : ℕ)
    → ((c : ℕ) → length (states c) ≡ k)
    → (c n j : ℕ) → c + n ≡ j
    → All (λ x. (x.0 < j) × (x.1 < k)) (listed_from keep_in states c n)
unfolding range_from
listed-All keep_in states k len c zero j e = tt
listed-All keep_in states k len c (suc n) j e =
    All-append (λ x. (x.0 < j) × (x.1 < k)) (list_blocks keep_in c 0 (states c))
      (listed_from keep_in states (c + 1) n)
      (All-map (λ x. (x.0 ≡ c) × (x.1 < k)) (λ x. (x.0 < j) × (x.1 < k))
        (λ x h. (omega (arith, h.0), h.1)) (list_blocks keep_in c 0 (states c))
        (list_blocks-All keep_in c 0 (states c) k (omega (arith, len c))))
      (listed-All keep_in states k len (c + 1) n j (omega arith))

-- ===== src/Query/Classify/Sound.antt =====
-- A block that is classified IN has all its values in the range, and one classified OUT none, if
-- its values lie between the bounds that the planner computes.
use skip_zfp.Prelude.{
  ℕ, ◌≡◌, refl, ap, ap₂, ◌∙◌, Bool, true, false, ◌&&◌, ◌||◌, List, [], ◌∷◌, length, if◌then◌else◌,
  All, arith, Bool-cases, inl, inr,
}
use skip_zfp.Floats.{Floats, IsLawful}
use skip_zfp.Floats.Laws.{at_most, lt-at_most, le-at_most, not-lt-of_le}
use skip_zfp.Query.Classify.{State, in', out, maybe, decide, classify_block, low_bound, high_bound}
use skip_zfp.Query.Count.{
  in_range, count_if, count_in_range, fast_count, float_at_most, count_block,
}
use skip_zfp.Query.Plan.Counts.{StateOk}

module _ (F : Floats) (law : IsLawful F) where
  -- the value lies between two doubles
  abbrev pub Between : F.Double → F.Double → F.Single → Type 0
  Between low high v = (F.le low (F.widen v) ≡ true) × (F.le (F.widen v) high ≡ true)

  decide-in :
      (low high lo hi : F.Double) (v : F.Single)
      → decide F low high lo hi ≡ in'
      → Between low high v
      → in_range F v lo hi ≡ true
  unfolding decide in_range
  decide-in low high lo hi v h b =
      let both : (F.lt lo low ≡ true) × (F.le high hi ≡ true) = ground arith in
      let p = law.lt-le_trans lo low (F.widen v) both.0 b.0 in
      let q = law.le_trans (F.widen v) high hi b.1 both.1 in ground arith

  decide-out :
      (low high lo hi : F.Double) (v : F.Single)
      → decide F low high lo hi ≡ out
      → Between low high v
      → in_range F v lo hi ≡ false
  unfolding decide in_range
  decide-out low high lo hi v h b =
      let either : (F.le high lo || F.lt hi low) ≡ true = ground arith in
      elim (Bool-cases (F.le high lo)) [
        | inl under ↦
            let p = not-lt-of_le F law (F.widen v) lo (law.le_trans _ _ _ b.1 under) in ground arith
        | inr q ↦
            let over : F.lt hi low ≡ true = ground arith in
            let p = not-le-of_lt hi (F.widen v) (law.lt-le_trans _ _ _ over b.0) in ground arith
      ]
    where
      not-le-of_lt : (a b : F.Double) → F.lt a b ≡ true → F.le b a ≡ false
      not-le-of_lt a b h = ground (arith, law.le_or_lt b a (law.lt_right a b h) (law.lt_left a b h))

  count_if-All :
      (p : F.Single → Bool) (vs : List F.Single)
      → All (λ v. p v ≡ true) vs
      → count_if F p vs ≡ length vs
  count_if-All p [] h = refl
  count_if-All p (v ∷ vs) (h, hs) = ground (arith, count_if-All p vs hs)

  count_if-none :
      (p : F.Single → Bool) (vs : List F.Single) → All (λ v. p v ≡ false) vs → count_if F p vs ≡ 0
  count_if-none p [] h = refl
  count_if-none p (v ∷ vs) (h, hs) = ground (arith, count_if-none p vs hs)

  pub count_if_ext :
      (p q : F.Single → Bool) (vs : List F.Single)
      → All (λ v. p v ≡ q v) vs
      → count_if F p vs ≡ count_if F q vs
  count_if_ext p q [] h = refl
  count_if_ext p q (v ∷ vs) (h, hs) = ground (arith, h, count_if_ext p q vs hs)

  abbrev Num : F.Double → Type 0
  Num x = F.is_nan x ≡ false

  in_range-eq_inf :
      (v : F.Single) (lo hi : F.Double)
      → Num (F.widen v)
      → (F.le hi F.inf && F.le F.inf hi) ≡ true
      → F.lt lo (F.widen v) ≡ in_range F v lo hi
  unfolding in_range
  in_range-eq_inf v lo hi nv h =
      let top : F.le F.inf hi ≡ true = ground arith in
      let q = law.le_trans _ _ _ (law.le-inf (F.widen v) nv) top in ground arith

  fast-eq-in_range :
      (v : F.Single) (lo hi : F.Double)
      → Num lo
      → Num hi
      → Num (F.widen v)
      → (F.lt (F.widen (float_at_most F lo)) (F.widen v)
          && F.le (F.widen v) (F.widen (float_at_most F hi)))
        ≡ in_range F v lo hi
  unfolding in_range float_at_most at_most
  fast-eq-in_range v lo hi nlo nhi nv =
      ap₂ ◌&&◌ (lt-at_most F law lo v nlo nv) (le-at_most F law hi v nhi nv)

  All-mono :
      (P Q : F.Single → Type 0) (vs : List F.Single)
      → ((v : F.Single) → P v → Q v)
      → All P vs
      → All Q vs
  All-mono P Q [] f h = tt
  All-mono P Q (v ∷ vs) f (h, hs) = (f v h, All-mono P Q vs f hs)

  count_in_range_lem :
      (vs : List F.Single) (lo hi : F.Double)
      → All (λ v. Num (F.widen v)) vs
      → count_in_range F vs lo hi ≡ count_if F (λ v. in_range F v lo hi) vs
  unfolding count_in_range
  count_in_range_lem vs lo hi nums = elim (Bool-cases (F.le hi F.inf && F.le F.inf hi)) [
    | inl open' ↦
        ap
          (λ (b : Bool).
            if b
            then count_if F (λ v. F.lt lo (F.widen v)) vs
            else count_if F (λ v. in_range F v lo hi) vs)
          open'
        ∙ count_if_ext _ _ vs (All-mono _ _ vs (λ v nv. in_range-eq_inf v lo hi nv open') nums)
    | inr closed ↦
        ap
          (λ (b : Bool).
            if b
            then count_if F (λ v. F.lt lo (F.widen v)) vs
            else count_if F (λ v. in_range F v lo hi) vs)
          closed
  ]

  module _ (decode : ℕ → List ℕ → List F.Single) (avx512 : Bool) where
    -- Where the floats are lawful, neither bound is NaN and no value of the block is, the count of
    -- a block is the number of its values in the half-open range, whether it is szfp_fast_count
    -- with bounds rounded to float32, the single comparison for an open end, or in_range.
    pub count_block_lem :
        (rate : ℕ) (lo hi : F.Double) (bytes : List ℕ)
        → Num lo
        → Num hi
        → All (λ v. Num (F.widen v)) (decode rate bytes)
        → count_block F decode avx512 rate lo hi bytes
          ≡ count_if F (λ v. in_range F v lo hi) (decode rate bytes)
    unfolding count_block fast_count
    count_block_lem rate lo hi bytes nlo nhi nums = elim (Bool-cases avx512) [
      | inl fast ↦
          rw (fast, count_block)
            (count_if_ext _ _ (decode rate bytes)
              (All-mono _ _ (decode rate bytes) (λ v nv. fast-eq-in_range v lo hi nlo nhi nv) nums))
      | inr slow ↦ rw (slow, count_block) (count_in_range_lem (decode rate bytes) lo hi nums)
    ]

    -- Where the floats are lawful, neither bound of the range is NaN and the values of a block lie
    -- between the bounds that the planner computes from its record, a block that is classified IN
    -- counts all its values and one that is classified OUT counts none, in each of the counting
    -- functions.
    pub StateOk-classify_block :
        (cm : List ℕ) (n_block : ℕ) (has_codes : Bool) (rate : ℕ) (lo hi : F.Double) (bid : ℕ)
        (bytes : List ℕ)
        → Num lo
        → Num hi
        → All
            (Between (low_bound F cm n_block has_codes bid) (high_bound F cm n_block has_codes bid))
            (decode rate bytes)
        → StateOk
            (length (decode rate bytes))
            (classify_block F cm n_block has_codes lo hi bid)
            (count_block F decode avx512 rate lo hi bytes)
    unfolding classify_block
    StateOk-classify_block cm n_block has_codes rate lo hi bid bytes nlo nhi fit =
        judge (decide F low high lo hi) refl
      where
        low : F.Double
        low = low_bound F cm n_block has_codes bid

        high : F.Double
        high = high_bound F cm n_block has_codes bid

        nums : All (λ v. Num (F.widen v)) (decode rate bytes)
        nums = All-mono _ _ (decode rate bytes) (λ v b. law.le_right _ _ b.0) fit

        counted :
            count_block F decode avx512 rate lo hi bytes
            ≡ count_if F (λ v. in_range F v lo hi) (decode rate bytes)
        counted = count_block_lem rate lo hi bytes nlo nhi nums

        judge :
            (s : State)
            → decide F low high lo hi ≡ s
            → StateOk (length (decode rate bytes)) s (count_block F decode avx512 rate lo hi bytes)
        judge in' e =
            counted
            ∙ count_if-All _ (decode rate bytes)
                (All-mono _ _ (decode rate bytes) (λ v b. decide-in low high lo hi v e b) fit)
        judge out e =
            counted
            ∙ count_if-none _ (decode rate bytes)
                (All-mono _ _ (decode rate bytes) (λ v b. decide-out low high lo hi v e b) fit)
        judge maybe e = tt

-- ===== src/Aggregate/Run/Original.antt =====
-- The bounds of an aggregate on the number of original values, through the zone map and the reads.
use skip_zfp.Prelude.{
  ℕ, ◌≤◌, ◌≡◌, sym, ◌∙◌, subst, Bool, false, true, List, [], ◌∷◌, map, length, length-map, All,
  All-map, arith,
}
use skip_zfp.Floats.{Floats, IsLawful as FloatsAreLawful}
use skip_zfp.Query.Count.{in_range, count_if}
use skip_zfp.Query.Classify.{State, in', out, maybe, classify_block, low_bound, high_bound}
use skip_zfp.Query.Classify.Sound.{Between, StateOk-classify_block, count_block_lem}
use skip_zfp.Query.Plan.Counts.{StateOk}
use skip_zfp.Aggregate.Kernel.Original.{IsOriginal}
use skip_zfp.Aggregate.Stream.{is_in}

module _ (F : Floats) (lo hi : F.Double) where
  -- how many of the original values are in the range
  abbrev pub truth_of : List (F.Single × F.Single) → ℕ
  truth_of ps = count_if F (λ x. in_range F x lo hi) (map (λ p. p.1) ps)

  -- the original value lies within the error bound of the decoded one
  abbrev pub IsClose : F.Double → F.Single × F.Single → Type 0
  IsClose e (v, x) =
      (F.le (F.sub (F.widen v) e) (F.widen x) ≡ true)
      × (F.le (F.widen x) (F.add (F.widen v) e) ≡ true)

  count_le : (ps : List (F.Single × F.Single)) → truth_of ps ≤ length ps
  count_le [] = omega arith
  count_le ((v, x) ∷ ps) = ground (arith, count_le ps)

  -- A block whose original values are all counted is honest when it is IN.
  all_counted :
      (e : F.Double) (ps : List (F.Single × F.Single))
      → truth_of ps ≡ length ps
      → All (IsClose e) ps
      → All (IsOriginal F e true lo hi) ps
  all_counted e [] h close = tt
  all_counted e ((v, x) ∷ ps) h ((a, b), close) =
      let here : in_range F x lo hi ≡ true = ground (arith, count_le ps) in
      let rest : truth_of ps ≡ length ps = ground (arith, count_le ps) in
      ((a, b, λ t. here), all_counted e ps rest close)

  not_in :
      (e : F.Double) (ps : List (F.Single × F.Single))
      → All (IsClose e) ps
      → All (IsOriginal F e false lo hi) ps
  not_in e [] h = tt
  not_in e ((v, x) ∷ ps) ((a, b), h) = ((a, b, λ t. absurd cc), not_in e ps h)

  pub state-IsOriginal :
      (s : State) (e : F.Double) (ps : List (F.Single × F.Single)) (n : ℕ)
      → length ps ≡ n
      → StateOk n s (truth_of ps)
      → All (IsClose e) ps
      → All (IsOriginal F e (is_in s) lo hi) ps
  state-IsOriginal in' e ps n len h close = all_counted e ps (h ∙ sym len) close
  state-IsOriginal out e ps n len h close = not_in e ps close
  state-IsOriginal maybe e ps n len h close = not_in e ps close

  -- The state of a block is right about original values between the bounds of its record.
  pub StateOk-original :
      (law : FloatsAreLawful F) (cm : List ℕ) (n_block : ℕ) (codes : Bool) (bid : ℕ)
      (ps : List (F.Single × F.Single))
      → F.is_nan lo ≡ false
      → F.is_nan hi ≡ false
      → All
          (λ x.
            Between F law (low_bound F cm n_block codes bid) (high_bound F cm n_block codes bid) x)
          (map (λ p. p.1) ps)
      → StateOk (length ps) (classify_block F cm n_block codes lo hi bid) (truth_of ps)
  StateOk-original law cm n_block codes bid ps nlo nhi fit =
      let xs = map (λ p. p.1) ps in
      let read : ℕ → List ℕ → List F.Single = λ rate bytes. xs in
      let nums =
        All-map _ (λ v. F.is_nan (F.widen v) ≡ false) (λ v h. law.le_right _ _ h.0) xs fit in
      subst (λ (n : ℕ). StateOk n (classify_block F cm n_block codes lo hi bid) (truth_of ps))
        (length-map (λ p. p.1) ps)
        (subst (StateOk (length xs) (classify_block F cm n_block codes lo hi bid))
          (count_block_lem F law read false 0 lo hi [] nlo nhi nums)
          (StateOk-classify_block F law read false cm n_block codes 0 lo hi bid [] nlo nhi fit))

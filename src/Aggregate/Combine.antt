-- ===== src/Aggregate/Combine.antt =====
-- skipzfp/aggregate.py: combine, which merges the totals of every read into the exact answer and the
-- bounds on the answer for the original values.
pub mod Original
use skip_zfp.Prelude.{
  ℕ, ◌+◌, ◌*◌, ◌^◌, Bool, Option, none, some, List, [], ◌∷◌, map, ◌==◌, if◌then◌else◌, sum,
}
use skip_zfp.Floats.{Floats}
use skip_zfp.Aggregate.Kernel.{Sums, Aggregate}

-- the dictionary that combine returns
pub record Combined (F : Floats) : Type 0 where
  pub count : ℕ
  pub total : F.Double
  pub mean : Option F.Double
  pub original_count : ℕ × ℕ
  pub original_sum : F.Double × F.Double
  pub original_mean : Option (F.Double × F.Double)

module _ (F : Floats) where
  -- Python's min and max of two numbers, which keep the first unless the second beats it
  abbrev pub least : F.Double → F.Double → F.Double
  least a b = if F.lt b a then b else a

  abbrev pub greatest : F.Double → F.Double → F.Double
  greatest a b = if F.lt a b then b else a

  -- `min(xs, default=d)` and `max(xs, default=d)`
  unfoldable pub fold_by : (F.Double → F.Double → F.Double) → F.Double → List F.Double → F.Double
  fold_by f a [] = a
  fold_by f a (x ∷ xs) = fold_by f (f a x) xs

  unfoldable pub best_of : (F.Double → F.Double → F.Double) → F.Double → List F.Double → F.Double
  unfolding fold_by
  best_of f d [] = d
  best_of f d (x ∷ xs) = fold_by f x xs

  -- `_U`
  abbrev pub unit_roundoff : F.Double
  unit_roundoff = F.div (F.of_ℕ 1) (F.of_ℕ (2 ^ 53))

module _ (F : Floats) (S : Sums F) where
  -- how far the sums of one read may be off
  abbrev pub slack_of : ℕ → Aggregate F × ℕ → F.Double
  slack_of values_per_block (p, n) =
      F.mul (F.mul (F.of_ℕ (n * values_per_block + 2)) (unit_roundoff F)) p.abs_total

  unfoldable pub original_mean_of :
      (sure maybe : ℕ) (sure_lo sure_hi maybe_min maybe_max : F.Double)
      → Option (F.Double × F.Double)
  original_mean_of sure maybe sure_lo sure_hi maybe_min maybe_max =
      let lo_mean = S.down (F.div sure_lo (F.of_ℕ sure)) in
      let hi_mean = S.up (F.div sure_hi (F.of_ℕ sure)) in
      let n = F.of_ℕ (sure + maybe) in
      let lo_all =
        S.down (F.div (S.down (F.add sure_lo (S.down (F.mul (F.of_ℕ maybe) maybe_min)))) n) in
      let hi_all = S.up (F.div (S.up (F.add sure_hi (S.up (F.mul (F.of_ℕ maybe) maybe_max)))) n) in
      if sure == 0
      then if maybe == 0 then none else some (maybe_min, maybe_max)
      else if maybe == 0
      then some (lo_mean, hi_mean)
      else some (least F lo_mean lo_all, greatest F hi_mean hi_all)

  unfoldable pub combine : List (Aggregate F × ℕ) → (values_per_block : ℕ) → Combined F
  unfolding best_of original_mean_of
  combine parts values_per_block =
      let count = sum (map (λ p. p.0.rec_count) parts) in
      let total = S.fsum (map (λ p. p.0.rec_sum) parts) in
      let sure = sum (map (λ p. p.0.sure_count) parts) in
      let maybe = sum (map (λ p. p.0.maybe_count) parts) in
      let slack = S.fsum (map (slack_of values_per_block) parts) in
      let sure_lo = F.sub (S.fsum (map (λ p. p.0.sure_sum_lo) parts)) slack in
      let sure_hi = F.add (S.fsum (map (λ p. p.0.sure_sum_hi) parts)) slack in
      let maybe_neg = S.fsum (map (λ p. p.0.maybe_sum_neg) parts) in
      let maybe_pos = S.fsum (map (λ p. p.0.maybe_sum_pos) parts) in
      let maybe_min = best_of F (least F) F.inf (map (λ p. p.0.maybe_min) parts) in
      let maybe_max = best_of F (greatest F) F.neg_inf (map (λ p. p.0.maybe_max) parts) in
      record {
        count = count;
        total = total;
        mean = if count == 0 then none else some (F.div total (F.of_ℕ count));
        original_count = (sure, sure + maybe);
        original_sum = (S.down (F.add sure_lo maybe_neg), S.up (F.add sure_hi maybe_pos));
        original_mean = original_mean_of sure maybe sure_lo sure_hi maybe_min maybe_max;
      }

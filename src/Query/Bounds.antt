-- ===== src/Query/Bounds.antt =====
-- skipzfp/query.py: range_bounds and _below_f32, which turn a range with inclusive or exclusive
-- ends into the half-open (lo, hi] of the planner.
use skip_zfp.Prelude.{
  ◌≡◌, refl, sym, ap, ap₂, ◌∙◌, is_err, Bool, true, false, ◌&&◌, ◌↔◌, Option, none, some, Result,
  ok, ◌>>◌, raise_if, value_error, arith, Bool-cases, inl, inr, if◌then◌else◌,
}
use skip_zfp.Floats.{Floats, IsLawful}
use skip_zfp.Floats.Laws.{below, le-below, below-Num, not-lt-of_le, true_or_false}

module _ (F : Floats) where
  -- `_below_f32`
  unfoldable pub below_f32 : F.Double → F.Double
  below_f32 x = let f = F.narrow x in F.widen (if F.le x (F.widen f) then F.prev f else f)

  abbrev pub is_nan_bound : Option F.Double → Bool
  is_nan_bound none = false
  is_nan_bound (some v) = F.is_nan v

  abbrev pub crossed : Option F.Double → Option F.Double → Bool
  crossed (some lo) (some hi) = F.lt hi lo
  crossed (some lo) none = false
  crossed none hi = false

  abbrev pub lower_bound : Option F.Double → Bool → F.Double
  lower_bound none inclusive = F.neg_inf
  lower_bound (some lo) inclusive = if inclusive then below_f32 lo else lo

  abbrev pub upper_bound : Option F.Double → Bool → F.Double
  upper_bound none inclusive = F.inf
  upper_bound (some hi) inclusive = if inclusive then hi else below_f32 hi

  unfoldable pub range_bounds :
      (lo hi : Option F.Double) (lo_inclusive hi_inclusive : Bool) → Result (F.Double × F.Double)
  unfolding below_f32
  range_bounds lo hi lo_inclusive hi_inclusive = do
    raise_if (is_nan_bound lo) (value_error "lo must not be NaN")
    raise_if (is_nan_bound hi) (value_error "hi must not be NaN")
    raise_if (crossed lo hi) (value_error "lo must not exceed hi")
    ok (lower_bound lo lo_inclusive, upper_bound hi hi_inclusive)

  -- the range as the caller states it: `lo < x` or `lo <= x`, and `x <= hi` or `x < hi`
  abbrev pub above : Option F.Double → Bool → F.Double → Bool
  above none inclusive x = true
  above (some lo) inclusive x = if inclusive then F.le lo x else F.lt lo x

  abbrev pub beneath : Option F.Double → Bool → F.Double → Bool
  beneath none inclusive x = true
  beneath (some hi) inclusive x = if inclusive then F.le x hi else F.lt x hi

  module _ (law : IsLawful F) (v : F.Single) (fin : F.lt F.neg_inf (F.widen v) ≡ true) where
    lower_bound_lem :
        (lo : Option F.Double) (inclusive : Bool)
        → is_nan_bound lo ≡ false
        → F.lt (lower_bound lo inclusive) (F.widen v) ≡ above lo inclusive (F.widen v)
    unfolding below_f32 below
    lower_bound_lem none inclusive h = fin
    lower_bound_lem (some lo) false h = refl
    lower_bound_lem (some lo) true h =
        let b = le-below F law lo v h fin in
        let nb = below-Num F law lo h in
        let nv = law.lt_right _ _ fin in
        ground (
          arith,
          b,
          law.le_or_lt lo (F.widen v) h nv,
          law.le_or_lt (F.widen v) (F.widen (below F law lo)) nv nb,
        )

    upper_bound_lem :
        (hi : Option F.Double) (inclusive : Bool)
        → is_nan_bound hi ≡ false
        → F.le (F.widen v) (upper_bound hi inclusive) ≡ beneath hi inclusive (F.widen v)
    unfolding below_f32 below
    upper_bound_lem none inclusive h = law.le-inf (F.widen v) (law.lt_right _ _ fin)
    upper_bound_lem (some hi) true h = refl
    upper_bound_lem (some hi) false h = le-below F law hi v h fin

  range_bounds_inv :
      (lo hi : Option F.Double) (li hi' : Bool) (a b : F.Double)
      → range_bounds lo hi li hi' ≡ ok (a, b)
      → (is_nan_bound lo ≡ false)
        × (is_nan_bound hi ≡ false)
        × (crossed lo hi ≡ false)
        × (lower_bound lo li ≡ a)
        × (upper_bound hi hi' ≡ b)
  unfolding range_bounds
  range_bounds_inv lo hi li hi' a b h = ground arith

  -- Where the floats are lawful and range_bounds accepts the bounds of the caller, its half-open
  -- range selects of the float32 values above -inf exactly those that the range of the caller
  -- selects, for inclusive and exclusive ends and for missing bounds.
  pub range_bounds_select :
      IsLawful F
      → (lo hi : Option F.Double) (li hi' : Bool) (a b : F.Double)
      → range_bounds lo hi li hi' ≡ ok (a, b)
      → (v : F.Single) → F.lt F.neg_inf (F.widen v) ≡ true
      → (F.lt a (F.widen v) && F.le (F.widen v) b)
        ≡ (above lo li (F.widen v) && beneath hi hi' (F.widen v))
  range_bounds_select law lo hi li hi' a b h v fin =
      let (nlo, nhi, _, ea, eb) = range_bounds_inv lo hi li hi' a b h in
      ap₂ ◌&&◌ (ap (λ t. F.lt t (F.widen v)) (sym ea) ∙ lower_bound_lem law v fin lo li nlo)
        (ap (λ t. F.le (F.widen v) t) (sym eb) ∙ upper_bound_lem law v fin hi hi' nhi)

  -- a double of the closed range, when range_bounds accepts its ends
  abbrev member : Option F.Double → Option F.Double → F.Double
  member (some lo) hi = lo
  member none (some hi) = hi
  member none none = F.neg_inf

  le_refl : IsLawful F → (a : F.Double) → F.is_nan a ≡ false → F.le a a ≡ true
  le_refl law a h = ground (arith, law.le_or_lt a a h h, law.lt_irrefl a)

  member_lem :
      IsLawful F
      → (lo hi : Option F.Double) → is_nan_bound lo ≡ false
      → is_nan_bound hi ≡ false
      → crossed lo hi ≡ false
      → (above lo true (member lo hi) && beneath hi true (member lo hi)) ≡ true
  member_lem law none none nlo nhi c = refl
  member_lem law none (some hi) nlo nhi c = le_refl law hi nhi
  member_lem law (some lo) none nlo nhi c = ground (arith, le_refl law lo nlo)
  member_lem law (some lo) (some hi) nlo nhi c =
      ground (arith, le_refl law lo nlo, law.le_or_lt lo hi nlo nhi)

  -- the bounds around a double are in order, and no NaN
  around :
      IsLawful F
      → (lo hi : Option F.Double) (x : F.Double) → (above lo true x && beneath hi true x) ≡ true
      → (is_nan_bound lo ≡ false) × (is_nan_bound hi ≡ false) × (crossed lo hi ≡ false)
  around law none none x h = (refl, refl, refl)
  around law none (some hi) x h = (refl, law.le_right x hi h, refl)
  around law (some lo) none x h = (law.le_left lo x (ground arith), refl, refl)
  around law (some lo) (some hi) x h =
      let a : F.le lo x ≡ true = ground arith in
      let b : F.le x hi ≡ true = ground arith in
      (law.le_left lo x a, law.le_right x hi b, not-lt-of_le F law lo hi (law.le_trans lo x hi a b))

  -- Where the floats are lawful, range_bounds raises exactly when no double lies in the closed
  -- range between the bounds of the caller, whichever of its ends are inclusive and whichever
  -- bounds are missing.
  pub range_bounds_refused :
      IsLawful F
      → (lo hi : Option F.Double) (li hi' : Bool)
      → (is_err (range_bounds lo hi li hi') ≡ true)
        ↔ ((x : F.Double) → (above lo true x && beneath hi true x) ≡ false)
  unfolding range_bounds
  range_bounds_refused law lo hi li hi' = (
    λ h x. elim (Bool-cases (above lo true x && beneath hi true x)) [
      | inl inside ↦ absurd (ground (arith, around law lo hi x inside))
      | inr outside ↦ outside
    ],
    λ h. elim (Bool-cases (is_err (range_bounds lo hi li hi'))) [
      | inl raised ↦ raised
      | inr returned ↦
          let nlo : is_nan_bound lo ≡ false = ground arith in
          let nhi : is_nan_bound hi ≡ false = ground arith in
          let c : crossed lo hi ≡ false = ground arith in
          absurd (true_or_false (member_lem law lo hi nlo nhi c) (h (member lo hi)))
    ],
  )

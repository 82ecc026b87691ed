-- ===== src/Floats/Laws.antt =====
-- Comparisons with a double that is rounded to a float32: float_at_most of csrc/query.c and
-- _below_f32 of query.py rest on these.
use skip_zfp.Prelude.{
  ◌≡◌, refl, sym, ◌∙◌, Bool, true, false, arith, Bool-cases, inl, inr, if◌then◌else◌,
}
use skip_zfp.Floats.{Floats, IsLawful}

-- Two tests that follow from one another are equal.
pub Bool_ext : (a b : Bool) → (a ≡ true → b ≡ true) → (b ≡ true → a ≡ true) → a ≡ b
Bool_ext true b h k = sym (h refl)
Bool_ext false true h k = k refl
Bool_ext false false h k = refl

pub true_or_false : {b : Bool} → b ≡ true → b ≡ false → ⊥
true_or_false h k = cc

module _ (F : Floats) (law : IsLawful F) where
  abbrev Num : F.Double → Type 0
  Num x = F.is_nan x ≡ false

  pub not-lt-of_le : (a b : F.Double) → F.le a b ≡ true → F.lt b a ≡ false
  not-lt-of_le a b h = ground (arith, law.le_or_lt a b (law.le_left a b h) (law.le_right a b h))

  pub le_of_not_lt : (a b : F.Double) → Num a → Num b → F.lt a b ≡ false → F.le b a ≡ true
  le_of_not_lt a b na nb h = ground (arith, law.le_or_lt b a nb na)

  pub lt_of_not_le : (a b : F.Double) → Num a → Num b → F.le a b ≡ false → F.lt b a ≡ true
  lt_of_not_le a b na nb h = ground (arith, law.le_or_lt a b na nb)

  -- the largest float32 not above `d`, as float_at_most computes it
  unfoldable pub at_most : F.Double → F.Single
  at_most d = let f = F.narrow d in if F.lt d (F.widen f) then F.prev f else f

  -- No float32 lies between `d` and the float32 that the rounding of `d` gives.
  pub lt-narrow_iff :
      (d : F.Double) (v : F.Single)
      → Num d
      → Num (F.widen v)
      → F.lt d (F.widen (F.narrow d)) ≡ true
      → F.le (F.widen v) d ≡ F.lt (F.widen v) (F.widen (F.narrow d))
  lt-narrow_iff d v nd nv up =
      Bool_ext _ _ (λ h. law.le-lt_trans _ _ _ h up)
        (λ h. elim (Bool-cases (F.le (F.widen v) d)) [
          | inl le ↦ le
          | inr gt ↦ absurd (
              true_or_false h (
                not-lt-of_le _ _
                  (law.narrow-le d v (law.le_of_lt _ _ (lt_of_not_le _ _ nv nd gt)))))
        ])

  pub le-at_most :
      (d : F.Double) (v : F.Single)
      → Num d
      → Num (F.widen v)
      → F.le (F.widen v) (F.widen (at_most d)) ≡ F.le (F.widen v) d
  unfolding at_most
  le-at_most d v nd nv = elim (Bool-cases (F.lt d (F.widen (F.narrow d)))) [
    | inl up ↦
        rw (up, at_most)
          (law.le-prev (F.narrow d) v (law.le-lt_trans _ _ _ (law.neg_inf-le d nd) up) nv
            ∙ sym (lt-narrow_iff d v nd nv up))
    | inr down ↦
        rw (down, at_most)
          (Bool_ext _ _ (λ h. law.le_trans _ _ _ h (le_of_not_lt _ _ nd (law.narrow-num d nd) down))
            (law.le-narrow d v))
  ]

  pub at_most-Num : (d : F.Double) → Num d → Num (F.widen (at_most d))
  unfolding at_most
  at_most-Num d nd = elim (Bool-cases (F.lt d (F.widen (F.narrow d)))) [
    | inl up ↦ rw (up, at_most) (law.le_left _ _ (law.prev-le (F.narrow d) (law.narrow-num d nd)))
    | inr down ↦ rw (down, at_most) (law.narrow-num d nd)
  ]

  pub lt-at_most :
      (d : F.Double) (v : F.Single)
      → Num d
      → Num (F.widen v)
      → F.lt (F.widen (at_most d)) (F.widen v) ≡ F.lt d (F.widen v)
  lt-at_most d v nd nv = ground (
    arith,
    le-at_most d v nd nv,
    law.le_or_lt (F.widen v) d nv nd,
    law.le_or_lt (F.widen v) (F.widen (at_most d)) nv (at_most-Num d nd),
  )

  -- the largest float32 strictly below `x`, as _below_f32 computes it
  unfoldable pub below : F.Double → F.Single
  below x = let f = F.narrow x in if F.le x (F.widen f) then F.prev f else f

  pub le-below :
      (x : F.Double) (v : F.Single)
      → Num x
      → F.lt F.neg_inf (F.widen v) ≡ true
      → F.le (F.widen v) (F.widen (below x)) ≡ F.lt (F.widen v) x
  unfolding below
  le-below x v nx fin = elim (Bool-cases (F.le x (F.widen (F.narrow x)))) [
    | inl up' ↦
        rw (up', below)
          (elim (Bool-cases (F.lt F.neg_inf (F.widen (F.narrow x)))) [
            | inl above ↦
                law.le-prev (F.narrow x) v above nv
                ∙ Bool_ext _ _
                    (λ h. elim (Bool-cases (F.lt (F.widen v) x)) [
                      | inl lt ↦ lt
                      | inr ge ↦ absurd (
                          true_or_false h
                            (not-lt-of_le _ _ (law.narrow-le x v (le_of_not_lt _ _ nv nx ge))))
                    ])
                    (λ h. law.lt-le_trans _ _ _ h up')
            | inr at ↦
                Bool_ext _ _
                  (λ h. absurd (
                    true_or_false (law.lt-le_trans _ _ _ fin (law.le_trans _ _ _ h (bottom at)))
                      (law.lt_irrefl F.neg_inf)))
                  (λ h. absurd (
                    true_or_false
                      (law.lt-le_trans _ _ _
                        (law.le-lt_trans _ _ _ up' (law.le-lt_trans _ _ _ (bottom' at) fin))
                        (law.le_of_lt _ _ h))
                      (law.lt_irrefl x)))
          ])
    | inr down ↦
        rw (down, below)
          (Bool_ext _ _
            (λ h. law.le-lt_trans _ _ _ h (lt_of_not_le _ _ nx (law.narrow-num x nx) down))
            (λ h. law.le-narrow x v (law.le_of_lt _ _ h)))
  ]
    where
      nv : Num (F.widen v)
      nv = law.lt_right _ _ fin

      bottom' :
          F.lt F.neg_inf (F.widen (F.narrow x)) ≡ false
          → F.le (F.widen (F.narrow x)) F.neg_inf ≡ true
      bottom' = le_of_not_lt _ _ (law.lt_left _ _ fin) (law.narrow-num x nx)

      bottom :
          F.lt F.neg_inf (F.widen (F.narrow x)) ≡ false
          → F.le (F.widen (F.prev (F.narrow x))) F.neg_inf ≡ true
      bottom at = law.le_trans _ _ _ (law.prev-le (F.narrow x) (law.narrow-num x nx)) (bottom' at)

  pub below-Num : (x : F.Double) → Num x → Num (F.widen (below x))
  unfolding below
  below-Num x nx = elim (Bool-cases (F.le x (F.widen (F.narrow x)))) [
    | inl up ↦ rw (up, below) (law.le_left _ _ (law.prev-le (F.narrow x) (law.narrow-num x nx)))
    | inr down ↦ rw (down, below) (law.narrow-num x nx)
  ]

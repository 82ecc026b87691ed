-- ===== src/Codec/Source/Changed.antt =====
-- What check_meta reports: nothing exactly when the checksums are those that were recorded.
use skip_zfp.Prelude.{
  ℕ, ◌≡◌, refl, sym, ap, ap₂, ◌∙◌, true, Option, none, some, List, [], ◌∷◌, ◌==◌, ==_iff,
  Bool-cases, inl, inr, ok, arith, length, ◌↔◌, length-map,
}
use skip_zfp.Layout.{Array, Source, chunk_coords}
use skip_zfp.Query.Read.{Store}
use skip_zfp.Codec.Source.{
  option_eq, crc_of, chunk_crc32, chunk_grid, changed, check_source, check_meta,
}

option_eq_sound : (a b : Option ℕ) → option_eq ◌==◌ a b ≡ true → a ≡ b
option_eq_sound none none h = refl
option_eq_sound none (some b) h = cc
option_eq_sound (some a) none h = cc
option_eq_sound (some a) (some b) h = ap some ((==_iff a b).0 h)

option_eq_refl : (a : Option ℕ) → option_eq ◌==◌ a a ≡ true
option_eq_refl none = refl
option_eq_refl (some a) = (==_iff a a).1 refl

changed_self : (cs : List (List ℕ)) (xs : List (Option ℕ)) → changed cs xs xs ≡ []
unfolding changed
changed_self [] xs = refl
changed_self (c ∷ cs) [] = refl
changed_self (c ∷ cs) (x ∷ xs) = rw (option_eq_refl x) (changed_self cs xs)

changed_nothing :
    (cs : List (List ℕ)) (old new : List (Option ℕ))
    → length old ≡ length cs
    → length new ≡ length cs
    → changed cs old new ≡ []
    → old ≡ new
unfolding changed
changed_nothing [] [] [] p q h = refl
changed_nothing [] (a ∷ old) new p q h = absurd (omega arith)
changed_nothing [] [] (b ∷ new) p q h = absurd (omega arith)
changed_nothing (c ∷ cs) [] new p q h = absurd (omega arith)
changed_nothing (c ∷ cs) (a ∷ old) [] p q h = absurd (omega arith)
changed_nothing (c ∷ cs) (a ∷ old) (b ∷ new) p q h = elim (Bool-cases (option_eq ◌==◌ a b)) [
  | inl same ↦
      ap₂ (λ x xs. x ∷ xs) (option_eq_sound a b same)
        (changed_nothing cs old new (omega arith) (omega arith) (ground (arith, same, h)))
  | inr other ↦ absurd (ground (arith, other, h))
]

module _ (crc32 : List ℕ → ℕ) (store : Store) (arr : Array) (source : Source) where
  check_meta-changed :
      arr.meta_source ≡ some source
      → check_source arr source ≡ ok tt
      → check_meta crc32 store arr
        ≡ ok (
            changed
              (chunk_coords (chunk_grid arr))
              source.chunk_crc32
              (chunk_crc32 crc32 store arr))
  unfolding check_meta
  check_meta-changed e s = rw (e, s) refl

  -- For an array with a recorded source that check_source accepts, with one checksum for each
  -- chunk, check_meta reports no chunk exactly when the recorded checksums are those of the stored
  -- chunks.
  pub check_meta_iff :
      arr.meta_source ≡ some source
      → check_source arr source ≡ ok tt
      → length source.chunk_crc32 ≡ length (chunk_coords (chunk_grid arr))
      → (check_meta crc32 store arr ≡ ok []) ↔ (source.chunk_crc32 ≡ chunk_crc32 crc32 store arr)
  unfolding chunk_crc32
  check_meta_iff e s n = (
    λ h.
        changed_nothing (chunk_coords (chunk_grid arr)) source.chunk_crc32
          (chunk_crc32 crc32 store arr) n (length-map (crc_of crc32 store arr) _)
          (ok-injective (sym (check_meta-changed e s) ∙ h)),
    λ same.
        check_meta-changed e s
        ∙ ap ok (
            ap (λ t. changed (chunk_coords (chunk_grid arr)) t (chunk_crc32 crc32 store arr)) same
            ∙ changed_self (chunk_coords (chunk_grid arr)) (chunk_crc32 crc32 store arr)),
  )
    where
      ok-injective : {xs ys : List (List ℕ)} → ok xs ≡ ok ys → xs ≡ ys
      ok-injective h = ground arith

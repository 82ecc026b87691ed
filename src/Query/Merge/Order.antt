-- ===== src/Query/Merge/Order.antt =====
-- Ids in ascending order are merged without an error, and each run begins and ends at ids of the
-- list.
use skip_zfp.Prelude.{
  ℕ, ◌+◌, ◌%◌, ◌^◌, ◌<◌, ◌≡◌, refl, subst, true, false, List, [], ◌∷◌, ltb, All, arith, Bool-cases,
  inl, inr,
}
use skip_zfp.Native.{Outcome, sz_ok, sz_err}
use skip_zfp.Query.Merge.{
  BlockId, Ids, Run, new_run, emit, disordered, joins, merge_loop, szfp_merge_ranges, sort_key,
  is_ascending,
}

-- a block number fits in a uint32
abbrev pub Fits : BlockId → Type 0
Fits x = x.1 < 2 ^ 32

-- Two ids in the order of their sort keys pass the check of szfp_merge_ranges.
not-disordered :
    (pc pb c b : ℕ)
    → pb < 2 ^ 32
    → b < 2 ^ 32
    → ltb (sort_key (pc, pb)) (sort_key (c, b)) ≡ true
    → disordered pc pb c b ≡ false
not-disordered pc pb c b h k lt = ground arith

emit-ok :
    (r : Run) (o : Outcome (List Run))
    → (t : List Run) × (o ≡ sz_ok t)
    → (t : List Run) × (emit r o ≡ sz_ok t)
emit-ok r (sz_ok t) h = (r ∷ t, refl)
emit-ok r (sz_err e) (t, h) = cc

merge_loop_total :
    (gap pc pb : ℕ) (run : Run) (i : ℕ) (ids : Ids)
    → pb < 2 ^ 32
    → All Fits ids
    → is_ascending ((pc, pb) ∷ ids) ≡ true
    → (t : List Run) × (merge_loop gap pc pb run i ids ≡ sz_ok t)
unfolding merge_loop is_ascending
merge_loop_total gap pc pb run i [] h f a = (run ∷ [], refl)
merge_loop_total gap pc pb run i ((c, b) ∷ ids) h (k, f) a =
    let good = not-disordered pc pb c b h k (ground arith) in
    let rest : is_ascending ((c, b) ∷ ids) ≡ true = ground arith in
    elim (Bool-cases (joins gap run c b)) [
      | inl join ↦
          let (t, e) = merge_loop_total gap c b (record run { last = b }) (i + 1) ids k f rest in
          (t, rw (good, join) e)
      | inr apart ↦
          let (t, e) =
            emit-ok run (merge_loop gap c b (new_run c b i) (i + 1) ids)
              (merge_loop_total gap c b (new_run c b i) (i + 1) ids k f rest) in
          (t, rw (good, apart) e)
    ]

-- Ids in ascending order whose blocks fit in a uint32 are merged without an error, at whatever gap.
pub szfp_merge_ranges_total :
    (ids : Ids) (gap : ℕ)
    → All Fits ids
    → is_ascending ids ≡ true
    → (rs : List Run) × (szfp_merge_ranges ids gap ≡ sz_ok rs)
unfolding szfp_merge_ranges
szfp_merge_ranges_total [] gap f a = ([], refl)
szfp_merge_ranges_total ((c, b) ∷ ids) gap (h, f) a =
    merge_loop_total (gap % 2 ^ 64) c b (new_run c b 0) 1 ids h f a

chunk_of_join : (gap : ℕ) (run : Run) (c b : ℕ) → joins gap run c b ≡ true → c ≡ run.chunk
chunk_of_join gap run c b h = ground arith

module _ (P : BlockId → Type 0) where
  abbrev pub EndsAt : Run → Type 0
  EndsAt r = P (r.chunk, r.first) × P (r.chunk, r.last)

  All-ok : (ts : List Run) {rs : List Run} → All EndsAt ts → sz_ok ts ≡ sz_ok rs → All EndsAt rs
  All-ok ts {rs} h e = let same : ts ≡ rs = ground arith in subst (All EndsAt) same h

  emit-All :
      (r : Run) (o : Outcome (List Run)) {rs : List Run}
      → EndsAt r
      → ((t : List Run) → o ≡ sz_ok t → All EndsAt t)
      → emit r o ≡ sz_ok rs
      → All EndsAt rs
  emit-All r (sz_ok t) h k e = All-ok (r ∷ t) (h, k t refl) e
  emit-All r (sz_err c) h k e = cc

  merge_loop-All :
      (gap pc pb : ℕ) (run : Run) (i : ℕ) (ids : Ids) {rs : List Run}
      → EndsAt run
      → All P ids
      → merge_loop gap pc pb run i ids ≡ sz_ok rs
      → All EndsAt rs
  unfolding merge_loop
  merge_loop-All gap pc pb run i [] h f e = All-ok (run ∷ []) (h, tt) e
  merge_loop-All gap pc pb run i ((c, b) ∷ ids) h (k, f) e =
      elim (Bool-cases (disordered pc pb c b)) [
        | inl bad ↦ absurd (ground arith)
        | inr good ↦ elim (Bool-cases (joins gap run c b)) [
          | inl join ↦
              merge_loop-All gap c b (record run { last = b }) (i + 1) ids
                (h.0, subst (λ q. P (q, b)) (chunk_of_join gap run c b join) k) f (ground arith)
          | inr apart ↦
              emit-All run (merge_loop gap c b (new_run c b i) (i + 1) ids) h
                (λ t q. merge_loop-All gap c b (new_run c b i) (i + 1) ids (k, k) f q)
                (ground arith)
        ]
      ]

  -- Each run begins and ends at an id of the list.
  pub szfp_merge_ranges-All :
      (ids : Ids) (gap : ℕ) {rs : List Run}
      → All P ids
      → szfp_merge_ranges ids gap ≡ sz_ok rs
      → All EndsAt rs
  unfolding szfp_merge_ranges
  szfp_merge_ranges-All [] gap f e = All-ok [] tt e
  szfp_merge_ranges-All ((c, b) ∷ ids) gap (k, f) e =
      merge_loop-All (gap % 2 ^ 64) c b (new_run c b 0) 1 ids (k, k) f e

-- ===== src/Query/Merge/Covers.antt =====
-- The reads that szfp_merge_ranges makes cover the ids: they cut them into consecutive groups, and
-- the ids of a group lie in the read's chunk, between its first and its last block.
use mathlib.Core.List.{append_assoc}
use skip_zfp.Prelude.{
  ℕ, suc, ◌+◌, ◌-◌, ◌%◌, ◌^◌, ◌≤◌, ◌<◌, ◌≡◌, refl, sym, subst, true, false, List, [], ◌∷◌, ◌++◌,
  length, length-append, take, drop, take-append, drop-append, All, All-append, All-map, arith,
  Bool-cases, inl, inr,
}
use skip_zfp.Native.{Outcome, sz_ok, sz_err}
use skip_zfp.Query.Merge.{
  BlockId, Ids, Run, new_run, emit, disordered, joins, merge_loop, szfp_merge_ranges, with_ends,
}

abbrev pub IsIn : Run → BlockId → Type 0
IsIn r x = (x.0 ≡ r.chunk) × (r.first ≤ x.1) × (x.1 ≤ r.last)

-- The runs, each with its end, cut the ids from `s` on into groups.
abbrev pub Covers : List (Run × ℕ) → ℕ → Ids → Type 0
Covers [] s ids = ids ≡ []
Covers ((r, e) ∷ rs) s ids =
    (r.item ≡ s)
    × (s < e)
    × (r.first ≤ r.last)
    × All (IsIn r) (take (e - s) ids)
    × Covers rs e (drop (e - s) ids)

abbrev Starts : ℕ → List Run → Type 0
Starts s rs = (r : Run) × (t : List Run) × (rs ≡ r ∷ t) × (r.item ≡ s)

emit-Starts :
    (r : Run) (o : Outcome (List Run)) {rs : List Run} → emit r o ≡ sz_ok rs → Starts r.item rs
emit-Starts r (sz_ok t) h = (r, t, ground arith, refl)
emit-Starts r (sz_err e) h = cc

-- The first run of the result begins where the open run does.
merge_loop-Starts :
    (gap pc pb : ℕ) (run : Run) (i : ℕ) (ids : Ids) {rs : List Run}
    → merge_loop gap pc pb run i ids ≡ sz_ok rs
    → Starts run.item rs
unfolding merge_loop
merge_loop-Starts gap pc pb run i [] h = (run, [], ground arith, refl)
merge_loop-Starts gap pc pb run i ((c, b) ∷ ids) h = elim (Bool-cases (disordered pc pb c b)) [
  | inl bad ↦ absurd (ground arith)
  | inr good ↦ elim (Bool-cases (joins gap run c b)) [
    | inl yes' ↦ merge_loop-Starts gap c b (record run { last = b }) (i + 1) ids (ground arith)
    | inr no' ↦ emit-Starts run (merge_loop gap c b (new_run c b i) (i + 1) ids) (ground arith)
  ]
]

emit-cases :
    (r : Run) (o : Outcome (List Run)) {rs : List Run}
    → emit r o ≡ sz_ok rs
    → (t : List Run) × (o ≡ sz_ok t) × (rs ≡ r ∷ t)
emit-cases r (sz_ok t) h = (t, refl, ground arith)
emit-cases r (sz_err e) h = cc

with_ends-cons :
    (n : ℕ) (r : Run) (rs : List Run) (i : ℕ)
    → Starts i rs
    → with_ends n (r ∷ rs) ≡ (r, i) ∷ with_ends n rs
unfolding with_ends
with_ends-cons n r [] i (s, t, e, h) = cc
with_ends-cons n r (x ∷ rs) i (s, t, e, h) = ground arith

-- A group that is complete goes in front of the rest.
Covers-cons :
    (r : Run) (rs : List (Run × ℕ)) (i : ℕ) (p ids : Ids)
    → r.item + length p ≡ i
    → 0 < length p
    → r.first ≤ r.last
    → All (IsIn r) p
    → Covers rs i ids
    → Covers ((r, i) ∷ rs) r.item (p ++ ids)
Covers-cons r rs i p ids e pos le inside c = (
  refl,
  omega arith,
  le,
  subst (All (IsIn r)) (sym (take-append (i - r.item) p ids (omega arith))) inside,
  subst (Covers rs i) (sym (drop-append (i - r.item) p ids (omega arith))) c,
)

single : {run : Run} (rs : List Run) → sz_ok (run ∷ []) ≡ sz_ok rs → run ∷ [] ≡ rs
single rs h = ground arith

nothing : (rs : List Run) → sz_ok [] ≡ sz_ok rs → [] ≡ rs
nothing rs h = ground arith

-- The ids of the open run stay inside it when it is extended.
IsIn-extended :
    (run : Run) (b : ℕ)
    → run.last ≤ b
    → (x : BlockId) → IsIn run x
    → IsIn (record run { last = b }) x
IsIn-extended run b h x i = (i.0, i.1, omega (arith, i.2))

-- An id that joins the open run comes after the run's last one.
join_facts :
    (gap pc pb : ℕ) (run : Run) (c b : ℕ)
    → disordered pc pb c b ≡ false
    → joins gap run c b ≡ true
    → (pc ≡ run.chunk) × (pb ≡ run.last) × (run.first ≤ run.last)
    → (c ≡ run.chunk) × (run.last < b) × (run.first ≤ b) × (b ≤ run.last + gap + 1)
join_facts gap pc pb run c b good join at = ground arith

-- The open run is complete, and the rest is covered by the runs after it.
apart_case :
    (gap : ℕ) (run : Run) (c b i n : ℕ) (p ids : Ids) (rs : List Run)
    → run.item + length p ≡ i
    → 0 < length p
    → run.first ≤ run.last
    → All (IsIn run) p
    → emit run (merge_loop gap c b (new_run c b i) (i + 1) ids) ≡ sz_ok rs
    → ((t : List Run)
        → merge_loop gap c b (new_run c b i) (i + 1) ids ≡ sz_ok t
        → Covers (with_ends n t) i ((c, b) ∷ ids))
    → Covers (with_ends n rs) run.item (p ++ (c, b) ∷ ids)
apart_case gap run c b i n p ids rs e pos le inside h rest =
    let (t, ht, et) = emit-cases run (merge_loop gap c b (new_run c b i) (i + 1) ids) h in
    let starts = merge_loop-Starts gap c b (new_run c b i) (i + 1) ids ht in
    rw (et, with_ends-cons n run t i starts)
      (Covers-cons run (with_ends n t) i p ((c, b) ∷ ids) e pos le inside (rest t ht))

-- With the open run holding the ids `p`, the last of them at `pc`, `pb`, the loop covers `p` and
-- what is left.
merge_loop-Covers :
    (gap pc pb : ℕ) (run : Run) (i : ℕ) (p ids : Ids) (n : ℕ) {rs : List Run}
    → run.item + length p ≡ i
    → 0 < length p
    → All (IsIn run) p
    → (pc ≡ run.chunk) × (pb ≡ run.last) × (run.first ≤ run.last)
    → i + length ids ≡ n
    → merge_loop gap pc pb run i ids ≡ sz_ok rs
    → Covers (with_ends n rs) run.item (p ++ ids)
unfolding merge_loop
merge_loop-Covers gap pc pb run i p [] n {rs} e pos inside at m h =
    subst (λ t. Covers (with_ends n t) run.item (p ++ [])) (single rs h)
      (unfold with_ends in Covers-cons run [] n p [] (omega arith) pos (omega arith) inside refl)
merge_loop-Covers gap pc pb run i p ((c, b) ∷ ids) n {rs} e pos inside at m h =
    elim (Bool-cases (disordered pc pb c b)) [
      | inl bad ↦ absurd (ground arith)
      | inr good ↦ elim (Bool-cases (joins gap run c b)) [
        | inl join ↦
            let f = join_facts gap pc pb run c b good join at in
            subst (Covers (with_ends n rs) run.item) (append_assoc p ((c, b) ∷ []) ids) (
              merge_loop-Covers gap c b (record run { last = b }) (i + 1) (p ++ (c, b) ∷ []) ids n
                (omega (arith, length-append p ((c, b) ∷ [])))
                (omega (arith, length-append p ((c, b) ∷ [])))
                (All-append (IsIn (record run { last = b })) p ((c, b) ∷ [])
                  (All-map (IsIn run) (IsIn (record run { last = b }))
                    (IsIn-extended run b (omega arith)) p inside)
                  ((f.0, omega arith, omega arith), tt))
                (f.0, refl, f.2) (omega arith) (ground arith))
        | inr apart ↦
            apart_case gap run c b i n p ids rs e pos (omega arith) inside (ground arith) (λ t ht.
              merge_loop-Covers gap c b (new_run c b i) (i + 1) ((c, b) ∷ []) ids n (omega arith)
                (omega arith) ((refl, omega arith, omega arith), tt) (refl, refl, omega arith)
                (omega arith) ht)
      ]
    ]

-- If szfp_merge_ranges returns runs, at whatever gap, they cover the ids: the entries of each run,
-- from its item to the next one, are ids of its chunk between its first and its last block, and the
-- runs use up the list in order.
pub szfp_merge_ranges-Covers :
    (ids : Ids) (gap : ℕ) {rs : List Run}
    → szfp_merge_ranges ids gap ≡ sz_ok rs
    → Covers (with_ends (length ids) rs) 0 ids
unfolding szfp_merge_ranges with_ends
szfp_merge_ranges-Covers [] gap {rs} h =
    subst (λ t. Covers (with_ends 0 t) 0 []) (nothing rs h) refl
szfp_merge_ranges-Covers ((c, b) ∷ ids) gap h =
    merge_loop-Covers (gap % 2 ^ 64) c b (new_run c b 0) 1 ((c, b) ∷ []) ids (suc (length ids))
      (omega arith) (omega arith) ((refl, omega arith, omega arith), tt) (refl, refl, omega arith)
      (omega arith) h

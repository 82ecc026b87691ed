-- ===== src/Query/Read/Batches.antt =====
-- Reading in batches gives what reading one range after the other gives.
use skip_zfp.Prelude.{
  ℕ, zero, suc, ◌≤◌, ◌<◌, ◌≡◌, refl, sym, ap, ◌∙◌, false, List, [], ◌∷◌, ◌++◌, ◌*◌, ◌+◌, Error,
  Option-cases, inl, inr, Option, none, some, get_elem?, take-split, drop-drop, take-map, drop-map,
  subst, ap₂, map, leb, ◌==◌, length, length-drop, take, drop, take-append-drop, Result, ok, err,
  ◌>>=◌, sequence, pos, arith,
}
use mathlib.Core.Option.{some-injective}
use skip_zfp.Query.Merge.{Range}
use skip_zfp.Query.Read.{
  Store, failure_or, first_failure, gather_tasks, read_one, batched_rounds, batched, read_batches,
  read_ranges,
}

-- the results of two lists of calls, one after the other
abbrev both {ℓ} : {A : Type ℓ} → Result (List A) → Result (List A) → Result (List A)
both m n = m >>= λ xs. n >>= λ ys. ok (xs ++ ys)

both-cons {ℓ} :
    {A : Type ℓ} (a : A) (m n : Result (List A))
    → (both m n >>= λ r. ok (a ∷ r)) ≡ both (m >>= λ r. ok (a ∷ r)) n
both-cons a (err e) n = refl
both-cons a (ok xs) (err e) = refl
both-cons a (ok xs) (ok ys) = refl

both_nil {ℓ} : {A : Type ℓ} (n : Result (List A)) → both (ok []) n ≡ n
both_nil (err e) = refl
both_nil (ok ys) = refl

sequence-append {ℓ} :
    {A : Type ℓ} (ms ns : List (Result A)) → sequence (ms ++ ns) ≡ both (sequence ms) (sequence ns)
sequence-append [] ns = sym (both_nil (sequence ns))
sequence-append (err e ∷ ms) ns = refl
sequence-append (ok a ∷ ms) ns =
    ap (λ (t : Result (List _)). t >>= λ r. ok (a ∷ r)) (sequence-append ms ns)
    ∙ both-cons a (sequence ms) (sequence ns)

-- What the batches of `size` tasks make of all tasks: every result in order, or the error of a task
-- whose batch comes after batches without an error.
abbrev pub IsOutcome {ℓ} : {A : Type ℓ} → ℕ → List (Result A) → Result (List A) → Type ℓ
IsOutcome size tasks (ok out) = sequence tasks ≡ ok out
IsOutcome {A} size tasks (err e) =
    (n i : ℕ) × (done : List A) × (sequence (take (n * size) tasks) ≡ ok done)
    × (get_elem? (take size (drop (n * size) tasks)) i ≡ some (err e))

-- what one batch makes of its tasks
abbrev IsGathered {ℓ} : {A : Type ℓ} → List (Result A) → Result (List A) → Type ℓ
IsGathered tasks (ok out) = sequence tasks ≡ ok out
IsGathered tasks (err e) = (i : ℕ) × (get_elem? tasks i ≡ some (err e))

first_failure-IsGathered {ℓ} :
    {A : Type ℓ} (order : List ℕ) (tasks : List (Result A)) (e : Error)
    → first_failure order tasks ≡ some e
    → IsGathered tasks (err e)
unfolding first_failure
first_failure-IsGathered [] tasks e h = cc
first_failure-IsGathered (i ∷ order) tasks e h =
    let later = first_failure order tasks in
    elim (Option-cases (get_elem? tasks i)) [
      | inl missing ↦
          first_failure-IsGathered order tasks e
            (subst (λ o. failure_or o later ≡ some e) missing h)
      | inr (ok a, found) ↦
          first_failure-IsGathered order tasks e (subst (λ o. failure_or o later ≡ some e) found h)
      | inr (err f, found) ↦
          let same = some-injective f e (subst (λ o. failure_or o later ≡ some e) found h) in
          (i, found ∙ ap (λ t. some (err t)) same)
    ]

cons-IsGathered {ℓ} :
    {A : Type ℓ} (a : A) (tasks : List (Result A)) (m : Result (List A))
    → sequence tasks ≡ m
    → IsGathered tasks m
    → IsGathered (ok a ∷ tasks) (m >>= λ r. ok (a ∷ r))
cons-IsGathered a tasks (ok out) e h = ap (λ (t : Result (List _)). t >>= λ r. ok (a ∷ r)) h
cons-IsGathered a tasks (err f) e (i, h) = (suc i, h)

-- The tasks that the order does not name.
sequence-IsGathered {ℓ} : {A : Type ℓ} (tasks : List (Result A)) → IsGathered tasks (sequence tasks)
sequence-IsGathered [] = refl
sequence-IsGathered (err e ∷ tasks) = (0, refl)
sequence-IsGathered (ok a ∷ tasks) =
    cons-IsGathered a tasks (sequence tasks) refl (sequence-IsGathered tasks)

gather_tasks-IsGathered {ℓ} :
    {A : Type ℓ} (order : List ℕ) (tasks : List (Result A))
    → IsGathered tasks (gather_tasks order tasks)
unfolding gather_tasks
gather_tasks-IsGathered order tasks = elim (Option-cases (first_failure order tasks)) [
  | inl none_failed ↦ subst outcome (sym none_failed) (sequence-IsGathered tasks)
  | inr (e, failed) ↦ subst outcome (sym failed) (first_failure-IsGathered order tasks e failed)
]
  where
    outcome : Option Error → Type ℓ
    outcome o = IsGathered tasks (elim o [ some e ↦ err e | none ↦ sequence tasks ])

-- A batch, and the outcome of the batches after it.
both-IsOutcome {ℓ} :
    {A : Type ℓ} (size : ℕ) (tasks : List (Result A)) (m n : Result (List A))
    → IsGathered (take size tasks) m
    → IsOutcome size (drop size tasks) n
    → IsOutcome size tasks (both m n)
both-IsOutcome size tasks (err e) n (i, g) h =
    let none_before : 0 * size ≡ 0 = omega arith in
    (
      0,
      i,
      [],
      ap (λ (k : ℕ). sequence (take k tasks)) none_before,
      ap (λ (k : ℕ). get_elem? (take size (drop k tasks)) i) none_before ∙ g,
    )
both-IsOutcome size tasks (ok xs) (ok ys) g h =
    ap sequence (sym (take-append-drop size tasks))
    ∙ sequence-append (take size tasks) (drop size tasks)
    ∙ ap₂ both g h
both-IsOutcome size tasks (ok xs) (err e) g (k, i, done, h, failed) = (
  suc k,
  i,
  xs ++ done,
  ap sequence (ap (λ (t : ℕ). take t tasks) (omega arith) ∙ take-split size (k * size) tasks)
      ∙ sequence-append (take size tasks) (take (k * size) (drop size tasks))
      ∙ ap₂ both g h,
  ap (λ t. get_elem? (take size t) i)
        (sym (drop-drop size (k * size) (suc k * size) tasks (omega arith)))
      ∙ failed,
)

module _ (store : Store) where
  -- as many rounds as there are ranges are enough
  rounds :
      (n k : ℕ) (reqs : List Range) (size : ℕ)
      → 0 < size
      → length reqs ≤ n
      → IsOutcome size
          (map (read_one store) reqs)
          (read_batches store k (batched_rounds n reqs size))
  unfolding read_batches batched_rounds
  rounds zero k [] size p h = refl
  rounds zero k (x ∷ xs) size p h = absurd (omega arith)
  rounds (suc n) k [] size p h = refl
  rounds (suc n) k (x ∷ xs) zero p h = absurd (omega arith)
  rounds (suc n) k (x ∷ xs) (suc size) p h =
      let some_taken : (suc (length (take size xs)) == 0) ≡ false = ground arith in
      let reqs = x ∷ xs in
      let f = read_one store in
      let rest = read_batches store (k + 1) (batched_rounds n (drop size xs) (suc size)) in
      let later : IsOutcome (suc size) (drop (suc size) (map f reqs)) rest =
        subst (λ ts. IsOutcome (suc size) ts rest) (sym (drop-map f (suc size) reqs))
          (rounds n (k + 1) (drop size xs) (suc size) p (omega (arith, length-drop size xs))) in
      let first : IsGathered (take (suc size) (map f reqs))
          (gather_tasks (store.finish_order k) (map f (take (suc size) reqs))) =
        subst
          (λ ts. IsGathered ts (gather_tasks (store.finish_order k) (map f (take (suc size) reqs))))
          (sym (take-map f (suc size) reqs))
          (gather_tasks-IsGathered (store.finish_order k) (map f (take (suc size) reqs))) in
      let batch = gather_tasks (store.finish_order k) (map f (take (suc size) reqs)) in
      rw some_taken (both-IsOutcome (suc size) (map f reqs) batch rest first later)

  -- With a positive concurrency and a positive batch size, and whatever the order in which the
  -- reads of a batch finish: when read_ranges returns, it returns what reading the ranges one after
  -- the other returns, in their order. When it raises, the error is that of a read that fails, and
  -- every read of the batches before its own succeeds.
  pub read_ranges_lem :
      (reqs : List Range) (concurrency size : ℕ)
      → 0 < concurrency
      → 0 < size
      → IsOutcome size
          (map (read_one store) reqs)
          (read_ranges store reqs (pos concurrency) (pos size))
  unfolding read_ranges batched
  read_ranges_lem reqs zero size h p = absurd (omega arith)
  read_ranges_lem reqs (suc c) zero h p = absurd (omega arith)
  read_ranges_lem reqs (suc c) (suc k) h p =
      let c_ok : leb (suc c) 0 ≡ false = ground arith in
      let k_ok : leb (suc k) 0 ≡ false = ground arith in
      rw (c_ok, k_ok) (rounds (length reqs) 0 reqs (suc k) p (omega arith))

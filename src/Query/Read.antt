-- ===== src/Query/Read.antt =====
-- skipzfp/query.py: reading byte ranges (read_one, batched, read_ranges). The store is zarr's, an
-- interface. Tasks that only read it give the same bytes in any order; which of two failing reads
-- raises first depends on the order in which they finish, which is the store's too.
pub mod Batches
use Prim.Native.String.{String}
use skip_zfp.Prelude.{
  ℕ, zero, suc, ◌+◌, ◌≡◌, Option, none, some, List, [], ◌∷◌, ◌++◌, map, ◌==◌, if◌then◌else◌, length,
  take, drop, slice, get_elem?, Error, Result, ok, err, ◌>>=◌, ◌>>◌, raise_if, sequence,
  value_error, file_not_found, os_error, ℤ, is_nonpositive, pos_part,
}
use skip_zfp.Query.Merge.{Range}

-- zarr's store: `store.get(key)` and `store.get(key, byte_range=RangeByteRequest(start, end))`, and
-- the positions of the reads of a batch in the order in which they finish, for each number of a batch
pub record Store : Type 0 where
  pub get : String → Option (List ℕ)
  pub get_range : String → ℕ → ℕ → Option (List ℕ)
  pub finish_order : ℕ → List ℕ

-- A range read returns the part of the object that lies in the range, and nothing for a missing
-- object.
pub record IsLawful (store : Store) : Type 0 where
  pub get_range_of_some :
      (key : String) (object : List ℕ) (start end : ℕ)
      → store.get key ≡ some object
      → store.get_range key start end ≡ some (slice object start end)
  pub get_range_of_none :
      (key : String) (start end : ℕ) → store.get key ≡ none → store.get_range key start end ≡ none

-- The semaphore and the copy change when bytes arrive and where they lie, not which they are.
-- `len(data) != end - start` is written without the subtraction.
unfoldable pub read_one : Store → Range → Result (List ℕ)
read_one store req = elim (store.get_range req.key req.start req.end) [
  | none ↦ err (file_not_found req.key)
  | some buf ↦
      if req.start + length buf == req.end then ok buf else err (os_error "short range read")
]

-- `batched`: lists of up to `size` items. A round takes at least one item, so as many rounds as
-- there are items are enough.
unfoldable pub batched_rounds {ℓ} : {A : Type ℓ} → ℕ → List A → ℕ → List (List A)
batched_rounds zero items size = []
batched_rounds (suc n) [] size = []
batched_rounds (suc n) (x ∷ items) size =
    let batch = take size (x ∷ items) in
    if length batch == 0 then [] else batch ∷ batched_rounds n (drop size (x ∷ items)) size

unfoldable pub batched {ℓ} : {A : Type ℓ} → List A → ℕ → List (List A)
unfolding batched_rounds
batched items size = batched_rounds (length items) items size

-- the error of a task, or that of the tasks that finish later
abbrev pub failure_or {ℓ} : {A : Type ℓ} → Option (Result A) → Option Error → Option Error
failure_or none later = later
failure_or (some (err e)) later = some e
failure_or (some (ok a)) later = later

-- the error of the task that is the first to fail, along the order of finishing
unfoldable pub first_failure {ℓ} : {A : Type ℓ} → List ℕ → List (Result A) → Option Error
first_failure [] tasks = none
first_failure (i ∷ order) tasks = failure_or (get_elem? tasks i) (first_failure order tasks)

-- `asyncio.gather`: the results in the order of the tasks, or the first error in time. A task that
-- the order does not name finishes after the others.
unfoldable pub gather_tasks {ℓ} : {A : Type ℓ} → List ℕ → List (Result A) → Result (List A)
unfolding first_failure
gather_tasks order tasks = elim (first_failure order tasks) [
  | some e ↦ err e
  | none ↦ sequence tasks
]

-- `for batch in batched(...): out.extend(gather(...))`, from batch `n` on
unfoldable pub read_batches : Store → ℕ → List (List Range) → Result (List (List ℕ))
unfolding read_one gather_tasks
read_batches store n [] = ok []
read_batches store n (batch ∷ batches) = do
  parts ← gather_tasks (store.finish_order n) (map (read_one store) batch)
  rest ← read_batches store (n + 1) batches
  ok (parts ++ rest)

unfoldable pub read_ranges :
    Store → List Range → (concurrency batch_size : ℤ) → Result (List (List ℕ))
unfolding batched read_batches
read_ranges store reqs concurrency batch_size = do
  raise_if (is_nonpositive concurrency) (value_error "request_concurrency must be greater than 0")
  raise_if (is_nonpositive batch_size) (value_error "request_batch_size must be greater than 0")
  read_batches store 0 (batched reqs (pos_part batch_size))

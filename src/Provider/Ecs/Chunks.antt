-- ===== src/Provider/Ecs/Chunks.antt =====
-- provider/ecs/ecs.go: chunkedTaskArns, which cuts a slice into pieces of a hundred.
use traefik_release.Base.{
  ℕ, zero, suc, ◌+◌, ◌-◌, ◌≤◌, ◌<◌, ◌≡◌, refl, sym, ap, ◌∙◌, inl, inr, true, false, Option, none,
  some, List, [], ◌∷◌, ◌++◌, append-nil, arith, ltb, if◌then◌else◌, Bool-cases, length, take, drop,
  length-take, All,
}
use Prim.Native.Nat.{max}

module _ {A : Type 0} where
  -- tasks[i:j]
  unfoldable pub slice : ℕ → ℕ → List A → List A
  slice i j xs = take (j - i) (drop i xs)

  -- The loop over i, by the rounds that may be left; no result is that they run out.
  unfoldable pub chunks_from : ℕ → ℕ → List A → Option (List (List A))
  chunks_from zero i tasks = none
  chunks_from (suc rounds) i tasks = elim (ltb i (length tasks)) [
    | false ↦ some []
    | true ↦
        let slice_end = if ltb (i + 100) (length tasks) then i + 100 else length tasks in
        (elim (chunks_from rounds (i + 100) tasks) [
          | none ↦ none
          | some chunks ↦ some (slice i slice_end tasks ∷ chunks)
        ])
  ]

  unfoldable pub chunked_task_arns : List A → Option (List (List A))
  chunked_task_arns tasks = chunks_from (length tasks + 1) 0 tasks

  unfoldable pub joined : List (List A) → List A
  joined [] = []
  joined (chunk ∷ chunks) = chunk ++ joined chunks

  -- A piece has something in it, and not more than a hundred.
  abbrev pub IsChunk : List A → Type 0
  IsChunk chunk = (1 ≤ length chunk) × (length chunk ≤ 100)

  take-drop : (n : ℕ) (xs : List A) → take n xs ++ drop n xs ≡ xs
  take-drop zero xs = refl
  take-drop (suc n) [] = refl
  take-drop (suc n) (x ∷ xs) = ap (λ l. x ∷ l) (take-drop n xs)

  drop-drop : (i k j : ℕ) (xs : List A) → j ≡ i + k → drop k (drop i xs) ≡ drop j xs
  drop-drop zero k j xs e = let same : k ≡ j = omega arith in ap (λ n. drop n xs) same
  drop-drop (suc i) zero zero [] e = refl
  drop-drop (suc i) zero (suc j) [] e = refl
  drop-drop (suc i) (suc k) zero [] e = refl
  drop-drop (suc i) (suc k) (suc j) [] e = refl
  drop-drop (suc i) k zero (x ∷ xs) e = absurd (omega arith)
  drop-drop (suc i) k (suc j) (x ∷ xs) e = drop-drop i k j xs (omega arith)

  drop-all : (n : ℕ) (xs : List A) → length xs ≤ n → drop n xs ≡ []
  drop-all zero [] h = refl
  drop-all (suc n) [] h = refl
  drop-all zero (x ∷ xs) h = absurd (omega arith)
  drop-all (suc n) (x ∷ xs) h = drop-all n xs (omega arith)

  take-all : (n : ℕ) (xs : List A) → length xs ≤ n → take n xs ≡ xs
  take-all zero [] h = refl
  take-all (suc n) [] h = refl
  take-all zero (x ∷ xs) h = absurd (omega arith)
  take-all (suc n) (x ∷ xs) h = ap (λ l. x ∷ l) (take-all n xs (omega arith))

  length-drop : (n : ℕ) (xs : List A) → length (drop n xs) + n ≡ max (length xs) n
  length-drop zero xs = omega arith
  length-drop (suc n) [] = omega arith
  length-drop (suc n) (x ∷ xs) = omega (arith, length-drop n xs)

  abbrev slice_end : ℕ → List A → ℕ
  slice_end i tasks = if ltb (i + 100) (length tasks) then i + 100 else length tasks

  -- A slice with what is behind it is all that is left.
  slice-joined :
      (i : ℕ) (tasks : List A)
      → i < length tasks
      → slice i (slice_end i tasks) tasks ++ drop (i + 100) tasks ≡ drop i tasks
  unfolding slice
  slice-joined i tasks h = elim (Bool-cases (ltb (i + 100) (length tasks))) [
    | inl e ↦
        let hundred : i + 100 - i ≡ 100 = omega arith in
        rw (e, hundred, ← drop-drop i 100 (i + 100) tasks refl) (take-drop 100 (drop i tasks))
    | inr e ↦ rw e (
        ap (λ l. take (length tasks - i) (drop i tasks) ++ l)
          (drop-all (i + 100) tasks (ground arith))
        ∙ append-nil _
        ∙ take-all (length tasks - i) (drop i tasks) (omega (arith, length-drop i tasks)))
  ]

  slice-IsChunk :
      (i : ℕ) (tasks : List A) → i < length tasks → IsChunk (slice i (slice_end i tasks) tasks)
  unfolding slice
  slice-IsChunk i tasks h =
      ground (arith, length-take (slice_end i tasks - i) (drop i tasks), length-drop i tasks)

  -- What the loop gives from an index on.
  abbrev IsCut : List A → Option (List (List A)) → Type 0
  IsCut rest none = ⊥
  IsCut rest (some chunks) = (joined chunks ≡ rest) × All IsChunk chunks

  IsCut-cons :
      (chunk rest behind : List A) (o : Option (List (List A)))
      → IsChunk chunk
      → chunk ++ behind ≡ rest
      → IsCut behind o
      → IsCut rest (elim o [ none ↦ none | some chunks ↦ some (chunk ∷ chunks) ])
  unfolding joined
  IsCut-cons chunk rest behind none c e h = absurd h
  IsCut-cons chunk rest behind (some chunks) c e (j, a) = (ap (λ l. chunk ++ l) j ∙ e, (c, a))

  chunks_from-IsCut :
      (rounds i : ℕ) (tasks : List A)
      → 1 ≤ rounds
      → length tasks < rounds + i
      → IsCut (drop i tasks) (chunks_from rounds i tasks)
  unfolding chunks_from joined
  chunks_from-IsCut zero i tasks one h = absurd (omega arith)
  chunks_from-IsCut (suc rounds) i tasks one h = elim (Bool-cases (ltb i (length tasks))) [
    | inl e ↦
        rw (e, chunks_from)
          (IsCut-cons _ _ _ (chunks_from rounds (i + 100) tasks)
            (slice-IsChunk i tasks (ground arith)) (slice-joined i tasks (ground arith))
            (chunks_from-IsCut rounds (i + 100) tasks (ground arith) (omega arith)))
    | inr e ↦ rw (e, chunks_from) (sym (drop-all i tasks (ground arith)), tt)
  ]

  IsCut-cases :
      (rest : List A) (o : Option (List (List A)))
      → IsCut rest o
      → (chunks : List (List A)) × (o ≡ some chunks) × (joined chunks ≡ rest) × All IsChunk chunks
  IsCut-cases rest none h = absurd h
  IsCut-cases rest (some chunks) (j, a) = (chunks, refl, j, a)

  -- The loop ends, and its pieces make up the tasks: none is empty or holds more than a hundred.
  pub chunked_task_arns_lem :
      (tasks : List A)
      → (chunks : List (List A)) × (chunked_task_arns tasks ≡ some chunks)
        × (joined chunks ≡ tasks)
        × All IsChunk chunks
  unfolding chunked_task_arns
  chunked_task_arns_lem tasks =
      IsCut-cases tasks (chunks_from (length tasks + 1) 0 tasks)
        (chunks_from-IsCut (length tasks + 1) 0 tasks (omega arith) (omega arith))

-- ===== src/Provider/Slices.antt =====
-- provider/provider.go: ReverseStringSlice, which swaps the elements of a slice in place.
use traefik_release.Base.{
  ℕ, zero, suc, ◌+◌, ◌-◌, ◌<◌, ◌≡◌, refl, sym, ap, ◌∙◌, ◌⊎◌, inl, inr, true, false, Option, none,
  some, List, [], ◌∷◌, ◌++◌, reverse, append-nil, append_assoc, arith, ltb, length, length-append,
}
use mathlib.Core.List.{reverse-append, reverse-cons}

module _ {ℓ} {A : Type ℓ} where
  unfoldable pub get_elem? : List A → ℕ → Option A
  get_elem? [] i = none
  get_elem? (x ∷ xs) zero = some x
  get_elem? (x ∷ xs) (suc i) = get_elem? xs i

  unfoldable pub set : List A → ℕ → A → List A
  set [] i v = []
  set (x ∷ xs) zero v = v ∷ xs
  set (x ∷ xs) (suc i) v = x ∷ set xs i v

  -- s[i], s[j] = s[j], s[i]; no result is the panic of an index out of range.
  unfoldable pub exchange : List A → ℕ → ℕ → Option A → Option A → Option (List A)
  exchange xs i j (some a) (some b) = some (set (set xs i b) j a)
  exchange xs i j none b = none
  exchange xs i j (some a) none = none

  unfoldable pub swap : List A → ℕ → ℕ → Option (List A)
  swap xs i j = exchange xs i j (get_elem? xs i) (get_elem? xs j)

  -- The loop, by the rounds that may be left; it has no result where they run out.
  unfoldable pub reverse_loop : ℕ → ℕ → ℕ → List A → Option (List A)
  reverse_loop zero i j xs = none
  reverse_loop (suc rounds) i j xs = elim (ltb i j) [
    | false ↦ some xs
    | true ↦ elim (swap xs i j) [ none ↦ none | some ys ↦ reverse_loop rounds (i + 1) (j - 1) ys ]
  ]

  -- The last index of an empty slice is -1, and the loop ends at once as it does at 0.
  unfoldable pub reverse_slice : List A → Option (List A)
  reverse_slice xs = reverse_loop (length xs + 1) 0 (length xs - 1) xs

  pub get_elem?-middle :
      (p : List A) (x : A) (r : List A) → get_elem? (p ++ x ∷ r) (length p) ≡ some x
  unfolding get_elem?
  get_elem?-middle [] x r = refl
  get_elem?-middle (y ∷ p) x r = get_elem?-middle p x r

  set-middle : (p : List A) (x v : A) (r : List A) → set (p ++ x ∷ r) (length p) v ≡ p ++ v ∷ r
  unfolding set
  set-middle [] x v r = refl
  set-middle (y ∷ p) x v r = ap (λ l. y ∷ l) (set-middle p x v r)

  -- Two elements with `m` between them change places.
  swap-ends :
      (p : List A) (a : A) (m : List A) (b : A) (s : List A) (j : ℕ)
      → j ≡ length p + length m + 1
      → swap (p ++ a ∷ (m ++ b ∷ s)) (length p) j ≡ some (p ++ b ∷ (m ++ a ∷ s))
  unfolding swap exchange
  swap-ends p a m b s j e =
      let at : (c : A) → length (p ++ c ∷ m) ≡ j =
        λ c. length-append p (c ∷ m) ∙ omega (arith, e) in
      let grouped : (c d : A) → p ++ c ∷ (m ++ d ∷ s) ≡ (p ++ c ∷ m) ++ d ∷ s =
        λ c d. sym (append_assoc p (c ∷ m) (d ∷ s)) in
      let last : get_elem? (p ++ a ∷ (m ++ b ∷ s)) j ≡ some b =
        rw (grouped a b, ← at a) (get_elem?-middle (p ++ a ∷ m) b s) in
      let ended : set (p ++ b ∷ (m ++ b ∷ s)) j a ≡ p ++ b ∷ (m ++ a ∷ s) =
        rw (grouped b b, grouped b a, ← at b) (set-middle (p ++ b ∷ m) b a s) in
      rw (get_elem?-middle p a (m ++ b ∷ s), last, exchange, set-middle p a b (m ++ b ∷ s), ended)

  -- A list is empty or has a last element.
  last_cases : (m : List A) → (m ≡ []) ⊎ ((q : List A × A) × (m ≡ q.0 ++ q.1 ∷ []))
  last_cases [] = inl refl
  last_cases (a ∷ m) = elim (last_cases m) [
    | inl e ↦ inr (([], a), ap (λ l. a ∷ l) e)
    | inr (q, e) ↦ inr ((a ∷ q.0, q.1), ap (λ l. a ∷ l) e)
  ]

  reverse_ends :
      (a : A) (m : List A) (b : A) → reverse (a ∷ (m ++ b ∷ [])) ≡ b ∷ (reverse m ++ a ∷ [])
  reverse_ends a m b =
      reverse-cons a (m ++ b ∷ []) ∙ ap (λ l. l ++ a ∷ []) (reverse-append m (b ∷ []))

  reverse-ends :
      (p : List A) (a : A) (m : List A) (b : A) (s : List A)
      → (p ++ b ∷ []) ++ (reverse m ++ (a ∷ s)) ≡ p ++ (reverse (a ∷ (m ++ b ∷ [])) ++ s)
  reverse-ends p a m b s =
      ap (λ l. (p ++ b ∷ []) ++ l) (sym (append_assoc (reverse m) (a ∷ []) s))
      ∙ append_assoc p (b ∷ []) ((reverse m ++ a ∷ []) ++ s)
      ∙ ap (λ l. p ++ (l ++ s)) (sym (reverse_ends a m b))

  reverse_loop-swap :
      (rounds i j : ℕ) (xs ys : List A)
      → ltb i j ≡ true
      → swap xs i j ≡ some ys
      → reverse_loop (suc rounds) i j xs ≡ reverse_loop rounds (i + 1) (j - 1) ys
  unfolding reverse_loop
  reverse_loop-swap rounds i j xs ys more e = rw (more, e, reverse_loop)

  -- What lies between `i` and `j` is reversed, and the rest stays.
  reverse_loop-middle :
      (rounds : ℕ) (p m s : List A) (i j : ℕ)
      → length m < rounds
      → i ≡ length p
      → j ≡ length p + length m - 1
      → reverse_loop rounds i j (p ++ (m ++ s)) ≡ some (p ++ (reverse m ++ s))
  unfolding reverse_loop
  reverse_loop-middle zero p m s i j h ei ej = absurd (omega arith)
  reverse_loop-middle (suc rounds) p [] s i j h ei ej =
      let done : ltb i j ≡ false = ground arith in rw (done, reverse_loop)
  reverse_loop-middle (suc rounds) p (a ∷ m) s i j h ei ej = elim (last_cases m) [
    | inl e ↦
        let done : ltb i j ≡ false = ground (arith, ap length e) in
        rw (e, done, reverse_loop) (ap (λ l. some (p ++ a ∷ (l ++ s))) e)
    | inr (q, e) ↦
        let size : length m ≡ length q.0 + 1 = ap length e ∙ length-append q.0 (q.1 ∷ []) in
        let more : ltb i j ≡ true = ground arith in
        let list : p ++ ((a ∷ m) ++ s) ≡ p ++ a ∷ (q.0 ++ q.1 ∷ s) =
          rw (e, append_assoc q.0 (q.1 ∷ []) s) in
        let swapped = swap-ends p a q.0 q.1 s j (omega arith) in
        let rest =
          reverse_loop-middle rounds (p ++ q.1 ∷ []) q.0 (a ∷ s) (i + 1) (j - 1) (omega arith)
            (omega (arith, length-append p (q.1 ∷ [])))
            (omega (arith, length-append p (q.1 ∷ []))) in
        let moved : (p ++ q.1 ∷ []) ++ (q.0 ++ a ∷ s) ≡ p ++ q.1 ∷ (q.0 ++ a ∷ s) =
          append_assoc p (q.1 ∷ []) (q.0 ++ a ∷ s) in
        ap (reverse_loop (suc rounds) i j) list
        ∙ reverse_loop-swap rounds i j _ _ more (rw ei swapped)
        ∙ ap (reverse_loop rounds (i + 1) (j - 1)) (sym moved)
        ∙ rest
        ∙ ap some (reverse-ends p a q.0 q.1 s)
        ∙ ap (λ l. some (p ++ (reverse (a ∷ l) ++ s))) (sym e)
  ]

  -- The slice is reversed: no index leaves it, and the rounds are enough.
  pub reverse_slice-reverse : (xs : List A) → reverse_slice xs ≡ some (reverse xs)
  unfolding reverse_slice
  reverse_slice-reverse xs =
      ap (reverse_loop (length xs + 1) 0 (length xs - 1)) (sym (append-nil xs))
      ∙ reverse_loop-middle (length xs + 1) [] xs [] 0 (length xs - 1) (omega arith) refl
          (omega arith)
      ∙ ap some (append-nil (reverse xs))

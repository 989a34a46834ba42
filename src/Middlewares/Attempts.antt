-- ===== src/Middlewares/Attempts.antt =====
-- middlewares/retry.go: how often the next handler is called, and what the client gets.
use traefik_release.Base.{
  ℕ, zero, suc, ◌+◌, ◌≤◌, ◌<◌, ◌≡◌, refl, ◌⊎◌, inl, inr, true, false, some, arith, ltb, leb,
  Bool-cases,
}
use native.Mathlib.Numerals.{add-one}
use traefik_release.Middlewares.Retry.{
  ResponseRecorder, new_recorder, is_network_error, World, retry_loop, retry,
}

module _ {S : Type 0} (w : World S) where
  -- `Attempts n s t r`: n attempts in a row from `s`, of which all but the last met a network error;
  -- the last left the state `t` and the answer `r`.
  pub data Attempts : ℕ → S → S → ResponseRecorder → Type 0 where
    last : {s t : S} {r : ResponseRecorder} → w.next new_recorder s ≡ (t, r) → Attempts 1 s t r
    more :
        {n : ℕ} {s u t : S} {q r : ResponseRecorder}
        → w.next new_recorder s ≡ (u, q)
        → is_network_error q.code ≡ true
        → Attempts n u t r
        → Attempts (suc n) s t r

  -- The loop ends after n attempts, because the last met no network error or was the last allowed.
  pub record Ended (limit begun : ℕ) (s out : S) : Type 0 where
    pub count : ℕ
    pub final : S
    pub answer : ResponseRecorder
    pub ran : Attempts count s final answer
    pub stopped : (is_network_error answer.code ≡ false) ⊎ (limit ≤ begun + count)
    pub few : (count ≡ 1) ⊎ (begun + count ≤ limit)
    pub delivered : out ≡ w.deliver answer final

  Ended-more :
      (limit begun : ℕ) (s u out : S) (q : ResponseRecorder)
      → w.next new_recorder s ≡ (u, q)
      → is_network_error q.code ≡ true
      → suc begun < limit
      → Ended limit (suc begun) u out
      → Ended limit begun s out
  Ended-more limit begun s u out q e net lt d = record {
    count = suc d.count;
    final = d.final;
    answer = d.answer;
    ran = more e net d.ran;
    stopped = elim d.stopped [ inl x ↦ inl x | inr x ↦ inr (omega arith) ];
    few = inr (elim d.few [ inl x ↦ omega arith | inr x ↦ omega arith ]);
    delivered = d.delivered;
  }

  retry_loop-Ended :
      (fuel limit begun : ℕ) (s : S)
      → 0 < fuel
      → limit ≤ begun + fuel
      → (out : S) × (retry_loop w fuel limit (suc begun) s ≡ some out) × Ended limit begun s out
  unfolding retry_loop
  retry_loop-Ended zero limit begun s pos h = absurd (omega arith)
  retry_loop-Ended (suc fuel) limit begun s pos h =
      let (u, q) = w.next new_recorder s in
      elim (Bool-cases (is_network_error (w.next new_recorder s).1.code)) [
        | inl net ↦ elim (Bool-cases (leb limit (suc begun))) [
          | inl stop ↦ (
            w.deliver q u,
            rw (net, stop),
            record {
              count = 1;
              final = u;
              answer = q;
              ran = last refl;
              stopped = inr (ground arith);
              few = inl refl;
              delivered = refl;
            },
          )
          | inr go ↦
              let (out, e, d) =
                retry_loop-Ended fuel limit (suc begun) u (ground arith) (omega arith) in
              (
                out,
                rw (net, go, add-one) e,
                Ended-more limit begun s u out q refl net (ground arith) d,
              )
        ]
        | inr fine ↦ (
          w.deliver q u,
          rw fine,
          record {
            count = 1;
            final = u;
            answer = q;
            ran = last refl;
            stopped = inl fine;
            few = inl refl;
            delivered = refl;
          },
        )
      ]

  -- Retrying ends, and gives the client one answer: that of the first attempt without a network
  -- error, or that of the last attempt if all that are allowed met one. The count of attempts is 1
  -- or at most the limit. With more than one attempt allowed the request's body is kept open for
  -- the attempts and closed at the end.
  pub retry-Ended :
      (limit : ℕ) (s : S)
      → ((limit ≤ 1) × ((out : S) × (retry w limit s ≡ some out) × Ended limit 0 s out))
        ⊎ ((1 < limit)
            × ((out : S) × (retry w limit s ≡ some (w.close_body out))
                × Ended limit 0 (w.keep_body s) out))
  unfolding retry
  retry-Ended limit s = elim (Bool-cases (ltb 1 limit)) [
    | inl many ↦
        let (out, e, d) =
          retry_loop-Ended (suc limit) limit 0 (w.keep_body s) (omega arith) (omega arith) in
        inr (ground arith, (out, rw (many, add-one, e), d))
    | inr one ↦
        let (out, e, d) = retry_loop-Ended (suc limit) limit 0 s (omega arith) (omega arith) in
        inl (ground arith, (out, rw (one, add-one) e, d))
  ]

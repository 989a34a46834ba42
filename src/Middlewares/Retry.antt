-- ===== src/Middlewares/Retry.antt =====
-- middlewares/retry.go: the retrying handler and its response recorder. What lies outside (the next
-- handler, the request's body, the response writer) acts on a state `S`.
use mathlib.Core.Option
use traefik_release.Base.{
  ℕ, zero, suc, ◌+◌, Bool, not, ◌||◌, Option, none, some, List, [], ◌++◌, ltb, leb, ◌==◌,
  if◌then◌else◌, length, Text, Dict,
}

-- ResponseRecorder; `err` is the error of the last Flush that failed.
pub record ResponseRecorder : Type 0 where
  pub code : ℕ
  pub header : Dict (List Text)
  pub body : Text
  pub err : Option Text

-- NewRecorder
unfoldable pub new_recorder : ResponseRecorder
new_recorder = record { code = 200; header = []; body = []; err = none }

-- Write: the number of bytes written, or the error that an earlier Flush left.
unfoldable pub write : Text → ResponseRecorder → ResponseRecorder × (ℕ × Option Text)
write buf rw = elim rw.err [
  | some e ↦ (rw, (0, some e))
  | none ↦ (record rw { body = rw.body ++ buf }, (length buf, none))
]

-- WriteHeader
unfoldable pub write_header : ℕ → ResponseRecorder → ResponseRecorder
write_header code rw = record rw { code = code }

-- Flush: the body goes to the writer behind the recorder, which answers with its new state and
-- perhaps an error; the recorder's body is emptied. `flush` is http.Flusher's, if it is one.
unfoldable pub flush_recorder {ℓ} :
    {W : Type ℓ}
    → (Text → W → W × Option Text)
    → (W → W)
    → W
    → ResponseRecorder
    → W × ResponseRecorder
flush_recorder write_to flush w rw =
    let (w', failed) = write_to rw.body w in
    elim failed [
      | some e ↦ (flush w', record rw { body = []; err = some e })
      | none ↦ (flush w', record rw { body = [] })
    ]

unfoldable pub is_network_error : ℕ → Bool
is_network_error status = (status == 502) || (status == 504)

-- The world that a request runs in.
pub record World (S : Type 0) : Type 0 where
  -- next.ServeHTTP(recorder, r)
  pub next : ResponseRecorder → S → S × ResponseRecorder
  -- r.Body = ioutil.NopCloser(body), and the deferred body.Close()
  pub keep_body : S → S
  pub close_body : S → S
  -- CopyHeaders, WriteHeader and Write on the client's writer
  pub deliver : ResponseRecorder → S → S

module _ {S : Type 0} (w : World S) where
  -- The loop of ServeHTTP on fuel: `attempts` have been begun.
  unfoldable pub retry_loop : ℕ → ℕ → ℕ → S → Option S
  retry_loop zero limit attempts s = none
  retry_loop (suc fuel) limit attempts s =
      let result = w.next new_recorder s in
      let again = retry_loop fuel limit (attempts + 1) result.0 in
      if not (is_network_error (result.1).code) || leb limit attempts
      then some (w.deliver result.1 result.0)
      else again

  -- ServeHTTP of a Retry with `limit` attempts.
  unfoldable pub retry : ℕ → S → Option S
  retry limit s =
      if ltb 1 limit
      then Option.map w.close_body (retry_loop (limit + 1) limit 1 (w.keep_body s))
      else retry_loop (limit + 1) limit 1 s

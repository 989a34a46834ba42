-- ===== src/Rules/HostPort.antt =====
-- net.SplitHostPort, which the matcher of `Host` calls: the host and the port of "host:port" or
-- "[host]:port"; `none` is any of its errors.
use traefik_release.Base.{
  ℕ, Bool, not, ◌&&◌, ◌||◌, Option, none, some, [], ◌∷◌, ◌==◌, if◌then◌else◌, any, Text, cut,
}

-- The texts before and behind the last colon.
unfoldable pub cut_last_colon : Text → Option (Text × Text)
cut_last_colon [] = none
cut_last_colon (c ∷ s) = elim (cut_last_colon s) [
  | some (a, b) ↦ some (c ∷ a, b)
  | none ↦ if c == b':' then some ([], s) else none
]

unfoldable pub has : ℕ → Text → Bool
has c s = any (λ d. d == c) s

-- Behind "[": the host ends at the first "]", and one colon and the port are all that follows.
unfoldable pub split_bracketed : Text → Option (Text × Text)
split_bracketed s = elim (cut (b']' ∷ []) s) [
  | some (name, c ∷ port) ↦
      if (c == b':')
        && not (has b':' port)
        && not (has b'[' name || has b'[' port)
        && not (has b']' port)
      then some (name, port)
      else none
  | _ ↦ none
]

unfoldable pub split_plain : Text → Option (Text × Text)
split_plain s = elim (cut_last_colon s) [
  | some (name, port) ↦
      if has b':' name || has b'[' s || has b']' s then none else some (name, port)
  | none ↦ none
]

unfoldable pub split_host_port : Text → Option (Text × Text)
split_host_port [] = none
split_host_port (c ∷ s) = if c == b'[' then split_bracketed s else split_plain (c ∷ s)

-- ===== src/Server/Redirects.antt =====
-- server/server.go, loadEntryPointConfig: the redirection of an entry point to another or to a URL.
-- Whether the redirection library takes an expression is a parameter.
use traefik_release.Base.{
  ℕ, ◌≡◌, refl, ◌≢◌, Bool, true, false, not, ◌&&◌, Option, none, some, [], ◌∷◌, ◌++◌, leb, ◌==◌,
  if◌then◌else◌, All, Text, txt, is_empty, Dict, lookup,
}
use traefik_release.Server.Entries.{Tls, Redirect, EntryPoint}

-- The redirection that the library makes: a regular expression and what it is replaced by.
pub record Rewrite : Type 0 where
  pub regex : Text
  pub replacement : Text

pub data Redirected : Type 0 where
  unknown_entry_point bad_address bad_rewrite : Text → Redirected
  redirect_to : Rewrite → Redirected

abbrev pub is_digit : ℕ → Bool
is_digit c = leb b'0' c && leb c b'9'

unfoldable pub leading_digits : Text → Text
leading_digits [] = []
leading_digits (c ∷ s) = let more = leading_digits s in if is_digit c then c ∷ more else []

-- The leftmost match of the regular expression (:\d+).
unfoldable pub find_port : Text → Option Text
find_port [] = none
find_port (c ∷ s) =
    let later = find_port s in
    if (c == b':') && not (is_empty (leading_digits s)) then some (c ∷ leading_digits s) else later

abbrev pub any_address : Text
any_address = txt "^(?:https?:\\/\\/)?([\\w\\._-]+)(?::\\d+)?(.*)$"

abbrev pub protocol_of : Option Tls → Text
protocol_of none = txt "http"
protocol_of (some _) = txt "https"

module _ (rewrite_ok : Text → Text → Bool) where
  -- middlewares.NewRewrite
  unfoldable pub new_rewrite : Text → Text → Redirected
  new_rewrite regex replacement =
      if rewrite_ok regex replacement
      then redirect_to (record { regex = regex; replacement = replacement })
      else bad_rewrite regex

  unfoldable pub redirect_to_port : EntryPoint → Redirected
  redirect_to_port target = elim (find_port target.address) [
    | none ↦ bad_address target.address
    | some port ↦
        new_rewrite any_address (protocol_of target.tls ++ (txt "://$1" ++ (port ++ txt "$2")))
  ]

  -- loadEntryPointConfig of an entry point with a redirection
  unfoldable pub load_entry_point_config : Dict EntryPoint → Redirect → Redirected
  load_entry_point_config eps r =
      if is_empty r.entry_point
      then new_rewrite r.regex r.replacement
      else elim (lookup r.entry_point eps) [
        | none ↦ unknown_entry_point r.entry_point
        | some target ↦ redirect_to_port target
      ]

-- The text does not begin with a digit.
abbrev pub EndsNumber : Text → Type 0
EndsNumber [] = Unit
EndsNumber (c ∷ s) = is_digit c ≡ false

leading_digits-append :
    (ds rest : Text)
    → All (λ c. is_digit c ≡ true) ds
    → EndsNumber rest
    → leading_digits (ds ++ rest) ≡ ds
unfolding leading_digits
leading_digits-append [] [] h e = refl
leading_digits-append [] (c ∷ rest) h e = rw e
leading_digits-append (d ∷ ds) rest (p, h) e = rw (p, leading_digits-append ds rest h e)

find_port-append :
    (host ds rest : Text)
    → All (λ c. (c == b':') ≡ false) host
    → ds ≢ []
    → All (λ c. is_digit c ≡ true) ds
    → EndsNumber rest
    → find_port (host ++ (b':' ∷ (ds ++ rest))) ≡ some (b':' ∷ ds)
unfolding find_port is_empty
find_port-append [] [] rest h ne d e = absurd (ne refl)
find_port-append [] (c ∷ ds) rest h ne d e = rw (leading_digits-append (c ∷ ds) rest d e)
find_port-append (c ∷ host) ds rest (p, h) ne d e = rw p (find_port-append host ds rest h ne d e)

is_empty-ne_nil : (t : Text) → t ≢ [] → is_empty t ≡ false
unfolding is_empty
is_empty-ne_nil [] ne = absurd (ne refl)
is_empty-ne_nil (c ∷ t) ne = refl

-- A redirection to an entry point that is there replaces the host's port by the digits behind the
-- first colon of its address, and the protocol by https if the entry point has TLS and http if not,
-- whatever stands behind those digits; the redirection library takes the expression.
pub load_entry_point_config-port :
    (ok : Text → Text → Bool) (eps : Dict EntryPoint) (r : Redirect) (target : EntryPoint)
    (host ds rest : Text)
    → r.entry_point ≢ []
    → lookup r.entry_point eps ≡ some target
    → target.address ≡ host ++ (b':' ∷ (ds ++ rest))
    → All (λ c. (c == b':') ≡ false) host
    → ds ≢ []
    → All (λ c. is_digit c ≡ true) ds
    → EndsNumber rest
    → ((regex replacement : Text) → ok regex replacement ≡ true)
    → load_entry_point_config ok eps r
      ≡ redirect_to (record {
        regex = any_address;
        replacement = protocol_of target.tls ++ (txt "://$1" ++ ((b':' ∷ ds) ++ txt "$2"));
      })
unfolding load_entry_point_config redirect_to_port new_rewrite
load_entry_point_config-port ok eps r target host ds rest ne found address h nd d e takes =
    rw (is_empty-ne_nil r.entry_point ne, found, load_entry_point_config, redirect_to_port, address)
      (rw (find_port-append host ds rest h nd d e, redirect_to_port) (rw (takes any_address _)))

-- ===== src/Health/Examples.antt =====
-- Health checks on concrete inputs.
use traefik_release.Base.{
  ℕ, ◌≡◌, refl, Bool, true, false, not, ◌&&◌, List, [], ◌∷◌, ◌++◌, map, arith, if◌then◌else◌, keep,
  any, Text, txt, eqt, eqt_iff, Dict, keys, IsDistinct,
}
use traefik_release.Health.Checks.{
  Balancer, BackendHealthCheck, check_backend, new_health_check, set_backends_configuration, live,
  set_all,
}
use traefik_release.Health.Rounds.{healthy, unhealthy, check_backend-splits}
use traefik_release.Health.Routines.{live_after_set}

-- A balancer with its servers in a list and their weights in a function.
abbrev Pool : Type 0
Pool = record { urls : List Text; weigh : Text → ℕ }

abbrev listed : Balancer
listed = record {
  State = Pool;
  servers = λ s. s.urls;
  weight = λ s. s.weigh;
  upsert_server = λ u w s. record {
    urls = if any (eqt u) s.urls then s.urls else s.urls ++ u ∷ [];
    weigh = λ v. if eqt u v then w else s.weigh v;
  };
  remove_server = λ u s. record {
    urls = keep (λ v. not (eqt u v)) s.urls;
    weigh = λ v. if eqt u v then 0 else s.weigh v;
  };
  servers-upsert = λ u w s. refl;
  servers-remove = λ u s. refl;
  weight-upsert = λ u v w s. refl;
  weight-remove = λ u v s. refl;
}

abbrev pool : Pool
pool = record { urls = txt "a" ∷ txt "b" ∷ []; weigh = λ u. 5 }

abbrev checked : BackendHealthCheck listed
checked = record {
  path = txt "/health";
  interval = 30;
  disabled = txt "c" ∷ txt "d" ∷ [];
  lb = pool;
}

-- "b" and "d" are down.
abbrev is_up : Text → Bool
is_up u = not (eqt u (txt "b")) && not (eqt u (txt "d"))

checked-IsDistinct : IsDistinct ((txt "a" ∷ txt "b" ∷ []) ++ txt "c" ∷ txt "d" ∷ [])
checked-IsDistinct u =
    ground
      (arith, eqt_iff u (txt "a"), eqt_iff u (txt "b"), eqt_iff u (txt "c"), eqt_iff u (txt "d"))

check_backend-splits_example :
    ((check_backend listed is_up checked).lb.urls
      ≡ healthy listed is_up (txt "a" ∷ txt "b" ∷ [])
        ++ healthy listed is_up (txt "c" ∷ txt "d" ∷ []))
    × ((check_backend listed is_up checked).disabled
        ≡ unhealthy listed is_up (txt "c" ∷ txt "d" ∷ [])
          ++ unhealthy listed is_up (txt "a" ∷ txt "b" ∷ []))
check_backend-splits_example = check_backend-splits listed is_up checked checked-IsDistinct

abbrev one : Dict Bool
one = (txt "b1", true) ∷ []

abbrev two : Dict Bool
two = (txt "b1", true) ∷ (txt "b2", false) ∷ []

live_after_set_example :
    map
      (λ r. r.1)
      (live (set_backends_configuration two (set_all (one ∷ one ∷ []) (new_health_check Bool))))
    ≡ keys two
live_after_set_example = live_after_set (one ∷ one ∷ []) two

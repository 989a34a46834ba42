-- ===== src/Server/Entrances.antt =====
-- server/server.go, loadConfig: the entry points of the routers that it makes.
use traefik_release.Base.{
  ◌≡◌, refl, ap, ◌∙◌, inl, inr, some, List, [], ◌∷◌, Bool-cases, Option-cases, Text, eqt, eqt_iff,
  Dict, lookup, insert, keys,
}
use traefik_release.Rules.Route.{Mux}
use traefik_release.Server.Config.{Configuration}
use traefik_release.Server.Entries.{EntryPoint, Global}
use traefik_release.Server.Loading.{Libraries, Wired, Loading, build_entry_points, start_loading}
use traefik_release.Server.Keeping.{find_redirect-Keeps, find_handler-Finds}
use traefik_release.Server.LoadSteps.{push_route, sort_routers, load_config}
use traefik_release.Server.LoadInduction.{after_load_config}

pub keys-insert {ℓ} :
    {V : Type ℓ} (k : Text) (v w : V) (m : Dict V)
    → lookup k m ≡ some w
    → keys (insert k v m) ≡ keys m
unfolding lookup insert
keys-insert k v w [] h = cc
keys-insert k v w ((j, u) ∷ m) h = elim (Bool-cases (eqt j k)) [
  | inl e ↦ rw e (cc ((eqt_iff j k).0 e))
  | inr e ↦ rw e (cc (keys-insert k v w m (rw e at h)))
]

pub keys-build_entry_points :
    (Route : Type 0) (eps : Dict EntryPoint)
    → keys (build_entry_points {Route = Route} eps) ≡ keys eps
unfolding build_entry_points
keys-build_entry_points Route [] = refl
keys-build_entry_points Route ((name, e) ∷ eps) =
    ap (λ ns. name ∷ ns) (keys-build_entry_points Route eps)

module _ (m : Mux) (new_route : Text → m.Route) (lib : Libraries) (g : Global) where
  open m use {Route}

  HasEntrances : Loading Route → Type 0
  HasEntrances s = keys s.routers ≡ keys g.entry_points

  push_route-HasEntrances :
      (ep : Text) (w : Wired Route) (s : Loading Route)
      → HasEntrances s
      → HasEntrances (push_route m new_route lib g ep w s)
  unfolding push_route HasEntrances
  push_route-HasEntrances ep w s inv = elim (Option-cases (lookup ep s.routers)) [
    | inl e ↦ rw (e, push_route) inv
    | inr (ws, e) ↦ rw (e, push_route) (keys-insert ep _ ws s.routers e ∙ inv)
  ]

  keys-sort_routers :
      (sort : List (Wired Route) → List (Wired Route)) (rs : Dict (List (Wired Route)))
      → keys (sort_routers m new_route lib g sort rs) ≡ keys rs
  unfolding sort_routers
  keys-sort_routers sort [] = refl
  keys-sort_routers sort ((ep, ws) ∷ rs) = cc (keys-sort_routers sort rs)

  -- What is loaded without a panic has a router for each entry point of the static configuration and
  -- no other, in their order.
  pub keys-load_config :
      (sort : List (Wired Route) → List (Wired Route)) (cs : Dict Configuration)
      (loaded : Loading Route)
      → load_config m new_route lib g sort cs ≡ some loaded
      → keys loaded.routers ≡ keys g.entry_points
  unfolding start_loading HasEntrances
  keys-load_config sort cs loaded e =
      let (s, inv, same) =
        after_load_config m new_route lib g (λ name ep f backends. Unit {0}) HasEntrances
          (λ ep name f backends w s u n k inv. push_route-HasEntrances ep w s inv)
          (λ ep r s inv. ap keys (find_redirect-Keeps lib g ep r s).routers ∙ inv)
          (λ ep name f backends r s u inv.
            ap keys (find_handler-Finds lib g ep name f backends r s).routers ∙ inv)
          sort cs loaded (λ p i name ep f e j. tt) (keys-build_entry_points Route g.entry_points)
          e in
      rw same (keys-sort_routers sort s.routers ∙ inv)

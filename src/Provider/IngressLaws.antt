-- ===== src/Provider/IngressLaws.antt =====
-- provider/kubernetes/kubernetes.go, loadIngresses: what the frontends of ingresses are.
use traefik_release.Base.{
  ◌≡◌, refl, subst, inl, inr, Bool, some, List, [], ◌∷◌, ◌++◌, Bool-cases, Option-cases, Text, txt,
  Dict, lookup, lookup-insert_self,
}
use mathlib.Core.List.{Memᴰ}
use traefik_release.Server.Config.{Frontend}
use traefik_release.Provider.Cluster.{
  IngressPath, IngressRule, Ingress, Client, annotation, should_process_ingress,
  handle_basic_auth_config,
}
use traefik_release.Provider.Services.{Templates, no_templates, backend_at}
use traefik_release.Provider.Ingresses.{
  custom_realm, new_frontend, with_frontend, find_frontend, load_path, load_paths, load_rule,
  load_rules, load_ingress, load_from, load_ingresses,
}
use traefik_release.Provider.IngressUsers.{
  handle_basic_auth_config-ne-nil, IsServed, HasBackend, AreServed, AreServed-backend,
  AreServed-frontend, Serves, use_service-Serves,
}

module _ (k : Client) (disabled : Bool) (ingresses : List Ingress) where
  IsServed-routes :
      (key : Text) (f : Frontend) (routes : Dict Text)
      → IsServed k ingresses key f
      → IsServed k ingresses key (record f { routes = routes })
  IsServed-routes key f routes s = record {
    backend = s.backend;
    ingress = s.ingress;
    member = s.member;
    rule = s.rule;
    rule_member = s.rule_member;
    paths = s.paths;
    http = s.http;
    path = s.path;
    path_member = s.path_member;
    key_joins = s.key_joins;
    users = s.users;
    protected = s.protected;
  }

  -- The host is that of a rule of the ingress, which is one of the list, and the path one of the rule's.
  record IsOf (i : Ingress) (r : IngressRule) (p : IngressPath) : Type 0 where
    member : Memᴰ i ingresses
    rule_member : Memᴰ r i.rules
    paths : List IngressPath
    http : r.http ≡ some paths
    path_member : Memᴰ p paths

  new_frontend-IsServed :
      (i : Ingress) (r : IngressRule) (p : IngressPath) (users : List Text)
      → IsOf i r p
      → handle_basic_auth_config k i ≡ some users
      → IsServed k ingresses
          (r.host ++ p.path)
          (new_frontend k disabled i (r.host ++ p.path) p.path users)
  unfolding new_frontend
  new_frontend-IsServed i r p users own e = record {
    backend = refl;
    ingress = i;
    member = own.member;
    rule = r;
    rule_member = own.rule_member;
    paths = own.paths;
    http = own.http;
    path = p;
    path_member = own.path_member;
    key_joins = refl;
    users = e;
    protected = handle_basic_auth_config-ne-nil k i users e;
  }

  with_frontend-Serves :
      (i : Ingress) (host : Text) (p : IngressPath) (f : Frontend) (t : Templates)
      → AreServed k ingresses t
      → IsServed k ingresses (host ++ p.path) f
      → HasBackend k ingresses t (host ++ p.path)
      → Serves k ingresses (with_frontend k disabled i host p f t)
  unfolding with_frontend
  with_frontend-Serves i host p f t inv s there =
      use_service-Serves k ingresses (host ++ p.path) p (k.get_service i.namespace p.service_name) _
        (AreServed-frontend k ingresses t (host ++ p.path) _ inv
          (IsServed-routes (host ++ p.path) f _ s) there)

  find_frontend-Serves :
      (i : Ingress) (r : IngressRule) (p : IngressPath) (t : Templates)
      → IsOf i r p
      → AreServed k ingresses t
      → HasBackend k ingresses t (r.host ++ p.path)
      → Serves k ingresses (find_frontend k disabled i r.host p t)
  unfolding find_frontend
  find_frontend-Serves i r p t own inv there t' e =
      elim (Option-cases (lookup (r.host ++ p.path) t.frontends)) [
        | inr (f, n) ↦
            with_frontend-Serves i r.host p f t inv (inv (r.host ++ p.path) f n).0 there t'
              (rw (n, find_frontend) at e)
        | inl n ↦ elim (Option-cases (handle_basic_auth_config k i)) [
          | inl m ↦
              let same : t ≡ t' = cc (rw (n, find_frontend, m) at e) in
              subst (AreServed k ingresses) same inv
          | inr (users, m) ↦
              with_frontend-Serves i r.host p _ t inv (new_frontend-IsServed i r p users own m)
                there t' (rw (n, find_frontend, m) at e)
        ]
      ]

  load_path-Serves :
      (i : Ingress) (r : IngressRule) (p : IngressPath) (t : Templates)
      → IsOf i r p
      → AreServed k ingresses t
      → Serves k ingresses (load_path k disabled i r.host p t)
  unfolding load_path
  load_path-Serves i r p t own inv t' e = elim (Bool-cases (custom_realm i)) [
    | inl custom ↦ cc (rw custom at e)
    | inr usual ↦
        find_frontend-Serves i r p _ own
          (AreServed-backend k ingresses t (r.host ++ p.path) (backend_at (r.host ++ p.path) t) inv)
          (backend_at (r.host ++ p.path) t, lookup-insert_self (r.host ++ p.path) _ t.backends) t'
          (rw usual at e)
  ]

  load_paths-Serves :
      (i : Ingress) (r : IngressRule) (paths : List IngressPath) (t : Templates)
      → ((p : IngressPath) → Memᴰ p paths → IsOf i r p)
      → AreServed k ingresses t
      → Serves k ingresses (load_paths k disabled i r.host paths t)
  unfolding load_paths
  load_paths-Serves i r [] t own inv t' e = subst (AreServed k ingresses) (cc (e)) inv
  load_paths-Serves i r (p ∷ paths) t own inv t' e =
      elim (Option-cases (load_path k disabled i r.host p t)) [
        | inl n ↦ cc (rw (n, load_paths) at e)
        | inr (u, n) ↦
            load_paths-Serves i r paths u (λ q m. own q (Memᴰ.tail m))
              (load_path-Serves i r p t (own p (Memᴰ.head refl)) inv u n) t'
              (rw (n, load_paths) at e)
      ]

  load_rules-Serves :
      (i : Ingress) (rules : List IngressRule) (t : Templates)
      → Memᴰ i ingresses
      → ((r : IngressRule) → Memᴰ r rules → Memᴰ r i.rules)
      → AreServed k ingresses t
      → Serves k ingresses (load_rules k disabled i rules t)
  unfolding load_rules load_rule
  load_rules-Serves i [] t member sub inv t' e = subst (AreServed k ingresses) (cc (e)) inv
  load_rules-Serves i (r ∷ rules) t member sub inv t' e = elim (Option-cases r.http) [
    | inl h ↦
        load_rules-Serves i rules t member (λ q m. sub q (Memᴰ.tail m)) inv t'
          (rw (h, load_rules, load_rule) at e)
    | inr (paths, h) ↦ elim (Option-cases (load_paths k disabled i r.host paths t)) [
      | inl n ↦ cc (rw (h, load_rules, load_rule, n) at e)
      | inr (u, n) ↦
          let own : (p : IngressPath) → Memᴰ p paths → IsOf i r p = λ p m. record {
            member = member;
            rule_member = sub r (Memᴰ.head refl);
            paths = paths;
            http = h;
            path_member = m;
          } in
          load_rules-Serves i rules u member (λ q m. sub q (Memᴰ.tail m))
            (load_paths-Serves i r paths t own inv u n) t' (rw (h, load_rules, load_rule, n) at e)
    ]
  ]

  load_from-Serves :
      (more : List Ingress) (t : Templates)
      → ((i : Ingress) → Memᴰ i more → Memᴰ i ingresses)
      → AreServed k ingresses t
      → Serves k ingresses (load_from k disabled more t)
  unfolding load_from load_ingress
  load_from-Serves [] t sub inv t' e = subst (AreServed k ingresses) (cc (e)) inv
  load_from-Serves (i ∷ more) t sub inv t' e =
      elim (Bool-cases
        (should_process_ingress (annotation (txt "kubernetes.io/ingress.class") i.annotations))) [
          | inr other ↦
              load_from-Serves more t (λ j m. sub j (Memᴰ.tail m)) inv t'
                (rw (other, load_from, load_ingress) at e)
          | inl ours ↦ elim (Option-cases (load_rules k disabled i i.rules t)) [
            | inl n ↦ cc (rw (ours, load_from, load_ingress, n) at e)
            | inr (u, n) ↦
                load_from-Serves more u (λ j m. sub j (Memᴰ.tail m))
                  (load_rules-Serves i i.rules t (sub i (Memᴰ.head refl)) (λ r m. m) inv u n) t'
                  (rw (ours, load_from, load_ingress, n) at e)
          ]
        ]

-- If the ingresses can be loaded, then each frontend stands under the host of a rule of one of them
-- and then a path of that rule, its backend has that name and is there, and its users are those of
-- the same ingress: at least one if the ingress has the annotation of an authentication type.
pub load_ingresses-AreServed :
    (k : Client) (disabled : Bool) (ingresses : List Ingress) (t : Templates)
    → load_ingresses k disabled ingresses ≡ some t
    → AreServed k ingresses t
unfolding load_ingresses no_templates lookup
load_ingresses-AreServed k disabled ingresses t e =
    load_from-Serves k disabled ingresses ingresses _ (λ i m. m) (λ key f h. cc (h)) t e

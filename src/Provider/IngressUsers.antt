-- ===== src/Provider/IngressUsers.antt =====
-- provider/kubernetes/kubernetes.go, loadIngresses: users, and what the frontends under keys are.
use traefik_release.Base.{
  ◌≡◌, subst, ◌∙◌, ◌≢◌, inl, inr, not, ◌&&◌, Option, none, some, List, [], ◌++◌, arith, Bool-cases,
  Option-cases, Text, txt, eqt, eqt_iff, is_empty, to_lower, Dict, lookup, insert, delete,
  lookup-insert, lookup-delete,
}
use mathlib.Core.List.{Memᴰ}
use traefik_release.Server.Config.{Backend, Frontend}
use traefik_release.Provider.Cluster.{
  Fetched, failed, absent, found, IngressPath, IngressRule, Ingress, Service, Client, annotation,
  credentials_of, secret_credentials, single_element, load_auth_credentials, auth_type_name,
  handle_basic_auth_config,
}
use traefik_release.Provider.Services.{
  Templates, backend_at, annotated, service_servers, use_service,
}

credentials_of-ne-nil :
    (secret : Text) (users : List Text) → credentials_of secret ≡ some users → users ≢ []
unfolding credentials_of is_empty
credentials_of-ne-nil secret users h e = ground arith

secret_credentials-ne-nil :
    (answer : Fetched (Option (Dict Text))) (users : List Text)
    → secret_credentials answer ≡ some users
    → users ≢ []
unfolding secret_credentials
secret_credentials-ne-nil failed users h e = cc
secret_credentials-ne-nil absent users h e = cc
secret_credentials-ne-nil (found contents) users h e =
    elim (Option-cases (single_element contents)) [
      | inl n ↦ cc (rw (n, secret_credentials) at h)
      | inr (secret, n) ↦ credentials_of-ne-nil secret users (rw (n, secret_credentials) at h) e
    ]

-- Where authentication is asked for there is a user.
pub handle_basic_auth_config-ne-nil :
    (k : Client) (i : Ingress) (users : List Text)
    → handle_basic_auth_config k i ≡ some users
    → lookup auth_type_name i.annotations ≢ none
    → users ≢ []
unfolding handle_basic_auth_config load_auth_credentials
handle_basic_auth_config-ne-nil k i users h asked =
    elim (Option-cases (lookup auth_type_name i.annotations)) [
      | inl e ↦ absurd (asked e)
      | inr (kind, e) ↦
          let secret = annotation (txt "ingress.kubernetes.io/auth-secret") i.annotations in
          elim (Bool-cases (eqt (to_lower kind) (txt "basic") && not (is_empty secret))) [
            | inr refused ↦ cc (rw (e, handle_basic_auth_config, refused) at h)
            | inl basic ↦
                secret_credentials-ne-nil (k.get_secret i.namespace secret) users
                  (rw (e, handle_basic_auth_config, basic) at h)
          ]
    ]

module _ (k : Client) (ingresses : List Ingress) where
  -- What a frontend under a key is: its backend has the key, which is the host of a rule of some
  -- ingress and then a path of that rule, and its users are those of that ingress, at least one if
  -- the ingress asks for authentication.
  pub record IsServed (key : Text) (f : Frontend) : Type 0 where
    pub backend : f.backend ≡ key
    pub ingress : Ingress
    pub member : Memᴰ ingress ingresses
    pub rule : IngressRule
    pub rule_member : Memᴰ rule ingress.rules
    pub paths : List IngressPath
    pub http : rule.http ≡ some paths
    pub path : IngressPath
    pub path_member : Memᴰ path paths
    pub key_joins : key ≡ rule.host ++ path.path
    pub users : handle_basic_auth_config k ingress ≡ some f.basic_auth
    pub protected : lookup auth_type_name ingress.annotations ≢ none → f.basic_auth ≢ []

  abbrev pub HasBackend : Templates → Text → Type 0
  HasBackend t key = (b : Backend) × (lookup key t.backends ≡ some b)

  abbrev pub AreServed : Templates → Type 0
  AreServed t =
      (key : Text) (f : Frontend)
      → lookup key t.frontends ≡ some f
      → IsServed key f × HasBackend t key

  HasBackend-insert :
      (t : Templates) (key other : Text) (b : Backend)
      → HasBackend t key
      → HasBackend (record t { backends = insert other b t.backends }) key
  HasBackend-insert t key other b (c, e) = elim (Bool-cases (eqt other key)) [
    | inl same ↦ (b, lookup-insert other key b t.backends ∙ rw same)
    | inr apart ↦ (c, lookup-insert other key b t.backends ∙ rw apart e)
  ]

  pub AreServed-backend :
      (t : Templates) (key : Text) (b : Backend)
      → AreServed t
      → AreServed (record t { backends = insert key b t.backends })
  AreServed-backend t key b inv key' f e =
      let (s, there) = inv key' f e in (s, HasBackend-insert t key' key b there)

  pub AreServed-frontend :
      (t : Templates) (key : Text) (f : Frontend)
      → AreServed t
      → IsServed key f
      → HasBackend t key
      → AreServed (record t { frontends = insert key f t.frontends })
  AreServed-frontend t key f inv s there key' f' e = elim (Bool-cases (eqt key key')) [
    | inr apart ↦ inv key' f' (ground (arith, lookup-insert key key' f t.frontends))
    | inl same ↦
        let here : ◌≡◌ {A = Option Frontend} (some f) (some f') =
          ground (arith, lookup-insert key key' f t.frontends) in
        let moved = subst (λ g. IsServed key g × HasBackend t key) (cc (here)) (s, there) in
        subst (λ j. IsServed j f' × HasBackend t j) ((eqt_iff key key').0 same) moved
  ]

  AreServed-delete :
      (t : Templates) (key : Text)
      → AreServed t
      → AreServed (record t { frontends = delete key t.frontends })
  AreServed-delete t key inv key' f e = elim (Bool-cases (eqt key key')) [
    | inl same ↦ absurd (ground (arith, lookup-delete key key' t.frontends))
    | inr apart ↦ inv key' f (ground (arith, lookup-delete key key' t.frontends))
  ]

  -- What a step that may fail leaves.
  abbrev pub Serves : Option Templates → Type 0
  Serves o = (t : Templates) → o ≡ some t → AreServed t

  pub use_service-Serves :
      (key : Text) (p : IngressPath) (answer : Fetched Service) (t : Templates)
      → AreServed t
      → Serves (use_service k key p answer t)
  unfolding use_service
  use_service-Serves key p failed t inv t' e = cc
  use_service-Serves key p absent t inv t' e =
      let same : record t { frontends = delete key t.frontends } ≡ t' = cc (e) in
      subst AreServed same (AreServed-delete t key inv)
  use_service-Serves key p (found s) t inv t' e =
      elim (Option-cases
        (service_servers k s p.service_port s.ports (annotated s (backend_at key t)).servers)) [
          | inl n ↦ cc (rw (n, use_service) at e)
          | inr (servers, n) ↦
              let b = annotated s (backend_at key t) in
              let same : record t {
                backends = insert key (record b { servers = servers }) t.backends;
              }
                  ≡ t' =
                cc (rw (n, use_service) at e) in
              subst AreServed same (AreServed-backend t key _ inv)
        ]

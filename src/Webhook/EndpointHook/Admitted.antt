-- ===== src/Webhook/EndpointHook/Admitted.antt =====
-- pkg/webhook/hostendpoint/webhook.go: what the defaults and the admission promise.
use topohub.Common.{
  ◌≡◌, refl, ap₂, inl, inr, Bool, true, false, not, ◌&&◌, Option, none, some, List, [], arith,
  if◌then◌else◌, Bool-cases, any, Text, codes, text_eq, Map, pos, insert-insert,
}
use topohub.Api.{HostEndpoint, HostEndpointSpec, RedfishStatus, text_of, is_set, label_cluster_name}
use topohub.Webhook.EndpointHook.{AgentConfig, default, or_default, needs_secret, default_spec}

-- another HostEndpoint, or any RedfishStatus, has the address
abbrev pub has_addr : HostEndpoint → HostEndpoint → Bool
has_addr e f = not (text_eq f.meta.name e.meta.name) && text_eq f.spec.ip_addr e.spec.ip_addr

abbrev pub status_has_addr : HostEndpoint → RedfishStatus → Bool
status_has_addr e s = text_eq s.status.basic.ip_addr e.spec.ip_addr

-- the Secret has a user name and a password
abbrev pub has_login : Option (List Text) → Bool
has_login none = false
has_login (some keys) =
    any (text_eq (codes "username")) keys && any (text_eq (codes "password")) keys

-- both names are set and the Secret has a login, or neither is set
abbrev pub has_credentials : (Text → Text → Option (List Text)) → HostEndpointSpec → Bool
has_credentials get_secret spec =
    if is_set spec.secret_name
    then is_set spec.secret_namespace
      && has_login (get_secret (text_of spec.secret_name) (text_of spec.secret_namespace))
    else not (is_set spec.secret_namespace)

or_default_idem {ℓ} :
    {A : Type ℓ} (v : A) (o : Option A) → or_default v (or_default v o) ≡ or_default v o
or_default_idem v none = refl
or_default_idem v (some x) = refl

-- `f` is the field that the configuration's `v` stands in for.
secret_idem :
    (n m : Option Text) (https : Option Bool) (a b : Text)
    → (let needed = needs_secret n m https in
        let n' = if needed then some a else n in
        let m' = if needed then some b else m in
        let again = needs_secret n' m' https in
        ((if again then some a else n') ≡ n') × ((if again then some b else m') ≡ m'))
secret_idem n m https a b = elim (Bool-cases (needs_secret n m https)) [
  | inl z ↦ rw z (ground arith)
  | inr z ↦ rw (z, z) (refl, refl)
]

spec_idem :
    (config : AgentConfig) (spec : HostEndpointSpec)
    → default_spec config (default_spec config spec) ≡ default_spec config spec
unfolding default_spec
spec_idem config spec =
    let https = or_default true spec.https in
    let (p, q) =
      secret_idem spec.secret_name spec.secret_namespace https config.redfish_secret_name
        config.redfish_secret_namespace in
    rw (or_default_idem true spec.https, or_default_idem (pos 443) spec.port) (rw (p, q) refl)

-- The defaults of a HostEndpoint are complete: to apply them again changes nothing.
pub default_idem :
    (config : AgentConfig) (e : HostEndpoint) → default config (default config e) ≡ default config e
unfolding default
default_idem config e =
    ap₂
      (λ (m : Map Text) (s : HostEndpointSpec). record {
        meta = record (e.meta) { labels = some m };
        spec = s;
      })
      (insert-insert label_cluster_name (text_of e.spec.cluster_name)
        (elim (e.meta.labels) [ none ↦ [] | some l ↦ l ]))
      (spec_idem config e.spec)

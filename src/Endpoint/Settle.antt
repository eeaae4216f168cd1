-- ===== src/Endpoint/Settle.antt =====
-- pkg/hostendpoint/controller.go: whether a reconciled HostEndpoint comes to rest.
use topohub.Common.{
  ◌≡◌, refl, true, false, Option, none, some, [], arith, Text, text_eq_refl, ℤ, int_eq_iff,
}
use topohub.Api.{HostEndpoint, HostEndpointSpec, text_of}
use topohub.Endpoint.{
  found, Replies, SshStatus, spec_equal_ssh, updated_ssh, handle_ssh_endpoint, finished,
  differs_text,
}

no_difference : (o : Option Text) → differs_text o (text_of o) ≡ false
no_difference none = refl
no_difference (some s) = ground (arith, text_eq_refl s)

ssh_equal :
    (now : Text) (spec : HostEndpointSpec) (port : ℤ) (existing : SshStatus)
    → spec.port ≡ some port
    → spec_equal_ssh (updated_ssh now spec port existing).status.basic spec ≡ true
unfolding spec_equal_ssh updated_ssh
ssh_equal now spec port existing h = rw h (
    ground (
      arith,
      text_eq_refl spec.ip_addr,
      text_eq_refl (text_of spec.cluster_name),
      no_difference spec.secret_name,
      no_difference spec.secret_namespace,
      int_eq_iff port port,
    ))

-- An SSHStatus that handleSSHEndpoint wrote is up to date for it: a later reconciliation of the
-- unchanged HostEndpoint finishes without a request.
pub handle_ssh_endpoint_settles :
    (now later : Text) (e : HostEndpoint) (port : ℤ) (existing : SshStatus) (r : Replies)
    → e.spec.port ≡ some port
    → handle_ssh_endpoint later e (found (updated_ssh now e.spec port existing)) r ≡ (finished, [])
unfolding handle_ssh_endpoint
handle_ssh_endpoint_settles now later e port existing r h =
    rw (ssh_equal now e.spec port existing h) refl

-- ===== src/Ssh/Controller/Cached.antt =====
-- pkg/sshstatus/ssh_status_reconcile.go: the connection of an SSHStatus that a HostEndpoint owns.
use topohub.Common.{◌≡◌, true, false, Option, none, some, List, [], Text, is_empty, ℤ}
use topohub.Api.{HostEndpoint, text_of}
use topohub.Endpoint.{SshBasicInfo, SshStatus, host_type_endpoint}
use topohub.Ssh.Controller.{World, Owner, endpoint_owner}

-- what a HostEndpoint with the port gives for the Basic
abbrev pub basic_of : HostEndpoint → ℤ → Option Text → SshBasicInfo
basic_of e port subnet_name = record {
  cluster_name = text_of e.spec.cluster_name;
  type = host_type_endpoint;
  ip_addr = e.spec.ip_addr;
  secret_name = text_of e.spec.secret_name;
  secret_namespace = text_of e.spec.secret_namespace;
  port = port;
  ssh_key_auth = false;
  subnet_name = subnet_name;
}

-- the SSHStatus with what the HostEndpoint gives
abbrev filled : World → SshStatus → HostEndpoint → ℤ → SshStatus
filled w s e port = record s {
  status = record {
    healthy = false;
    last_update_time = w.now;
    basic = basic_of e port none;
    info = some [];
  };
}

-- an SSHStatus whose Basic is not filled yet, and the HostEndpoint that owns it
abbrev pub Owned : World → List Owner → SshStatus → HostEndpoint → ℤ → Type 0
Owned w owners s e port =
    (is_empty s.status.basic.ip_addr ≡ true)
    × (is_empty e.spec.ip_addr ≡ false)
    × (e.spec.port ≡ some port)
    × ((n : Text) × (endpoint_owner owners ≡ some n) × (w.host_endpoint n ≡ some e))

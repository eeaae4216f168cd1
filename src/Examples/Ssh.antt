-- ===== src/Examples/Ssh.antt =====
-- Runs of the checks of an SSH host, and of its reconciliation.
use topohub.Common.{true, false, none, some, List, [], ◌∷◌, Text, codes, pos}
use topohub.Api.{HostEndpoint}
use topohub.Endpoint.{SshBasicInfo, SshStatus}
use topohub.Ssh.Cache as Cache
use topohub.Ssh.Status as Status
use topohub.Ssh.Controller as Controller
use topohub.Ssh.Controller.Restart as Restart

abbrev name : Text
name = codes "192-168-1-20"

abbrev basic : Text → SshBasicInfo
basic ip = record {
  cluster_name = [];
  type = codes "hostendpoint";
  ip_addr = ip;
  secret_name = [];
  secret_namespace = [];
  port = pos 22;
  ssh_key_auth = false;
  subnet_name = none;
}

abbrev address : Text
address = codes "192.168.1.20"

abbrev status_at : Text → SshStatus
status_at ip = record {
  meta = record { name = name; labels = none; resource_version = [] };
  status = record {
    healthy = true;
    last_update_time = codes "12:00:00";
    basic = basic ip;
    info = some ((codes "HostName", codes "server") ∷ []);
  };
}

abbrev connection : Cache.SshConnectCon
connection = record {
  info = basic address;
  username = codes "root";
  password = codes "secret";
  ssh_key = [];
  ssh_key_auth = false;
}

abbrev later : Status.Answers
later = record {
  is_healthy = true;
  system_info = some ((codes "HostName", codes "server") ∷ []);
  is_stored = true;
  now = codes "12:01:00";
}

abbrev endpoint : HostEndpoint
endpoint = record {
  meta = record { name = name; labels = none; resource_version = [] };
  spec = record {
    cluster_name = none;
    ip_addr = address;
    secret_name = none;
    secret_namespace = none;
    https = none;
    port = some (pos 22);
    type = some (codes "ssh");
  };
}

abbrev world : Controller.World
world = record {
  host_endpoint = λ n. some endpoint;
  secret = λ namespace n. none;
  subnets =
      some
        (record { name = codes "lan"; dhcp_client_details = codes "{\"192.168.1.20\":{}}" } ∷ []);
  unmarshal = λ s. some (address ∷ []);
  ask = λ n d. later;
  find = λ n. some (status_at []);
  now = codes "12:01:00";
}

abbrev owners : List Controller.Owner
owners = record { kind = codes "HostEndpoint"; name = name } ∷ []

abbrev no_login : Controller.Login
no_login = record { username = []; password = []; ssh_key = []; ssh_key_auth = false }

abbrev call : Restart.Call
call = record { world = world; name = name; answer = Controller.found owners (status_at address) }

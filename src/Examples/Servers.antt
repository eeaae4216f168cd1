-- ===== src/Examples/Servers.antt =====
-- Runs of the report of a DHCP server into its Subnet, and of the locks.
use topohub.Common.{
  zero, suc, ◌≡◌, refl, ap, ◌∙◌, true, false, ◌||◌, Option, none, some, List, [], ◌∷◌, ◌++◌, arith,
  ◌==◌, if◌then◌else◌, any, Text, codes, text_eq, text_eq_iff, Map, lookup, ℤ,
}
use topohub.Dhcp.Client.{DhcpClientInfo}
use topohub.Dhcp.Status as Status
use topohub.Dhcp.Status.Amounts.{has_key}
use topohub.Dhcp.Status.Details as Details
use topohub.Dhcp.Status.Details.{Json, has_client-update_client_func}
use topohub.Dhcp.Report as Report
use topohub.Dhcp.Report.Worker.{status_update_worker-signal}
use topohub.Ssh.Controller as Ssh
use topohub.Lock as Lock
use topohub.Lock.Race.{calls, get_lock_same}

-- an encoding of texts without line feeds: each key is followed by one
abbrev keys : Map Status.ClientInfo → List Text
keys [] = []
keys ((k, v) ∷ m) = k ∷ keys m

abbrev framed : Text → Text
framed [] = 0 ∷ []
framed (c ∷ s) = suc c ∷ framed s

abbrev joined : List Text → Text
joined [] = []
joined (s ∷ ss) = framed s ++ joined ss

abbrev encoded : Map Status.ClientInfo → Text
encoded m = b'[' ∷ joined (keys m)

-- the first key, and those after it
abbrev parsed : Text → List Text
parsed [] = []
parsed (zero ∷ s) = [] ∷ parsed s
parsed (suc c ∷ s) = let rest = parsed s in elim rest [ [] ↦ (c ∷ []) ∷ [] | k ∷ ks ↦ (c ∷ k) ∷ ks ]

parsed-framed : (k s : Text) → parsed (framed k ++ s) ≡ k ∷ parsed s
parsed-framed [] s = refl
parsed-framed (c ∷ k) s = rw (parsed-framed k s) refl

parsed-joined : (ks : List Text) → parsed (joined ks) ≡ ks
parsed-joined [] = refl
parsed-joined (k ∷ ks) =
    parsed-framed k (joined ks) ∙ ap (λ (x : List Text). k ∷ x) (parsed-joined ks)

abbrev unmarshal : Text → Option (List Text)
unmarshal [] = none
unmarshal (c ∷ s) = if c == b'[' then some (parsed s) else some []

any-keys : (ip : Text) (m : Map Status.ClientInfo) → any (text_eq ip) (keys m) ≡ has_key ip m
unfolding lookup
any-keys ip [] = refl
any-keys ip ((k, v) ∷ m) = ground (arith, any-keys ip m, text_eq_iff ip k, text_eq_iff k ip)

abbrev json : Json
json = record {
  marshal = λ m. some (encoded m);
  unmarshal = unmarshal;
  encoded = encoded;
  decoded = keys;
  marshals = λ m. refl;
  is_text = λ m. refl;
  unmarshals = λ m. ap some (parsed-joined (keys m));
  same_keys = any-keys;
  empty_object = refl;
}

abbrev address : Text
address = codes "192.168.1.12"

abbrev client : DhcpClientInfo
client = record {
  mac = codes "00:11:22:33:44:55";
  ip = address;
  hostname = codes "server";
  active = true;
  dhcp_expire_time = none;
  subnet = codes "192.168.1.0/24";
  subnet_name = codes "lan";
  cluster_name = [];
  enable_bind_ip = none;
}

abbrev no_bindings : Map DhcpClientInfo
no_bindings = []

abbrev format : Option ℤ → Text
format time = codes "2025"

has_client-update_client_func_example :
    Ssh.has_client json.unmarshal address
      (Details.reported json format (codes "lan") ((address, client) ∷ []) no_bindings)
    ≡ (has_key address ((address, client) ∷ []) || has_key address no_bindings)
has_client-update_client_func_example =
    has_client-update_client_func json format address (codes "lan") ((address, client) ∷ [])
      no_bindings

abbrev server : Report.Server
server = record {
  ip_range = codes "192.168.1.10-192.168.1.19";
  node_name = codes "node-b";
  leases = (address, client) ∷ [];
  bindings = [];
  now = codes "12:00";
  format = format;
  marshal = json.marshal;
}

abbrev waiting : Report.WorkerState
waiting = record { is_running = true; pending_update = false; updates = 0 }

status_update_worker-signal_example :
    Report.status_update_worker (Report.signal ∷ (Report.signal ∷ [] ++ Report.tick ∷ [])) waiting
    ≡ record { is_running = true; pending_update = false; updates = 1 }
status_update_worker-signal_example =
    status_update_worker-signal (Report.signal ∷ []) waiting refl refl

get_lock_same_example :
    let m = calls (codes "a" ∷ []) Lock.empty_manager in
    let (m', l) = Lock.get_lock (codes "b") m in
    ((Lock.get_lock (codes "b") (calls (codes "c" ∷ []) m')).1 ≡ l)
    × ((Lock.get_lock (codes "a") (calls (codes "c" ∷ []) m')).1 ≡ l → codes "b" ≡ codes "a")
get_lock_same_example = get_lock_same (codes "a" ∷ []) (codes "c" ∷ []) (codes "b") (codes "a")

-- ===== src/Redfish/Client.antt =====
-- pkg/redfish/interface.go: the clients that are kept for the hosts, by their address. A client is
-- represented by its configuration.
pub mod Reuse
use topohub.Net.Format.{format_int}
use topohub.Common.{
  Bool, not, ◌&&◌, Option, none, some, List, [], ◌∷◌, ◌++◌, if◌then◌else◌, Text, codes, text_eq,
  Map, lookup, insert, delete,
}
use topohub.Redfish.Cache.{RedfishConnectCon}

-- the fields of gofish.ClientConfig that depend on the host
pub record ClientConfig : Type 0 where
  pub endpoint : Text
  pub username : Text
  pub password : Text

-- reflect.DeepEqual of two configurations
unfoldable pub config_eq : ClientConfig → ClientConfig → Bool
config_eq a b =
    text_eq a.endpoint b.endpoint
    && (text_eq a.username b.username && text_eq a.password b.password)

-- buildRedfishEndpoint
unfoldable pub build_redfish_endpoint : RedfishConnectCon → Text
build_redfish_endpoint con =
    (if con.info.https then codes "https" else codes "http")
    ++ (codes "://" ++ (con.info.ip_addr ++ (codes ":" ++ format_int con.info.port)))

unfoldable pub config_of : RedfishConnectCon → ClientConfig
unfolding build_redfish_endpoint
config_of con = record {
  endpoint = build_redfish_endpoint con;
  username = con.username;
  password = con.password;
}

-- CacheClient
abbrev pub CacheClient : Type 0
CacheClient = Map ClientConfig

-- whether the kept client still answers Systems, and whether Connect succeeds
pub record Answers : Type 0 where
  pub is_alive : Bool
  pub connects : Bool

pub data Request : Type 0 where
  query logout connect : ClientConfig → Request

abbrev connected :
    Answers → Text → ClientConfig → CacheClient → CacheClient × Option ClientConfig × List Request
connected a ip config c =
    if a.connects
    then (insert ip config c, some config, connect config ∷ [])
    else (c, none, connect config ∷ [])

-- the kept client is logged out and a new one made; `queried` is what was asked of the kept one
abbrev replaced :
    Answers
    → Text
    → ClientConfig
    → ClientConfig
    → List Request
    → CacheClient
    → CacheClient × Option ClientConfig × List Request
replaced a ip config old queried c =
    let (c', client, rs) = connected a ip config (delete ip c) in
    (c', client, queried ++ (logout old ∷ rs))

-- NewClient from the look into the cache on
unfoldable pub client_for :
    Answers
    → Text
    → ClientConfig
    → Option ClientConfig
    → CacheClient
    → CacheClient × Option ClientConfig × List Request
unfolding config_eq
client_for a ip config none c = connected a ip config c
client_for a ip config (some old) c =
    if not (config_eq config old)
    then replaced a ip config old [] c
    else if not a.is_alive
    then replaced a ip config old (query old ∷ []) c
    else (c, some old, query old ∷ [])

-- NewClient: the kept clients, the client, none for an error, and the requests
unfoldable pub new_client :
    Answers → RedfishConnectCon → CacheClient → CacheClient × Option ClientConfig × List Request
unfolding config_of client_for
new_client a con c = client_for a con.info.ip_addr (config_of con) (lookup con.info.ip_addr c) c

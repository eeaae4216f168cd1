-- ===== src/Redfish/Client/Reuse.antt =====
-- pkg/redfish/interface.go: no client is used with a login that is out of date.
use topohub.Common.{
  ◌≡◌, Bool, false, ◌&&◌, ◌||◌, Option, none, some, List, if◌then◌else◌, Text, text_eq, lookup,
}
use topohub.Redfish.Client.{ClientConfig, config_eq, CacheClient, Answers, Request}

-- the kept client is the connection's own, and answers
abbrev pub is_usable : Answers → ClientConfig → Option ClientConfig → Bool
is_usable a config none = false
is_usable a config (some old) = config_eq config old && a.is_alive

-- what NewClient is for: the client that it returns is the one that is kept for the address, it has
-- the connection's configuration, it is returned if the kept one serves or a new one connects, and
-- the clients of other addresses stay
abbrev pub Serves :
    Answers
    → Text
    → ClientConfig
    → CacheClient
    → CacheClient × Option ClientConfig × List Request
    → Type 0
Serves a ip config c (c', client, rs) =
    (lookup ip c' ≡ client)
    × (client ≡ (if is_usable a config (lookup ip c) || a.connects then some config else none))
    × ((k : Text) → text_eq ip k ≡ false → lookup k c' ≡ lookup k c)

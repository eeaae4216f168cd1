-- ===== src/Dhcp/Lease.antt =====
-- pkg/subnet/dhcpserver/config.go: processDhcpLease reads dnsmasq's lease file, one client a line.
pub mod Follow
use topohub.Common.{
  ℕ, zero, suc, ◌+◌, ◌-◌, ◌*◌, ◌^◌, Bool, true, false, not, ◌&&◌, ◌||◌, Option, none, some, List,
  [], ◌∷◌, ◌++◌, ltb, ◌==◌, if◌then◌else◌, is_some, Text, text_eq, is_empty, split, is_space, Map,
  lookup, insert, ℤ, int_eq, pos, negsuc,
}
use topohub.Net.Parse.{is_digit}
use topohub.Api.{text_of, SyncRedfishstatusSpec}
use topohub.Dhcp.Client.{DhcpClientInfo}

-- strings.Fields
unfoldable pub fields : Text → List Text
fields [] = []
fields (c ∷ s) = let rest = fields s in if is_space c then rest else open_field c s rest
  where
    -- `c` begins a field, or goes on with the one that begins after it
    open_field : ℕ → Text → List Text → List Text
    open_field c [] rest = (c ∷ []) ∷ rest
    open_field c (d ∷ s) [] = (c ∷ []) ∷ []
    open_field c (d ∷ s) (f ∷ rest) = if is_space d then (c ∷ []) ∷ f ∷ rest else (c ∷ f) ∷ rest

abbrev digits_value : ℕ → Text → Option ℕ
digits_value acc [] = some acc
digits_value acc (c ∷ s) =
    let rest = digits_value (acc * 10 + (c - b'0')) s in if is_digit c then rest else none

abbrev natural : Text → Option ℕ
natural s = if is_empty s then none else digits_value 0 s

abbrev signed : Bool → Option ℕ → Option ℤ
signed is_negative none = none
signed false (some n) = if ltb n (2 ^ 63) then some (pos n) else none
signed true (some zero) = some (pos 0)
signed true (some (suc n)) = if ltb n (2 ^ 63) then some (negsuc n) else none

-- strconv.ParseInt(s, 10, 64)
unfoldable pub parse_int : Text → Option ℤ
parse_int [] = none
parse_int (c ∷ s) =
    if c == b'-'
    then signed true (natural s)
    else if c == b'+'
    then signed false (natural s)
    else signed false (natural (c ∷ s))

-- the parts of the server that processDhcpLease reads. A Subnet without its optional feature never
-- gets here: the webhook's Default dereferences it first.
pub record LeaseSubnet : Type 0 where
  pub subnet : Text
  pub name : Text
  pub sync : SyncRedfishstatusSpec

pub data LeaseEvent : Type 0 where
  added deleted : DhcpClientInfo → LeaseEvent

-- the client of a line's first four fields
unfoldable pub lease_client : LeaseSubnet → ℤ → Text → Text → Text → DhcpClientInfo
lease_client s expire mac ip hostname = record {
  mac = mac;
  ip = ip;
  hostname = hostname;
  active = true;
  dhcp_expire_time = some expire;
  subnet = s.subnet;
  subnet_name = s.name;
  cluster_name = text_of s.sync.default_cluster_name;
  enable_bind_ip = some (s.sync.enabled && s.sync.enable_bind_dhcp_ip);
}

-- the record of a line; none where the source goes on with the next one
unfoldable pub parse_line : LeaseSubnet → List Text → Option DhcpClientInfo
parse_line s (expire ∷ mac ∷ ip ∷ hostname ∷ _ ∷ _) = elim (parse_int expire) [
  | none ↦ none
  | some e ↦ some (lease_client s e mac ip hostname)
]
parse_line s _ = none

-- Time.Equal
abbrev pub time_equal : Option ℤ → Option ℤ → Bool
time_equal none none = true
time_equal (some a) (some b) = int_eq a b
time_equal _ _ = false

-- what a line adds: whether clients changed, and whether the client is announced
unfoldable pub compare_client : Option DhcpClientInfo → DhcpClientInfo → Bool × Bool
compare_client none client = (true, true)
compare_client (some before) client =
    if not (text_eq before.mac client.mac) || not (text_eq before.hostname client.hostname)
    then (true, true)
    else if not (time_equal client.dhcp_expire_time before.dhcp_expire_time)
    then (false, true)
    else (false, false)

-- the state of the loop over the lines
pub record Progress : Type 0 where
  pub current : Map DhcpClientInfo
  pub changed : Bool
  pub events : List LeaseEvent

unfoldable pub process_client :
    LeaseSubnet → Map DhcpClientInfo → DhcpClientInfo → Progress → Progress
process_client s previous client p =
    let (is_changed, is_announced) = compare_client (lookup client.ip previous) client in
    record {
      current = insert client.ip client p.current;
      changed = p.changed || is_changed;
      events = if s.sync.enabled && is_announced then p.events ++ (added client ∷ []) else p.events;
    }

-- the clients of the file, line by line
unfoldable pub lease_clients : LeaseSubnet → List Text → List DhcpClientInfo
lease_clients s [] = []
lease_clients s (line ∷ lines) =
    let rest = lease_clients s lines in
    elim (parse_line s (fields line)) [ none ↦ rest | some client ↦ client ∷ rest ]

unfoldable pub process_clients :
    LeaseSubnet → Map DhcpClientInfo → List DhcpClientInfo → Progress → Progress
process_clients s previous [] p = p
process_clients s previous (client ∷ rest) p =
    process_clients s previous rest (process_client s previous client p)

-- the events of the clients that are gone
unfoldable pub gone : LeaseSubnet → Map DhcpClientInfo → Map DhcpClientInfo → List LeaseEvent
gone s current [] = []
gone s current ((ip, client) ∷ previous) =
    let rest = gone s current previous in
    if not (is_some (lookup client.ip current)) && s.sync.enabled
    then deleted (record client { active = false }) ∷ rest
    else rest

-- what os.ReadFile answers
pub data FileContent : Type 0 where
  content : Text → FileContent
  not_exist unreadable : FileContent

unfoldable pub process_content :
    LeaseSubnet → Text → Map DhcpClientInfo → Bool × Map DhcpClientInfo × List LeaseEvent
process_content s text previous =
    let p =
      process_clients s previous (lease_clients s (split 10 text))
        (record { current = []; changed = false; events = [] }) in
    (p.changed, p.current, p.events ++ gone s p.current previous)

-- processDhcpLease: the flag, currentLeaseClients and the events sent; none is the error of a file
-- that cannot be read
unfoldable pub process_dhcp_lease :
    Bool
    → LeaseSubnet
    → FileContent
    → Map DhcpClientInfo
    → Option (Bool × Map DhcpClientInfo × List LeaseEvent)
unfolding process_content
process_dhcp_lease ignore_existence s (content text) previous =
    some (process_content s text previous)
process_dhcp_lease ignore_existence s not_exist previous =
    if ignore_existence then some (false, previous, []) else none
process_dhcp_lease ignore_existence s unreadable previous = none

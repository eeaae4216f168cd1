-- ===== src/Dhcp/Lease/Follow.antt =====
-- pkg/subnet/dhcpserver/config.go: what processDhcpLease makes of the file and of the clients that
-- it knew.
use topohub.Common.{
  ◌≡◌, refl, ◌∙◌, inl, inr, Bool, true, false, ◌&&◌, ◌||◌, Option, none, some, List, [], ◌∷◌, ◌++◌,
  arith, if◌then◌else◌, Bool-cases, any, Text, text_eq, text_eq_refl, split, Map, lookup,
  lookup-insert,
}
use topohub.Dhcp.Client.{DhcpClientInfo}
use topohub.Dhcp.Lease.{
  LeaseSubnet, LeaseEvent, added, deleted, Progress, process_client, process_clients, lease_clients,
  gone, process_content,
}

-- the last client of the list with the address
unfoldable pub last_with :
    Text → List DhcpClientInfo → Option DhcpClientInfo → Option DhcpClientInfo
last_with ip [] o = o
last_with ip (client ∷ clients) o =
    last_with ip clients (if text_eq client.ip ip then some client else o)

loop-last :
    (s : LeaseSubnet) (previous : Map DhcpClientInfo) (clients : List DhcpClientInfo) (p : Progress)
    (ip : Text)
    → lookup ip (process_clients s previous clients p).current
      ≡ last_with ip clients (lookup ip p.current)
unfolding process_clients last_with process_client
loop-last s previous [] p ip = refl
loop-last s previous (client ∷ clients) p ip =
    loop-last s previous clients (process_client s previous client p) ip
    ∙ rw (lookup-insert client.ip ip client p.current) refl

-- After a lease file is read, the server knows at each address the client of the last well-formed
-- line with that address, whatever it knew before.
pub process_content-current :
    (s : LeaseSubnet) (text ip : Text) (previous : Map DhcpClientInfo)
    → lookup ip (process_content s text previous).1
      ≡ last_with ip (lease_clients s (split 10 text)) none
unfolding process_content lookup
process_content-current s text ip previous =
    loop-last s previous (lease_clients s (split 10 text))
      (record { current = []; changed = false; events = [] }) ip

-- a flag that all lines leave unset
loop-quiet :
    (s : LeaseSubnet) (previous : Map DhcpClientInfo) (clients : List DhcpClientInfo) (p : Progress)
    → s.sync.enabled ≡ false
    → (process_clients s previous clients p).events ≡ p.events
unfolding process_clients process_client
loop-quiet s previous [] p h = refl
loop-quiet s previous (client ∷ clients) p h =
    loop-quiet s previous clients (process_client s previous client p) h ∙ rw h refl

gone-quiet :
    (s : LeaseSubnet) (current previous : Map DhcpClientInfo)
    → s.sync.enabled ≡ false
    → gone s current previous ≡ []
unfolding gone
gone-quiet s current [] h = refl
gone-quiet s current ((ip, client) ∷ previous) h = ground (arith, gone-quiet s current previous h)

-- Where the subnet does not synchronise RedfishStatus objects, reading a lease file sends no event.
pub process_content-quiet :
    (s : LeaseSubnet) (text : Text) (previous : Map DhcpClientInfo)
    → s.sync.enabled ≡ false
    → (process_content s text previous).2 ≡ []
unfolding process_content
process_content-quiet s text previous h =
    let start : Progress = record { current = []; changed = false; events = [] } in
    let clients = lease_clients s (split 10 text) in
    rw (loop-quiet s previous clients start h)
      (gone-quiet s (process_clients s previous clients start).current previous h)

-- whether an event announces this client as gone
abbrev pub announces : DhcpClientInfo → LeaseEvent → Bool
announces client (deleted c) = text_eq c.ip client.ip && text_eq c.mac client.mac
announces client (added c) = false

gone-announces :
    (s : LeaseSubnet) (current previous : Map DhcpClientInfo) (client : DhcpClientInfo) (ip : Text)
    → s.sync.enabled ≡ true
    → lookup ip previous ≡ some client
    → lookup client.ip current ≡ none
    → any (announces client) (gone s current previous) ≡ true
unfolding gone lookup
gone-announces s current [] client ip e k n = cc
gone-announces s current ((j, c) ∷ previous) client ip e k n = elim (Bool-cases (text_eq j ip)) [
  | inl z ↦
      let same : c ≡ client = ground arith in
      rw same (rw (n, e) (ground (arith, text_eq_refl client.ip, text_eq_refl client.mac)))
  | inr z ↦ ground (arith, gone-announces s current previous client ip e)
]

any-append {ℓ} :
    {A : Type ℓ} (p : A → Bool) (xs ys : List A) → any p (xs ++ ys) ≡ (any p xs || any p ys)
any-append p [] ys = refl
any-append p (x ∷ xs) ys = ground (arith, any-append p xs ys)

-- Where the subnet synchronises RedfishStatus objects, every client that the server knew and whose
-- address no well-formed line of the file has is announced as gone.
pub process_content-announces :
    (s : LeaseSubnet) (text ip : Text) (previous : Map DhcpClientInfo) (client : DhcpClientInfo)
    → s.sync.enabled ≡ true
    → lookup ip previous ≡ some client
    → last_with client.ip (lease_clients s (split 10 text)) none ≡ none
    → any (announces client) (process_content s text previous).2 ≡ true
unfolding process_content
process_content-announces s text ip previous client e k n =
    let start : Progress = record { current = []; changed = false; events = [] } in
    let p = process_clients s previous (lease_clients s (split 10 text)) start in
    ground (
      arith,
      any-append (announces client) p.events (gone s p.current previous),
      gone-announces s p.current previous client ip e k
          (process_content-current s text client.ip previous ∙ n),
    )

-- ===== src/Dhcp/Status/Details.antt =====
-- pkg/subnet/dhcpserver/UpdateSubnet.go and pkg/sshstatus/ssh_status_reconcile.go: the details of a
-- Subnet's clients, written by its DHCP server and read for an SSHStatus. encoding/json is a
-- parameter.
use topohub.Common.{
  ℕ, ◌≡◌, refl, ◌∙◌, false, ◌||◌, Option, some, List, [], ◌∷◌, arith, ◌==◌, if◌then◌else◌, length,
  any, Text, codes, text_eq, is_empty, Map, lookup, insert, lookup-insert, ℤ,
}
use topohub.Dhcp.Client.{DhcpClientInfo}
use topohub.Dhcp.Status.{ClientInfo, add_bound, add_leased, client_map, update_client_func}
use topohub.Dhcp.Status.Amounts.{has_key}
use topohub.Ssh.Controller.{SubnetClients, has_client}

with_head :
    (ip k : Text) (v : DhcpClientInfo) (clients : Map DhcpClientInfo) (m : Map ClientInfo)
    (e : ClientInfo)
    → (has_key ip clients || has_key ip (insert k e m))
      ≡ (has_key ip ((k, v) ∷ clients) || has_key ip m)
unfolding lookup
with_head ip k v clients m e = ground (arith, lookup-insert k ip e m)

has_key-add_bound :
    (format : Option ℤ → Text) (ip : Text) (clients : Map DhcpClientInfo) (m : Map ClientInfo)
    (n : ℕ)
    → has_key ip (add_bound format clients (m, n)).0 ≡ (has_key ip clients || has_key ip m)
unfolding add_bound lookup
has_key-add_bound format ip [] m n = refl
has_key-add_bound format ip ((k, v) ∷ clients) m n =
    has_key-add_bound format ip clients (insert k _ m) _ ∙ with_head ip k v clients m _

has_key-add_leased :
    (format : Option ℤ → Text) (ip : Text) (clients : Map DhcpClientInfo) (m : Map ClientInfo)
    (n : ℕ)
    → has_key ip (add_leased format clients (m, n)).0 ≡ (has_key ip clients || has_key ip m)
unfolding add_leased lookup
has_key-add_leased format ip [] m n = refl
has_key-add_leased format ip ((k, v) ∷ clients) m n =
    has_key-add_leased format ip clients (insert k _ m) _ ∙ with_head ip k v clients m _

has_key-client_map :
    (format : Option ℤ → Text) (ip : Text) (leases bindings : Map DhcpClientInfo)
    → has_key ip (client_map format leases bindings).0 ≡ (has_key ip leases || has_key ip bindings)
unfolding client_map lookup
has_key-client_map format ip leases bindings = ground (
  arith,
  has_key-add_leased format ip leases (add_bound format bindings ([], 0)).0
      (add_bound format bindings ([], 0)).1,
  has_key-add_bound format ip bindings [] 0,
)

-- What is needed of encoding/json: a map with texts as keys is encoded as a text that is not empty,
-- from which a map with the same keys is decoded; `{}` decodes to the empty map. A decoded map is
-- the list of its keys.
pub record Json : Type 0 where
  pub marshal : Map ClientInfo → Option Text
  pub unmarshal : Text → Option (List Text)
  pub encoded : Map ClientInfo → Text
  pub decoded : Map ClientInfo → List Text
  pub marshals : (m : Map ClientInfo) → marshal m ≡ some (encoded m)
  pub is_text : (m : Map ClientInfo) → is_empty (encoded m) ≡ false
  pub unmarshals : (m : Map ClientInfo) → unmarshal (encoded m) ≡ some (decoded m)
  pub same_keys : (ip : Text) (m : Map ClientInfo) → any (text_eq ip) (decoded m) ≡ has_key ip m
  pub empty_object : unmarshal (codes "{}") ≡ some []

module _ (json : Json) where
  -- a Subnet with the details that its server writes
  abbrev pub reported :
      (Option ℤ → Text) → Text → Map DhcpClientInfo → Map DhcpClientInfo → SubnetClients
  reported format name leases bindings = record {
    name = name;
    dhcp_client_details = (update_client_func format json.marshal leases bindings).0;
  }

  found_in :
      (ip name : Text) (m : Map ClientInfo) (s : Text)
      → s ≡ (if length m == 0 then codes "{}" else json.encoded m)
      → has_client json.unmarshal ip (record { name = name; dhcp_client_details = s })
        ≡ has_key ip m
  unfolding has_client lookup
  found_in ip name [] s e = rw (e, json.empty_object) refl
  found_in ip name (x ∷ m) s e =
      let e' : s ≡ json.encoded (x ∷ m) = e ∙ ground arith in
      rw (e', json.is_text (x ∷ m), json.unmarshals (x ∷ m), json.same_keys ip (x ∷ m)) refl

  details_text :
      (format : Option ℤ → Text) (leases bindings : Map DhcpClientInfo)
      → (update_client_func format json.marshal leases bindings).0 ≡ (
          let m = (client_map format leases bindings).0 in
          if length m == 0 then codes "{}" else json.encoded m)
  unfolding update_client_func
  details_text format leases bindings =
      let m = (client_map format leases bindings).0 in rw (json.marshals m) (ground arith)

  -- The details that a DHCP server writes into its Subnet are read back: an SSHStatus finds its
  -- address in them exactly if the server knows the address, as a lease or as a binding.
  pub has_client-update_client_func :
      (format : Option ℤ → Text) (ip name : Text) (leases bindings : Map DhcpClientInfo)
      → has_client json.unmarshal ip (reported format name leases bindings)
        ≡ (has_key ip leases || has_key ip bindings)
  unfolding client_map
  has_client-update_client_func format ip name leases bindings =
      found_in ip name (client_map format leases bindings).0 _ (details_text format leases bindings)
      ∙ has_key-client_map format ip leases bindings

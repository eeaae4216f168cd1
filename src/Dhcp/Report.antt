-- ===== src/Dhcp/Report.antt =====
-- pkg/subnet/dhcpserver/UpdateSubnet.go: one attempt to store the status of a Subnet, and the worker
-- that is told when to. retry.OnError repeats an attempt that ends in a conflict.
pub mod Conditions
pub mod Worker
use topohub.Common.{
  ℕ, ◌+◌, Bool, true, false, not, ◌&&◌, Option, none, some, List, [], ◌∷◌, ◌++◌, ◌==◌,
  if◌then◌else◌, Result, length, Text, codes, text_eq, Map, ℤ, ok, err,
}
use topohub.Dhcp.Client.{DhcpClientInfo}
use topohub.Dhcp.Status.{ClientInfo, DhcpStatusSpec, update_client_func, dhcp_status}

-- metav1.Condition
pub record Condition : Type 0 where
  pub type : Text
  pub reason : Text
  pub message : Text
  pub status : Text
  pub last_transition_time : Text

pub record SubnetStatus : Type 0 where
  pub dhcp_status : Option DhcpStatusSpec
  pub host_node : Option Text
  pub conditions : List Condition
  pub dhcp_client_details : Text

unfoldable pub condition_eq : Condition → Condition → Bool
condition_eq a b =
    text_eq a.type b.type
    && (text_eq a.reason b.reason
        && (text_eq a.message b.message
            && (text_eq a.status b.status
                && text_eq a.last_transition_time b.last_transition_time)))

unfoldable pub amounts_eq : DhcpStatusSpec → DhcpStatusSpec → Bool
amounts_eq a b =
    a.dhcp_ip_total_amount == b.dhcp_ip_total_amount
    && (a.dhcp_ip_available_amount == b.dhcp_ip_available_amount
        && (a.dhcp_ip_active_amount == b.dhcp_ip_active_amount
            && a.dhcp_ip_bind_amount == b.dhcp_ip_bind_amount))

abbrev pub list_eq {ℓ} : {A : Type ℓ} → (A → A → Bool) → List A → List A → Bool
list_eq eq [] [] = true
list_eq eq (a ∷ as') (b ∷ bs) = eq a b && list_eq eq as' bs
list_eq eq _ _ = false

abbrev pub option_eq {ℓ} : {A : Type ℓ} → (A → A → Bool) → Option A → Option A → Bool
option_eq eq none none = true
option_eq eq (some a) (some b) = eq a b
option_eq eq _ _ = false

-- reflect.DeepEqual of two statuses
unfoldable pub deep_equal : SubnetStatus → SubnetStatus → Bool
unfolding condition_eq amounts_eq
deep_equal a b =
    option_eq amounts_eq a.dhcp_status b.dhcp_status
    && (option_eq text_eq a.host_node b.host_node
        && (list_eq condition_eq a.conditions b.conditions
            && text_eq a.dhcp_client_details b.dhcp_client_details))

-- what the server knows: its Subnet's range, its node and its clients; and the time, the format of
-- times, and json.Marshal
pub record Server : Type 0 where
  pub ip_range : Text
  pub node_name : Text
  pub leases : Map DhcpClientInfo
  pub bindings : Map DhcpClientInfo
  pub now : Text
  pub format : Option ℤ → Text
  pub marshal : Map ClientInfo → Option Text

abbrev pub dhcp_server : Text
dhcp_server = codes "DhcpServer"

unfoldable pub hosted : Server → Condition
hosted v = record {
  type = dhcp_server;
  reason = codes "hostChange";
  message = codes "dhcp server is hosted by node " ++ v.node_name;
  status = codes "True";
  last_transition_time = v.now;
}

-- updated.Status.HostNode == nil || *updated.Status.HostNode != s.config.NodeName
unfoldable pub is_moved : Server → SubnetStatus → Bool
is_moved v s = elim (s.host_node) [ none ↦ true | some n ↦ not (text_eq n v.node_name) ]

-- the status that an attempt makes of the current one
unfoldable pub updated : Server → SubnetStatus → SubnetStatus
unfolding hosted is_moved
updated v s =
    let (details, used_ip_amount) = update_client_func v.format v.marshal v.leases v.bindings in
    record {
      dhcp_status =
          some (dhcp_status v.ip_range used_ip_amount (length v.leases) (length v.bindings));
      host_node = if is_moved v s then some v.node_name else s.host_node;
      conditions = if is_moved v s then s.conditions ++ (hosted v ∷ []) else s.conditions;
      dhcp_client_details = details;
    }

-- an attempt ends well, in a conflict, which is retried, or in another error
pub data Tried : Type 0 where
  succeeded conflict abandoned : Tried

-- the function that updateSubnetWithRetry retries: `current` is what Get returns, or how it fails,
-- `stored` how the update ends; and the update that it sends
unfoldable pub try_update : Server → Result Tried SubnetStatus → Tried → Tried × List SubnetStatus
unfolding updated deep_equal
try_update v (err e) stored = (e, [])
try_update v (ok current) stored =
    if deep_equal current (updated v current)
    then (succeeded, [])
    else (stored, updated v current ∷ [])

-- what the worker's select receives
pub data WorkerEvent : Type 0 where
  stop signal tick : WorkerEvent

-- the worker: whether it runs, pendingUpdate, and the updates that it made
pub record WorkerState : Type 0 where
  pub is_running : Bool
  pub pending_update : Bool
  pub updates : ℕ

-- one round of the loop of statusUpdateWorker
unfoldable pub worker_step : WorkerEvent → WorkerState → WorkerState
worker_step stop s = record s { is_running = false }
worker_step signal s = record s { pending_update = true }
worker_step tick s =
    if s.pending_update then record s { pending_update = false; updates = s.updates + 1 } else s

-- statusUpdateWorker over the events that it receives
unfoldable pub status_update_worker : List WorkerEvent → WorkerState → WorkerState
unfolding worker_step
status_update_worker [] s = s
status_update_worker (e ∷ es) s =
    let rest = status_update_worker es (worker_step e s) in if s.is_running then rest else s

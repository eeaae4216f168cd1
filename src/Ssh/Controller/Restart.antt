-- ===== src/Ssh/Controller/Restart.antt =====
-- pkg/sshstatus/ssh_status_reconcile.go: what a controller checks after it starts with an empty cache.
use topohub.Common.{Bool, true, not, List, [], ◌∷◌, ◌++◌, Text, is_empty}
use topohub.Endpoint.{SshStatus}
use topohub.Ssh.Cache.{SshHostCache}
use topohub.Ssh.Controller.{World, Found, found, not_found, get_failed, reconcile}

-- the requests that controller-runtime makes for the objects that exist, and later ones
pub record Call : Type 0 where
  pub world : World
  pub name : Text
  pub answer : Found

-- reconciliations in a row: the cache after them, and the updates
pub reconcile_all : List Call → SshHostCache → SshHostCache × List SshStatus
reconcile_all [] c = (c, [])
reconcile_all (r ∷ rs) c =
    let (c', o, sent) = reconcile r.world r.name r.answer c in
    let rest = reconcile_all rs c' in (rest.0, sent ++ rest.1)

-- the SSHStatus, if there is one, has an address
abbrev pub has_address : Call → Bool
has_address r = elim (r.answer) [
  | get_failed ↦ true
  | not_found ↦ true
  | found owners s ↦ not (is_empty s.status.basic.ip_addr)
]

-- ===== src/Redfish/Controller/Agree.antt =====
-- pkg/redfishstatus and pkg/secret: the cached logins follow the Secrets, for any order of changed
-- Secrets and reconciliations. One reconciliation is one step.
use topohub.Common.{
  Bool, not, ◌&&◌, ◌||◌, Option, none, some, [], if◌then◌else◌, is_some, Text, codes, text_eq, Map,
  lookup,
}
use topohub.Api.{RedfishStatus}
use topohub.Redfish.Cache.{RedfishCache}
use topohub.Redfish.Controller.{
  Secrets, World, Found, found, not_found, reconcile, reconcile_secret,
}
use topohub.Redfish.Controller.Current.{Dirty}

-- ns/n, and every name
abbrev pub is_same : Text → Text → Text → Text → Bool
is_same ns n ns' n' = text_eq ns ns' && text_eq n n'

abbrev pub is_complete : Map Text → Bool
is_complete m = is_some (lookup (codes "username") m) && is_some (lookup (codes "password") m)

-- the Secrets, those of them that changed, and the cache
pub record State : Type 0 where
  pub secrets : Secrets
  pub dirty : Dirty
  pub cache : RedfishCache

abbrev pub written : Text → Text → Option (Map Text) → State → State
written ns n o s = record s {
  secrets = λ ns' n'. if is_same ns n ns' n' then o else s.secrets ns' n';
  dirty = λ ns' n'. is_same ns n ns' n' || s.dirty ns' n';
}

-- the state after the Secret's reconciliation, which reads the user name and the password only where
-- the Secret has both
abbrev pub synced : World → Text → Text → Option (Map Text) → State → State
synced w ns n none s = record s { cache = (reconcile_secret w n ns not_found s.cache).0 }
synced w ns n (some m) s = record s {
  cache = (reconcile_secret w n ns (found m) s.cache).0;
  dirty = λ ns' n'. not (is_complete m && is_same ns n ns' n') && s.dirty ns' n';
}

-- a Secret is written, changed or deleted; a RedfishStatus is reconciled; a Secret is reconciled
pub data Step : State → State → Type 0 where
  write : (ns n : Text) (o : Option (Map Text)) (s : State) → Step s (written ns n o s)
  host :
      (w : World) (name : Text) (f : Found RedfishStatus) (s : State)
      → Step s (record s { cache = (reconcile s.secrets w name f s.cache).0 })
  sync : (w : World) (ns n : Text) (s : State) → Step s (synced w ns n (s.secrets ns n) s)

pub data Reachable : State → Type 0 where
  start :
      (secrets : Secrets) (dirty : Dirty)
      → Reachable (record { secrets = secrets; dirty = dirty; cache = [] })
  step : {s t : State} → Reachable s → Step s t → Reachable t

abbrev cleaned : Text → Text → Map Text → Dirty → Dirty
cleaned ns n m dirty ns' n' = not (is_complete m && is_same ns n ns' n') && dirty ns' n'

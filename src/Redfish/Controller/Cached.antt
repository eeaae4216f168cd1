-- ===== src/Redfish/Controller/Cached.antt =====
-- pkg/redfishstatus/redfish_status_reconcile.go: which connection the cache has after a
-- reconciliation, and when it is tried again.
use topohub.Common.{
  ◌≡◌, refl, Bool, true, false, Option, none, some, List, [], arith, if◌then◌else◌, Text, text_eq,
  text_eq_iff, is_empty, lookup-insert, lookup-delete,
}
use topohub.Api.{RedfishStatus}
use topohub.Redfish.Cache.{RedfishConnectCon, RedfishCache, add, remove, get}
use topohub.Redfish.Status.{Request}
use topohub.Redfish.Controller.{
  Secrets, World, Found, found, not_found, get_failed, Outcome, finished, requeue_after,
  credentials, connection, process_redfish_status, reconcile, cache_and_check,
}

-- the login that a reconciliation stores, if it stores one
abbrev pub login_of : Secrets → RedfishStatus → Option (Text × Text)
login_of secrets s = if is_empty s.status.basic.ip_addr then none else credentials secrets s

-- the connection of `k` after the login `o` is stored, where it was `old`
abbrev pub stored_login :
    RedfishStatus
    → Text
    → Option RedfishConnectCon
    → Option (Text × Text)
    → Option RedfishConnectCon
stored_login s k old none = old
stored_login s k old (some login) = if text_eq s.meta.name k then some (connection s login) else old

-- the connection of the name `k` after the reconciliation of `name`, where it was `old`
abbrev pub connection_after :
    Secrets
    → Text
    → Found RedfishStatus
    → Text
    → Option RedfishConnectCon
    → Option RedfishConnectCon
connection_after secrets name get_failed k old = old
connection_after secrets name not_found k old = if text_eq name k then none else old
connection_after secrets name (found s) k old = stored_login s k old (login_of secrets s)

cache_and_check-get :
    (w : World) (s : RedfishStatus) (o : Option (Text × Text)) (k : Text) (c : RedfishCache)
    → get k (cache_and_check w s o c).0 ≡ stored_login s k (get k c) o
unfolding cache_and_check get add
cache_and_check-get w s none k c = refl
cache_and_check-get w s (some login) k c = lookup-insert s.meta.name k (connection s login) c

by_address :
    (b : Bool) (r : RedfishCache × Outcome × List Request) (s : RedfishStatus)
    (o : Option (Text × Text)) (k : Text) (c : RedfishCache)
    → get k r.0 ≡ stored_login s k (get k c) o
    → get k (if b then (c, finished, []) else r).0
      ≡ stored_login s k (get k c) (if b then none else o)
by_address true r s o k c h = refl
by_address false r s o k c h = h

pub reconcile-get :
    (secrets : Secrets) (w : World) (name : Text) (f : Found RedfishStatus) (k : Text)
    (c : RedfishCache)
    → get k (reconcile secrets w name f c).0 ≡ connection_after secrets name f k (get k c)
unfolding reconcile process_redfish_status get remove
reconcile-get secrets w name get_failed k c = refl
reconcile-get secrets w name not_found k c =
    ground (arith, lookup-delete name k c, text_eq_iff name k)
reconcile-get secrets w name (found s) k c =
    let r = process_redfish_status secrets w s c in
    by_address (is_empty s.status.basic.ip_addr) (r.0, if r.1 then requeue_after else finished, r.2)
      s (credentials secrets s) k c (cache_and_check-get w s (credentials secrets s) k c)

abbrev outcome_of : Bool → Outcome
outcome_of is_failed = if is_failed then requeue_after else finished

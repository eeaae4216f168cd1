-- ===== src/Redfish/Controller/Current.antt =====
-- pkg/redfishstatus: a reconciliation of a RedfishStatus stores the login that its Secret has.
use topohub.Common.{
  ◌≡◌, refl, sym, subst, ◌∙◌, inl, inr, Bool, true, false, not, ◌&&◌, Option, none, some, arith,
  Bool-cases, Text, text_eq, is_empty, some-injective,
}
use topohub.Api.{RedfishStatus}
use topohub.Redfish.Cache.{RedfishConnectCon, RedfishCache, get}
use topohub.Redfish.Controller.{
  Secrets, World, Found, found, not_found, get_failed, get_secret_data, credentials, connection,
  reconcile,
}
use topohub.Redfish.Controller.Cached.{connection_after, login_of, stored_login, reconcile-get}

-- the connection names a Secret
abbrev pub has_secret : RedfishConnectCon → Bool
has_secret v = not (is_empty v.info.secret_name) && not (is_empty v.info.secret_namespace)

-- the Secrets that changed since their last reconciliation
abbrev pub Dirty : Type 0
Dirty = Text → Text → Bool

abbrev pub IsCurrent : Secrets → Dirty → RedfishConnectCon → Type 0
IsCurrent secrets dirty v =
    has_secret v ≡ true
    → dirty v.info.secret_namespace v.info.secret_name ≡ false
    → get_secret_data secrets v.info.secret_name v.info.secret_namespace
      ≡ some (v.username, v.password)

-- every cached connection whose Secret is not dirty has the login that the Secret has
unfoldable pub Agrees : Secrets → Dirty → RedfishCache → Type 0
Agrees secrets dirty c =
    (k : Text) (v : RedfishConnectCon) → get k c ≡ some v → IsCurrent secrets dirty v

connection-IsCurrent :
    (secrets : Secrets) (dirty : Dirty) (s : RedfishStatus) (login : Text × Text)
    → credentials secrets s ≡ some login
    → IsCurrent secrets dirty (connection s login)
unfolding credentials connection
connection-IsCurrent secrets dirty s login e h d = rw h at e

login-credentials :
    (secrets : Secrets) (s : RedfishStatus) (login : Text × Text)
    → login_of secrets s ≡ some login
    → credentials secrets s ≡ some login
login-credentials secrets s login e = ground arith

stored-IsCurrent :
    (secrets : Secrets) (dirty : Dirty) (s : RedfishStatus) (o : Option (Text × Text)) (k : Text)
    (v : RedfishConnectCon) (old : Option RedfishConnectCon)
    → ((login : Text × Text) → o ≡ some login → credentials secrets s ≡ some login)
    → (old ≡ some v → IsCurrent secrets dirty v)
    → stored_login s k old o ≡ some v
    → IsCurrent secrets dirty v
stored-IsCurrent secrets dirty s none k v old l h e = h e
stored-IsCurrent secrets dirty s (some login) k v old l h e =
    elim (Bool-cases (text_eq s.meta.name k)) [
      | inl z ↦
          let e' : some (connection s login) ≡ some v = rw z at e in
          subst (IsCurrent secrets dirty) (some-injective e')
            (connection-IsCurrent secrets dirty s login (l login refl))
      | inr z ↦ h (rw z at e)
    ]

after-IsCurrent :
    (secrets : Secrets) (dirty : Dirty) (name : Text) (f : Found RedfishStatus) (k : Text)
    (v : RedfishConnectCon) (old : Option RedfishConnectCon)
    → (old ≡ some v → IsCurrent secrets dirty v)
    → connection_after secrets name f k old ≡ some v
    → IsCurrent secrets dirty v
after-IsCurrent secrets dirty name get_failed k v old h e = h e
after-IsCurrent secrets dirty name not_found k v old h e = h (ground arith)
after-IsCurrent secrets dirty name (found s) k v old h e =
    stored-IsCurrent secrets dirty s (login_of secrets s) k v old (login-credentials secrets s) h e

pub reconcile-Agrees :
    (secrets : Secrets) (dirty : Dirty) (w : World) (name : Text) (f : Found RedfishStatus)
    (c : RedfishCache)
    → Agrees secrets dirty c
    → Agrees secrets dirty (reconcile secrets w name f c).0
unfolding Agrees
reconcile-Agrees secrets dirty w name f c h k v e =
    after-IsCurrent secrets dirty name f k v (get k c) (h k v)
      (sym (reconcile-get secrets w name f k c) ∙ e)

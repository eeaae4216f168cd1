-- ===== src/Ssh/Cache/Keys.antt =====
-- pkg/sshstatus/data/cache.go: which hosts get a new login or key.
use topohub.Common.{
  ◌≡◌, refl, ◌∙◌, Bool, true, false, ◌&&◌, Option, none, some, [], ◌∷◌, arith, if◌then◌else◌, any,
  Text, text_eq, text_eq_iff, lookup, is_distinct,
}
use topohub.Ssh.Cache.{SshConnectCon, SshHostCache, get, uses, change_hosts, update_ssh_key}

module _ (test : SshConnectCon → Bool) (change : SshConnectCon → SshConnectCon) where
  abbrev changed : Option SshConnectCon → Option SshConnectCon
  changed none = none
  changed (some con) = if test con then some (change con) else some con

  get-change_hosts :
      (k : Text) (c : SshHostCache) → get k (change_hosts test change c).0 ≡ changed (get k c)
  unfolding get change_hosts lookup
  get-change_hosts k [] = refl
  get-change_hosts k ((name, con) ∷ c) = ground (arith, get-change_hosts k c)

  listed-change_hosts :
      (k : Text) (c : SshHostCache)
      → is_distinct c ≡ true
      → any (text_eq k) (change_hosts test change c).1
        ≡ elim (get k c) [ none ↦ false | some con ↦ test con ]
  unfolding get change_hosts lookup
  listed-change_hosts k [] d = refl
  listed-change_hosts k ((name, con) ∷ c) d =
      ground (arith, listed-change_hosts k c, text_eq_iff name k, text_eq_iff k name)

-- the Secret's key is for the entry
abbrev pub takes_key : Text → Text → SshConnectCon → Bool
takes_key n ns con = uses n ns con && con.ssh_key_auth

abbrev pub keyed : Text → Text → Text → Option SshConnectCon → Option SshConnectCon
keyed n ns key none = none
keyed n ns key (some con) =
    if takes_key n ns con then some (record con { ssh_key = key }) else some con

changed-keyed :
    (n ns key : Text) (o : Option SshConnectCon)
    → changed (takes_key n ns) (λ con. record con { ssh_key = key }) o ≡ keyed n ns key o
changed-keyed n ns key none = refl
changed-keyed n ns key (some con) = refl

-- UpdateSSHKey gives the key to the hosts that use the Secret and authenticate by key, leaves every
-- other host as it was, and lists exactly the hosts of the first kind, where every name has one entry,
-- as in a Go map.
pub update_ssh_key-hosts :
    (n ns key k : Text) (c : SshHostCache)
    → is_distinct c ≡ true
    → (get k (update_ssh_key n ns key c).0 ≡ keyed n ns key (get k c))
      × (any (text_eq k) (update_ssh_key n ns key c).1
          ≡ elim (get k c) [ none ↦ false | some con ↦ takes_key n ns con ])
unfolding update_ssh_key
update_ssh_key-hosts n ns key k c d = (
  get-change_hosts (takes_key n ns) (λ con. record con { ssh_key = key }) k c
      ∙ changed-keyed n ns key (get k c),
  listed-change_hosts (takes_key n ns) (λ con. record con { ssh_key = key }) k c d,
)

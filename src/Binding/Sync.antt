-- ===== src/Binding/Sync.antt =====
-- pkg/bindingip/BindingIPReconcile.go: the cache follows the BindingIps.
use topohub.Common.{
  ◌≡◌, refl, ◌∙◌, true, false, Option, none, some, [], arith, if◌then◌else◌, Text, text_eq,
  text_eq_refl, text_eq_iff, equal_fold_iff, lookup-insert, bool_eq_iff,
}
use topohub.Api.{BindingIp}
use topohub.Binding.Cache.{BindingIpInfo, BindingIpCache, add, get}
use topohub.Binding.Controller.{
  info_of, deep_equal, spec_changed, process_entry, process_binding_ip,
}

deep_equal_eq : (a b : BindingIpInfo) → deep_equal a b ≡ true → a ≡ b
unfolding deep_equal
deep_equal_eq a b h =
    let s = (text_eq_iff a.subnet b.subnet).0 (ground arith) in
    let i = (text_eq_iff a.ip_addr b.ip_addr).0 (ground arith) in
    let m = (text_eq_iff a.mac_addr b.mac_addr).0 (ground arith) in
    let v = (bool_eq_iff a.valid b.valid).0 (ground arith) in
    let n = (text_eq_iff a.hostname b.hostname).0 (ground arith) in cc

get-process_entry :
    (b : BindingIp) (c : BindingIpCache) (name : Text) (o : Option BindingIpInfo)
    → get b.meta.name c ≡ o
    → get name (process_entry o b c).0
      ≡ (if text_eq b.meta.name name then some (info_of b) else get name c)
unfolding process_entry get add
get-process_entry b c name none z = lookup-insert b.meta.name name (info_of b) c
get-process_entry b c name (some old_data) z = ground (
  arith,
  lookup-insert b.meta.name name (info_of b) c,
  deep_equal_eq old_data (info_of b),
  text_eq_iff b.meta.name name,
)

-- After processBindingIP the cache holds the BindingIp's data under its name, whatever it held
-- before, and the entries of all other names are unchanged.
pub get-process_binding_ip :
    (b : BindingIp) (c : BindingIpCache) (name : Text)
    → get name (process_binding_ip b c).0
      ≡ (if text_eq b.meta.name name then some (info_of b) else get name c)
unfolding process_binding_ip
get-process_binding_ip b c name = get-process_entry b c name (get b.meta.name c) refl

spec_unchanged : (b : BindingIp) → spec_changed (info_of b) b ≡ false
unfolding spec_changed info_of
spec_unchanged b = ground (
  arith,
  text_eq_refl b.spec.subnet,
  text_eq_refl b.spec.ip_addr,
  (equal_fold_iff b.spec.mac_addr b.spec.mac_addr).1 refl,
)

deep_equal_refl : (a : BindingIpInfo) → deep_equal a a ≡ true
unfolding deep_equal
deep_equal_refl a = ground (
  arith,
  text_eq_refl a.subnet,
  text_eq_refl a.ip_addr,
  text_eq_refl a.mac_addr,
  text_eq_refl a.hostname,
  (bool_eq_iff a.valid a.valid).1 refl,
)

-- processBindingIP settles: run again on the same BindingIp it changes nothing and sends no event.
pub process_binding_ip_settles :
    (b : BindingIp) (c : BindingIpCache)
    → process_binding_ip b (process_binding_ip b c).0 ≡ ((process_binding_ip b c).0, [])
unfolding process_binding_ip
process_binding_ip_settles b c =
    at_entry (process_binding_ip b c).0 (get b.meta.name (process_binding_ip b c).0)
      (get-process_binding_ip b c b.meta.name ∙ rw (text_eq_refl b.meta.name) refl)
  where
    at_entry :
        (d : BindingIpCache) (o : Option BindingIpInfo)
        → o ≡ some (info_of b)
        → process_entry o b d ≡ (d, [])
    at_entry d o z = rw z (ground (arith, spec_unchanged b, deep_equal_refl (info_of b)))

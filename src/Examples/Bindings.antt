-- ===== src/Examples/Bindings.antt =====
-- Runs of the cache of the BindingIps and of the DHCP server's bindings.
use topohub.Common.{
  ◌≡◌, refl, subst, inl, inr, true, none, some, [], ◌∷◌, arith, Bool-cases, Text, codes, text_eq,
  text_eq_iff, equal_fold, lookup,
}
use topohub.Api.{BindingIp}
use topohub.Binding.Cache.{BindingIpInfo, BindingIpCache, get}
use topohub.Binding.Controller.{process_binding_ip}
use topohub.Dhcp.Bindings.{Manual, Answers, client_of}
use topohub.Dhcp.Deliver.{deliver, IsBound, BoundTo, process_binding_ip-IsBound}

abbrev subnet : Text
subnet = codes "first"

abbrev printer : BindingIp
printer = record {
  meta = record { name = codes "printer"; labels = none; resource_version = [] };
  spec = record {
    subnet = subnet;
    ip_addr = codes "192.168.1.12";
    mac_addr = codes "00:11:22:33:44:aa";
  };
  valid = true;
}

abbrev before : BindingIpInfo
before = record {
  subnet = subnet;
  ip_addr = codes "192.168.1.11";
  mac_addr = codes "00:11:22:33:44:aa";
  valid = true;
  hostname = codes "printer";
}

abbrev cache : BindingIpCache
cache = (codes "printer", before) ∷ []

abbrev manual : Manual
manual = (codes "192.168.1.11", client_of before) ∷ []

abbrev answers : Answers
answers = record { written = true; generated = true; signalled = true; lease_read = true }

only_printer :
    (name : Text) (info : BindingIpInfo)
    → get name cache ≡ some info
    → info.ip_addr ≡ printer.spec.ip_addr
    → printer.meta.name ≡ name
unfolding get lookup
only_printer name info h k = elim (Bool-cases (text_eq (codes "printer") name)) [
  | inl z ↦ (text_eq_iff (codes "printer") name).0 z
  | inr z ↦ ground arith
]

before_bound : BoundTo before manual
unfolding BoundTo lookup client_of text_eq equal_fold
before_bound = (before.mac_addr, refl, refl)

only_before : (name : Text) (info : BindingIpInfo) → get name cache ≡ some info → before ≡ info
unfolding get lookup
only_before name info h = ground arith

manual-IsBound : IsBound subnet cache manual
unfolding IsBound
manual-IsBound name info h k = subst (λ i. BoundTo i manual) (only_before name info h) before_bound

process_binding_ip-IsBound_example :
    IsBound subnet
      (process_binding_ip printer cache).0
      (deliver answers subnet (process_binding_ip printer cache).1 manual)
process_binding_ip-IsBound_example =
    process_binding_ip-IsBound answers printer cache subnet manual refl only_printer manual-IsBound

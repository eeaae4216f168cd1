-- ===== src/Binding/Cache.antt =====
-- pkg/bindingip/data/cache.go: the cache, a map by the BindingIp's name; its lock makes each
-- operation one step.
use topohub.Common.{
  ◌≡◌, refl, Bool, true, not, Option, none, some, List, [], ◌∷◌, arith, if◌then◌else◌, Text,
  text_eq, text_eq_iff, Map, lookup, insert, delete, is_distinct,
}

pub record BindingIpInfo : Type 0 where
  pub subnet : Text
  pub ip_addr : Text
  pub mac_addr : Text
  pub valid : Bool
  pub hostname : Text

abbrev pub BindingIpCache : Type 0
BindingIpCache = Map BindingIpInfo

-- Add
unfoldable pub add : Text → BindingIpInfo → BindingIpCache → BindingIpCache
add name entry c = insert name entry c

-- Delete
unfoldable pub remove : Text → BindingIpCache → BindingIpCache
remove name c = delete name c

-- Get, a copy or nil
unfoldable pub get : Text → BindingIpCache → Option BindingIpInfo
get name c = lookup name c

-- GetAll
unfoldable pub get_all : BindingIpCache → List BindingIpInfo
get_all [] = []
get_all ((k, v) ∷ c) = v ∷ get_all c

-- GetInfoForSubnet
unfoldable pub get_info_for_subnet : Text → BindingIpCache → List BindingIpInfo
get_info_for_subnet subnet_name [] = []
get_info_for_subnet subnet_name ((k, v) ∷ c) =
    let rest = get_info_for_subnet subnet_name c in
    if not (text_eq v.subnet subnet_name) then rest else v ∷ rest

-- GetBySubnet
unfoldable pub get_by_subnet : Text → BindingIpCache → Map BindingIpInfo
get_by_subnet subnet [] = []
get_by_subnet subnet ((k, v) ∷ c) =
    let rest = get_by_subnet subnet c in if text_eq v.subnet subnet then (k, v) ∷ rest else rest

abbrev pub keep_subnet : Text → Option BindingIpInfo → Option BindingIpInfo
keep_subnet subnet none = none
keep_subnet subnet (some v) = if text_eq v.subnet subnet then some v else none

-- GetBySubnet finds a name exactly if Get finds it with an entry of that subnet, where every name
-- has one entry, as in a Go map.
pub get-get_by_subnet :
    (name subnet : Text) (c : BindingIpCache)
    → is_distinct c ≡ true
    → lookup name (get_by_subnet subnet c) ≡ keep_subnet subnet (get name c)
unfolding get_by_subnet get lookup
get-get_by_subnet name subnet [] h = refl
get-get_by_subnet name subnet ((k, v) ∷ c) h =
    ground (arith, get-get_by_subnet name subnet c, text_eq_iff k name)

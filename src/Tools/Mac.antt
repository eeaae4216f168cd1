-- ===== src/Tools/Mac.antt =====
-- pkg/tools/tools.go: MAC addresses and interface names.
pub mod Spellings
use topohub.Common.{
  ℕ, ◌+◌, ◌%◌, ◌≡◌, ◌↔◌, Bool, true, false, not, ◌&&◌, ◌||◌, Option, none, some, List, [], ◌∷◌,
  arith, ltb, leb, ◌==◌, if◌then◌else◌, Result, guard, length, get_or, any, all, Text, text_eq,
  is_empty, contains, replace_all, ℤ, int_eq, int_eq_iff, err,
}
use topohub.Net.Mac.{parse_mac}

-- the loop that writes a colon before every second character but the first; `i` is its index
unfoldable pub insert_colons : ℕ → Text → Text
insert_colons i [] = []
insert_colons i (c ∷ s) =
    let rest = c ∷ insert_colons (i + 1) s in if ltb 0 i && i % 2 == 0 then b':' ∷ rest else rest

-- the lengths and the lowest bit of the first byte
abbrev is_unicast : Option (List ℕ) → Bool
is_unicast none = false
is_unicast (some mac) = length mac == 6 && get_or mac 0 0 % 2 == 0

-- IsValidUnicastMAC
unfoldable pub is_valid_unicast_mac : Text → Bool
is_valid_unicast_mac mac_str =
    let colons = replace_all b'-' b':' mac_str in
    let full =
      if length colons == 12 && not (contains b':' colons)
      then insert_colons 0 colons
      else colons in
    is_unicast (parse_mac full)

-- [a-zA-Z0-9_-]
abbrev is_name_char : ℕ → Bool
is_name_char c =
    (leb b'a' c && leb c b'z')
    || (leb b'A' c && leb c b'Z')
    || (leb b'0' c && leb c b'9')
    || c == b'_'
    || c == b'-'

-- IsValidInterfaceName
unfoldable pub is_valid_interface_name : Text → Bool
is_valid_interface_name name = not (is_empty name) && all is_name_char name && leb (length name) 15

-- ValidateInterfaceExists; `ifaces` are the names that net.Interfaces finds, none if it fails
pub data InterfaceError : Type 0 where
  list_failed : InterfaceError
  does_not_exist : Text → InterfaceError

unfoldable pub validate_interface_exists :
    Option (List Text) → Text → Result InterfaceError (Unit {0})
validate_interface_exists none iface_name = err list_failed
validate_interface_exists (some ifaces) iface_name =
    guard (any (λ name. text_eq name iface_name) ifaces) (does_not_exist iface_name)

-- Int32PtrEqual
unfoldable pub int32_ptr_equal : Option ℤ → Option ℤ → Bool
int32_ptr_equal none none = true
int32_ptr_equal (some a) (some b) = int_eq a b
int32_ptr_equal _ _ = false

-- `Int32PtrEqual` decides equality of optional numbers, the two nil pointers included.
pub int32_ptr_equal_iff : (a b : Option ℤ) → (int32_ptr_equal a b ≡ true) ↔ (a ≡ b)
unfolding int32_ptr_equal
int32_ptr_equal_iff none none = ground arith
int32_ptr_equal_iff none (some b) = ground arith
int32_ptr_equal_iff (some a) none = ground arith
int32_ptr_equal_iff (some a) (some b) = ground (arith, int_eq_iff a b)

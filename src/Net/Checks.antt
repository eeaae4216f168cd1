-- ===== src/Net/Checks.antt =====
-- Runs of the model of package net on inputs whose results are documented.
use topohub.Common.{◌≡◌, refl, [], ◌∷◌, none, some, codes}
use topohub.Net.Ip.{to16, nil}
use topohub.Net.Parse.{parse_ip}
use topohub.Net.Prefix.{parse_cidr, mask_ip, cidr_mask, parse_decimal}
use topohub.Common.{contains}
use topohub.Net.Mac.{parse_mac}

v4 : parse_ip (codes "192.168.1.20") ≡ to16 (192 ∷ 168 ∷ 1 ∷ 20 ∷ [])
unfolding parse_ip
v4 = refl

v4_leading_zero : parse_ip (codes "192.168.01.20") ≡ nil
unfolding parse_ip
v4_leading_zero = refl

v4_too_large : parse_ip (codes "256.1.2.3") ≡ nil
unfolding parse_ip
v4_too_large = refl

v6 :
    parse_ip (codes "2001:db8::1")
    ≡ 32 ∷ 1 ∷ 13 ∷ 184 ∷ 0 ∷ 0 ∷ 0 ∷ 0 ∷ 0 ∷ 0 ∷ 0 ∷ 0 ∷ 0 ∷ 0 ∷ 0 ∷ 1 ∷ []
unfolding parse_ip
v6 = refl

v6_mapped : parse_ip (codes "::ffff:10.0.0.1") ≡ to16 (10 ∷ 0 ∷ 0 ∷ 1 ∷ [])
unfolding parse_ip
v6_mapped = refl

v6_trailing_colon : parse_ip (codes "1:2:3:4:5:6:7:") ≡ nil
unfolding parse_ip
v6_trailing_colon = refl

v6_full :
    parse_ip (codes "1:2:3:4:5:6:7:8")
    ≡ 0 ∷ 1 ∷ 0 ∷ 2 ∷ 0 ∷ 3 ∷ 0 ∷ 4 ∷ 0 ∷ 5 ∷ 0 ∷ 6 ∷ 0 ∷ 7 ∷ 0 ∷ 8 ∷ []
unfolding parse_ip
v6_full = refl

v6_nine : parse_ip (codes "1:2:3:4:5:6:7:8:9") ≡ nil
unfolding parse_ip
v6_nine = refl

cidr :
    parse_cidr (codes "192.168.1.100/24")
    ≡ some (
      to16 (192 ∷ 168 ∷ 1 ∷ 100 ∷ []),
      record { ip = 192 ∷ 168 ∷ 1 ∷ 0 ∷ []; mask = 255 ∷ 255 ∷ 255 ∷ 0 ∷ [] },
    )
unfolding parse_cidr mask_ip cidr_mask contains parse_ip parse_decimal
cidr = refl

cidr_too_long : parse_cidr (codes "192.168.1.100/33") ≡ none
unfolding parse_cidr mask_ip cidr_mask contains parse_ip parse_decimal
cidr_too_long = refl

mac : parse_mac (codes "00:11:22:aA:44:55") ≡ some (0 ∷ 17 ∷ 34 ∷ 170 ∷ 68 ∷ 85 ∷ [])
unfolding parse_mac
mac = refl

mac_dots : parse_mac (codes "0011.22aa.4455") ≡ some (0 ∷ 17 ∷ 34 ∷ 170 ∷ 68 ∷ 85 ∷ [])
unfolding parse_mac
mac_dots = refl

mac_short : parse_mac (codes "00:11:22:33:44") ≡ none
unfolding parse_mac
mac_short = refl

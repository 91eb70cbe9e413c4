-- ===== src/Net/ByteOrder/Examples.antt =====
-- The conversions at a concrete address.
use gooos.Common.{◌%◌, ◌<◌, ◌≡◌, arith}
use gooos.Net.ByteOrder.{htons, htonl, parse_ipv4, ip_to_string}
use gooos.Net.ByteOrder.Laws.{byte_order_involution, parse_ipv4-ip_to_string}

-- 10.0.2.15
parse_ipv4-ip_to_string_example : parse_ipv4 (ip_to_string 167772687) ≡ 167772687
parse_ipv4-ip_to_string_example = parse_ipv4-ip_to_string 167772687 (omega arith)

byte_order_involution_example :
    (htonl (htonl 167772687) ≡ 167772687)
    × (htonl 167772687 < 4294967296)
    × (htons (htons (167772687 % 65536)) ≡ 167772687 % 65536)
    × (htons (167772687 % 65536) < 65536)
byte_order_involution_example = byte_order_involution 167772687 (omega arith)

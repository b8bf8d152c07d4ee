-- ===== src/Routing/Gateway/Examples.antt =====
-- A host with two default routes.
use wifi_offload_rpi.Prelude.{
  All, List, Text, [], arith, codes, false, is_empty, refl, some, text_eq, ℕ, ◌<◌, ◌^◌, ◌∷◌, ◌≡◌,
}
use wifi_offload_rpi.Config.Hex.{is_space}
use wifi_offload_rpi.Routing.Gateway.Table.{
  IsLine, IsListed, Route, query_gateway_for_iface-route_file, route_file, swapped_gateway,
}
use wifi_offload_rpi.Routing.Gateway.{htonl, query_gateway_for_iface}

abbrev header : Text
header = codes "Iface\tDestination\tGateway \tFlags"

-- By 10.0.0.1 on wwan0, by 192.168.1.1 on wlan0, and the network of wlan0.
abbrev routes : List Route
routes =
    record { dev = codes "wwan0"; dst = 0; gw = 0x0100000A; others = codes "0003" }
    ∷ record { dev = codes "wlan0"; dst = 0x0001A8C0; gw = 0; others = codes "0001" }
    ∷ record { dev = codes "wlan0"; dst = 0; gw = 0x0101A8C0; others = codes "0003" }
    ∷ []

network-IsListed :
    (dev others : Text) (dst gw : ℕ)
    → is_empty dev ≡ false
    → All (λ c. is_space c ≡ false) dev
    → dst < 2 ^ 32
    → gw < 2 ^ 32
    → IsLine others
    → IsListed (record { dev = dev; dst = dst; gw = gw; others = others })
network-IsListed dev others dst gw n w d g o = record {
  dev_named = n;
  dev_word = w;
  dst_fits = d;
  gw_fits = g;
  others_line = o;
}

routes-All : All IsListed routes
routes-All = (
  network-IsListed _ _ _ _ refl (ground arith) (omega arith) (omega arith) (ground arith),
  (
    network-IsListed _ _ _ _ refl (ground arith) (omega arith) (omega arith) (ground arith),
    (network-IsListed _ _ _ _ refl (ground arith) (omega arith) (omega arith) (ground arith), tt),
  ),
)

header-IsLine : IsLine header
header-IsLine = ground arith

query_gateway_for_iface-route_file_example :
    query_gateway_for_iface 32 (codes "wlan0") (some (route_file header routes))
    ≡ swapped_gateway (codes "wlan0") routes
query_gateway_for_iface-route_file_example =
    query_gateway_for_iface-route_file 32 (codes "wlan0") header routes (omega arith) header-IsLine
      routes-All

-- 192.168.1.1 has these bytes in network order, on a little-endian host the number 0x0101A8C0.
swapped : swapped_gateway (codes "wlan0") routes ≡ 0xC0A80101
unfolding swapped_gateway text_eq htonl
swapped = refl

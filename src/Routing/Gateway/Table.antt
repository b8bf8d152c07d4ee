-- ===== src/Routing/Gateway/Table.antt =====
-- queryGatewayForIface (routing/routing_policy_manager.cpp) on a file that has the format of
-- /proc/net/route: a header, and for each route a line of columns that tabs separate, the addresses
-- in hexadecimal.
use wifi_offload_rpi.Prelude.{
  ==_sound, All, Bool, Bool-cases, List, Text, [], ap, arith, codes, false, if◌then◌else◌, inl, inr,
  is_empty, none, refl, some, sym, text_eq, text_eq_self, text_eq_sound, true, ℕ, ◌&&◌, ◌++◌, ◌<◌,
  ◌==◌, ◌^◌, ◌∙◌, ◌∷◌, ◌≡◌, ◌≤◌,
}
use wifi_offload_rpi.Config.Hex.RoundTrip.{nibbles}
use wifi_offload_rpi.Config.Hex.Upper.{
  stoul_hex-upper_hex, upper_digit, upper_hex, upper_hex-IsWord,
}
use wifi_offload_rpi.Routing.Gateway.{
  add_front, gateway_in, gateway_of, htonl, lines, next_word, query_gateway_for_iface, query_lines,
  row_of, split_word,
}
use wifi_offload_rpi.Config.Hex.{is_space, stoul_hex, value}

-- A route as the kernel lists it; the addresses are numbers of the machine, `others` is what follows
-- the gateway.
pub record Route : Type 0 where
  pub dev : Text
  pub dst : ℕ
  pub gw : ℕ
  pub others : Text

abbrev tab : ℕ
tab = 9

abbrev newline : ℕ
newline = 10

unfoldable pub route_line : Route → Text
route_line r = r.dev ++ (tab ∷ (upper_hex r.dst ++ (tab ∷ (upper_hex r.gw ++ (tab ∷ r.others)))))

unfoldable pub route_lines : List Route → Text
route_lines [] = []
route_lines (r ∷ rs) = route_line r ++ (newline ∷ route_lines rs)

unfoldable pub route_file : Text → List Route → Text
route_file header rs = header ++ (newline ∷ route_lines rs)

-- The gateway of the first default route of the interface, its bytes swapped; 0 if there is none.
unfoldable pub swapped_gateway : Text → List Route → ℕ
swapped_gateway iface [] = 0
swapped_gateway iface (r ∷ rs) =
    if text_eq r.dev iface && r.dst == 0 then htonl r.gw else swapped_gateway iface rs

abbrev IsWord : Text → Type 0
IsWord = All (λ c. is_space c ≡ false)

abbrev pub IsLine : Text → Type 0
IsLine = All (λ c. (c == newline) ≡ false)

pub record IsListed (r : Route) : Type 0 where
  pub dev_named : is_empty r.dev ≡ false
  pub dev_word : IsWord r.dev
  pub dst_fits : r.dst < 2 ^ 32
  pub gw_fits : r.gw < 2 ^ 32
  pub others_line : IsLine r.others

lines-append :
    (line rest : Text) → IsLine line → lines (line ++ (newline ∷ rest)) ≡ line ∷ lines rest
unfolding lines add_front
lines-append [] rest h = refl
lines-append (c ∷ line) rest h = rw (h.0, if◌then◌else◌, lines-append line rest h.1) refl

IsWord-IsLine : (w : Text) → IsWord w → IsLine w
IsWord-IsLine [] h = tt
IsWord-IsLine (c ∷ w) h = (ground (arith, h.0), IsWord-IsLine w h.1)

IsLine-append : (xs ys : Text) → IsLine xs → IsLine ys → IsLine (xs ++ ys)
IsLine-append [] ys h k = k
IsLine-append (x ∷ xs) ys h k = (h.0, IsLine-append xs ys h.1 k)

route_line-IsLine : (r : Route) → IsListed r → IsLine (route_line r)
unfolding route_line
route_line-IsLine r v = IsLine-append r.dev _ (IsWord-IsLine r.dev v.dev_word) (
  refl,
  IsLine-append (upper_hex r.dst) _ (IsWord-IsLine _ (upper_hex-IsWord r.dst)) (
    refl,
    IsLine-append (upper_hex r.gw) _ (IsWord-IsLine _ (upper_hex-IsWord r.gw))
        (refl, v.others_line),
  ),
)

split_word-append : (w rest : Text) → IsWord w → split_word (w ++ (tab ∷ rest)) ≡ (w, tab ∷ rest)
unfolding split_word
split_word-append [] rest h = refl
split_word-append (c ∷ w) rest h = rw (h.0, if◌then◌else◌, split_word-append w rest h.1) refl

next_word-append :
    (w rest : Text)
    → is_empty w ≡ false
    → IsWord w
    → next_word (w ++ (tab ∷ rest)) ≡ some (w, tab ∷ rest)
unfolding next_word
next_word-append [] rest n h = cc
next_word-append (c ∷ w) rest n h =
    rw (h.0, if◌then◌else◌) (ap some (split_word-append (c ∷ w) rest h))

next_word-tab : (s : Text) → next_word (tab ∷ s) ≡ next_word s
unfolding next_word
next_word-tab s = refl

upper_hex_filled : (n : ℕ) → is_empty (upper_hex n) ≡ false
unfolding upper_hex nibbles
upper_hex_filled n = refl

row_of-route_line :
    (r : Route)
    → IsListed r
    → row_of (route_line r)
      ≡ some (record { dev = r.dev; dst = upper_hex r.dst; gw = upper_hex r.gw })
unfolding row_of route_line
row_of-route_line r v =
    rw
      (
        next_word-append r.dev _ v.dev_named v.dev_word,
        next_word-tab,
        next_word-append (upper_hex r.dst) _ (upper_hex_filled r.dst) (upper_hex-IsWord r.dst),
        next_word-append (upper_hex r.gw) _ (upper_hex_filled r.gw) (upper_hex-IsWord r.gw),
      )
      refl

upper_hex_inj : (m n : ℕ) → m < 2 ^ 32 → n < 2 ^ 32 → upper_hex m ≡ upper_hex n → m ≡ n
upper_hex_inj m n hm hn e = value_inj (
    sym (stoul_hex-upper_hex 32 m (omega arith) hm)
    ∙ ap (stoul_hex 32) e
    ∙ stoul_hex-upper_hex 32 n (omega arith) hn)
  where
    value_inj : {a b : ℕ} → value a ≡ value b → a ≡ b
    value_inj p = cc

upper_hex_zero : upper_hex 0 ≡ codes "00000000"
unfolding upper_hex nibbles upper_digit
upper_hex_zero = refl

is_default : (dst : ℕ) → dst < 2 ^ 32 → text_eq (upper_hex dst) (codes "00000000") ≡ dst == 0
is_default dst h = elim (Bool-cases (dst == 0)) [
  | inl zero_dst ↦
      let e = ==_sound dst 0 zero_dst in
      rw (zero_dst, e, upper_hex_zero) (text_eq_self (codes "00000000"))
  | inr differs ↦ elim (Bool-cases (text_eq (upper_hex dst) (codes "00000000"))) [
    | inl same ↦
        let e = upper_hex_inj dst 0 h (omega arith) (text_eq_sound _ _ same ∙ sym upper_hex_zero) in
        absurd (ground (arith, e, differs))
    | inr other_text ↦ other_text ∙ sym differs
  ]
]

gateway_in-columns :
    (bits : ℕ) (iface : Text) (r : Route)
    → 32 ≤ bits
    → IsListed r
    → gateway_in bits iface (record { dev = r.dev; dst = upper_hex r.dst; gw = upper_hex r.gw })
      ≡ (if text_eq r.dev iface && r.dst == 0 then some r.gw else none)
unfolding gateway_in
gateway_in-columns bits iface r w v =
    rw (is_default r.dst v.dst_fits, stoul_hex-upper_hex bits r.gw w v.gw_fits)
      (ground (arith, v.gw_fits))

gateway_of-route_line :
    (bits : ℕ) (iface : Text) (r : Route)
    → 32 ≤ bits
    → IsListed r
    → gateway_of bits iface (route_line r)
      ≡ (if text_eq r.dev iface && r.dst == 0 then some r.gw else none)
unfolding gateway_of
gateway_of-route_line bits iface r w v =
    rw (row_of-route_line r v, gateway_of) (gateway_in-columns bits iface r w v)

query_lines-cons :
    (bits : ℕ) (iface line : Text) (ls : List Text) (hit : Bool) (gw : ℕ)
    → gateway_of bits iface line ≡ (if hit then some gw else none)
    → query_lines bits iface (line ∷ ls) ≡ (if hit then htonl gw else query_lines bits iface ls)
unfolding query_lines
query_lines-cons bits iface line ls true gw e = rw (e, query_lines) refl
query_lines-cons bits iface line ls false gw e = rw (e, query_lines) refl

query_lines-route_lines :
    (bits : ℕ) (iface : Text) (rs : List Route)
    → 32 ≤ bits
    → All IsListed rs
    → query_lines bits iface (lines (route_lines rs)) ≡ swapped_gateway iface rs
unfolding route_lines swapped_gateway
query_lines-route_lines bits iface [] w v = unfold lines query_lines in refl
query_lines-route_lines bits iface (r ∷ rs) w v =
    let hit = text_eq r.dev iface && r.dst == 0 in
    ap (query_lines bits iface)
      (lines-append (route_line r) (route_lines rs) (route_line-IsLine r v.0))
    ∙ query_lines-cons bits iface (route_line r) (lines (route_lines rs)) hit r.gw
        (gateway_of-route_line bits iface r w v.0)
    ∙ ap (λ later. if hit then htonl r.gw else later) (query_lines-route_lines bits iface rs w v.1)

-- For an interface and a list of routes in the format of /proc/net/route, whose names of devices
-- have no blanks, whose addresses have 32 bits and whose other columns no newline:
-- queryGatewayForIface gives the gateway of the first default route of the interface, with its four
-- bytes in the opposite order of the number that the file shows, and 0 if there is none.
pub query_gateway_for_iface-route_file :
    (bits : ℕ) (iface header : Text) (rs : List Route)
    → 32 ≤ bits
    → IsLine header
    → All IsListed rs
    → query_gateway_for_iface bits iface (some (route_file header rs)) ≡ swapped_gateway iface rs
unfolding query_gateway_for_iface route_file
query_gateway_for_iface-route_file bits iface header rs w h v =
    rw (lines-append header (route_lines rs) h) (query_lines-route_lines bits iface rs w v)

-- ===== src/Connect/Servers.antt =====
-- The order of the name servers: getDnsOrder of pkg/kt/command/connect/common.go and getDnsAddresses of
-- pkg/kt/service/dns/dnsserver.go.
use kt_connect.Common.{
  ℕ, Bool, true, false, not, ◌&&◌, ◌||◌, none, some, List, [], ◌∷◌, ◌++◌, leb, if◌then◌else◌, drop,
  ◌+◌, Text, text_eq, codes,
}
use kt_connect.Strings.{split, contains_byte, index_byte, format_nat, atoi}
use kt_connect.General.Resource.{is_set}

-- strings.SplitN(s, ":", 2)[1], of a text with a colon
unfoldable pub behind_colon : Text → Text
behind_colon s = elim (index_byte s b':') [ none ↦ [] | some i ↦ drop (i + 1) s ]

-- getDnsOrder
unfoldable pub get_dns_order : Text → List Text
unfolding behind_colon
get_dns_order dns_mode =
    if not (contains_byte dns_mode b':')
    then codes "cluster" ∷ codes "upstream" ∷ []
    else split (behind_colon dns_mode) b','

-- The expression `[cdptu]{3}`, and `[0-9]+`.
unfoldable pub is_protocol : Text → Bool
is_protocol (a ∷ b ∷ c ∷ []) =
    contains_byte (codes "cdptu") a
    && (contains_byte (codes "cdptu") b && contains_byte (codes "cdptu") c)
is_protocol _ = false

unfoldable pub are_digits : Text → Bool
are_digits [] = true
are_digits (c ∷ s) = (leb b'0' c && leb c b'9') && are_digits s

-- The expression `^([cdptu]{3}:)?upstream(:[0-9]+)?$`, on the parts between the colons.
unfoldable pub is_upstream : List Text → Bool
unfolding is_protocol are_digits is_set
is_upstream (a ∷ []) = text_eq a (codes "upstream")
is_upstream (a ∷ b ∷ []) =
    (is_protocol a && text_eq b (codes "upstream"))
    || (text_eq a (codes "upstream") && (is_set b && are_digits b))
is_upstream (a ∷ b ∷ c ∷ []) =
    is_protocol a && (text_eq b (codes "upstream") && (is_set c && are_digits c))
is_upstream _ = false

abbrev is_number : Text → Bool
is_number s = elim (atoi s) [ none ↦ false | some n ↦ true ]

abbrev address : Text → Text → Text → Text
address protocol ip port = protocol ++ (b':' ∷ (ip ++ (b':' ∷ port)))

-- The address of the upstream server, in getDnsAddresses.
unfoldable pub upstream_address : Text → List Text → List Text
upstream_address upstream_dns (a ∷ []) = address (codes "udp") upstream_dns (codes "53") ∷ []
upstream_address upstream_dns (a ∷ b ∷ []) =
    (if is_number b
      then address (codes "udp") upstream_dns b
      else address a upstream_dns (codes "53"))
    ∷ []
upstream_address upstream_dns (a ∷ b ∷ c ∷ []) = address a upstream_dns c ∷ []
upstream_address upstream_dns _ = []

-- The address of another server, in getDnsAddresses.
unfoldable pub other_address : Text → List Text → List Text
other_address dns_addr (a ∷ []) = address (codes "udp") dns_addr (codes "53") ∷ []
other_address dns_addr (a ∷ b ∷ []) =
    (if is_number b then codes "udp:" ++ dns_addr else dns_addr ++ codes ":53") ∷ []
other_address dns_addr (a ∷ b ∷ c ∷ []) = dns_addr ∷ []
other_address dns_addr _ = []

-- One server of the order, in getDnsAddresses.
unfoldable pub dns_address : Text → ℕ → Text → List Text
unfolding is_upstream upstream_address other_address is_set
dns_address upstream_dns cluster_dns_port dns_addr =
    if text_eq dns_addr (codes "cluster")
    then address (codes "tcp") (codes "127.0.0.1") (format_nat cluster_dns_port) ∷ []
    else if is_upstream (split dns_addr b':')
    then (if is_set upstream_dns then upstream_address upstream_dns (split dns_addr b':') else [])
    else other_address dns_addr (split dns_addr b':')

-- getDnsAddresses
unfoldable pub get_dns_addresses : List Text → Text → ℕ → List Text
unfolding dns_address
get_dns_addresses [] upstream_dns cluster_dns_port = []
get_dns_addresses (dns_addr ∷ dns_order) upstream_dns cluster_dns_port =
    dns_address upstream_dns cluster_dns_port dns_addr
    ++ get_dns_addresses dns_order upstream_dns cluster_dns_port

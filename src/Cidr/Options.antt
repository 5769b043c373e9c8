-- ===== src/Cidr/Options.antt =====
-- ClusterCidr of pkg/kt/service/cluster/cidr.go, from the addresses of services and pods that the API
-- server lists and the address of the API server, and isSingleIp of global.go.
pub mod Kept
mod Tests
use kt_connect.Common.{
  Bool, true, false, not, ◌&&◌, ◌||◌, Option, none, some, List, [], ◌∷◌, ◌++◌, if◌then◌else◌, Text,
  text_eq, codes,
}
use kt_connect.Common.Outcome.{Outcome, ok, err, panic, ◌>>=◌}
use kt_connect.Strings.{split, contains_byte, has_suffix}
use kt_connect.Collection.{array_delete}
use kt_connect.General.Resource.{is_set}
use kt_connect.Cidr.Ranges.{calculate_minimal_ip_range, is_part_of_range, merge_ip_range, ipv6_mask}

-- The options and what the API server tells of the cluster; `host` is the host of its address.
pub record CidrOptions : Type 0 where
  pub ipv6_cluster : Bool
  pub disable_pod_ip : Bool
  pub is_tun2socks : Bool
  pub include_ips : Text
  pub exclude_ips : Text
  pub service_ips : List Text
  pub pod_ips : List Text
  pub host_address : Text
  pub host : Text

-- The second part behind a split, which panics without one.
unfoldable pub second : List Text → Outcome Text
second (_ ∷ s ∷ _) = ok s
second _ = panic

unfoldable pub first_part : List Text → Outcome Text
first_part (s ∷ _) = ok s
first_part [] = panic

-- isSingleIp
unfoldable pub is_single_ip : Text → Outcome Bool
unfolding second
is_single_ip ip_range =
    if not (contains_byte ip_range b'/')
    then ok true
    else (second (split ip_range b'/') >>= λ mask. ok (text_eq mask (codes "32")))

-- The address of the API server: in brackets for an IPv6 cluster.
unfoldable pub api_server_ip : CidrOptions → Outcome Text
unfolding second first_part
api_server_ip o =
    if o.ipv6_cluster && contains_byte o.host_address b':'
    then (second (split o.host b'[') >>= λ s. first_part (split s b']'))
    else ok o.host_address

-- The loop over the ranges to include.
unfoldable pub include : Bool → List Text → List Text → Outcome (List Text)
unfolding is_single_ip
include is_tun2socks [] cidr = ok cidr
include is_tun2socks (ip_range ∷ ip_ranges) cidr = is_single_ip ip_range >>= λ single.
    include is_tun2socks ip_ranges
      (if is_tun2socks && single then cidr else cidr ++ (ip_range ∷ []))

-- The loop over the ranges for one that is excluded: the ranges to remove, and whether the excluded
-- one needs a route around the cluster. The first range that equals or holds it ends the loop.
unfoldable pub examine : Text → List Text → List Text → Outcome (List Text × Bool)
unfolding is_part_of_range
examine ip_range [] to_remove = ok (to_remove, false)
examine ip_range (r ∷ cidr) to_remove =
    if text_eq r ip_range
    then ok (to_remove ++ (r ∷ []), false)
    else (is_part_of_range ip_range r >>= λ inside. is_part_of_range r ip_range >>= λ around.
        if not inside && around
        then ok (to_remove, true)
        else examine ip_range cidr (if inside then to_remove ++ (r ∷ []) else to_remove))

unfoldable pub delete_all : List Text → List Text → List Text
delete_all [] cidr = cidr
delete_all (r ∷ to_remove) cidr = delete_all to_remove (array_delete cidr r)

-- The loop over the ranges to exclude: what is left, and the routes around.
unfoldable pub exclude : List Text → List Text → List Text → Outcome (List Text × List Text)
unfolding examine delete_all
exclude [] cidr exclude_cidr = ok (cidr, exclude_cidr)
exclude (ip_range ∷ exclude_ips) cidr exclude_cidr = examine ip_range cidr [] >>= λ e.
    exclude exclude_ips (delete_all e.0 cidr)
      (if e.1 then exclude_cidr ++ (ip_range ∷ []) else exclude_cidr)

-- The ranges to exclude: those of the option and the address of the API server.
unfoldable pub all_excluded : Text → Text → List Text
unfolding is_set
all_excluded exclude_ips api =
    split exclude_ips b',' ++ (if is_set api then (api ++ codes "/32") ∷ [] else [])

-- The range of an IPv6 API server is taken away.
unfoldable pub without_ipv6_api : Bool → Text → List Text → Outcome (List Text)
unfolding ipv6_mask
without_ipv6_api ipv6_cluster api cidr =
    if ipv6_cluster && contains_byte api b':'
    then (ipv6_mask (split api b':') >>= λ mask. ok (array_delete cidr mask))
    else ok cidr

-- ClusterCidr, with the merged ranges.
unfoldable pub apply_options : CidrOptions → Text → List Text → Outcome (List Text × List Text)
unfolding include exclude all_excluded without_ipv6_api is_set
apply_options o api merged =
    (if is_set o.include_ips
      then include o.is_tun2socks (split o.include_ips b',') merged
      else ok merged)
    >>= λ included.
        (if is_set o.exclude_ips
          then exclude (all_excluded o.exclude_ips api) included []
          else ok (included, []))
        >>= λ left. without_ipv6_api o.ipv6_cluster api left.0 >>= λ cidr. ok (cidr, left.1)

-- ClusterCidr
unfoldable pub cluster_cidr : CidrOptions → Outcome (List Text × List Text)
unfolding api_server_ip apply_options calculate_minimal_ip_range merge_ip_range
cluster_cidr o = calculate_minimal_ip_range o.ipv6_cluster o.service_ips >>= λ svc_cidr.
    (if o.disable_pod_ip then ok [] else calculate_minimal_ip_range o.ipv6_cluster o.pod_ips)
    >>= λ pod_cidr. api_server_ip o >>= λ api.
        merge_ip_range o.ipv6_cluster svc_cidr pod_cidr api >>= λ merged. apply_options o api merged

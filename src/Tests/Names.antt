-- ===== src/Tests/Names.antt =====
-- Names and JSON: pkg/iscsi/iqn_test.go, and NQNs, states and service IPs.
use linstor_gateway.Base.{◌≡◌, refl, ◌↔◌, true, [], ◌∷◌, arith}
use linstor_gateway.Base.Int.{pos}
use linstor_gateway.Base.Outcome.{ok}
use linstor_gateway.Base.Text.{Text, codes, eq, split, join}
use linstor_gateway.Base.Decimal.{itoa, atoi}
use linstor_gateway.Base.FilePath.{clean, join_path}
use linstor_gateway.External.{ip4}
use linstor_gateway.Common.Ip.{service_ip_from_parts, cidr_string, service_ip_from_string}
use linstor_gateway.Common.Ip.Laws.{service_ip_from_string-cidr_string, IsReadable}
use linstor_gateway.Iscsi.Iqn.{Iqn, new_iqn, iqn_string, is_authority, is_resource_name, cut_last}
use linstor_gateway.Iscsi.Iqn.Laws.{new_iqn_iff}
use linstor_gateway.Nvmeof.Nqn.{Nqn, new_nqn}
use linstor_gateway.Nvmeof.Nqn.Laws.{HasParts, new_nqn_iff}
use linstor_gateway.Tests.Env.{toy, read_ip, print_ip}

abbrev example_iqn : Iqn
example_iqn = record { authority = codes "iqn.2019-08.com.linbit"; wwn = codes "example" }

parsed_example : new_iqn (codes "iqn.2019-08.com.linbit:example") ≡ ok example_iqn
unfolding new_iqn cut_last is_authority is_resource_name
parsed_example = refl

new_iqn_iff_example : (new_iqn (codes "iqn.2019-08.com.linbit:example") ≡ ok example_iqn) ↔ (
    (codes "iqn.2019-08.com.linbit:example" ≡ iqn_string example_iqn)
    × (is_authority example_iqn.authority ≡ true)
    × (is_resource_name example_iqn.wwn ≡ true))
new_iqn_iff_example = new_iqn_iff (codes "iqn.2019-08.com.linbit:example") example_iqn

abbrev example_nqn : Nqn
example_nqn = record { vendor = codes "nqn.com.example.test"; subsystem = codes "example-resource" }

new_nqn_iff_example :
    (new_nqn (codes "a:b:c") ≡ ok (record { vendor = codes "a"; subsystem = codes "c" }))
    ↔ HasParts (codes "a:b:c") (record { vendor = codes "a"; subsystem = codes "c" })
new_nqn_iff_example =
    new_nqn_iff (codes "a:b:c") (record { vendor = codes "a"; subsystem = codes "c" })

abbrev address : Text
address = 192 ∷ 168 ∷ 127 ∷ 1 ∷ []

address-IsReadable : IsReadable toy (ip4 address)
unfolding read_ip print_ip split join itoa atoi
address-IsReadable = record { read_back = refl; no_slash = refl }

service_ip_from_string-cidr_string_example :
    service_ip_from_string toy (cidr_string toy (service_ip_from_parts (ip4 address) (pos 24)))
    ≡ ok (service_ip_from_parts (ip4 address) (pos 24))
service_ip_from_string-cidr_string_example =
    service_ip_from_string-cidr_string toy (ip4 address) 24 address-IsReadable (omega arith)

cleaned :
    (clean (codes "/srv//a/./b/../c/") ≡ codes "/srv/a/c")
    × (clean (codes "../a/..") ≡ codes "..")
    × (clean [] ≡ codes ".")
    × (join_path (codes "/srv" ∷ [] ∷ codes "/../../x" ∷ []) ≡ codes "/x")
unfolding join_path clean eq split join
cleaned = (refl, refl, refl, refl)

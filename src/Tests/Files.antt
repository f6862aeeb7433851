-- ===== src/Tests/Files.antt =====
-- Configuration files: pkg/reactor/reactor_test.go.
use linstor_gateway.Base.{◌≡◌, refl, some, List, [], ◌∷◌, arith}
use linstor_gateway.Base.Lists.{length}
use linstor_gateway.Base.Outcome.{ok}
use linstor_gateway.Base.Text.{Text, codes, scan}
use linstor_gateway.External.{External}
use linstor_gateway.Linstor.{ExternalFile}
use linstor_gateway.Reactor.Config.{PromoterConfig, decode_config}
use linstor_gateway.Reactor.Files.{Found, Listing, filter_configs, find_from}
use linstor_gateway.Reactor.Files.Laws.{find_from-filter_configs, Finds}
use linstor_gateway.Tests.Env.{toy}

-- A codec under which every document is one promoter with the text as its id.
abbrev one_each : External
one_each = record toy { toml_decode = λ s. some (record { id = s; resources = [] } ∷ []) }

abbrev file_a : ExternalFile
file_a = record {
  path = codes "/etc/drbd-reactor.d/linstor-gateway-iscsi-a.toml";
  content = codes "iscsi-a";
}

abbrev file_x : ExternalFile
file_x = record { path = codes "/etc/other.toml"; content = codes "x" }

abbrev file_b : ExternalFile
file_b = record {
  path = codes "/etc/drbd-reactor.d/linstor-gateway-nfs-b.toml";
  content = codes "nfs-b";
}

abbrev files : List ExternalFile
files = file_a ∷ file_x ∷ file_b ∷ []

abbrev config : Text → PromoterConfig
config id = record { id = id; resources = [] }

abbrev listing : Listing
listing = (
  config (codes "iscsi-a") ∷ config (codes "nfs-b") ∷ [],
  codes "/etc/drbd-reactor.d/linstor-gateway-iscsi-a.toml"
      ∷ codes "/etc/drbd-reactor.d/linstor-gateway-nfs-b.toml"
      ∷ [],
)

files_listed : filter_configs one_each files ≡ ok listing
unfolding filter_configs scan decode_config
files_listed = refl

one_promoter :
    (file : ExternalFile) (ps : List PromoterConfig)
    → decode_config one_each file.content ≡ ok ps
    → length ps ≡ 1
unfolding decode_config
one_promoter file ps h = ground arith

find_from-filter_configs_example :
    (r : Found) × (find_from (codes "nfs-b") listing.0 listing.1 ≡ ok r)
    × Finds one_each (codes "nfs-b") files listing.0 r
find_from-filter_configs_example =
    find_from-filter_configs one_each (codes "nfs-b") files listing
      (one_promoter file_a, (one_promoter file_x, (one_promoter file_b, tt))) files_listed

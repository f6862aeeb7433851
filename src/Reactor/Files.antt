-- ===== src/Reactor/Files.antt =====
-- pkg/reactor/reactor.go: the promoter configurations in a list of external files of LINSTOR.
pub mod Laws
use linstor_gateway.Base.{
  ℕ, Bool, true, false, Option, none, some, List, [], ◌∷◌, ◌++◌, String, if◌then◌else◌,
}
use linstor_gateway.Base.Outcome.{
  Result, ok, err, panic, wrapping, fail, Error, api, not_found, wrap, ◌>>=◌,
}
use linstor_gateway.Base.Text.{Text, Dict, codes, eq, scan}
use linstor_gateway.External.{External}
use linstor_gateway.Linstor.{
  Client, Call, ExternalFile, ResourceDefinition, ResourceGroup, VolumeDefinition,
  ResourceWithVolumes,
}
use linstor_gateway.Reactor.Config.{
  PromoterConfig, PromoterResourceConfig, decode_config, encode_config,
}

abbrev pub gateway_config_prefix : Text
gateway_config_prefix = codes "/etc/drbd-reactor.d/linstor-gateway-"

unfoldable pub config_path : Text → Text
config_path id = gateway_config_prefix ++ (id ++ codes ".toml")

-- What `DeployedResources` returns.
pub record Deployment : Type 0 where
  pub definition : ResourceDefinition
  pub group : ResourceGroup
  pub volume_definitions : List VolumeDefinition
  pub resources : List ResourceWithVolumes

-- `err != nil && err != client.NotFoundError` is false: the call is taken as a success.
unfoldable pub ignore_not_found : Result (Unit {0}) → Result (Unit {0})
ignore_not_found (err (api not_found)) = ok tt
ignore_not_found r = r

unfoldable pub tolerating : {W : Type 0} → Call W Unit → Call W Unit
unfolding ignore_not_found
tolerating m w = let (r, w') = m w in (ignore_not_found r, w')

abbrev pub Found : Type 0
Found = Option PromoterConfig × Text

-- The path of the config at hand is `paths[i]`.
abbrev pub with_path : PromoterConfig → List Text → Result Found
with_path p [] = panic
with_path p (path ∷ paths) = ok (some p, path)

abbrev next_path : List Text → List Text
next_path [] = []
next_path (path ∷ paths) = paths

-- The loop of `FindConfig`; the lists begin at the index `i`.
unfoldable pub find_from : Text → List PromoterConfig → List Text → Result Found
find_from id [] paths = ok (none, [])
find_from id (p ∷ ps) paths =
    let rest = find_from id ps (next_path paths) in if eq p.id id then with_path p paths else rest

abbrev pub Listing : Type 0
Listing = List PromoterConfig × List Text

unfoldable pub prepend : List PromoterConfig → Text → Listing → Listing
prepend promoters path (configs, paths) = (promoters ++ configs, path ∷ paths)

-- One file of the loop of `filterConfigs`, before what the others give. The name is what `Sscanf`
-- reads in the path.
unfoldable pub filter_file :
    Option Text → Text → Result (List PromoterConfig) → Result Listing → Result Listing
unfolding prepend
filter_file none path decoded rest = rest
filter_file (some name) path decoded rest = do
  promoters ← wrapping "failed to decode promoter config: %w" decoded
  listed ← rest
  ok (prepend promoters path listed)

unfoldable pub filter_configs : External → List ExternalFile → Result Listing
unfolding filter_file
filter_configs ext [] = ok ([], [])
filter_configs ext (file ∷ files) =
    filter_file (scan gateway_config_prefix file.path) file.path (decode_config ext file.content)
      (filter_configs ext files)

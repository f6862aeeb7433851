-- ===== src/Tests/Store.antt =====
-- The configuration file of an NVMe-oF target, in a store of files.
use linstor_gateway.Base.{◌≡◌, refl, some, none, [], ◌∷◌, if◌then◌else◌}
use linstor_gateway.Base.Outcome.{ok}
use linstor_gateway.Base.Text.{Text, codes, eq, scan, lookup, insert, split, cut, has_prefix}
use linstor_gateway.Linstor.{Client}
use linstor_gateway.Reactor.Agent.{unmarshal_agent}
use linstor_gateway.Reactor.Config.{decode_config, encode_config, unmarshal_start}
use linstor_gateway.Reactor.Files.{config_path}
use linstor_gateway.Reactor.Store.{find_config, ensure_config, delete_config}
use linstor_gateway.Reactor.Store.Holding.{put, remove, Entries, find_entry}
use linstor_gateway.Reactor.Store.Refinement.{IsFileStore, find_config_refines}
use linstor_gateway.Tests.Env.{decode, split_words}
use linstor_gateway.Tests.Running.{ext, cfg}
use linstor_gateway.Tests.Cluster.{Cluster, linstor, one_target}

abbrev filing : Client Cluster
filing = record linstor {
  modify_external_file = λ path file w. (ok tt, record w { files = put file w.files });
  delete_external_file = λ path w. (ok tt, record w { files = remove path w.files });
}

abbrev filing_store : IsFileStore filing
filing_store = record {
  files = λ w. w.files;
  get = λ w. refl;
  modify_ok = λ path file w. refl;
  modified = λ path file w. refl;
  delete_ok = λ path w. refl;
  deleted = λ path w. refl;
}

abbrev other : Text
other = codes "nfs-exp1"

abbrev entries : Entries
entries = some cfg ∷ []

find_config_refines_example :
    (find_config filing ext other one_target ≡ (ok (find_entry other entries), one_target))
    × ((ensure_config filing ext cfg one_target).0 ≡ ok tt)
    × ((find_config filing ext other (ensure_config filing ext cfg one_target).1).0
        ≡ ok (if eq cfg.id other then (some cfg, config_path cfg.id) else find_entry other entries))
    × ((delete_config filing cfg.id one_target).0 ≡ ok tt)
    × ((find_config filing ext other (delete_config filing cfg.id one_target).1).0
        ≡ ok (if eq cfg.id other then (none, []) else find_entry other entries))
unfolding scan eq config_path decode_config encode_config unmarshal_start unmarshal_agent has_prefix
    lookup insert split split_words decode cut
find_config_refines_example =
    find_config_refines ext filing filing_store cfg [] (codes "nvmeof-vol1.toml")
      (codes "nvmeof-vol1.toml") cfg.id other one_target entries
      (record { name = codes "nvmeof-vol1.toml"; path = refl; scanned = refl; decoded = refl }, tt)
      refl refl refl refl

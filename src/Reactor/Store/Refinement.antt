-- ===== src/Reactor/Store/Refinement.antt =====
-- The configuration files as a map from identifiers to configurations.
use linstor_gateway.Base.{◌≡◌, refl, ap, ◌∙◌, none, some, List, [], ◌∷◌, if◌then◌else◌}
use linstor_gateway.Base.Outcome.{Result, ok}
use linstor_gateway.Base.Text.{Text, eq, scan}
use linstor_gateway.External.{External}
use linstor_gateway.Linstor.{Client, ExternalFile}
use linstor_gateway.Reactor.Config.{PromoterConfig, decode_config, encode_config}
use linstor_gateway.Reactor.Files.{
  Found, gateway_config_prefix, config_path, tolerating, ignore_not_found,
}
use linstor_gateway.Reactor.Store.{ensure_config, list_configs, find_config, delete_config}
use linstor_gateway.Reactor.Store.Holding.{
  put, remove, Entries, find_entry, put_entry, remove_entry, find-put_entry, find-remove_entry,
  IsFileOf, Holds, find_from-filter_configs-Holds, put-Holds, remove-Holds,
}

-- The calls on external files are those of a store of files by path.
pub record IsFileStore {W : Type 0} (cli : Client W) : Type 0 where
  pub files : W → List ExternalFile
  pub get : (w : W) → cli.get_external_files w ≡ (ok (files w), w)
  pub modify_ok :
      (path : Text) (file : ExternalFile) (w : W) → (cli.modify_external_file path file w).0 ≡ ok tt
  pub modified :
      (path : Text) (file : ExternalFile) (w : W)
      → files (cli.modify_external_file path file w).1 ≡ put file (files w)
  pub delete_ok : (path : Text) (w : W) → (cli.delete_external_file path w).0 ≡ ok tt
  pub deleted :
      (path : Text) (w : W) → files (cli.delete_external_file path w).1 ≡ remove path (files w)

module _ (ext : External) {W : Type 0} (cli : Client W) (store : IsFileStore cli) where
  find_config-Holds :
      (id : Text) (w : W) (es : Entries)
      → Holds ext (store.files w) es
      → find_config cli ext id w ≡ (ok (find_entry id es), w)
  unfolding find_config list_configs
  find_config-Holds id w es h =
      let (listed, e, found) = find_from-filter_configs-Holds ext (store.files w) es h in
      rw (store.get w) (rw e (rw (found id) refl))

  ensured-Holds :
      (cfg : PromoterConfig) (content name : Text) (w : W) (es : Entries)
      → encode_config ext cfg ≡ ok content
      → decode_config ext content ≡ ok (cfg ∷ [])
      → scan gateway_config_prefix (config_path cfg.id) ≡ some name
      → Holds ext (store.files w) es
      → ((ensure_config cli ext cfg w).0 ≡ ok tt)
        × Holds ext (store.files (ensure_config cli ext cfg w).1) (put_entry cfg es)
  unfolding ensure_config
  ensured-Holds cfg content name w es e d s h =
      let path = config_path cfg.id in
      let file : ExternalFile = record { path = path; content = content } in
      let o : IsFileOf ext file cfg = record {
        name = name;
        path = refl;
        scanned = s;
        decoded = d;
      } in
      rw (e, store.modify_ok path file w, store.modified path file w)
        (refl, put-Holds ext file cfg (store.files w) es o h)

  deleted-Holds :
      (id name : Text) (w : W) (es : Entries)
      → scan gateway_config_prefix (config_path id) ≡ some name
      → Holds ext (store.files w) es
      → ((delete_config cli id w).0 ≡ ok tt)
        × Holds ext (store.files (delete_config cli id w).1) (remove_entry id es)
  unfolding delete_config tolerating ignore_not_found
  deleted-Holds id name w es s h =
      rw (store.delete_ok (config_path id) w, store.deleted (config_path id) w)
        (refl, remove-Holds ext id name (store.files w) es s h)

  -- If the calls on external files are those of a store of files by path, each file of the gateway
  -- holds one configuration under the path of its identifier, and the configuration at hand is
  -- decoded as it is encoded, then the files are a map from identifiers to configurations: after
  -- EnsureConfig, which succeeds, FindConfig returns the new configuration for its identifier and what
  -- it returned before for another; after DeleteConfig, which succeeds, it returns none for the
  -- identifier and what it returned before for another.
  pub find_config_refines :
      (cfg : PromoterConfig) (content name other_name removed id : Text) (w : W) (es : Entries)
      → Holds ext (store.files w) es
      → encode_config ext cfg ≡ ok content
      → decode_config ext content ≡ ok (cfg ∷ [])
      → scan gateway_config_prefix (config_path cfg.id) ≡ some name
      → scan gateway_config_prefix (config_path removed) ≡ some other_name
      → (find_config cli ext id w ≡ (ok (find_entry id es), w))
        × ((ensure_config cli ext cfg w).0 ≡ ok tt)
        × ((find_config cli ext id (ensure_config cli ext cfg w).1).0
            ≡ ok (if eq cfg.id id then (some cfg, config_path cfg.id) else find_entry id es))
        × ((delete_config cli removed w).0 ≡ ok tt)
        × ((find_config cli ext id (delete_config cli removed w).1).0
            ≡ ok (if eq removed id then (none, []) else find_entry id es))
  find_config_refines cfg content name other_name removed id w es h e d s t =
      let (ensured, after) = ensured-Holds cfg content name w es e d s h in
      let (gone, left) = deleted-Holds removed other_name w es t h in
      (
        find_config-Holds id w es h,
        ensured,
        ap (λ (p : Result Found × W). p.0)
              (find_config-Holds id (ensure_config cli ext cfg w).1 (put_entry cfg es) after)
            ∙ ap ok (find-put_entry id cfg es),
        gone,
        ap (λ (p : Result Found × W). p.0)
              (find_config-Holds id (delete_config cli removed w).1 (remove_entry removed es) left)
            ∙ ap ok (find-remove_entry id removed es),
      )

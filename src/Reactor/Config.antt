-- ===== src/Reactor/Config.antt =====
-- pkg/reactor/reactor.go: the configuration of a promoter, and its TOML document.
use linstor_gateway.Base.{Bool, true, false, Option, none, some, List, [], ◌∷◌, ◌++◌, if◌then◌else◌}
use linstor_gateway.Base.Outcome.{Result, ok, fail, wrapping, ◌>>=◌}
use linstor_gateway.Base.Text.{Text, Dict, codes, lookup, has_prefix}
use linstor_gateway.External.{
  External, Scalar, quoted, unquoted, TomlValue, string, boolean, array, Table, RawPromoter,
}
use linstor_gateway.Reactor.Agent.{
  StartEntry, resource_agent, systemd_service, marshal_entry, unmarshal_agent, fresh_agent,
}

pub record PromoterResourceConfig : Type 0 where
  pub start : List StartEntry
  pub runner : Text
  pub on_drbd_demote_failure : Text
  pub stop_services_on_exit : Bool
  pub target_as : Text

pub record PromoterConfig : Type 0 where
  pub id : Text
  pub resources : Dict PromoterResourceConfig

module _ (ext : External) where
  -- One text of the start list.
  unfoldable pub unmarshal_start_text : Text → Result StartEntry
  unmarshal_start_text text =
      if has_prefix text (codes "ocf:")
      then (do
        a ← wrapping "invalid start entry: %w" (unmarshal_agent ext fresh_agent text)
        ok (resource_agent a))
      else ok (systemd_service text)

  unfoldable pub unmarshal_start : List Scalar → Result (List StartEntry)
  unfolding unmarshal_start_text
  unmarshal_start [] = ok []
  unmarshal_start (unquoted ∷ entries) = fail "could not convert value %v to string (is type %T)"
  unmarshal_start (quoted t ∷ entries) = do
    entry ← unmarshal_start_text t
    rest ← unmarshal_start entries
    ok (entry ∷ rest)

  start_of : Option TomlValue → Result (List StartEntry)
  start_of none = ok []
  start_of (some (array entries)) = unmarshal_start entries
  start_of (some v) = fail "could not convert value %v to slice (is type %T)"

  string_of : Option TomlValue → Result Text
  string_of none = ok []
  string_of (some (string s)) = ok s
  string_of (some v) = fail "could not convert value %v to string (is type %T)"

  boolean_of : Option TomlValue → Result Bool
  boolean_of none = ok false
  boolean_of (some (boolean b)) = ok b
  boolean_of (some v) = fail "could not convert value %v to bool (is type %T)"

  -- `UnmarshalTOML` into a fresh configuration.
  unfoldable pub unmarshal_toml : Table → Result PromoterResourceConfig
  unfolding start_of string_of boolean_of unmarshal_start
  unmarshal_toml d = do
    start ← start_of (lookup (codes "start") d)
    runner ← string_of (lookup (codes "runner") d)
    on_drbd_demote_failure ← string_of (lookup (codes "on-drbd-demote-failure") d)
    stop_services_on_exit ← boolean_of (lookup (codes "stop-services-on-exit") d)
    target_as ← string_of (lookup (codes "target-as") d)
    ok (record {
      start = start;
      runner = runner;
      on_drbd_demote_failure = on_drbd_demote_failure;
      stop_services_on_exit = stop_services_on_exit;
      target_as = target_as;
    })

  unmarshal_resources : Dict Table → Result (Dict PromoterResourceConfig)
  unmarshal_resources [] = ok []
  unmarshal_resources ((name, table) ∷ rest) = do
    config ← unmarshal_toml table
    configs ← unmarshal_resources rest
    ok ((name, config) ∷ configs)

  unmarshal_promoters : List RawPromoter → Result (List PromoterConfig)
  unfolding unmarshal_resources unmarshal_toml
  unmarshal_promoters [] = ok []
  unmarshal_promoters (raw ∷ raws) = do
    resources ← unmarshal_resources raw.resources
    rest ← unmarshal_promoters raws
    ok (record { id = raw.id; resources = resources } ∷ rest)

  from_document : Option (List RawPromoter) → Result (List PromoterConfig)
  from_document none = fail "toml"
  from_document (some raws) = unmarshal_promoters raws

  -- `toml.Unmarshal(content, &cfg)`, for the field `cfg.Promoter`
  unfoldable pub decode_config : Text → Result (List PromoterConfig)
  unfolding from_document unmarshal_promoters
  decode_config content = from_document (ext.toml_decode content)

  -- The texts of the start list.
  unfoldable pub marshal_start : List StartEntry → Result (List Scalar)
  unfolding marshal_entry
  marshal_start [] = ok []
  marshal_start (entry ∷ entries) = do
    t ← marshal_entry ext entry
    rest ← marshal_start entries
    ok (quoted t ∷ rest)

  -- `omitempty`: an empty value is left out of its table.
  start_field : List Scalar → Table
  start_field [] = []
  start_field (s ∷ ss) = (codes "start", array (s ∷ ss)) ∷ []

  string_field : Text → Text → Table
  string_field key [] = []
  string_field key (c ∷ s) = (key, string (c ∷ s)) ∷ []

  boolean_field : Text → Bool → Table
  boolean_field key false = []
  boolean_field key true = (key, boolean true) ∷ []

  unfoldable pub to_table : PromoterResourceConfig → Result Table
  unfolding marshal_start start_field string_field boolean_field
  to_table c = do
    start ← marshal_start c.start
    ok (
        start_field start
        ++ (string_field (codes "runner") c.runner
            ++ (string_field (codes "on-drbd-demote-failure") c.on_drbd_demote_failure
                ++ (boolean_field (codes "stop-services-on-exit") c.stop_services_on_exit
                    ++ string_field (codes "target-as") c.target_as))))

  to_tables : Dict PromoterResourceConfig → Result (Dict Table)
  unfolding to_table
  to_tables [] = ok []
  to_tables ((name, config) ∷ rest) = do
    table ← to_table config
    tables ← to_tables rest
    ok ((name, table) ∷ tables)

  -- `encoder.Encode(&Config{Promoter: []PromoterConfig{*cfg}})`
  unfoldable pub encode_config : PromoterConfig → Result Text
  unfolding to_tables
  encode_config cfg = do
    tables ← to_tables cfg.resources
    ok (ext.toml_encode (record { id = cfg.id; resources = tables } ∷ []))

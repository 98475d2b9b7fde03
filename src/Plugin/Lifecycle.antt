-- ===== src/Plugin/Lifecycle.antt =====
-- internal/plugin/lifecycle.go: the manager.
use deploypilot.Base.{
  Bool, true, false, ◌&&◌, List, [], ◌∷◌, Option, none, some, String, Text, codes, Dict, lookup,
  insert, is_empty, if◌then◌else◌, ◌==◌, string_tested, text_tested,
}
use deploypilot.Plugin.{
  Value, text, other, Config, PluginDescriptor, Registry, Outcome, good, bad, PluginError,
  not_found, is_disabled, bad_config, no_instance, not_registered, get_descriptor, create_instance,
  get_instance, remove_instance,
}

pub data Status : Type 0 where
  active error_status disabled_status : Status

-- The columns of a plugin that the manager reads or writes.
pub record PluginRow : Type 0 where
  pub tenant_id : String
  pub provider : String
  pub kind : String
  pub config : Text
  pub enabled : Bool
  pub status : Status
  pub error_msg : Option PluginError

pub record Manager (I : Type 0) : Type 0 where
  pub registry : Registry I
  pub rows : Dict PluginRow
  pub enc_key : Text

-- `json.Unmarshal` into a map, which may be nil, and `crypto.Decrypt` of a key and a text.
pub record Codec : Type 0 where
  pub unmarshal : Text → Option (Option Config)
  pub decrypt : Text → Text → Option Text

-- What follows `enc:` in a text that begins with it.
unfoldable pub after_enc : Text → Option Text
after_enc (a ∷ b ∷ c ∷ d ∷ rest) = if a ∷ b ∷ c ∷ d ∷ [] == codes "enc:" then some rest else none
after_enc s = none

unfoldable pub decrypted_or : Value → Option Text → Value
decrypted_or v none = v
decrypted_or v (some t) = text t

unfoldable pub decrypt_text : Codec → Text → Text → Option Text → Value
unfolding decrypted_or
decrypt_text c key s none = text s
decrypt_text c key s (some sealed) = decrypted_or (text s) (c.decrypt key sealed)

unfoldable pub decrypt_value : Codec → Text → Value → Value
unfolding decrypt_text after_enc
decrypt_value c key (text s) = decrypt_text c key s (after_enc s)
decrypt_value c key (other v) = other v

unfoldable pub decrypt_values : Codec → Text → Config → Config
unfolding decrypt_value
decrypt_values c key [] = []
decrypt_values c key ((k, v) ∷ rest) = (k, decrypt_value c key v) ∷ decrypt_values c key rest

-- `decryptPluginConfig`, which makes no error.
unfoldable pub decrypt_plugin_config : Codec → Text → Option Config → Option Config
unfolding decrypt_values
decrypt_plugin_config c key none = none
decrypt_plugin_config c key (some config) =
    if is_empty key then some config else some (decrypt_values c key config)

-- The configuration that is read from its column: an empty one is nil.
unfoldable pub read_config : Codec → Text → Option (Option Config)
read_config c s = if is_empty s then some none else c.unmarshal s

abbrev pub with_status : Status → Option PluginError → PluginRow → PluginRow
with_status st e row = record row { status = st; error_msg = e }

abbrev pub set_enabled : Bool → PluginRow → PluginRow
set_enabled b row = record row { enabled = b }

module _ {I : Type 0} where
  unfoldable pub update_row :
      String → (PluginRow → PluginRow) → Option PluginRow → Manager I → Manager I
  update_row id f none m = m
  update_row id f (some row) m = record m { rows = insert id (f row) m.rows }

  -- `db.Table("plugins").Where("id = ?", id).Updates(...)`
  unfoldable pub updates : String → (PluginRow → PluginRow) → Manager I → Manager I
  unfolding update_row
  updates id f m = update_row id f (lookup id m.rows) m

  -- What `loadPlugin` does with the result of the factory.
  unfoldable pub after_create :
      String → Registry I × Outcome I → Manager I → Manager I × Outcome (Unit {0})
  unfolding updates
  after_create id (r, bad e) m = (m, bad e)
  after_create id (r, good i) m =
      (updates id (with_status active none) (record m { registry = r }), good tt)

  unfoldable pub create_from :
      Codec
      → String
      → PluginDescriptor I
      → Option (Option Config)
      → Manager I
      → Manager I × Outcome (Unit {0})
  unfolding after_create decrypt_plugin_config
  create_from c id desc none m = (m, bad bad_config)
  create_from c id desc (some config) m =
      after_create id
        (create_instance m.registry id desc (decrypt_plugin_config c m.enc_key config)) m

  unfoldable pub load_described :
      Codec
      → String
      → Text
      → Option (PluginDescriptor I)
      → Manager I
      → Manager I × Outcome (Unit {0})
  unfolding create_from read_config
  load_described c id config none m = (m, bad not_registered)
  load_described c id config (some desc) m = create_from c id desc (read_config c config) m

  -- `loadPlugin`, with the row that was read before.
  unfoldable pub load_row : Codec → String → PluginRow → Manager I → Manager I × Outcome (Unit {0})
  unfolding load_described
  load_row c id row m =
      load_described c id row.config (get_descriptor m.registry row.provider row.kind) m

  unfoldable pub load_found :
      Codec → String → Option PluginRow → Manager I → Manager I × Outcome (Unit {0})
  unfolding load_row
  load_found c id none m = (m, bad not_found)
  load_found c id (some row) m = if row.enabled then load_row c id row m else (m, bad is_disabled)

  -- `LoadPlugin`
  unfoldable pub load_plugin : Codec → String → Manager I → Manager I × Outcome (Unit {0})
  unfolding load_found
  load_plugin c id m = load_found c id (lookup id m.rows) m

  -- What `LoadAll` does after a plugin.
  unfoldable pub mark_failed : String → Manager I × Outcome (Unit {0}) → Manager I
  unfolding updates
  mark_failed id (m, good u) = m
  mark_failed id (m, bad e) = updates id (with_status error_status (some e)) m

  unfoldable pub load_one : Codec → String → String → Option PluginRow → Manager I → Manager I
  unfolding mark_failed
  load_one c tenant id none m = m
  load_one c tenant id (some row) m =
      if row.enabled && row.tenant_id == tenant then mark_failed id (load_row c id row m) else m

  -- `LoadAll`: the ids stand in the order in which the database answers them, and those are loaded
  -- that are enabled plugins of the tenant.
  unfoldable pub load_all : Codec → String → List String → Manager I → Manager I
  unfolding load_one
  load_all c tenant [] m = m
  load_all c tenant (id ∷ ids) m = load_all c tenant ids (load_one c tenant id (lookup id m.rows) m)

  -- `UnloadPlugin`
  unfoldable pub unload_plugin : String → Manager I → Manager I
  unfolding updates
  unload_plugin id m =
      updates id (with_status disabled_status none)
        (record m { registry = remove_instance m.registry id })

  -- `ReloadPlugin`, which frees the lock between the two; no other call comes between here.
  unfoldable pub reload_plugin : Codec → String → Manager I → Manager I × Outcome (Unit {0})
  unfolding unload_plugin load_plugin
  reload_plugin c id m = load_plugin c id (unload_plugin id m)

  unfoldable pub enable_found :
      Codec → String → Option PluginRow → Manager I → Manager I × Outcome (Unit {0})
  enable_found c id none m = (m, bad not_found)
  enable_found c id (some row) m =
      load_row c id row (record m { rows = insert id (set_enabled true row) m.rows })

  -- `EnablePlugin`
  unfoldable pub enable_plugin : Codec → String → Manager I → Manager I × Outcome (Unit {0})
  unfolding enable_found
  enable_plugin c id m = enable_found c id (lookup id m.rows) m

  unfoldable pub disable_found :
      String → Option PluginRow → Manager I → Manager I × Outcome (Unit {0})
  unfolding unload_plugin
  disable_found id none m = (m, bad not_found)
  disable_found id (some row) m =
      (unload_plugin id (record m { rows = insert id (set_enabled false row) m.rows }), good tt)

  -- `DisablePlugin`
  unfoldable pub disable_plugin : String → Manager I → Manager I × Outcome (Unit {0})
  unfolding disable_found
  disable_plugin id m = disable_found id (lookup id m.rows) m

  unfoldable pub instance_or : Option I → Outcome I
  instance_or none = bad no_instance
  instance_or (some i) = good i

  -- `GetPluginInstance`
  unfoldable pub get_plugin_instance : Manager I → String → Outcome I
  unfolding instance_or get_instance
  get_plugin_instance m id = instance_or (get_instance m.registry id)

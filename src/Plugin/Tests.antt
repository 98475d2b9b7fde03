-- ===== src/Plugin/Tests.antt =====
-- Concrete runs of the plugin manager.
use deploypilot.Base.{ℕ, ◌≡◌, refl, true, List, [], ◌∷◌, none, some, lookup, arith}
use deploypilot.Plugin.{PluginDescriptor, bad, no_instance, new_registry}
use deploypilot.Plugin.Lifecycle.{
  PluginRow, Manager, Codec, disabled_status, disable_plugin, get_plugin_instance,
}
use deploypilot.Plugin.Runs.{Op, loads_all, reloads, enables, run}
use deploypilot.Plugin.Disabled.{get_plugin_instance-disable_plugin}
use deploypilot.Plugin.Loaded.{IsReady}

-- A configuration that cannot be read is none, and nothing can be decrypted.
abbrev codec : Codec
codec = record { unmarshal = λ s. none; decrypt = λ key s. none }

-- A factory whose instances are numbers.
abbrev webhook : PluginDescriptor ℕ
webhook = record {
  name = "webhook";
  display_name = "";
  version = "1";
  description = "";
  author = "";
  provider = "notify";
  kind = "webhook";
  factory = some (λ config. some 7);
}

abbrev row : PluginRow
row = record {
  tenant_id = "t";
  provider = "notify";
  kind = "webhook";
  config = [];
  enabled = true;
  status = disabled_status;
  error_msg = none;
}

abbrev manager : Manager ℕ
unfolding new_registry
manager = record { registry = new_registry; rows = ("p", row) ∷ ("q", row) ∷ []; enc_key = [] }

none_active : IsReady manager
unfolding manager lookup
none_active id r l a = ground (arith, l, a)

abbrev later : List (Op ℕ)
later = loads_all "t" ("p" ∷ "q" ∷ []) ∷ reloads "p" ∷ enables "q" ∷ []

get_plugin_instance-disable_plugin_example :
    get_plugin_instance (run codec later (disable_plugin "p" manager).0) "p" ≡ bad no_instance
unfolding disable_plugin lookup manager
get_plugin_instance-disable_plugin_example =
    get_plugin_instance-disable_plugin codec "p" manager later refl (tt, (tt, (refl, tt)))

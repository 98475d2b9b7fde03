-- ===== src/Plugin/Runs.antt =====
-- internal/plugin/lifecycle.go: runs of the registry and the manager.
use deploypilot.Base.{◌≡◌, refl, List, [], ◌∷◌, Option, none, some, String, arith, string_tested}
use deploypilot.Plugin.{PluginDescriptor, Registry, Outcome, register, unregister, add_descriptor}
use deploypilot.Plugin.Lifecycle.{
  Manager, Codec, load_plugin, load_all, unload_plugin, reload_plugin, enable_plugin,
  disable_plugin,
}

pub data Op (I : Type 0) : Type 0 where
  registers : Option (PluginDescriptor I) → Op I
  unregisters : String → String → Op I
  loads_all : String → List String → Op I
  loads unloads reloads enables disables : String → Op I

module _ {I : Type 0} (c : Codec) where
  abbrev pub with_registry : Manager I → Registry I × Outcome (Unit {0}) → Manager I
  with_registry m (r, u) = record m { registry = r }

  unfoldable pub apply : Op I → Manager I → Manager I
  apply (registers d) m = with_registry m (register m.registry d)
  apply (unregisters p k) m = with_registry m (unregister m.registry p k)
  apply (loads_all tenant ids) m = load_all c tenant ids m
  apply (loads id) m = (load_plugin c id m).0
  apply (unloads id) m = unload_plugin id m
  apply (reloads id) m = (reload_plugin c id m).0
  apply (enables id) m = (enable_plugin c id m).0
  apply (disables id) m = (disable_plugin id m).0

  unfoldable pub run : List (Op I) → Manager I → Manager I
  unfolding apply
  run [] m = m
  run (op ∷ ops) m = run ops (apply op m)

  pub register-instances :
      (d : Option (PluginDescriptor I)) (r : Registry I) → (register r d).0.instances ≡ r.instances
  unfolding register add_descriptor
  register-instances none r = refl
  register-instances (some d) r = ground arith

  pub unregister-instances :
      (p k : String) (r : Registry I) → (unregister r p k).0.instances ≡ r.instances
  unfolding unregister
  unregister-instances p k r = ground arith

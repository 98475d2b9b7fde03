-- ===== src/Plugin/Disabled.antt =====
-- internal/plugin/lifecycle.go: disabled plugins.
use deploypilot.Base.{
  ◌≡◌, refl, subst, true, false, ◌&&◌, List, [], ◌∷◌, Option, none, some, String, lookup, insert,
  erase, lookup-insert, lookup-erase, arith, ◌==◌, string_tested, if_cases, All, str_eq_refl,
  Bool-cases, inl, inr,
}
use text.Mathlib.TextEquality.{eq_iff}
use deploypilot.Plugin.{
  Config, PluginDescriptor, Registry, Outcome, good, bad, PluginError, no_instance, register,
  unregister, get_descriptor, create_instance, make_instance, keep_instance, get_instance,
  remove_instance,
}
use deploypilot.Plugin.Lifecycle.{
  Status, active, disabled_status, error_status, PluginRow, Manager, Codec, with_status, updates,
  update_row, after_create, create_from, load_described, load_row, load_found, load_plugin,
  mark_failed, load_one, load_all, unload_plugin, reload_plugin, set_enabled, enable_found,
  enable_plugin, disable_found, disable_plugin, get_plugin_instance, instance_or, read_config,
  decrypt_plugin_config,
}
use deploypilot.Plugin.Runs.{
  Op, registers, unregisters, loads_all, loads, unloads, reloads, enables, disables, with_registry,
  apply, run, register-instances, unregister-instances,
}

module _ {I : Type 0} (c : Codec) where
  -- A plugin is not enabled and has no instance.
  pub record IsOff (id : String) (m : Manager I) : Type 0 where
    pub off : (row : PluginRow) → lookup id m.rows ≡ some row → row.enabled ≡ false
    pub gone : lookup id m.registry.instances ≡ none

  updates-IsOff :
      (id j : String) (st : Status) (e : Option PluginError) (found : Option PluginRow)
      (m : Manager I)
      → lookup j m.rows ≡ found
      → IsOff id m
      → IsOff id (update_row j (with_status st e) found m)
  unfolding update_row
  updates-IsOff id j st e none m f h = h
  updates-IsOff id j st e (some r) m f h = record {
    off = λ row l. ground (
      arith,
      l,
      f,
      h.off row,
      h.off r,
      lookup-insert j id (with_status st e r) m.rows,
      eq_iff j id,
    );
    gone = h.gone;
  }

  kept-IsOff :
      (id j : String) (made : Option I) (m : Manager I)
      → (j == id) ≡ false
      → IsOff id m
      → IsOff id (after_create j (keep_instance m.registry j made) m).0
  unfolding after_create keep_instance updates
  kept-IsOff id j none m n h = h
  kept-IsOff id j (some i) m n h =
      let m' : Manager I = record m {
        registry = record m.registry { instances = insert j i m.registry.instances };
      } in
      updates-IsOff id j active none (lookup j m.rows) m' refl (record {
        off = h.off;
        gone = ground (arith, n, h.gone, lookup-insert j id i m.registry.instances);
      })

  made-IsOff :
      (id j : String) (factory : Option (Option Config → Option I)) (config : Option Config)
      (m : Manager I)
      → (j == id) ≡ false
      → IsOff id m
      → IsOff id (after_create j (make_instance m.registry j factory config) m).0
  unfolding make_instance after_create
  made-IsOff id j none config m n h = h
  made-IsOff id j (some f) config m n h = kept-IsOff id j (f config) m n h

  created-IsOff :
      (id j : String) (d : PluginDescriptor I) (config : Option (Option Config)) (m : Manager I)
      → (j == id) ≡ false
      → IsOff id m
      → IsOff id (create_from c j d config m).0
  unfolding create_from create_instance
  created-IsOff id j d none m n h = h
  created-IsOff id j d (some config) m n h =
      made-IsOff id j d.factory (decrypt_plugin_config c m.enc_key config) m n h

  load_row-IsOff :
      (id j : String) (row : PluginRow) (m : Manager I)
      → (j == id) ≡ false
      → IsOff id m
      → IsOff id (load_row c j row m).0
  unfolding load_row load_described
  load_row-IsOff id j row m n h = described (get_descriptor m.registry row.provider row.kind)
    where
      described : (d : Option (PluginDescriptor I)) → IsOff id (load_described c j row.config d m).0
      described none = h
      described (some d) = created-IsOff id j d (read_config c row.config) m n h

  mark_failed-IsOff :
      (id j : String) (r : Manager I × Outcome (Unit {0}))
      → IsOff id r.0
      → IsOff id (mark_failed j r)
  unfolding mark_failed updates
  mark_failed-IsOff id j (m, good u) h = h
  mark_failed-IsOff id j (m, bad e) h =
      updates-IsOff id j error_status (some e) (lookup j m.rows) m refl h

  -- A plugin that is loaded is enabled, so it is another one.
  other_one :
      (id j : String) (row : PluginRow) (m : Manager I)
      → lookup j m.rows ≡ some row
      → row.enabled ≡ true
      → IsOff id m
      → (j == id) ≡ false
  other_one id j row m l e h = elim (Bool-cases (j == id)) [
    | inl t ↦
        cc (e, h.off row (subst (λ (k : String). lookup k m.rows ≡ some row) ((eq_iff j id).0 t) l))
    | inr f ↦ f
  ]

  load_found-IsOff :
      (id j : String) (found : Option PluginRow) (m : Manager I)
      → lookup j m.rows ≡ found
      → IsOff id m
      → IsOff id (load_found c j found m).0
  unfolding load_found
  load_found-IsOff id j none m l h = h
  load_found-IsOff id j (some row) m l h =
      if_cases (λ (r : Manager I × Outcome (Unit {0})). IsOff id r.0) row.enabled _ _
        (λ e. load_row-IsOff id j row m (other_one id j row m l e h) h) (λ _. h)

  load_one-IsOff :
      (id tenant j : String) (found : Option PluginRow) (m : Manager I)
      → lookup j m.rows ≡ found
      → IsOff id m
      → IsOff id (load_one c tenant j found m)
  unfolding load_one
  load_one-IsOff id tenant j none m l h = h
  load_one-IsOff id tenant j (some row) m l h =
      if_cases (IsOff id) (row.enabled && row.tenant_id == tenant) _ _
        (λ e.
          mark_failed-IsOff id j (load_row c j row m)
            (load_row-IsOff id j row m (other_one id j row m l (ground (arith, e)) h) h))
        (λ _. h)

  load_all-IsOff :
      (id tenant : String) (ids : List String) (m : Manager I)
      → IsOff id m
      → IsOff id (load_all c tenant ids m)
  unfolding load_all
  load_all-IsOff id tenant [] m h = h
  load_all-IsOff id tenant (j ∷ ids) m h =
      load_all-IsOff id tenant ids (load_one c tenant j (lookup j m.rows) m)
        (load_one-IsOff id tenant j (lookup j m.rows) m refl h)

  unload-IsOff : (id j : String) (m : Manager I) → IsOff id m → IsOff id (unload_plugin j m)
  unfolding unload_plugin updates remove_instance
  unload-IsOff id j m h =
      let m' : Manager I = record m {
        registry = record m.registry { instances = erase j m.registry.instances };
      } in
      updates-IsOff id j disabled_status none (lookup j m.rows) m' refl (record {
        off = h.off;
        gone = ground (arith, h.gone, lookup-erase j id m.registry.instances);
      })

  enable_found-IsOff :
      (id j : String) (found : Option PluginRow) (m : Manager I)
      → (j == id) ≡ false
      → IsOff id m
      → IsOff id (enable_found c j found m).0
  unfolding enable_found
  enable_found-IsOff id j none m n h = h
  enable_found-IsOff id j (some row) m n h =
      load_row-IsOff id j row (record m { rows = insert j (set_enabled true row) m.rows }) n
        (record {
          off = λ r l.
              ground (arith, n, l, h.off r, lookup-insert j id (set_enabled true row) m.rows);
          gone = h.gone;
        })

  disable_found-IsOff :
      (id j : String) (found : Option PluginRow) (m : Manager I)
      → IsOff id m
      → IsOff id (disable_found j found m).0
  unfolding disable_found
  disable_found-IsOff id j none m h = h
  disable_found-IsOff id j (some row) m h =
      unload-IsOff id j (record m { rows = insert j (set_enabled false row) m.rows })
        (record {
          off =
              λ r l. ground (arith, l, h.off r, lookup-insert j id (set_enabled false row) m.rows);
          gone = h.gone;
        })

  -- A registry with the same instances.
  registered-IsOff :
      (id : String) (m : Manager I) (r : Registry I × Outcome (Unit {0}))
      → r.0.instances ≡ m.registry.instances
      → IsOff id m
      → IsOff id (with_registry c m r)
  registered-IsOff id m (r, u) e h = record { off = h.off; gone = rw e (h.gone) }

  -- The plugin is not enabled by an operation.
  abbrev pub LeavesOff : String → Op I → Type 0
  LeavesOff id (enables j) = (j == id) ≡ false
  LeavesOff id _ = Unit

  apply-IsOff :
      (id : String) (op : Op I) (m : Manager I)
      → LeavesOff id op
      → IsOff id m
      → IsOff id (apply c op m)
  unfolding apply load_plugin reload_plugin enable_plugin disable_plugin
  apply-IsOff id (registers d) m n h =
      registered-IsOff id m (register m.registry d) (register-instances c d m.registry) h
  apply-IsOff id (unregisters p k) m n h =
      registered-IsOff id m (unregister m.registry p k) (unregister-instances c p k m.registry) h
  apply-IsOff id (loads_all tenant ids) m n h = load_all-IsOff id tenant ids m h
  apply-IsOff id (loads j) m n h = load_found-IsOff id j (lookup j m.rows) m refl h
  apply-IsOff id (unloads j) m n h = unload-IsOff id j m h
  apply-IsOff id (reloads j) m n h =
      let m' = unload_plugin j m in
      load_found-IsOff id j (lookup j m'.rows) m' refl (unload-IsOff id j m h)
  apply-IsOff id (enables j) m n h = enable_found-IsOff id j (lookup j m.rows) m n h
  apply-IsOff id (disables j) m n h = disable_found-IsOff id j (lookup j m.rows) m h

  run-IsOff :
      (id : String) (ops : List (Op I)) (m : Manager I)
      → All (LeavesOff id) ops
      → IsOff id m
      → IsOff id (run c ops m)
  unfolding run
  run-IsOff id [] m n h = h
  run-IsOff id (op ∷ ops) m n h = run-IsOff id ops (apply c op m) n.1 (apply-IsOff id op m n.0 h)

  disabled-IsOff :
      (id : String) (found : Option PluginRow) (m : Manager I)
      → (disable_found id found m).1 ≡ good tt
      → IsOff id (disable_found id found m).0
  unfolding disable_found unload_plugin updates remove_instance
  disabled-IsOff id none m e = cc e
  disabled-IsOff id (some row) m e =
      let rows = insert id (set_enabled false row) m.rows in
      let m' : Manager I = record m {
        registry = record m.registry { instances = erase id m.registry.instances };
        rows = rows;
      } in
      updates-IsOff id id disabled_status none (lookup id rows) m' refl (record {
        off = λ r l.
            ground (arith, l, lookup-insert id id (set_enabled false row) m.rows, str_eq_refl id);
        gone = ground (arith, lookup-erase id id m.registry.instances, str_eq_refl id);
      })

  -- After a plugin is disabled, and whatever plugins are loaded, reloaded, unloaded, enabled or
  -- registered then, it has no instance until it is enabled again: not by loading all, whatever
  -- order the database answers in, not by a reload, and not by its own loading.
  pub get_plugin_instance-disable_plugin :
      (id : String) (m : Manager I) (ops : List (Op I))
      → (disable_plugin id m).1 ≡ good tt
      → All (LeavesOff id) ops
      → get_plugin_instance (run c ops (disable_plugin id m).0) id ≡ bad no_instance
  unfolding disable_plugin get_plugin_instance get_instance instance_or
  get_plugin_instance-disable_plugin id m ops e n =
      let h =
        run-IsOff id ops (disable_plugin id m).0 n (disabled-IsOff id (lookup id m.rows) m e) in
      rw (h.gone) refl

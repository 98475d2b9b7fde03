-- ===== src/Plugin/Loaded.antt =====
-- internal/plugin/lifecycle.go: the status of plugins and their instances.
use deploypilot.Base.{
  ◌≡◌, refl, subst, Bool, true, false, ◌&&◌, List, [], ◌∷◌, Option, none, some, String, lookup,
  insert, erase, lookup-insert, lookup-erase, arith, ◌==◌, string_tested, if_cases, str_eq_refl,
  Bool-cases, inl, inr,
}
use text.Mathlib.TextEquality.{eq_iff}
use deploypilot.Plugin.{
  Config, PluginDescriptor, Registry, Outcome, good, bad, PluginError, register, unregister,
  get_descriptor, create_instance, make_instance, keep_instance, get_instance, remove_instance,
  is_there,
}
use deploypilot.Plugin.Lifecycle.{
  Status, active, disabled_status, error_status, PluginRow, Manager, Codec, with_status, updates,
  update_row, after_create, create_from, load_described, load_row, load_found, load_plugin,
  mark_failed, load_one, load_all, unload_plugin, reload_plugin, set_enabled, enable_found,
  enable_plugin, disable_found, disable_plugin, get_plugin_instance, instance_or, read_config,
  decrypt_plugin_config,
}
use deploypilot.Plugin.Runs.{
  Op, registers, unregisters, loads_all, loads, unloads, reloads, enables, disables, apply, run,
  with_registry, register-instances, unregister-instances,
}

module _ {I : Type 0} where
  abbrev pub IsReady : Manager I → Type 0
  IsReady m =
      (id : String) (row : PluginRow)
      → lookup id m.rows ≡ some row
      → row.status ≡ active
      → is_there (lookup id m.registry.instances) ≡ true

  -- The same of all plugins but one.
  abbrev IsReadyBut : String → Manager I → Type 0
  IsReadyBut j m =
      (id : String) (row : PluginRow)
      → (j == id) ≡ false
      → lookup id m.rows ≡ some row
      → row.status ≡ active
      → is_there (lookup id m.registry.instances) ≡ true

  updates-IsReady :
      (j : String) (st : Status) (e : Option PluginError) (found : Option PluginRow) (m : Manager I)
      → lookup j m.rows ≡ found
      → IsReadyBut j m
      → (st ≡ active → is_there (lookup j m.registry.instances) ≡ true)
      → IsReady (update_row j (with_status st e) found m)
  unfolding update_row
  updates-IsReady j st e none m f h k id row l a = h id row (ground (arith, f, l, eq_iff j id)) l a
  updates-IsReady j st e (some r) m f h k id row l a = elim (Bool-cases (j == id)) [
    | inl t ↦
        subst (λ (i : String). is_there (lookup i m.registry.instances) ≡ true) ((eq_iff j id).0 t)
          (k (ground (arith, l, t, a, lookup-insert j id (with_status st e r) m.rows)))
    | inr n ↦ h id row n (ground (arith, l, n, lookup-insert j id (with_status st e r) m.rows)) a
  ]

  kept-IsReady :
      (j : String) (made : Option I) (m : Manager I)
      → IsReady m
      → IsReady (after_create j (keep_instance m.registry j made) m).0
  unfolding after_create keep_instance updates
  kept-IsReady j none m h id row l a = h id row l a
  kept-IsReady j (some i) m h id row l a =
      let m' : Manager I = record m {
        registry = record m.registry { instances = insert j i m.registry.instances };
      } in
      updates-IsReady j active none (lookup j m.rows) m' refl
        (λ k r n f b. ground (arith, n, h k r f b, lookup-insert j k i m.registry.instances))
        (λ _. ground (arith, lookup-insert j j i m.registry.instances, str_eq_refl j)) id row l a

  made-IsReady :
      (j : String) (factory : Option (Option Config → Option I)) (config : Option Config)
      (m : Manager I)
      → IsReady m
      → IsReady (after_create j (make_instance m.registry j factory config) m).0
  unfolding make_instance after_create
  made-IsReady j none config m h id row l a = h id row l a
  made-IsReady j (some f) config m h id row l a = kept-IsReady j (f config) m h id row l a

  module _ (c : Codec) where
    created-IsReady :
        (j : String) (d : PluginDescriptor I) (config : Option (Option Config)) (m : Manager I)
        → IsReady m
        → IsReady (create_from c j d config m).0
    unfolding create_from create_instance
    created-IsReady j d none m h id row l a = h id row l a
    created-IsReady j d (some config) m h id row l a =
        made-IsReady j d.factory (decrypt_plugin_config c m.enc_key config) m h id row l a

    described-IsReady :
        (j : String) (r : PluginRow) (d : Option (PluginDescriptor I)) (m : Manager I)
        → IsReady m
        → IsReady (load_described c j r.config d m).0
    unfolding load_described
    described-IsReady j r none m h id row l a = h id row l a
    described-IsReady j r (some d) m h id row l a =
        created-IsReady j d (read_config c r.config) m h id row l a

    load_row-IsReady :
        (j : String) (r : PluginRow) (m : Manager I) → IsReady m → IsReady (load_row c j r m).0
    unfolding load_row
    load_row-IsReady j r m h =
        described-IsReady j r (get_descriptor m.registry r.provider r.kind) m h

    mark_failed-IsReady :
        (j : String) (r : Manager I × Outcome (Unit {0})) → IsReady r.0 → IsReady (mark_failed j r)
    unfolding mark_failed updates
    mark_failed-IsReady j (m, good u) h id row l a = h id row l a
    mark_failed-IsReady j (m, bad e) h id row l a =
        updates-IsReady j error_status (some e) (lookup j m.rows) m refl (λ i r _ k b. h i r k b)
          (λ f. cc f) id row l a

    load_found-IsReady :
        (j : String) (found : Option PluginRow) (m : Manager I)
        → IsReady m
        → IsReady (load_found c j found m).0
    unfolding load_found
    load_found-IsReady j none m h id row l a = h id row l a
    load_found-IsReady j (some r) m h id row l a =
        if_cases (λ (x : Manager I × Outcome (Unit {0})). IsReady x.0) r.enabled _ _
          (λ _. load_row-IsReady j r m h) (λ _. h) id row l a

    load_one-IsReady :
        (tenant j : String) (found : Option PluginRow) (m : Manager I)
        → IsReady m
        → IsReady (load_one c tenant j found m)
    unfolding load_one
    load_one-IsReady tenant j none m h id row l a = h id row l a
    load_one-IsReady tenant j (some r) m h id row l a =
        if_cases IsReady (r.enabled && r.tenant_id == tenant) _ _
          (λ _. mark_failed-IsReady j (load_row c j r m) (load_row-IsReady j r m h)) (λ _. h) id row
          l a

    load_all-IsReady :
        (tenant : String) (ids : List String) (m : Manager I)
        → IsReady m
        → IsReady (load_all c tenant ids m)
    unfolding load_all
    load_all-IsReady tenant [] m h = h
    load_all-IsReady tenant (j ∷ ids) m h =
        load_all-IsReady tenant ids (load_one c tenant j (lookup j m.rows) m)
          (load_one-IsReady tenant j (lookup j m.rows) m h)

    unload-IsReady : (j : String) (m : Manager I) → IsReady m → IsReady (unload_plugin j m)
    unfolding unload_plugin updates remove_instance
    unload-IsReady j m h =
        let m' : Manager I = record m {
          registry = record m.registry { instances = erase j m.registry.instances };
        } in
        updates-IsReady j disabled_status none (lookup j m.rows) m' refl
          (λ id row n l a. ground (arith, n, h id row l a, lookup-erase j id m.registry.instances))
          (λ f. cc f)

    flagged-IsReady :
        (j : String) (b : Bool) (r : PluginRow) (m : Manager I)
        → lookup j m.rows ≡ some r
        → IsReady m
        → IsReady (record m { rows = insert j (set_enabled b r) m.rows })
    flagged-IsReady j b r m f h id row l a = elim (Bool-cases (j == id)) [
      | inl t ↦
          h id r (subst (λ (i : String). lookup i m.rows ≡ some r) ((eq_iff j id).0 t) f)
            (ground (arith, l, t, a, lookup-insert j id (set_enabled b r) m.rows))
      | inr n ↦ h id row (ground (arith, l, n, lookup-insert j id (set_enabled b r) m.rows)) a
    ]

    enable_found-IsReady :
        (j : String) (found : Option PluginRow) (m : Manager I)
        → lookup j m.rows ≡ found
        → IsReady m
        → IsReady (enable_found c j found m).0
    unfolding enable_found
    enable_found-IsReady j none m f h id row l a = h id row l a
    enable_found-IsReady j (some r) m f h id row l a =
        load_row-IsReady j r (record m { rows = insert j (set_enabled true r) m.rows })
          (flagged-IsReady j true r m f h) id row l a

    disable_found-IsReady :
        (j : String) (found : Option PluginRow) (m : Manager I)
        → lookup j m.rows ≡ found
        → IsReady m
        → IsReady (disable_found j found m).0
    unfolding disable_found
    disable_found-IsReady j none m f h id row l a = h id row l a
    disable_found-IsReady j (some r) m f h id row l a =
        unload-IsReady j (record m { rows = insert j (set_enabled false r) m.rows })
          (flagged-IsReady j false r m f h) id row l a

    registered-IsReady :
        (m : Manager I) (r : Registry I × Outcome (Unit {0}))
        → r.0.instances ≡ m.registry.instances
        → IsReady m
        → IsReady (with_registry c m r)
    registered-IsReady m (r, u) e h id row l a = rw e (h id row l a)

    apply-IsReady : (op : Op I) (m : Manager I) → IsReady m → IsReady (apply c op m)
    unfolding apply load_plugin reload_plugin enable_plugin disable_plugin
    apply-IsReady (registers d) m h =
        registered-IsReady m (register m.registry d) (register-instances c d m.registry) h
    apply-IsReady (unregisters p k) m h =
        registered-IsReady m (unregister m.registry p k) (unregister-instances c p k m.registry) h
    apply-IsReady (loads_all tenant ids) m h = load_all-IsReady tenant ids m h
    apply-IsReady (loads j) m h = load_found-IsReady j (lookup j m.rows) m h
    apply-IsReady (unloads j) m h = unload-IsReady j m h
    apply-IsReady (reloads j) m h =
        let m' = unload_plugin j m in
        load_found-IsReady j (lookup j m'.rows) m' (unload-IsReady j m h)
    apply-IsReady (enables j) m h = enable_found-IsReady j (lookup j m.rows) m refl h
    apply-IsReady (disables j) m h = disable_found-IsReady j (lookup j m.rows) m refl h

    run-IsReady : (ops : List (Op I)) (m : Manager I) → IsReady m → IsReady (run c ops m)
    unfolding run
    run-IsReady [] m h = h
    run-IsReady (op ∷ ops) m h = run-IsReady ops (apply c op m) (apply-IsReady op m h)

    -- Whatever plugins are loaded, reloaded, unloaded, enabled, disabled or registered, and whichever
    -- of these fail, a plugin whose status is active has an instance that can be had, if that holds
    -- at the start, as it does where no status is active.
    pub get_plugin_instance-run :
        (ops : List (Op I)) (m : Manager I)
        → IsReady m
        → (id : String) (row : PluginRow) → lookup id (run c ops m).rows ≡ some row
        → row.status ≡ active
        → (i : I) × (get_plugin_instance (run c ops m) id ≡ good i)
    unfolding get_plugin_instance get_instance
    get_plugin_instance-run ops m h id row l a =
        there (lookup id (run c ops m).registry.instances) (run-IsReady ops m h id row l a)
      where
        there : (o : Option I) → is_there o ≡ true → (i : I) × (instance_or o ≡ good i)
        there none e = cc e
        there (some i) e = (i, refl)

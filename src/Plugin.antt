-- ===== src/Plugin.antt =====
-- internal/plugin/registry.go and lifecycle.go. An instance of a plugin is of any type. The table of
-- plugins is a dictionary by id, and its reads and writes succeed; each method holds the manager's
-- lock, so it is one step. The calls of JSON and of the decryption are parameters.
pub mod Lifecycle
pub mod Runs
pub mod Disabled
pub mod Loaded
mod Tests
use deploypilot.Base.{
  ℕ, Bool, true, false, not, ◌&&◌, ◌||◌, List, [], ◌∷◌, Option, none, some, String, Text, codes,
  Dict, lookup, insert, erase, values, keep_if, is_empty, if◌then◌else◌, ◌==◌, string_tested,
  text_tested,
}
use Prim.Native.String.{◌++◌ as joined}

-- A value of a configuration: a text, or something else, which stays as it is.
pub data Value : Type 0 where
  text : Text → Value
  other : Text → Value

abbrev pub Config : Type 0
Config = List (Text × Value)

-- A map that may be nil.
abbrev pub Factory : Type 0 → Type 0
Factory I = Option Config → Option I

pub record PluginDescriptor (I : Type 0) : Type 0 where
  pub name : String
  pub display_name : String
  pub version : String
  pub description : String
  pub author : String
  pub provider : String
  pub kind : String
  pub factory : Option (Factory I)

pub record Registry (I : Type 0) : Type 0 where
  pub descriptors : Dict (PluginDescriptor I)
  pub instances : Dict I

pub data PluginError : Type 0 where
  nil_descriptor no_provider no_type nil_factory already_registered not_registered factory_failed
        not_found is_disabled bad_config no_instance :
      PluginError

pub data Outcome {ℓ} (A : Type ℓ) : Type ℓ where
  good : A → Outcome A
  bad : PluginError → Outcome A

-- `descriptorKey`
pub descriptor_key : String → String → String
descriptor_key provider kind = joined provider (joined ":" kind)

abbrev pub is_there {ℓ} : {A : Type ℓ} → Option A → Bool
is_there none = false
is_there (some a) = true

module _ {I : Type 0} where
  -- `NewRegistry`
  pub new_registry : Registry I
  new_registry = record { descriptors = []; instances = [] }

  unfoldable pub add_descriptor : Registry I → PluginDescriptor I → Registry I × Outcome (Unit {0})
  unfolding descriptor_key
  add_descriptor r desc =
      let key = descriptor_key desc.provider desc.kind in
      if is_there (lookup key r.descriptors)
      then (r, bad already_registered)
      else (record r { descriptors = insert key desc r.descriptors }, good tt)

  -- `Register`
  unfoldable pub register :
      Registry I → Option (PluginDescriptor I) → Registry I × Outcome (Unit {0})
  unfolding add_descriptor
  register r none = (r, bad nil_descriptor)
  register r (some desc) =
      if desc.provider == ""
      then (r, bad no_provider)
      else if desc.kind == ""
      then (r, bad no_type)
      else if not (is_there desc.factory)
      then (r, bad nil_factory)
      else add_descriptor r desc

  -- `Unregister`
  unfoldable pub unregister : Registry I → String → String → Registry I × Outcome (Unit {0})
  unfolding descriptor_key
  unregister r provider kind =
      let key = descriptor_key provider kind in
      if is_there (lookup key r.descriptors)
      then (record r { descriptors = erase key r.descriptors }, good tt)
      else (r, bad not_registered)

  -- `GetDescriptor`
  unfoldable pub get_descriptor : Registry I → String → String → Option (PluginDescriptor I)
  unfolding descriptor_key
  get_descriptor r provider kind = lookup (descriptor_key provider kind) r.descriptors

  -- `ListDescriptors`
  pub list_descriptors : Registry I → String → List (PluginDescriptor I)
  list_descriptors r provider =
      keep_if (λ d. provider == "" || d.provider == provider) (values r.descriptors)

  unfoldable pub keep_instance : Registry I → String → Option I → Registry I × Outcome I
  keep_instance r id none = (r, bad factory_failed)
  keep_instance r id (some i) = (record r { instances = insert id i r.instances }, good i)

  unfoldable pub make_instance :
      Registry I → String → Option (Factory I) → Option Config → Registry I × Outcome I
  unfolding keep_instance
  make_instance r id none config = (r, bad nil_factory)
  make_instance r id (some f) config = keep_instance r id (f config)

  -- `CreateInstance` for a descriptor that is not nil.
  unfoldable pub create_instance :
      Registry I → String → PluginDescriptor I → Option Config → Registry I × Outcome I
  unfolding make_instance
  create_instance r id desc config = make_instance r id desc.factory config

  -- `GetInstance`
  unfoldable pub get_instance : Registry I → String → Option I
  get_instance r id = lookup id r.instances

  -- `RemoveInstance`
  unfoldable pub remove_instance : Registry I → String → Registry I
  remove_instance r id = record r { instances = erase id r.instances }

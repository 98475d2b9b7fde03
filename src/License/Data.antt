-- ===== src/License/Data.antt =====
-- internal/license/license.go: the license, the engine's state, and the features of each tier.
use deploypilot.Base.{
  ℕ, ◌≡◌, refl, Bool, true, false, not, ◌||◌, List, [], ◌∷◌, Option, none, some, String, Text,
  if◌then◌else◌, ◌==◌, string_tested, nat_tested, keep_if, any_of,
}

pub record Addon : Type 0 where
  pub key : String
  pub amount : ℕ
  pub purchased_at : ℕ
  pub expires_at : ℕ
  pub paused_at : ℕ
  pub paused_days : ℕ

pub record LicenseData : Type 0 where
  pub tenant_id : String
  pub use_type : String
  pub tier : String
  pub issuer_role : String
  pub issued_to : String
  pub max_issued : ℕ
  pub issued_count : ℕ
  pub addons : List Addon
  pub max_servers : ℕ
  pub max_apps : ℕ
  pub max_users : ℕ
  pub issued_at : ℕ
  pub expires_at : ℕ
  pub machine_id : String

-- `valid_to` is none where the license never expires; `features` are those that the map has as true.
pub record LicenseInfo : Type 0 where
  pub license : LicenseData
  pub signature : Text
  pub valid_from : ℕ
  pub valid_to : Option ℕ
  pub features : List String
  pub use_type : String
  pub tier : String
  pub addons : List Addon

-- The engine's state; a key that is not configured is empty.
pub record Engine : Type 0 where
  pub public_key : Text
  pub public_keys : List Text
  pub info : Option LicenseInfo
  pub grace_days : ℕ

-- What the packages crypto/ed25519, encoding/base64 and encoding/json do.
pub record Codec : Type 0 where
  pub verify : Text → Text → Text → Bool
  pub sign : Text → Text → Text
  pub encode_base64 : Text → Text
  pub decode_base64 : Text → Option Text
  pub marshal : LicenseData → Text
  pub unmarshal : Text → Option LicenseData

-- `verify_panics` is the panic of `ed25519.Verify` on a key that has not 32 bytes, which leaves the engine
-- as it is; the others are returned.
pub data LicenseError : Type 0 where
  no_public_key missing_separator bad_signature_text bad_payload_text untrusted_signature :
      LicenseError
  verify_panics : LicenseError
  bad_payload no_license not_yet_valid license_expired : LicenseError

pub data LicenseResult {ℓ} (A : Type ℓ) : Type ℓ where
  done : A → LicenseResult A
  failed : LicenseError → LicenseResult A

infixl 5 ◌>>=◌
unfoldable pub ◌>>=◌ {ℓ κ} :
    {A : Type ℓ} {B : Type κ} → LicenseResult A → (A → LicenseResult B) → LicenseResult B
done a >>= f = f a
failed e >>= f = failed e

infixl 5 ◌>>◌
abbrev pub ◌>>◌ {ℓ} : {B : Type ℓ} → LicenseResult (Unit {0}) → LicenseResult B → LicenseResult B
m >> k = m >>= λ _. k

-- `if !test { return err }`
unfoldable pub require : Bool → LicenseError → LicenseResult (Unit {0})
require true e = done tt
require false e = failed e

-- A value, or an error where there is none.
unfoldable pub given {ℓ} : {A : Type ℓ} → Option A → LicenseError → LicenseResult A
given none e = failed e
given (some a) e = done a

-- What a chain of steps that ends well went through.
pub >>=-eq-done :
    {A B : Type 0} (m : LicenseResult A) (f : A → LicenseResult B) {b : B}
    → (m >>= f) ≡ done b
    → (a : A) × (m ≡ done a) × (f a ≡ done b)
unfolding ◌>>=◌
>>=-eq-done (done a) f h = (a, refl, h)
>>=-eq-done (failed e) f h = cc

pub require-eq-done : (b : Bool) (e : LicenseError) {u : Unit {0}} → require b e ≡ done u → b ≡ true
unfolding require
require-eq-done true e h = refl
require-eq-done false e h = cc

pub given-eq-done :
    {A : Type 0} (o : Option A) (e : LicenseError) {a : A} → given o e ≡ done a → o ≡ some a
unfolding given
given-eq-done none e h = cc
given-eq-done (some b) e h = cc

pub done_injective : {A : Type 0} {a b : A} → ◌≡◌ {A = LicenseResult A} (done a) (done b) → a ≡ b
done_injective h = cc

abbrev pub second : ℕ
second = 1_000_000_000

abbrev pub day : ℕ
day = 86_400_000_000_000

abbrev pub all_features : List String
all_features =
    "ssl" ∷ "monitoring" ∷ "alerting" ∷ "webhooks" ∷ "plugins" ∷ "oauth2" ∷ "grafana"
    ∷ "audit_export" ∷ "api_keys" ∷ "2fa" ∷ "ip_whitelist" ∷ "device_binding" ∷ "code_signing"
    ∷ "backup" ∷ "cluster" ∷ "registry" ∷ "batch_operations" ∷ "toolbox" ∷ "ssh_key_management"
    ∷ "dashboard_tv" ∷ "custom_branding" ∷ "priority_support" ∷ "sla" ∷ "sso" ∷ "ldap"
    ∷ "multi_tenant" ∷ "federation" ∷ []

abbrev pub team_excluded_features : List String
team_excluded_features = "dashboard_tv" ∷ "sso" ∷ "ldap" ∷ "multi_tenant" ∷ "federation" ∷ []

abbrev pub pro_excluded_features : List String
pro_excluded_features = "sla" ∷ []

-- `m[feature]` of a map that has its keys as true.
unfoldable pub has_feature : List String → String → Bool
has_feature fs f = any_of (λ g. g == f) fs

-- `resolveTierFeatures`
unfoldable pub resolve_tier_features : String → List String
unfolding has_feature
resolve_tier_features tier =
    if tier == "community" || tier == "enterprise"
    then all_features
    else if tier == "team"
    then keep_if (λ f. not (has_feature team_excluded_features f)) all_features
    else if tier == "pro"
    then keep_if (λ f. not (has_feature pro_excluded_features f)) all_features
    else all_features

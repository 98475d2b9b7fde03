-- ===== src/License/Load.antt =====
-- internal/license/license.go: the keys, and how a license is made, read and loaded.
use deploypilot.Base.{
  ℕ, ◌*◌, [], ◌∷◌, ◌++◌, Option, none, some, Text, if◌then◌else◌, ◌==◌, string_tested, nat_tested,
  ltb, is_empty, Bool, true, false, not, List, length,
}
use deploypilot.License.Data.{
  LicenseData, LicenseInfo, Engine, Codec, no_public_key, missing_separator, bad_signature_text,
  bad_payload_text, untrusted_signature, verify_panics, bad_payload, LicenseResult, done, failed,
  ◌>>=◌, ◌>>◌, require, given, resolve_tier_features, second,
}

-- `NewEngine`
unfoldable pub new_engine : Text → ℕ → Engine
new_engine key grace = record {
  public_key = key;
  public_keys = key ∷ [];
  info = none;
  grace_days = grace;
}

-- `RotatePublicKey`
unfoldable pub rotate_public_key : Text → Engine → Engine
rotate_public_key key e = record e { public_key = key; public_keys = e.public_keys ++ key ∷ [] }

-- `AddTrustedKey`
unfoldable pub add_trusted_key : Text → Engine → Engine
add_trusted_key key e = record e { public_keys = e.public_keys ++ key ∷ [] }

-- The parts before and behind the last separator, from those of the rest.
unfoldable pub split_behind : ℕ → ℕ → Text → Option (Text × Text) → Option (Text × Text)
split_behind sep c s (some (a, b)) = some (c ∷ a, b)
split_behind sep c s none = if c == sep then some ([], s) else none

unfoldable pub split_last : ℕ → Text → Option (Text × Text)
unfolding split_behind
split_last sep [] = none
split_last sep (c ∷ s) = split_behind sep c s (split_last sep s)

-- `parseLicenseKey`: the payload and the signature.
unfoldable pub parse_license_key : Codec → Text → LicenseResult (Text × Text)
parse_license_key k key = do
  parts ← given (split_last b'.' key) missing_separator
  signature ← given (k.decode_base64 parts.0) bad_signature_text
  payload ← given (k.decode_base64 parts.1) bad_payload_text
  done (payload, signature)

-- The license that a payload stands for.
unfoldable pub info_of : LicenseData → Text → LicenseInfo
info_of d signature = record {
  license = d;
  signature = signature;
  valid_from = d.issued_at * second;
  valid_to = if ltb 0 d.expires_at then some (d.expires_at * second) else none;
  features = resolve_tier_features d.tier;
  use_type = d.use_type;
  tier = d.tier;
  addons = d.addons;
}

-- The loop over the trusted keys, which ends at the first that signed.
unfoldable pub verify_any : Codec → Text → Text → List Text → LicenseResult Bool
verify_any k payload signature [] = done false
verify_any k payload signature (pk ∷ pks) =
    let rest = verify_any k payload signature pks in
    if not (length pk == 32)
    then failed verify_panics
    else if k.verify pk payload signature
    then done true
    else rest

-- What a key reads as, if a trusted key signed it.
unfoldable pub read_license : Codec → Text → Engine → LicenseResult LicenseInfo
unfolding verify_any
read_license k key e = do
  parts ← parse_license_key k key
  valid ← verify_any k parts.0 parts.1 e.public_keys
  require valid untrusted_signature
  license ← given (k.unmarshal parts.0) bad_payload
  done (info_of license parts.1)

unfoldable pub with_info : Engine → LicenseResult LicenseInfo → Engine × LicenseResult (Unit {0})
with_info e (done i) = (record e { info = some i }, done tt)
with_info e (failed x) = (e, failed x)

-- `LoadLicense`
unfoldable pub load_license : Codec → Text → Engine → Engine × LicenseResult (Unit {0})
unfolding with_info
load_license k key e =
    if is_empty e.public_key then (e, failed no_public_key) else with_info e (read_license k key e)

-- `GenerateLicenseKey` at a time in seconds
unfoldable pub generate_license_key : Codec → Text → LicenseData → ℕ → Text
generate_license_key k private_key d now =
    let d' = record d { issued_at = if d.issued_at == 0 then now else d.issued_at } in
    k.encode_base64 (k.sign private_key (k.marshal d')) ++ b'.' ∷ k.encode_base64 (k.marshal d')

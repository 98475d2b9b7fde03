-- ===== src/License/Tests.antt =====
-- A codec whose base64 shifts characters, and whose signature is the key before the text.
use deploypilot.Base.{
  ℕ, ◌+◌, ◌-◌, ◌≡◌, refl, List, [], ◌∷◌, ◌++◌, Option, none, some, Text, map, text_beq,
  text_beq_iff, codes, any_of, arith, ap,
}
use deploypilot.Strings.Split.{Lacks}
use deploypilot.License.Data.{LicenseData, LicenseInfo, Engine, Codec, done, given, require, ◌>>=◌}
use deploypilot.License.Load.{
  generate_license_key, info_of, load_license, read_license, verify_any, split_last,
  parse_license_key, with_info, new_engine, add_trusted_key, rotate_public_key,
}
use deploypilot.License.Issued.{IsSound, load_license-generate_license_key, dated}
use deploypilot.License.Trusted.{Op, trusts, loads, run, apply, IsSignedBy, IsOf, run-IsSignedBy}

abbrev sample : LicenseData
sample = record {
  tenant_id = "t1";
  use_type = "commercial";
  tier = "pro";
  issuer_role = "developer";
  issued_to = "";
  max_issued = 0;
  issued_count = 0;
  addons = [];
  max_servers = 50;
  max_apps = 100;
  max_users = 50;
  issued_at = 0;
  expires_at = 2000;
  machine_id = "";
}

abbrev read_sample : Text → Option LicenseData
read_sample [] = none
read_sample (n ∷ s) = some (record sample { issued_at = n })

-- A key of 32 bytes.
abbrev key : ℕ → Text
key n = n ∷ codes "0123456789012345678901234567890"

abbrev codec : Codec
codec = record {
  verify = λ pk m s. text_beq s (pk ++ m);
  sign = λ sk m. sk ++ m;
  encode_base64 = map (λ (c : ℕ). c + 100);
  decode_base64 = λ s. some (map (λ (c : ℕ). c - 100) s);
  marshal = λ d. d.issued_at ∷ [];
  unmarshal = read_sample;
}

shifted-Lacks : (s : Text) → Lacks b'.' (map (λ (c : ℕ). c + 100) s)
shifted-Lacks [] = tt
shifted-Lacks (c ∷ s) = ((λ e. omega arith), shifted-Lacks s)

shifted_back : (s : Text) → map (λ (c : ℕ). c - 100) (map (λ (c : ℕ). c + 100) s) ≡ s
shifted_back [] = refl
shifted_back (c ∷ s) = ground (arith, shifted_back s)

codec-IsSound : IsSound codec (key 7) (key 7) (dated sample 1000)
codec-IsSound = record {
  no_dot = shifted-Lacks;
  decodes = λ s. ap some (shifted_back s);
  reads = refl;
  verifies = λ m. (text_beq_iff _ _).1 refl;
}

abbrev rotated : Engine
rotated = rotate_public_key (key 8) (new_engine (key 7) 3)

load_license-generate_license_key_example :
    (i : LicenseInfo) × (load_license codec (generate_license_key codec (key 7) sample 1000) rotated
      ≡ (record rotated { info = some i }, done tt))
    × IsOf (dated sample 1000) i
    × (i.signature ≡ key 7 ++ 1000 ∷ [])
unfolding rotate_public_key new_engine any_of text_beq
load_license-generate_license_key_example =
    load_license-generate_license_key codec (key 7) (key 7) sample 1000 codec-IsSound rotated refl
      refl (refl, (refl, tt))

abbrev ops : List Op
ops =
    trusts (key 8)
    ∷ loads (generate_license_key codec (key 8) sample 1000)
    ∷ loads (generate_license_key codec (key 9) sample 2000)
    ∷ []

-- The first license is signed by a trusted key, and the second is not.
run-IsSignedBy_example :
    IsSignedBy codec
      (run codec ops (new_engine (key 7) 3)).public_keys
      (info_of (dated sample 1000) (key 8 ++ 1000 ∷ []))
unfolding run apply add_trusted_key new_engine load_license read_license verify_any
    parse_license_key generate_license_key split_last given require ◌>>=◌ with_info any_of text_beq
    info_of
run-IsSignedBy_example =
    run-IsSignedBy codec (key 7) 3 ops (info_of (dated sample 1000) (key 8 ++ 1000 ∷ [])) refl

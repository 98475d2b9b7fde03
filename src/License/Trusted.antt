-- ===== src/License/Trusted.antt =====
-- internal/license/license.go: the license in use is one that a trusted key signed.
use deploypilot.Base.{
  ℕ, ◌≡◌, refl, arith, sym, subst, if_cases, ◌∙◌, Bool, true, List, [], ◌∷◌, ◌++◌, Option, none,
  some, ◌≢◌, ◌*◌, Bool, Text, string_tested, nat_tested, any_of, is_empty,
}
use deploypilot.License.Data.{
  LicenseData, second, resolve_tier_features, LicenseInfo, Engine, Codec, untrusted_signature,
  bad_payload, LicenseResult, done, failed, >>=-eq-done, require-eq-done, given-eq-done,
  done_injective, require, given,
}
use deploypilot.License.Load.{
  new_engine, rotate_public_key, add_trusted_key, parse_license_key, info_of, verify_any,
  read_license, with_info, load_license,
}

-- What a license in use has from the data of its payload.
pub record IsOf (d : LicenseData) (i : LicenseInfo) : Type 0 where
  pub license : i.license ≡ d
  pub begins : i.valid_from ≡ d.issued_at * second
  pub ends : d.expires_at ≢ 0 → i.valid_to ≡ some (d.expires_at * second)
  pub endless : d.expires_at ≡ 0 → i.valid_to ≡ none
  pub features : i.features ≡ resolve_tier_features d.tier
  pub use_type : i.use_type ≡ d.use_type
  pub tier : i.tier ≡ d.tier
  pub addons : i.addons ≡ d.addons

pub info_of-IsOf : (d : LicenseData) (signature : Text) → IsOf d (info_of d signature)
unfolding info_of
info_of-IsOf d signature = record {
  license = refl;
  begins = refl;
  ends = λ n. ground (arith, n);
  endless = λ e. ground (arith, e);
  features = refl;
  use_type = refl;
  tier = refl;
  addons = refl;
}

-- A key of the list signed the payload of the license, and all of the rest is that of the payload.
abbrev pub IsSignedBy : Codec → List Text → LicenseInfo → Type 0
IsSignedBy k keys i =
    (payload : Text) × (any_of (λ pk. k.verify pk payload i.signature) keys ≡ true)
    × (k.unmarshal payload ≡ some i.license)
    × IsOf i.license i

pub data Op : Type 0 where
  rotates : Text → Op
  trusts : Text → Op
  loads : Text → Op

unfoldable pub apply : Codec → Op → Engine → Engine
apply k (rotates key) e = rotate_public_key key e
apply k (trusts key) e = add_trusted_key key e
apply k (loads key) e = (load_license k key e).0

unfoldable pub run : Codec → List Op → Engine → Engine
run k [] e = e
run k (op ∷ ops) e = run k ops (apply k op e)

IsTrusted : Codec → Engine → Type 0
IsTrusted k e = (i : LicenseInfo) → e.info ≡ some i → IsSignedBy k e.public_keys i

some_injective : {a b : LicenseInfo} → ◌≡◌ {A = Option LicenseInfo} (some a) (some b) → a ≡ b
some_injective h = cc

any_of-append :
    (p : Text → Bool) (xs ys : List Text) → any_of p xs ≡ true → any_of p (xs ++ ys) ≡ true
unfolding any_of
any_of-append p [] ys h = cc h
any_of-append p (x ∷ xs) ys h = ground (arith, h, any_of-append p xs ys)

verify_any-any_of :
    (k : Codec) (payload signature : Text) (keys : List Text) (valid : Bool)
    → verify_any k payload signature keys ≡ done valid
    → valid ≡ true
    → any_of (λ pk. k.verify pk payload signature) keys ≡ true
unfolding verify_any any_of
verify_any-any_of k payload signature [] valid h v = ground (arith, h, v)
verify_any-any_of k payload signature (pk ∷ pks) valid h v =
    ground (arith, h, v, verify_any-any_of k payload signature pks valid)

read_license-IsSignedBy :
    (k : Codec) (key : Text) (e : Engine) (i : LicenseInfo)
    → read_license k key e ≡ done i
    → IsSignedBy k e.public_keys i
unfolding read_license info_of
read_license-IsSignedBy k key e i h =
    let (parts, _, h1) = >>=-eq-done (parse_license_key k key) _ h in
    let (valid, looked, h2) = >>=-eq-done (verify_any k parts.0 parts.1 e.public_keys) _ h1 in
    let (_, verified, h3) = >>=-eq-done (require valid untrusted_signature) _ h2 in
    let (license, read, h4) = >>=-eq-done (given (k.unmarshal parts.0) bad_payload) _ h3 in
    subst (IsSignedBy k e.public_keys) (done_injective h4) (
      parts.0,
      verify_any-any_of k parts.0 parts.1 e.public_keys valid looked
          (require-eq-done valid untrusted_signature verified),
      given-eq-done _ bad_payload read,
      info_of-IsOf license parts.1,
    )

with_info-IsTrusted :
    (k : Codec) (e : Engine) (r : LicenseResult LicenseInfo)
    → ((i : LicenseInfo) → r ≡ done i → IsSignedBy k e.public_keys i)
    → IsTrusted k e
    → IsTrusted k (with_info e r).0
unfolding IsTrusted with_info
with_info-IsTrusted k e (done j) read t i h =
    subst (IsSignedBy k e.public_keys) (some_injective h) (read j refl)
with_info-IsTrusted k e (failed x) read t i h = t i h

grown-IsTrusted :
    (k : Codec) (key : Text) (e e' : Engine)
    → e'.info ≡ e.info
    → e.public_keys ++ key ∷ [] ≡ e'.public_keys
    → IsTrusted k e
    → IsTrusted k e'
unfolding IsTrusted
grown-IsTrusted k key e e' same more t i h =
    let (payload, signed, read, is) = t i (sym same ∙ h) in
    subst (λ keys. IsSignedBy k keys i) more
      (
        payload,
        any_of-append (λ pk. k.verify pk payload i.signature) e.public_keys _ signed,
        read,
        is,
      )

apply-IsTrusted : (k : Codec) (op : Op) (e : Engine) → IsTrusted k e → IsTrusted k (apply k op e)
unfolding apply rotate_public_key add_trusted_key load_license
apply-IsTrusted k (rotates key) e t = grown-IsTrusted k key e (rotate_public_key key e) refl refl t
apply-IsTrusted k (trusts key) e t = grown-IsTrusted k key e (add_trusted_key key e) refl refl t
apply-IsTrusted k (loads key) e t =
    if_cases (λ (o : Engine × LicenseResult (Unit {0})). IsTrusted k o.0) (is_empty e.public_key) _
      _ (λ _. t)
      (λ _. with_info-IsTrusted k e (read_license k key e) (read_license-IsSignedBy k key e) t)

run-IsTrusted : (k : Codec) (ops : List Op) (e : Engine) → IsTrusted k e → IsTrusted k (run k ops e)
unfolding run
run-IsTrusted k [] e t = t
run-IsTrusted k (op ∷ ops) e t = run-IsTrusted k ops (apply k op e) (apply-IsTrusted k op e t)

-- Whatever keys are added and rotated in and whatever texts are loaded as licenses, in any order, the
-- license in use is one of which a key that the engine trusts signed the payload, and its dates, kind of
-- use, tier and add-ons are the ones of that payload, and its features those of the tier.
pub run-IsSignedBy :
    (k : Codec) (key : Text) (grace : ℕ) (ops : List Op) (i : LicenseInfo)
    → (run k ops (new_engine key grace)).info ≡ some i
    → IsSignedBy k (run k ops (new_engine key grace)).public_keys i
unfolding IsTrusted new_engine
run-IsSignedBy k key grace ops i h = run-IsTrusted k ops (new_engine key grace) (λ j e. cc e) i h

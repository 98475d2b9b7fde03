-- ===== src/License/Issued.antt =====
-- internal/license/license.go: a license that is issued is one that loads.
use deploypilot.Base.{
  ℕ, ◌≡◌, refl, true, false, List, [], ◌∷◌, ◌++◌, none, some, Text, if◌then◌else◌, ◌==◌, nat_tested,
  All, length, any_of, is_empty, arith, Bool-cases, inl, inr, text_tested,
}
use deploypilot.Strings.Split.{Lacks}
use deploypilot.License.Trusted.{IsOf, info_of-IsOf}
use deploypilot.License.Data.{LicenseInfo, LicenseData, Engine, Codec, done, ◌>>=◌, require, given}
use deploypilot.License.Load.{
  generate_license_key, split_last, parse_license_key, info_of, verify_any, read_license, with_info,
  load_license,
}

-- What the packages of the codec promise of a pair of keys: base64 has no dot and is decoded to what
-- was encoded, JSON reads the license back, and the public key verifies what the private one signs.
pub record IsSound (k : Codec) (public_key private_key : Text) (d : LicenseData) : Type 0 where
  pub no_dot : (s : Text) → Lacks b'.' (k.encode_base64 s)
  pub decodes : (s : Text) → k.decode_base64 (k.encode_base64 s) ≡ some s
  pub reads : k.unmarshal (k.marshal d) ≡ some d
  pub verifies : (m : Text) → k.verify public_key m (k.sign private_key m) ≡ true

split_last-Lacks : (sep : ℕ) (s : Text) → Lacks sep s → split_last sep s ≡ none
unfolding split_last
split_last-Lacks sep [] h = refl
split_last-Lacks sep (c ∷ s) h = ground (arith, h.0, split_last-Lacks sep s h.1)

split_last-append :
    (sep : ℕ) (s t : Text) → Lacks sep t → split_last sep (s ++ sep ∷ t) ≡ some (s, t)
unfolding split_last
split_last-append sep [] t h = ground (arith, split_last-Lacks sep t h)
split_last-append sep (c ∷ s) t h = rw (split_last-append sep s t h)

-- The data with the time of issue filled in.
abbrev pub dated : LicenseData → ℕ → LicenseData
dated d now = record d { issued_at = if d.issued_at == 0 then now else d.issued_at }

parse_license_key-append :
    (k : Codec) (sig payload : Text)
    → ((s : Text) → Lacks b'.' (k.encode_base64 s))
    → ((s : Text) → k.decode_base64 (k.encode_base64 s) ≡ some s)
    → parse_license_key k (k.encode_base64 sig ++ b'.' ∷ k.encode_base64 payload)
      ≡ done (payload, sig)
unfolding parse_license_key given ◌>>=◌
parse_license_key-append k sig payload lacks decodes = rw (
  split_last-append b'.' (k.encode_base64 sig) (k.encode_base64 payload) (lacks payload),
  decodes sig,
  decodes payload,
)

-- A key as `ed25519.Verify` takes it.
abbrev pub IsKey : Text → Type 0
IsKey pk = length pk ≡ 32

verify_any-mem :
    (k : Codec) (payload signature key : Text) (keys : List Text)
    → All IsKey keys
    → any_of (λ pk. pk == key) keys ≡ true
    → k.verify key payload signature ≡ true
    → verify_any k payload signature keys ≡ done true
unfolding any_of verify_any
verify_any-mem k payload signature key [] l h e = cc h
verify_any-mem k payload signature key (x ∷ keys) l h e = elim (Bool-cases (x == key)) [
  | inl same ↦
      let y : k.verify x payload signature ≡ true = rw ((text_tested.same_iff x key).0 same) e in
      rw (l.0, y)
  | inr other ↦ ground (arith, h, other, l.0, verify_any-mem k payload signature key keys l.1)
]

signature_of : (d : LicenseData) (s : Text) → (info_of d s).signature ≡ s
unfolding info_of
signature_of d s = refl

-- A license key that is made with a private key loads on an engine that has an active key and trusts
-- the public one, where each key that it trusts has 32 bytes, and base64, JSON and the pair of keys keep
-- their promises. The license in use then has the dates, the kind of use, the tier, the features and
-- the add-ons of the data that was issued, dated now where it had no date, and the signature made.
pub load_license-generate_license_key :
    (k : Codec) (public_key private_key : Text) (d : LicenseData) (now : ℕ)
    → IsSound k public_key private_key (dated d now)
    → (e : Engine) → is_empty e.public_key ≡ false
    → any_of (λ pk. pk == public_key) e.public_keys ≡ true
    → All IsKey e.public_keys
    → (i : LicenseInfo) × (load_license k (generate_license_key k private_key d now) e
        ≡ (record e { info = some i }, done tt))
      × IsOf (dated d now) i
      × (i.signature ≡ k.sign private_key (k.marshal (dated d now)))
unfolding load_license read_license generate_license_key given require ◌>>=◌ with_info
load_license-generate_license_key k public_key private_key d now s e active trusted keys = (
  info_of (dated d now) (k.sign private_key (k.marshal (dated d now))),
  (rw (
    active,
    parse_license_key-append k (k.sign private_key (k.marshal (dated d now)))
        (k.marshal (dated d now)) s.no_dot s.decodes,
    verify_any-mem k (k.marshal (dated d now)) (k.sign private_key (k.marshal (dated d now)))
        public_key e.public_keys keys trusted (s.verifies (k.marshal (dated d now))),
    s.reads,
  )),
  info_of-IsOf (dated d now) (k.sign private_key (k.marshal (dated d now))),
  signature_of (dated d now) (k.sign private_key (k.marshal (dated d now))),
)

-- ===== src/Audit/Tamper.antt =====
-- internal/audit/chain.go: records that verify have not been changed.
use deploypilot.Base.{◌≡◌, ◌≢◌, true, Option, none, some, List, [], ◌∷◌, Text, All}
use deploypilot.Strings.Split.{Lacks}
use deploypilot.Audit.{AuditLog, AuditHash, VerificationResult, hash_of}

-- The time as `Format` prints it in RFC 3339 has no separator; an action, which a request's path is part
-- of, may have one.
abbrev pub PlainTime : AuditLog → Type 0
PlainTime log = Lacks b'|' log.created_at

abbrev pub AllValid : List VerificationResult → Type 0
AllValid rs = All (λ r. r.valid ≡ true) rs

abbrev or_nothing : Option Text → Text
or_nothing none = []
or_nothing (some stored) = stored

-- The hash that is stored for the last of the records, or what stands before the first where there is
-- none.
pub last_hash : List AuditHash → Text → List AuditLog → Text
last_hash hashes prev [] = prev
last_hash hashes prev (log ∷ logs) = last_hash hashes (or_nothing (hash_of hashes log.id)) logs

module _ (hmac : Text → Text) where
  -- Two texts with one hash.
  abbrev pub Collision : Type 0
  Collision = (s : Text) × (t : Text) × (s ≢ t) × (hmac s ≡ hmac t)

-- ===== src/Audit.antt =====
-- internal/audit/chain.go: the verification of the hash chain of audit records. `hmac` is the parameter
-- for the hex text of HMAC-SHA256 under the secret key. Records and hashes are the rows that the two
-- queries answer, in their order; of a record there are the fields that the hash reads, its time as
-- `Format` prints it.
mod Tamper
mod Tests
use deploypilot.Base.{
  Bool, true, false, Option, none, some, List, [], ◌∷◌, ◌++◌, Text, codes, join, ◌==◌, text_tested,
  if◌then◌else◌,
}

pub record AuditLog : Type 0 where
  pub id : Text
  pub action : Text
  pub created_at : Text

pub record AuditHash : Type 0 where
  pub audit_id : Text
  pub hash : Text

pub record VerificationResult : Type 0 where
  pub record_id : Text
  pub valid : Bool
  pub expected_hash : Text
  pub actual_hash : Text

-- `hashMap`: of two rows of one record the later one stays.
unfoldable pub hash_of : List AuditHash → Text → Option Text
hash_of [] id = none
hash_of (h ∷ hs) id = elim (hash_of hs id) [
  | some later ↦ some later
  | none ↦ if h.audit_id == id then some h.hash else none
]

-- `GetRecordHash`: the first row.
unfoldable pub get_record_hash : List AuditHash → Text → Option Text
get_record_hash [] id = none
get_record_hash (h ∷ hs) id = if h.audit_id == id then some h.hash else get_record_hash hs id

-- The text that is hashed.
unfoldable pub chain_data : Text → AuditLog → Text
chain_data prev log = prev ++ b'|' ∷ (log.id ++ b'|' ∷ (log.action ++ b'|' ∷ log.created_at))

module _ (hmac : Text → Text) where
  -- `ComputeHash`
  unfoldable pub compute_hash : Text → AuditLog → Text
  compute_hash prev log = hmac (chain_data prev log)

  -- What is said of one record, by its stored hash.
  unfoldable pub check_record : Text → AuditLog → Option Text → VerificationResult
  unfolding compute_hash
  check_record prev log (some stored) = record {
    record_id = log.id;
    valid = stored == compute_hash prev log;
    expected_hash = compute_hash prev log;
    actual_hash = stored;
  }
  check_record prev log none = record {
    record_id = log.id;
    valid = false;
    expected_hash = compute_hash prev log;
    actual_hash = [];
  }

  -- The hash that the next record is checked with.
  unfoldable pub next_hash : Text → AuditLog → Option Text → Text
  unfolding compute_hash
  next_hash prev log (some stored) = stored
  next_hash prev log none = compute_hash prev log

  unfoldable pub verify_from : List AuditHash → Text → List AuditLog → List VerificationResult
  unfolding check_record next_hash
  verify_from hashes prev [] = []
  verify_from hashes prev (log ∷ logs) =
      let stored = hash_of hashes log.id in
      check_record prev log stored ∷ verify_from hashes (next_hash prev log stored) logs

  -- `VerifyChain`, where both queries succeed.
  unfoldable pub verify_chain : List AuditHash → List AuditLog → List VerificationResult
  verify_chain hashes logs = verify_from hashes [] logs

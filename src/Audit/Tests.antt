-- ===== src/Audit/Tests.antt =====
-- A concrete chain of two records, whose hash is the text with another separator.
use deploypilot.Base.{ℕ, ◌≢◌, List, [], ◌∷◌, Text, codes, map, ◌==◌, nat_tested, if◌then◌else◌}
use deploypilot.Audit.{AuditLog, AuditHash}

abbrev plain : Text → Text
plain s = map (λ (c : ℕ). if c == b'|' then b'/' else c) s

abbrev logs : List AuditLog
logs =
    record { id = codes "1"; action = codes "up|x"; created_at = codes "t" }
    ∷ record { id = codes "2"; action = codes "rm"; created_at = codes "u" }
    ∷ []

abbrev hashes : List AuditHash
hashes =
    record { audit_id = codes "1"; hash = codes "/1/up/x/t" }
    ∷ record { audit_id = codes "2"; hash = codes "/1/up/x/t/2/rm/u" }
    ∷ []

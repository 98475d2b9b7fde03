-- ===== src/Confirm/Cleanup.antt =====
-- internal/confirm/store.go: what the cleanup deletes.
use deploypilot.Base.{
  ℕ, ◌+◌, ◌<◌, ◌≡◌, ◌↔◌, true, false, none, some, String, lookup, lookup-retain, arith,
}
use deploypilot.Confirm.{is_pending, Request, Store, cleanup, is_kept}

-- The cleanup deletes exactly the requests that are not pending and are older than the age: a request
-- of the store is found under its key afterwards, unchanged, or it is gone, and it is gone exactly in
-- that case.
pub cleanup_iff :
    (s : Store) (id : String) (r : Request) (age now : ℕ)
    → lookup id s.requests ≡ some r
    → let found = lookup id (cleanup s age now).0.requests in
      ((found ≡ none) ↔ ((is_pending r.status ≡ false) × (r.created_at + age < now)))
      × ((found ≡ some r) ↔ (is_kept age now r ≡ true))
unfolding cleanup is_kept
cleanup_iff s id r age now e = ground (arith, lookup-retain (is_kept age now) id s.requests, e)

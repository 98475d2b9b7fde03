-- ===== src/Auth/Logout.antt =====
-- internal/auth/refresh_token.go: the logout of a user from all devices.
use deploypilot.Base.{
  ℕ, ◌≡◌, ◌≢◌, refl, List, [], ◌∷◌, Option, none, some, String, Dict, lookup, lookup-insert,
  lookup-erase, arith, string_tested, ltb, if_cases, All,
}
use deploypilot.Auth.Refresh.{
  RefreshTokenEntry, IdSet, RefreshStore, new_refresh_store, store, if_live, retrieve, revoke_entry,
  revoke_refresh, revoke_set, revoke_all_for_user, cleanup_entry, cleanup_ids, cleanup_refresh,
}
use deploypilot.Auth.Index.{
  Op, stores, revokes, revokes_all, cleans_at, apply, run, IsIndexed, HasNone, revoke_set-HasNone,
  lookup-erase_all, run-IsIndexed,
}

-- Nothing in a list of operations stores a token of the user.
abbrev pub IsQuiet : String → Op → Type 0
IsQuiet user (stores e) = e.user_id ≢ user
IsQuiet user _ = Unit

HasFewer : RefreshStore → RefreshStore → Type 0
HasFewer s s' =
    (id : String) (e : RefreshTokenEntry)
    → lookup id s'.tokens ≡ some e
    → lookup id s.tokens ≡ some e

revoke_entry-HasFewer :
    (tid : String) (found : Option RefreshTokenEntry) (s : RefreshStore)
    → HasFewer s (revoke_entry tid found s)
unfolding HasFewer revoke_entry
revoke_entry-HasFewer tid none s id e l = l
revoke_entry-HasFewer tid (some x) s id e l = ground (arith, l, lookup-erase tid id s.tokens)

revoke_set-HasFewer :
    (user : String) (set : Option IdSet) (s : RefreshStore) → HasFewer s (revoke_set user set s)
unfolding HasFewer revoke_set
revoke_set-HasFewer user none s id e l = l
revoke_set-HasFewer user (some ids) s id e l = (lookup-erase_all ids s.tokens id e l).0

cleanup_entry-HasFewer :
    (now : ℕ) (tid : String) (found : Option RefreshTokenEntry) (s : RefreshStore)
    → HasFewer s (cleanup_entry now tid found s)
unfolding HasFewer cleanup_entry
cleanup_entry-HasFewer now tid none s id e l = l
cleanup_entry-HasFewer now tid (some x) s id e l =
    if_cases (HasFewer s) (ltb x.expires_at now) _ _ (λ _. revoke_entry-HasFewer tid (some x) s)
      (λ _ k x' m. m) id e l

cleanup_ids-HasFewer :
    (now : ℕ) (ids : Dict RefreshTokenEntry) (s : RefreshStore) → HasFewer s (cleanup_ids now ids s)
unfolding HasFewer cleanup_ids
cleanup_ids-HasFewer now [] s id e l = l
cleanup_ids-HasFewer now ((tid, x) ∷ ids) s id e l =
    cleanup_entry-HasFewer now tid (lookup tid s.tokens) s id e
      (cleanup_ids-HasFewer now ids (cleanup_entry now tid (lookup tid s.tokens) s) id e l)

apply-HasNone :
    (user : String) (op : Op) (s : RefreshStore)
    → IsQuiet user op
    → HasNone user s
    → HasNone user (apply op s)
unfolding apply HasFewer store revoke_refresh revoke_all_for_user cleanup_refresh
apply-HasNone user (stores x) s q h id e l =
    ground (arith, q, l, lookup-insert x.token_id id x s.tokens, h id e)
apply-HasNone user (revokes tid) s q h id e l =
    h id e (revoke_entry-HasFewer tid (lookup tid s.tokens) s id e l)
apply-HasNone user (revokes_all other) s q h id e l =
    h id e (revoke_set-HasFewer other (lookup other s.users) s id e l)
apply-HasNone user (cleans_at now) s q h id e l =
    h id e (cleanup_ids-HasFewer now s.tokens s id e l)

run-HasNone :
    (user : String) (ops : List Op) (s : RefreshStore)
    → All (IsQuiet user) ops
    → HasNone user s
    → HasNone user (run ops s)
unfolding run
run-HasNone user [] s q h = h
run-HasNone user (op ∷ ops) s q h =
    run-HasNone user ops (apply op s) q.1 (apply-HasNone user op s q.0 h)

new-IsIndexed : IsIndexed new_refresh_store
unfolding new_refresh_store lookup
new-IsIndexed id e l = cc l

if_live-some :
    (now : ℕ) (found : Option RefreshTokenEntry) (e : RefreshTokenEntry)
    → if_live now found ≡ some e
    → found ≡ some e
if_live-some now none e l = l
if_live-some now (some x) e l = ground (arith, l)

-- Whatever was done to a new store before, once the tokens of a user are revoked, none of them is
-- retrieved again, at any time and whatever is done after, as long as no new token of that user is
-- stored.
pub retrieve-revoke_all_for_user :
    (before after : List Op) (user : String)
    → All (IsQuiet user) after
    → (id : String) (now : ℕ) (e : RefreshTokenEntry)
    → let s = run after (revoke_all_for_user user (run before new_refresh_store)) in
      retrieve s id now ≡ some e → e.user_id ≢ user
unfolding retrieve revoke_all_for_user
retrieve-revoke_all_for_user before after user q id now e l =
    let s = run before new_refresh_store in
    run-HasNone user after (revoke_set user (lookup user s.users) s) q
      (revoke_set-HasNone user (lookup user s.users) s refl
        (run-IsIndexed before new_refresh_store new-IsIndexed))
      id e (if_live-some now _ e l)

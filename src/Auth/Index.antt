-- ===== src/Auth/Index.antt =====
-- internal/auth/refresh_token.go: the index of the tokens by user.
use deploypilot.Base.{
  ℕ, ◌≡◌, ◌≢◌, refl, sym, subst, ◌∙◌, true, false, Bool-cases, List, [], ◌∷◌, Option, none, some,
  String, Dict, lookup, insert, erase, lookup-insert, lookup-erase, arith, ◌==◌, string_tested,
  if◌then◌else◌, ltb, str_eq_refl, if_cases, inl, inr,
}
use text.Mathlib.TextEquality.{eq_iff}
use deploypilot.Auth.Refresh.{
  RefreshTokenEntry, IdSet, RefreshStore, set_or_empty, store, drop_id, revoke_entry,
  revoke_refresh, erase_all, revoke_set, revoke_all_for_user, cleanup_entry, cleanup_ids,
  cleanup_refresh,
}

pub data Op : Type 0 where
  stores : RefreshTokenEntry → Op
  revokes revokes_all : String → Op
  cleans_at : ℕ → Op

unfoldable pub apply : Op → RefreshStore → RefreshStore
apply (stores e) s = store e s
apply (revokes id) s = revoke_refresh id s
apply (revokes_all user) s = revoke_all_for_user user s
apply (cleans_at now) s = cleanup_refresh now s

unfoldable pub run : List Op → RefreshStore → RefreshStore
unfolding apply
run [] s = s
run (op ∷ ops) s = run ops (apply op s)

-- A token is in the set of a user.
abbrev pub IsListed : String → String → Dict IdSet → Type 0
IsListed id user users = lookup id (set_or_empty (lookup user users)) ≡ some tt

-- Each stored token is in the set of its user.
abbrev pub IsIndexed : RefreshStore → Type 0
IsIndexed s =
    (id : String) (e : RefreshTokenEntry)
    → lookup id s.tokens ≡ some e
    → IsListed id e.user_id s.users

set-insert :
    (u v : String) (ids : IdSet) (users : Dict IdSet)
    → set_or_empty (lookup u (insert v ids users))
      ≡ (if v == u then ids else set_or_empty (lookup u users))
set-insert u v ids users = ground (arith, lookup-insert v u ids users)

set-erase :
    (u v : String) (users : Dict IdSet)
    → set_or_empty (lookup u (erase v users))
      ≡ (if v == u then [] else set_or_empty (lookup u users))
set-erase u v users = ground (arith, lookup-erase v u users)

-- A token of another id stays listed when a set gets or loses an id.
insert-IsListed :
    (id tid u v : String) (users : Dict IdSet)
    → IsListed id u users
    → IsListed id u (insert v (insert tid tt (set_or_empty (lookup v users))) users)
insert-IsListed id tid u v users l = ground (
  arith,
  l,
  set-insert u v (insert tid tt (set_or_empty (lookup v users))) users,
  lookup-insert tid id tt (set_or_empty (lookup v users)),
  eq_iff v u,
  eq_iff tid id,
)

insert_self-IsListed :
    (id tid u : String) (ids : IdSet) (users : Dict IdSet)
    → (tid == id) ≡ true
    → IsListed id u (insert u (insert tid tt ids) users)
insert_self-IsListed id tid u ids users t =
    ground (
      arith,
      t,
      set-insert u u (insert tid tt ids) users,
      lookup-insert tid id tt ids,
      str_eq_refl u,
    )

lookup-insert_if :
    (tid id : String) (e : RefreshTokenEntry) (tokens : Dict RefreshTokenEntry)
    → (tid == id) ≡ true
    → lookup id (insert tid e tokens) ≡ some e
lookup-insert_if tid id e tokens t = ground (arith, t, lookup-insert tid id e tokens)

some_injective {ℓ} : {A : Type ℓ} {x y : A} → some x ≡ some y → x ≡ y
some_injective e = cc e

store-IsIndexed : (e : RefreshTokenEntry) (s : RefreshStore) → IsIndexed s → IsIndexed (store e s)
unfolding store
store-IsIndexed e s h id e' l = elim (Bool-cases (e.token_id == id)) [
  | inl t ↦
      subst (λ (d : RefreshTokenEntry). IsListed id d.user_id (store e s).users)
        (some_injective (sym (lookup-insert_if e.token_id id e s.tokens t) ∙ l))
        (insert_self-IsListed id e.token_id e.user_id (set_or_empty (lookup e.user_id s.users))
          s.users t)
  | inr f ↦
      insert-IsListed id e.token_id e'.user_id e.user_id s.users
        (h id e' (ground (arith, l, f, lookup-insert e.token_id id e s.tokens)))
]

-- A token of another id stays listed when an id leaves a set.
drop_id-IsListed :
    (id tid u v : String) (users : Dict IdSet) (set : Option IdSet)
    → lookup v users ≡ set
    → (tid == id) ≡ false
    → IsListed id u users
    → IsListed id u (drop_id tid v users set)
unfolding drop_id
drop_id-IsListed id tid u v users none e f l = l
drop_id-IsListed id tid u v users (some ids) e f l =
    ground
      (arith, e, f, l, set-insert u v (erase tid ids) users, lookup-erase tid id ids, eq_iff v u)

revoke_entry-IsIndexed :
    (tid : String) (found : Option RefreshTokenEntry) (s : RefreshStore)
    → IsIndexed s
    → IsIndexed (revoke_entry tid found s)
unfolding revoke_entry
revoke_entry-IsIndexed tid none s h id e l = h id e l
revoke_entry-IsIndexed tid (some x) s h id e l =
    let f : (tid == id) ≡ false = ground (arith, l, lookup-erase tid id s.tokens) in
    drop_id-IsListed id tid e.user_id x.user_id s.users (lookup x.user_id s.users) refl f
      (h id e (ground (arith, l, f, lookup-erase tid id s.tokens)))

pub lookup-erase_all :
    (ids : IdSet) (tokens : Dict RefreshTokenEntry) (id : String) (e : RefreshTokenEntry)
    → lookup id (erase_all ids tokens) ≡ some e
    → (lookup id tokens ≡ some e) × (lookup id ids ≡ none)
unfolding erase_all lookup
lookup-erase_all [] tokens id e l = (l, refl)
lookup-erase_all ((tid, u) ∷ ids) tokens id e l =
    let (m, n) = lookup-erase_all ids (erase tid tokens) id e l in
    ground (arith, m, n, lookup-erase tid id tokens)

-- No token of the user is left.
abbrev pub HasNone : String → RefreshStore → Type 0
HasNone user s =
    (id : String) (e : RefreshTokenEntry) → lookup id s.tokens ≡ some e → e.user_id ≢ user

pub revoke_set-HasNone :
    (user : String) (set : Option IdSet) (s : RefreshStore)
    → lookup user s.users ≡ set
    → IsIndexed s
    → HasNone user (revoke_set user set s)
unfolding revoke_set lookup
revoke_set-HasNone user none s e h id x l u = ground (arith, e, h id x l, u)
revoke_set-HasNone user (some ids) s e h id x l u =
    let (m, n) = lookup-erase_all ids s.tokens id x l in ground (arith, e, n, h id x m, u)

revoke_set-IsIndexed :
    (user : String) (set : Option IdSet) (s : RefreshStore)
    → lookup user s.users ≡ set
    → IsIndexed s
    → IsIndexed (revoke_set user set s)
unfolding revoke_set lookup
revoke_set-IsIndexed user none s e h id x l = h id x l
revoke_set-IsIndexed user (some ids) s e h id x l =
    let (m, n) = lookup-erase_all ids s.tokens id x l in
    ground (arith, e, n, h id x m, set-erase x.user_id user s.users, eq_iff user x.user_id)

cleanup_entry-IsIndexed :
    (now : ℕ) (tid : String) (found : Option RefreshTokenEntry) (s : RefreshStore)
    → IsIndexed s
    → IsIndexed (cleanup_entry now tid found s)
unfolding cleanup_entry
cleanup_entry-IsIndexed now tid none s h = h
cleanup_entry-IsIndexed now tid (some x) s h =
    if_cases IsIndexed (ltb x.expires_at now) _ _ (λ _. revoke_entry-IsIndexed tid (some x) s h)
      (λ _. h)

cleanup_ids-IsIndexed :
    (now : ℕ) (ids : Dict RefreshTokenEntry) (s : RefreshStore)
    → IsIndexed s
    → IsIndexed (cleanup_ids now ids s)
unfolding cleanup_ids
cleanup_ids-IsIndexed now [] s h = h
cleanup_ids-IsIndexed now ((tid, x) ∷ ids) s h =
    cleanup_ids-IsIndexed now ids (cleanup_entry now tid (lookup tid s.tokens) s)
      (cleanup_entry-IsIndexed now tid (lookup tid s.tokens) s h)

apply-IsIndexed : (op : Op) (s : RefreshStore) → IsIndexed s → IsIndexed (apply op s)
unfolding apply revoke_refresh revoke_all_for_user cleanup_refresh
apply-IsIndexed (stores e) s h = store-IsIndexed e s h
apply-IsIndexed (revokes tid) s h = revoke_entry-IsIndexed tid (lookup tid s.tokens) s h
apply-IsIndexed (revokes_all user) s h = revoke_set-IsIndexed user (lookup user s.users) s refl h
apply-IsIndexed (cleans_at now) s h = cleanup_ids-IsIndexed now s.tokens s h

pub run-IsIndexed : (ops : List Op) (s : RefreshStore) → IsIndexed s → IsIndexed (run ops s)
unfolding run
run-IsIndexed [] s h = h
run-IsIndexed (op ∷ ops) s h = run-IsIndexed ops (apply op s) (apply-IsIndexed op s h)

-- ===== src/Confirm.antt =====
-- internal/confirm/store.go. Times and durations are numbers of one unit, and each reading of the
-- clock is an argument. The map holds pointers, and each operation changes a request in place: here
-- it stores the changed request at its key. The request that a call returns is the stored one.
mod Life
mod Cleanup
mod Tests
use deploypilot.Base.{
  ℕ, ◌+◌, Bool, true, false, not, ◌&&◌, ◌||◌, Option, none, some, List, [], ◌∷◌, String, Dict,
  lookup, insert, retain, values, length, keep_if, ltb, ◌==◌, string_tested, if◌then◌else◌, ◌-◌,
}

pub data Status : Type 0 where
  pending approved rejected expired executed : Status

abbrev pub is_pending : Status → Bool
is_pending pending = true
is_pending _ = false

abbrev pub same_status : Status → Status → Bool
same_status pending pending = true
same_status approved approved = true
same_status rejected rejected = true
same_status expired expired = true
same_status executed executed = true
same_status _ _ = false

pub record Request : Type 0 where
  pub id : String
  pub tool : String
  pub description : String
  pub params : Dict String
  pub status : Status
  pub created_at : ℕ
  pub expires_at : ℕ
  pub confirmed_at : Option ℕ
  pub confirmed_by : String
  pub result : String
  pub error : String

pub record Store : Type 0 where
  pub requests : Dict Request
  pub default_ttl : ℕ

-- `NewStore`, in seconds.
pub new_store : Store
new_store = record { requests = []; default_ttl = 300 }

-- `Create`. The id is `cfm-` and the clock in nanoseconds, given as a text: two calls at one reading
-- of the clock have one id.
pub create : Store → (ℕ → String) → String → String → Dict String → ℕ → Store × Request
create s id_at tool description params now =
    let req : Request = record {
      id = id_at now;
      tool = tool;
      description = description;
      params = params;
      status = pending;
      created_at = now;
      expires_at = now + s.default_ttl;
      confirmed_at = none;
      confirmed_by = "";
      result = "";
      error = "";
    } in
    (record s { requests = insert req.id req s.requests }, req)

put : Store → Request → String → Store
put s req id = record s { requests = insert id req s.requests }

-- The goroutine that `Create` leaves: what it does when it wakes.
pub auto_expire : Store → String → Store
unfolding put
auto_expire s id = elim (lookup id s.requests) [
  | none ↦ s
  | some r ↦ if is_pending r.status then put s (record r { status = expired }) id else s
]

pub data Error : Type 0 where
  not_found has_expired : Error
  not_pending : Status → Error

pub data Result : Type 0 where
  ok : Request → Result
  err : Error → Result

-- `Confirm`, with its two readings of the clock.
pub confirm : Store → String → String → ℕ → ℕ → Store × Result
unfolding put
confirm s id by now now' = elim (lookup id s.requests) [
  | none ↦ (s, err not_found)
  | some r ↦
      if not (is_pending r.status)
      then (s, err (not_pending r.status))
      else if ltb r.expires_at now
      then (put s (record r { status = expired }) id, err has_expired)
      else (let r' : Request = record r {
        status = approved;
        confirmed_at = some now';
        confirmed_by = by;
      } in
          (put s r' id, ok r'))
]

-- `Reject`
pub reject : Store → String → String → ℕ → Store × Result
unfolding put
reject s id by now = elim (lookup id s.requests) [
  | none ↦ (s, err not_found)
  | some r ↦
      if not (is_pending r.status)
      then (s, err (not_pending r.status))
      else (let r' : Request = record r {
        status = rejected;
        confirmed_at = some now;
        confirmed_by = by;
      } in
          (put s r' id, ok r'))
]

-- `Get`
pub get : Store → String → Option Request
get s id = lookup id s.requests

-- `List`; no filter is the empty one.
pub list_requests : Store → Option Status → List Request
list_requests s none = values s.requests
list_requests s (some st) = keep_if (λ r. same_status r.status st) (values s.requests)

-- `SetResult`
pub set_result : Store → String → String → String → Store
unfolding put
set_result s id result message = elim (lookup id s.requests) [
  | none ↦ s
  | some r ↦
      put s
        (if message == ""
          then record r { result = result; status = executed }
          else record r { error = message; status = executed })
        id
]

-- The requests that `Cleanup` keeps. `created.Before(now - age)` is `created + age < now`.
pub is_kept : ℕ → ℕ → Request → Bool
is_kept age now r = is_pending r.status || not (ltb (r.created_at + age) now)

-- `Cleanup`, and how many requests it deletes.
pub cleanup : Store → ℕ → ℕ → Store × ℕ
unfolding is_kept
cleanup s age now =
    let m = retain (is_kept age now) s.requests in
    (record s { requests = m }, length s.requests - length m)

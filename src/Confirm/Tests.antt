-- ===== src/Confirm/Tests.antt =====
-- Concrete runs of the confirmation store.
use deploypilot.Base.{
  ℕ, ◌+◌, ◌≤◌, ◌<◌, ◌≡◌, ◌↔◌, refl, true, false, Option, none, some, List, [], ◌∷◌, String, lookup,
  arith, inl,
}
use deploypilot.Confirm.{pending, rejected, Request, Store, new_store, create, ok, confirm, reject}
use deploypilot.Confirm.Life.{
  confirm_iff, run-StaysDecided, StaysDecided, run, confirms, expires, cleans, sets_result,
}

abbrev one_request : Store × Request
unfolding create new_store
one_request = create new_store (λ _. "cfm-10") "restart" "restart web" [] 10

confirm_iff_example :
    ((r : Request) × ((confirm one_request.0 "cfm-10" "admin" 310 311).1 ≡ ok r)) ↔ (
      (r : Request) × (lookup "cfm-10" one_request.0.requests ≡ some r)
      × (r.status ≡ pending)
      × (310 ≤ r.expires_at))
confirm_iff_example = confirm_iff one_request.0 "cfm-10" "admin" 310 311

abbrev refused : Store
unfolding reject
refused = (reject one_request.0 "cfm-10" "admin" 20).0

run-StaysDecided_example : StaysDecided rejected (
    lookup "cfm-10"
      (run refused (
        confirms "cfm-10" "operator" 21 22
        ∷ expires "cfm-10"
        ∷ sets_result "cfm-10" "done" ""
        ∷ cleans 5 12
        ∷ [])).requests)
unfolding reject lookup one_request deploypilot.Base.insert
run-StaysDecided_example =
    run-StaysDecided rejected refl "cfm-10" refused
      (confirms "cfm-10" "operator" 21 22
        ∷ expires "cfm-10"
        ∷ sets_result "cfm-10" "done" ""
        ∷ cleans 5 12
        ∷ [])
      (inl refl)

-- ===== src/Auth/OneUse.antt =====
-- internal/auth/ticket.go and state.go: a ticket is used once, a state too, and the store is bounded.
use deploypilot.Base.{
  ℕ, suc, ◌+◌, ◌≤◌, ◌≡◌, ◌≢◌, refl, Bool, true, false, not, ◌&&◌, Option, none, some, List, [], ◌∷◌,
  String, Dict, lookup, insert, erase, retain, lookup-insert, lookup-erase, lookup-retain,
  option_keep, str_eq_ne, subst, length, ltb, if◌then◌else◌, ◌==◌, string_tested, arith, Bool-cases,
  inl, inr,
}
use deploypilot.Auth.Ticket.{
  TicketEntry, TicketStore, new_ticket_store, generate_ticket, TicketResult, admitted,
  ticket_result, validate_ticket, cleanup_tickets,
}

-- A call of the store, with the id that `GenerateTicket` draws.
pub data Op : Type 0 where
  generates : String → String → String → ℕ → ℕ → Op
  validates : String → ℕ → Op
  cleans : ℕ → Op

abbrev is_admitted : TicketResult → Bool
is_admitted (admitted user role) = true
is_admitted _ = false

-- The store after a call, and whether the call admits the ticket.
pub apply : String → TicketStore → Op → TicketStore × Bool
apply ticket s (generates id user role expire now) =
    ((generate_ticket s id user role expire now).0, false)
apply ticket s (validates id now) =
    let (s', r) = validate_ticket s id now in (s', id == ticket && is_admitted r)
apply ticket s (cleans now) = (cleanup_tickets s now, false)

-- How often a ticket is admitted, and the store at the end.
pub admissions : String → TicketStore → List Op → ℕ
unfolding apply
admissions ticket s [] = 0
admissions ticket s (o ∷ os) =
    let (s', done) = apply ticket s o in
    let rest = admissions ticket s' os in if done then suc rest else rest

pub run : TicketStore → List Op → TicketStore
unfolding apply
run s [] = s
run s (o ∷ os) = run (apply "" s o).0 os

-- The UUID of a ticket is not drawn again.
abbrev pub NotDrawn : String → List Op → Type 0
NotDrawn ticket [] = Unit
NotDrawn ticket (generates id user role expire now ∷ os) = (id ≢ ticket) × NotDrawn ticket os
NotDrawn ticket (o ∷ os) = NotDrawn ticket os

abbrev present : Option TicketEntry → ℕ
present none = 0
present (some e) = 1

present-keep :
    (p : TicketEntry → Bool) (o : Option TicketEntry) → present (option_keep p o) ≤ present o
present-keep p none = omega arith
present-keep p (some e) = ground arith

present-result :
    (o : Option TicketEntry) (now : ℕ)
    → (if is_admitted (ticket_result o now) then 1 else 0) ≤ present o
unfolding ticket_result
present-result none now = omega arith
present-result (some e) now = ground arith

module _ (ticket : String) where
  generates-present :
      (s : TicketStore) (id user role : String) (expire now : ℕ)
      → id ≢ ticket
      → lookup ticket (generate_ticket s id user role expire now).0.tickets
        ≡ lookup ticket s.tickets
  unfolding generate_ticket
  generates-present s id user role expire now d =
      let e : TicketEntry = record {
        user_id = user;
        role = role;
        created_at = now;
        expires_at = now + expire;
      } in
      ground (arith, lookup-insert id ticket e s.tickets, str_eq_ne id ticket d)

  validates-present :
      (s : TicketStore) (id : String) (now : ℕ)
      → let (s', r) = validate_ticket s id now in
        (if id == ticket && is_admitted r then 1 else 0) + present (lookup ticket s'.tickets)
        ≤ present (lookup ticket s.tickets)
  unfolding validate_ticket
  validates-present s id now = elim (Bool-cases (id == ticket)) [
    | inl e ↦
        (let same = (string_tested.same_iff id ticket).0 e in
          let one =
            subst
              (λ j.
                (if is_admitted (ticket_result (lookup id s.tickets) now) then 1 else 0)
                ≤ present (lookup j s.tickets))
              same (present-result (lookup id s.tickets) now) in
          rw (lookup-erase id ticket s.tickets, e) (omega (arith, one)))
    | inr e ↦ rw (lookup-erase id ticket s.tickets, e) (omega arith)
  ]

  cleans-present :
      (s : TicketStore) (now : ℕ)
      → present (lookup ticket (cleanup_tickets s now).tickets) ≤ present (lookup ticket s.tickets)
  unfolding cleanup_tickets
  cleans-present s now =
      rw (lookup-retain (λ e. not (ltb e.expires_at now)) ticket s.tickets)
        (present-keep (λ e. not (ltb e.expires_at now)) (lookup ticket s.tickets))

  -- A ticket is admitted at most as often as it is there.
  admissions-present :
      (s : TicketStore) (os : List Op)
      → NotDrawn ticket os
      → admissions ticket s os ≤ present (lookup ticket s.tickets)
  unfolding admissions apply
  admissions-present s [] h = omega arith
  admissions-present s (generates id user role expire now ∷ os) h =
      let rest = admissions-present (generate_ticket s id user role expire now).0 os h.1 in
      rw (generates-present s id user role expire now h.0) at rest
  admissions-present s (validates id now ∷ os) h =
      let rest = admissions-present (validate_ticket s id now).0 os h in
      ground (arith, rest, validates-present s id now)
  admissions-present s (cleans now ∷ os) h =
      let rest = admissions-present (cleanup_tickets s now) os h in
      omega (arith, rest, cleans-present s now)

present-le : (o : Option TicketEntry) → present o ≤ 1
present-le none = omega arith
present-le (some e) = omega arith

-- A ticket is used at most once: whatever tickets are generated, validated and cleaned up in any
-- order, by any clients, the validations of one ticket that succeed are at most one, if no other
-- ticket draws its id.
pub admissions-le :
    (ticket : String) (s : TicketStore) (os : List Op)
    → NotDrawn ticket os
    → admissions ticket s os ≤ 1
admissions-le ticket s os h =
    omega (arith, admissions-present ticket s os h, present-le (lookup ticket s.tickets))

length-insert-le :
    (k : String) (e : TicketEntry) (m : Dict TicketEntry) → length (insert k e m) ≤ suc (length m)
unfolding insert
length-insert-le k e [] = omega arith
length-insert-le k e ((j, d) ∷ m) = ground (arith, length-insert-le k e m)

length-erase-le : (k : String) (m : Dict TicketEntry) → length (erase k m) ≤ length m
unfolding erase
length-erase-le k [] = omega arith
length-erase-le k ((j, d) ∷ m) = ground (arith, length-erase-le k m)

length-retain-le : (p : TicketEntry → Bool) (m : Dict TicketEntry) → length (retain p m) ≤ length m
unfolding retain
length-retain-le p [] = omega arith
length-retain-le p ((j, d) ∷ m) =
    ground (arith, length-retain-le p m, length-erase-le j (retain p m))

apply-bounded :
    (ticket : String) (s : TicketStore) (o : Op)
    → length s.tickets ≤ s.max_tickets
    → let s' = (apply ticket s o).0 in
      (s'.max_tickets ≡ s.max_tickets) × (length s'.tickets ≤ s.max_tickets)
unfolding apply generate_ticket validate_ticket cleanup_tickets
apply-bounded ticket s (generates id user role expire now) l =
    let e : TicketEntry = record {
      user_id = user;
      role = role;
      created_at = now;
      expires_at = now + expire;
    } in
    ground (arith, length-insert-le id e s.tickets)
apply-bounded ticket s (validates id now) l = (refl, omega (arith, length-erase-le id s.tickets))
apply-bounded ticket s (cleans now) l =
    (refl, omega (arith, length-retain-le (λ e. not (ltb e.expires_at now)) s.tickets))

run-bounded :
    (s : TicketStore) (os : List Op)
    → length s.tickets ≤ s.max_tickets
    → length (run s os).tickets ≤ s.max_tickets
unfolding run
run-bounded s [] l = l
run-bounded s (o ∷ os) l =
    let (e, b) = apply-bounded "" s o l in
    let rest = run-bounded (apply "" s o).0 os (omega (arith, e, b)) in omega (arith, e, rest)

-- Whatever happens to a new store, it never holds more than 10000 tickets.
pub run-new_ticket_store-le : (os : List Op) → length (run new_ticket_store os).tickets ≤ 10000
unfolding new_ticket_store
run-new_ticket_store-le os = run-bounded new_ticket_store os (omega arith)

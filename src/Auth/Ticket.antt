-- ===== src/Auth/Ticket.antt =====
-- internal/auth/ticket.go: the WebSocket tickets. `ValidateTicket` reads the clock after it has given
-- up the mutex, which the answer alone depends on.
use deploypilot.Base.{
  ℕ, ◌+◌, not, Option, none, some, [], String, Dict, lookup, insert, erase, retain, length, leb,
  ltb, if◌then◌else◌,
}

pub record TicketEntry : Type 0 where
  pub user_id : String
  pub role : String
  pub created_at : ℕ
  pub expires_at : ℕ

pub record TicketStore : Type 0 where
  pub tickets : Dict TicketEntry
  pub max_tickets : ℕ

-- `NewWSTicketStore`
unfoldable pub new_ticket_store : TicketStore
new_ticket_store = record { tickets = []; max_tickets = 10000 }

-- `GenerateTicket`; the id is the UUID that it draws, and the answer is none at capacity.
unfoldable pub generate_ticket :
    TicketStore → String → String → String → ℕ → ℕ → TicketStore × Option String
generate_ticket s id user_id role expire now =
    if leb s.max_tickets (length s.tickets) then (s, none) else (
      record s {
        tickets =
            insert id
              (record {
                user_id = user_id;
                role = role;
                created_at = now;
                expires_at = now + expire;
              })
              s.tickets;
      },
      some id,
    )

pub data TicketResult : Type 0 where
  admitted : String → String → TicketResult
  not_found has_expired : TicketResult

unfoldable pub ticket_result : Option TicketEntry → ℕ → TicketResult
ticket_result none now = not_found
ticket_result (some e) now = if ltb e.expires_at now then has_expired else admitted e.user_id e.role

-- `ValidateTicket`: it takes the ticket away whatever it answers.
unfoldable pub validate_ticket : TicketStore → String → ℕ → TicketStore × TicketResult
unfolding ticket_result
validate_ticket s ticket now =
    (record s { tickets = erase ticket s.tickets }, ticket_result (lookup ticket s.tickets) now)

-- `cleanup`
unfoldable pub cleanup_tickets : TicketStore → ℕ → TicketStore
cleanup_tickets s now = record s { tickets = retain (λ e. not (ltb e.expires_at now)) s.tickets }

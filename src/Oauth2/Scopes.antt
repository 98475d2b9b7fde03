-- ===== src/Oauth2/Scopes.antt =====
-- internal/service/oauth2_service.go: the scopes that clients, codes and tokens may have.
use Prim.Native.String.{◌++◌ as joined}
use deploypilot.Base.{
  ◌≡◌, subst, true, List, [], ◌∷◌, some, String, All, if_cases, arith, Bool-cases, keep_if, inl,
  inr, ◌==◌, string_tested,
}
use deploypilot.Oauth2.Store.{Client, Authorization, Token, Database, Json, ReadsBack, M}
use deploypilot.Oauth2.Clients.{validate_scopes, parse_scopes, intersect_scopes, has_text}
use deploypilot.Oauth2.Grants.{requested_scopes, or_defaults}
use deploypilot.Oauth2.Triples.{Triple}
use deploypilot.Oauth2.Runs.{Op, creates_client, updates_client}

module _ (R : String → String → Type 0) (j : Json) where
  -- The scopes in a column are ones that the client may have.
  abbrev pub MayHave : String → String → Type 0
  MayHave client text = All (R client) (parse_scopes j text)

  pub record IsGranted (db : Database) : Type 0 where
    pub clients : All (λ (r : Client). MayHave r.client_id r.scopes) db.clients
    pub authorizations : All (λ (a : Authorization). MayHave a.client_id a.scopes) db.authorizations
    pub tokens : All (λ (t : Token). MayHave t.client_id t.scopes) db.tokens

  -- What the call registers as scopes of clients, they may have.
  abbrev pub Registers : Op → Type 0
  Registers (creates_client c user name uris scopes grants) =
      (id : String) → c.first ≡ some id → All (R (joined "dp_" id)) (validate_scopes scopes)
  Registers (updates_client c id user u) =
      (text : String) → u.scopes ≡ some text → (client : String) → MayHave client text
  Registers _ = Unit

  abbrev pub Keeps : {A : Type 0} → M A → Type 0
  Keeps m = Triple IsGranted m (λ _ db. IsGranted db) IsGranted

  pub marshalled :
      ReadsBack j
      → (client : String) (xs : List String) → All (R client) xs
      → MayHave client (j.marshal xs)
  unfolding parse_scopes
  marshalled reads_back client xs h = rw (reads_back xs) h

pub has_text-All :
    (P : String → Type 0) (xs : List String) (s : String) → All P xs → has_text xs s ≡ true → P s
unfolding has_text
has_text-All P [] s h e = cc e
has_text-All P (x ∷ xs) s h e = elim (Bool-cases (x == s)) [
  | inl same ↦ subst P ((string_tested.same_iff x s).0 same) h.0
  | inr other ↦ has_text-All P xs s h.1 (ground (arith, e, other))
]

pub intersect_scopes-All :
    (P : String → Type 0) (xs ys : List String) → All P ys → All P (intersect_scopes xs ys)
unfolding intersect_scopes keep_if
intersect_scopes-All P [] ys h = tt
intersect_scopes-All P (x ∷ xs) ys h =
    if_cases (All P) (has_text ys x) _ _
      (λ e. (has_text-All P ys x h e, intersect_scopes-All P xs ys h))
      (λ _. intersect_scopes-All P xs ys h)

pub or_defaults-All :
    (P : String → Type 0) (xs ys : List String) → All P xs → All P ys → All P (or_defaults xs ys)
unfolding or_defaults
or_defaults-All P [] ys h k = k
or_defaults-All P (x ∷ xs) ys h k = h

pub requested_scopes-All :
    (P : String → Type 0) (xs ys : List String) → All P ys → All P (requested_scopes xs ys)
unfolding requested_scopes
requested_scopes-All P xs ys = intersect_scopes-All P (validate_scopes xs) ys

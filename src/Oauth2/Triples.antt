-- ===== src/Oauth2/Triples.antt =====
-- Hoare rules for the operations of Oauth2.Store: what holds of the database before one, and after it
-- as it ends well or fails.
use deploypilot.Base.{
  ◌≡◌, refl, inl, inr, if_cases, subst, Bool, true, false, List, [], ◌∷◌, Option, none, some, All,
  if◌then◌else◌, arith, Bool-cases, keep_if, String, ltb,
}
use deploypilot.Oauth2.Clients.{check_quota}
use deploypilot.Oauth2.Store.{
  Config, too_many_clients, Database, Call, Error, Result, done, failed, M, follow, ◌>>=◌, ◌>>◌,
  require, given, select, find_first, update_rows,
}

-- After a result: what holds of a value and the database, or of the database where it failed.
abbrev pub Outcome :
    {A : Type 0} → (A → Database → Type 0) → (Database → Type 0) → Database × Result A → Type 0
Outcome Q E (db, done a) = Q a db
Outcome Q E (db, failed e) = E db

pub record Triple {A : Type 0} (P : Database → Type 0) (m : M A) (Q : A → Database → Type 0)
    (E : Database → Type 0) : Type 0 where
  pub holds : (db : Database) → P db → Outcome Q E (m db)

module _ {B : Type 0} (R : B → Database → Type 0) (E : Database → Type 0) where
  follow_rule :
      {A : Type 0} (Q : A → Database → Type 0) (o : Database × Result A) (f : A → M B)
      → Outcome Q E o
      → ((a : A) → Triple (Q a) (f a) R E)
      → Outcome R E (follow o f)
  follow_rule Q (db, done a) f h k = (k a).holds db h
  follow_rule Q (db, failed e) f h k = h

module _ {B : Type 0} {P E : Database → Type 0} {R : B → Database → Type 0} where
  pub bind_rule :
      {A : Type 0} {Q : A → Database → Type 0} {m : M A} {f : A → M B}
      → Triple P m Q E
      → ((a : A) → Triple (Q a) (f a) R E)
      → Triple P (m >>= f) R E
  unfolding ◌>>=◌
  bind_rule {Q = Q} {m} {f} h k = record {
    holds = λ db p. follow_rule R E Q (m db) f (h.holds db p) k;
  }

  -- A test that must pass is known to have passed behind it.
  pub require_rule :
      (b : Bool) (e : Error) (k : M B)
      → ((db : Database) → P db → E db)
      → (b ≡ true → Triple P k R E)
      → Triple P (require b e >> k) R E
  unfolding ◌>>=◌ require
  require_rule true e k x h = record { holds = λ db p. (h refl).holds db p }
  require_rule false e k x h = record { holds = λ db p. x db p }

  pub given_rule :
      {A : Type 0} (o : Option A) (e : Error) (k : A → M B)
      → ((db : Database) → P db → E db)
      → ((a : A) → o ≡ some a → Triple P (k a) R E)
      → Triple P (given o e >>= k) R E
  unfolding ◌>>=◌ given
  given_rule none e k x h = record { holds = λ db p. x db p }
  given_rule (some a) e k x h = record { holds = λ db p. (h a refl).holds db p }

-- What the database shows of values alone stays known, whatever is done to the database next.
pub using_rule :
    {A : Type 0} {P : Database → Type 0} {m : M A} {Q : A → Database → Type 0}
    {E : Database → Type 0} (K : Type 0) (P' : Database → Type 0)
    → ((db : Database) → P db → K × P' db)
    → (K → Triple P' m Q E)
    → Triple P m Q E
using_rule K P' know h = record { holds = λ db p. (h (know db p).0).holds db (know db p).1 }

failing :
    {A : Type 0} (Q : A → Database → Type 0) (E E' : Database → Type 0) (o : Database × Result A)
    → ((db : Database) → E db → E' db)
    → Outcome Q E o
    → Outcome Q E' o
failing Q E E' (db, done a) k h = h
failing Q E E' (db, failed e) k h = k db h

-- What is known of a failure may be forgotten.
pub fail_rule :
    {A : Type 0} {P : Database → Type 0} {m : M A} {Q : A → Database → Type 0}
    {E' : Database → Type 0} (E : Database → Type 0)
    → ((db : Database) → E db → E' db)
    → Triple P m Q E
    → Triple P m Q E'
fail_rule {m = m} {Q} {E'} E k t = record { holds = λ db p. failing Q E E' (m db) k (t.holds db p) }

ending :
    {A : Type 0} (Q Q' : A → Database → Type 0) (E : Database → Type 0) (o : Database × Result A)
    → ((a : A) (db : Database) → Q a db → Q' a db)
    → Outcome Q E o
    → Outcome Q' E o
ending Q Q' E (db, done a) k h = k a db h
ending Q Q' E (db, failed e) k h = h

-- What is known of a success gives what is wanted of it.
pub done_rule :
    {A : Type 0} {P : Database → Type 0} {m : M A} {Q' : A → Database → Type 0}
    {E : Database → Type 0} (Q : A → Database → Type 0)
    → ((a : A) (db : Database) → Q a db → Q' a db)
    → Triple P m Q E
    → Triple P m Q' E
done_rule {m = m} {Q'} {E} Q k t = record { holds = λ db p. ending Q Q' E (m db) k (t.holds db p) }

pub require-Triple :
    (P : Database → Type 0) (b : Bool) (e : Error) → Triple P (require b e) (λ _. P) P
unfolding require
require-Triple P true e = record { holds = λ db p. p }
require-Triple P false e = record { holds = λ db p. p }

-- What an operation keeps whether it ends well or fails.
kept : {A : Type 0} (P : Database → Type 0) (o : Database × Result A) → Outcome (λ _. P) P o → P o.0
kept P (db, done a) h = h
kept P (db, failed e) h = h

pub kept_by :
    {A : Type 0} {P : Database → Type 0} {m : M A}
    → Triple P m (λ _. P) P
    → (db : Database) → P db
    → P (m db).0
kept_by {P = P} {m} t db p = kept P (m db) (t.holds db p)

-- A branch of an operation on the database.
pub if-Outcome :
    {A : Type 0} (Q : A → Database → Type 0) (E : Database → Type 0) (b : Bool)
    (x y : Database × Result A)
    → (b ≡ true → Outcome Q E x)
    → (b ≡ false → Outcome Q E y)
    → Outcome Q E (if b then x else y)
if-Outcome Q E = if_cases (Outcome Q E)

given_found :
    {A : Type 0} (P : Database → Type 0) (q : Database → Option A) (missing : Error)
    (now : Database)
    → Triple (λ db. P db × (now ≡ db)) (given (q now) missing) (λ a db. P db × (q db ≡ some a)) P
unfolding given
given_found {A} P q missing now = record { holds = λ db h. found db h (q now) refl }
  where
    found :
        (db : Database)
        → P db × (now ≡ db)
        → (o : Option A) → q now ≡ o
        → Outcome (λ a db. P db × (q db ≡ some a)) P (given o missing db)
    found db h none e = h.0
    found db h (some a) e = (h.0, subst (λ d. q d ≡ some a) h.1 e)

pub select-Triple :
    {A : Type 0} (P : Database → Type 0) (c : Call) (table : Database → List A) (p : A → Bool)
    (missing : Error)
    → Triple P (select c table p missing) (λ a db. P db × (find_first p (table db) ≡ some a)) P
unfolding select
select-Triple P c table p missing =
    require_rule _ _ _ (λ db h. h)
      (λ _.
        bind_rule {Q = λ a db. P db × (a ≡ db)} (record { holds = λ db h. (h, refl) })
          (λ snapshot. given_found P (λ db. find_first p (table db)) missing snapshot))

pub find_first-holds :
    {A : Type 0} (p : A → Bool) (xs : List A) (a : A) → find_first p xs ≡ some a → p a ≡ true
unfolding find_first
find_first-holds p [] a h = cc h
find_first-holds p (x ∷ xs) a h = elim (Bool-cases (p x)) [
  | inl e ↦ ground (arith, h, e)
  | inr e ↦ find_first-holds p xs a (ground (arith, h, e))
]

module _ {A : Type 0} (P : A → Type 0) where
  pub find_first-All :
      (p : A → Bool) (xs : List A) (a : A) → find_first p xs ≡ some a → All P xs → P a
  unfolding find_first
  find_first-All p [] a h all = cc h
  find_first-All p (x ∷ xs) a h all = elim (Bool-cases (p x)) [
    | inl e ↦ subst P (ground (arith, h, e)) (all.0)
    | inr e ↦ find_first-All p xs a (ground (arith, h, e)) (all.1)
  ]

  pub update_rows-All :
      (p : A → Bool) (f : A → A) (xs : List A)
      → ((a : A) → P a → P (f a))
      → All P xs
      → All P (update_rows p f xs)
  unfolding update_rows
  update_rows-All p f [] k all = tt
  update_rows-All p f (x ∷ xs) k all =
      (if_cases P (p x) (f x) x (λ _. k x all.0) (λ _. all.0), update_rows-All p f xs k all.1)

  pub keep_if-All : (p : A → Bool) (xs : List A) → All P xs → All P (keep_if p xs)
  unfolding keep_if
  keep_if-All p [] all = tt
  keep_if-All p (x ∷ xs) all =
      if_cases (All P) (p x) _ _ (λ _. (all.0, keep_if-All p xs all.1))
        (λ _. keep_if-All p xs all.1)

pub check_quota-Triple :
    (P : Database → Type 0) (cfg : Config) (c : Call) (user : String)
    → Triple P (check_quota cfg c user) (λ _. P) P
unfolding check_quota
check_quota-Triple P cfg c user = record {
  holds = λ db p.
      if-Outcome (λ _. P) P (ltb 0 cfg.max_clients_per_user) _ _
        (λ _.
          (require_rule {R = λ _. P} _ _ _ (λ db p. p)
              λ _. require-Triple P _ too_many_clients).holds
            db p)
        (λ _. p);
}

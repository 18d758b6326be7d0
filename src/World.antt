-- ===== src/World.antt =====
-- The state that the webhook and the worker change: the database, with what was sent to GitHub.
use revix.Prelude.{Text, List, ◌++◌, ◌≡◌, refl}
use revix.Effects.{Result, ok, raised, Exception}
use revix.Schema.{Db}
use revix.Github.Checks.{CheckUpdate}
use revix.Github.Reviews.{Payload}

-- the POSTs and the PATCH, whatever became of them
pub data Sent : Type 0 where
  started : Text → Sent
  updated : CheckUpdate → Sent
  posted : Payload → Sent

pub record World : Type 0 where
  pub db : Db
  pub sent : List Sent

abbrev pub M : Type 0 → Type 0
M A = World → Result A × World

abbrev pub lift : {A : Type 0} → Result A → M A
lift r w = (r, w)

abbrev pub continue : {A B : Type 0} → Result A → (A → M B) → M B
continue (ok a) f w = f a w
continue (raised e) f w = (raised e, w)

infixl 5 ◌>>=◌ ◌>>◌
abbrev pub ◌>>=◌ : {A B : Type 0} → M A → (A → M B) → M B
◌>>=◌ m f w = let (r, w') = m w in continue r f w'

abbrev pub ◌>>◌ : {B : Type 0} → M (Unit {0}) → M B → M B
m >> n = m >>= λ _. n

abbrev pub on_db : {A : Type 0} → (Db → Result A × Db) → M A
on_db f w = let (r, db) = f w.db in (r, record w { db = db })

abbrev pub log : List Sent → World → World
log s w = record w { sent = w.sent ++ s }

-- `P` of what follows, with the result that it follows
pub continue_ind :
    {A B : Type 0} (P : Result B × World → Type 0) (r : Result A) (f : A → M B) (w : World)
    → ((e : Exception) → P (raised e, w))
    → ((a : A) → r ≡ ok a → P (f a w))
    → P (continue r f w)
continue_ind P (ok a) f w fail go = go a refl
continue_ind P (raised e) f w fail go = fail e

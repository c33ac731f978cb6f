-- ===== src/Store/Sqlite/Errors.antt =====
-- A store that is not open, or whose database fails, answers no question about a delivery.
use telecloud_subscription_r.Base.{
  String, ◌≡◌, refl, Bool, true, false, Option, none, some, Exec, Result, return, raise,
  state_store_error, ◌⊎◌, inl, inr,
}
use telecloud_subscription_r.Store.Database.{Database, sent_in}
use telecloud_subscription_r.Store.Sqlite.{
  SqliteStateStore, statements, on_connection, already_sent,
}

-- what a method must do where the database cannot be used
abbrev pub Fails : {A : Type 0} → Exec SqliteStateStore A → SqliteStateStore → Type 0
Fails m s = (message : String) × (m s ≡ (raise (state_store_error message), s))

-- no connection, or one on which every statement raises
abbrev pub IsUnusable : SqliteStateStore → Type 0
IsUnusable s = (s.connection ≡ none) ⊎ (s.broken ≡ true)

statements_unusable :
    {A : Type 0} (what : String) (f : Database → Result A × Database) (connection : Option Database)
    (broken : Bool)
    → (connection ≡ none) ⊎ (broken ≡ true)
    → Fails (statements what f) (record { connection = connection; broken = broken })
unfolding statements on_connection
statements_unusable what f none b h = (_, refl)
statements_unusable what f (some db) true h = (_, refl)
statements_unusable what f (some db) false (inl h) = cc
statements_unusable what f (some db) false (inr h) = cc

pub already_sent-Fails :
    (s : SqliteStateStore)
    → IsUnusable s
    → (scope dedup_key : String) → Fails (already_sent scope dedup_key) s
unfolding already_sent
already_sent-Fails s h scope dedup_key =
    statements_unusable "dedup lookup failed" (λ db. (return (sent_in scope dedup_key db), db))
      s.connection s.broken h

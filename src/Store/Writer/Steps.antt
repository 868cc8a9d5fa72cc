-- ===== src/Store/Writer/Steps.antt =====
-- What it means that a step of the writer has returned.
use whyrun.Common.Actions.{>>=-eq-ok}
use whyrun.Common.{◌≡◌, refl, ap, ◌∙◌, true, ◌∷◌, Result, err, ok, Bool-cases, inl, inr, arith}
use whyrun.Event.{Event}
use whyrun.Store.Sqlite.{Sqlite, IsLawful, Script}
use whyrun.Store.Tables.{Tables, Statement, Sql, effect, changed, insert_event, into_events}
use whyrun.Store.Writer.{
  execute_script, execute_bound, execute_statement, emit, emit_details, event_row, bind_values,
}

module _ (db : Sqlite) where
  pub execute_script-ok :
      (script : Script) (c : db.Connection) {d : db.Connection}
      → execute_script db script c ≡ (ok tt, d)
      → ((db.exec script c).0 ≡ true) × (d ≡ (db.exec script c).1)
  unfolding execute_script
  execute_script-ok script c returns = ground arith

  execute_bound-ok :
      (s : Statement) (c : db.Connection) {d : db.Connection}
      → execute_bound db s c ≡ (ok tt, d)
      → ((db.step s c).0 ≡ true) × (d ≡ (db.step s c).1)
  unfolding execute_bound
  execute_bound-ok s c returns = ground arith

  bind_values-ok :
      (values : Result Statement) (c : db.Connection) {d : db.Connection}
      → bind_values db values c ≡ (ok tt, d)
      → (s : Statement) × (values ≡ ok s) × ((db.step s c).0 ≡ true) × (d ≡ (db.step s c).1)
  bind_values-ok (err e) c returns = cc
  bind_values-ok (ok s) c returns =
      let (done, after) = execute_bound-ok s c returns in (s, refl, done, after)

  pub execute_statement-ok :
      (sql : Sql) (values : Result Statement) (c : db.Connection) {d : db.Connection}
      → execute_statement db sql values c ≡ (ok tt, d)
      → (s : Statement) × (values ≡ ok s) × ((db.step s c).0 ≡ true) × (d ≡ (db.step s c).1)
  unfolding execute_statement
  execute_statement-ok sql values c returns = elim (Bool-cases (db.prepares sql c)) [
    | inl prepared ↦ bind_values-ok values c (rw prepared at returns)
    | inr failed ↦ absurd (ground (arith, failed))
  ]

  -- A statement that has been executed has changed the tables as it says.
  pub execute_statement-changed :
      IsLawful db
      → (sql : Sql) (s : Statement) (c : db.Connection) {d : db.Connection} (t : Tables)
      → execute_statement db sql (ok s) c ≡ (ok tt, d)
      → effect s (db.tables c) ≡ changed t
      → db.tables d ≡ t
  execute_statement-changed lawful sql s c t returns says =
      let (s', same, done, after) = execute_statement-ok sql (ok s) c returns in
      let is_s : s' ≡ s = cc in ap db.tables after ∙ lawful.changes s' c t (rw is_s says) done

  -- `emit` has added the row of the event, and has done what its type asks for.
  pub emit-ok :
      IsLawful db
      → (event : Event) (c : db.Connection) {d : db.Connection} → emit db event c ≡ (ok tt, d)
      → (u : db.Connection) × (db.tables u
          ≡ record (db.tables c) { events = event_row event ∷ (db.tables c).events })
        × (emit_details db event.type event u ≡ (ok tt, d))
  unfolding emit effect
  emit-ok lawful event c returns =
      let (_, u, first, rest) =
        >>=-eq-ok (execute_statement db into_events (ok (insert_event (event_row event))))
          (λ _. emit_details db event.type event) returns in
      (
        u,
        execute_statement-changed lawful into_events (insert_event (event_row event)) c
            (record (db.tables c) { events = event_row event ∷ (db.tables c).events }) first refl,
        rest,
      )

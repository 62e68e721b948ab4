-- ===== src/Learner/Replays.antt =====
-- An observation is stored once.
use lingxi_learn.Prelude.{
  ℕ, ◌+◌, String, ◌≡◌, refl, sym, ap, Bool, true, Option, none, some, List, [], ◌∷◌, ◌++◌, arith,
  ==-self,
}
use lingxi_learn.Prelude.Tables.{find?, find?-append_none}
use lingxi_learn.Learner.{
  EvidenceRecord, EvidenceRow, to_row, is_row, place, place_next, append_from, append_evidence,
}

module _ {F : Type 0} where
  abbrev row_of : String → String → List (EvidenceRow F) → Option (EvidenceRow F)
  row_of task_id id rows = find? (is_row task_id id) rows

  find?-append_some :
      (test : EvidenceRow F → Bool) (rows more : List (EvidenceRow F)) (r : EvidenceRow F)
      → find? test rows ≡ some r
      → find? test (rows ++ more) ≡ some r
  unfolding find?
  find?-append_some test [] more r h = ground arith
  find?-append_some test (s ∷ rows) more r h =
      let rest = find?-append_some test rows more r in ground arith

  place-kept :
      (evidence_id : EvidenceRecord F → String) (e : EvidenceRecord F) (next : List (String × ℕ))
      (rows : List (EvidenceRow F)) (last : ℕ) (found : Option (EvidenceRow F))
      (test : EvidenceRow F → Bool) (r : EvidenceRow F)
      → find? test rows ≡ some r
      → find? test (place evidence_id e next rows last found).rows ≡ some r
  unfolding place
  place-kept evidence_id e next rows last (some existing) test r h = h
  place-kept evidence_id e next rows last none test r h = find?-append_some test rows _ r h

  append_from-kept :
      (evidence_id : EvidenceRecord F → String) (es : List (EvidenceRecord F))
      (next : List (String × ℕ)) (rows : List (EvidenceRow F)) (test : EvidenceRow F → Bool)
      (r : EvidenceRow F)
      → find? test rows ≡ some r
      → find? test (append_from evidence_id es next rows).0 ≡ some r
  unfolding append_from place_next
  append_from-kept evidence_id [] next rows test r h = h
  append_from-kept evidence_id (e ∷ es) next rows test r h =
      append_from-kept evidence_id es _ _ test r (place-kept evidence_id e next rows _ _ test r h)

  place-row :
      (evidence_id : EvidenceRecord F → String) (e : EvidenceRecord F) (next : List (String × ℕ))
      (rows : List (EvidenceRow F)) (last : ℕ) (found : Option (EvidenceRow F))
      → row_of e.task_id (evidence_id e) rows ≡ found
      → let placed = place evidence_id e next rows last found in
        row_of e.task_id (evidence_id e) placed.rows ≡ some placed.row
  unfolding place to_row find?
  place-row evidence_id e next rows last (some existing) h = h
  place-row evidence_id e next rows last none h =
      let row = to_row evidence_id (last + 1) e in
      let task = ==-self e.task_id in
      let id = ==-self (evidence_id e) in
      let own : is_row e.task_id (evidence_id e) row ≡ true = rw task (rw id refl) in
      find?-append_none (is_row e.task_id (evidence_id e)) rows row h own

  -- the rows that are stored for the records, one for each
  unfoldable pub AreStored :
      (EvidenceRecord F → String)
      → List (EvidenceRecord F)
      → List (EvidenceRow F)
      → List (EvidenceRow F)
      → Type 0
  AreStored evidence_id [] answers rows = answers ≡ []
  AreStored evidence_id (e ∷ es) [] rows = some e ≡ none
  AreStored evidence_id (e ∷ es) (a ∷ answers) rows =
      (find? (is_row e.task_id (evidence_id e)) rows ≡ some a)
      × AreStored evidence_id es answers rows

  append_from-AreStored :
      (evidence_id : EvidenceRecord F → String) (es : List (EvidenceRecord F))
      (next : List (String × ℕ)) (rows : List (EvidenceRow F))
      → let done = append_from evidence_id es next rows in AreStored evidence_id es done.1 done.0
  unfolding append_from place_next AreStored
  append_from-AreStored evidence_id [] next rows = refl
  append_from-AreStored evidence_id (e ∷ es) next rows =
      let placed = place_next evidence_id e next rows in
      (
        append_from-kept evidence_id es placed.next placed.rows (is_row e.task_id (evidence_id e))
            placed.row (place-row evidence_id e next rows _ _ refl),
        append_from-AreStored evidence_id es placed.next placed.rows,
      )

  stored-append :
      (evidence_id : EvidenceRecord F → String) (es : List (EvidenceRecord F))
      (answers rows : List (EvidenceRow F)) (next : List (String × ℕ))
      → AreStored evidence_id es answers rows
      → append_from evidence_id es next rows ≡ (rows, answers)
  unfolding append_from place_next place AreStored
  stored-append evidence_id [] answers rows next h = ap (λ xs. (rows, xs)) (sym h)
  stored-append evidence_id (e ∷ es) [] rows next h = ground arith
  stored-append evidence_id (e ∷ es) (a ∷ answers) rows next (here, h) =
      rw here (rw (stored-append evidence_id es answers rows _ h) refl)

  stored-kept :
      (evidence_id : EvidenceRecord F → String) (es others : List (EvidenceRecord F))
      (answers rows : List (EvidenceRow F))
      → AreStored evidence_id es answers rows
      → AreStored evidence_id es answers (append_from evidence_id others [] rows).0
  unfolding AreStored
  stored-kept evidence_id [] others answers rows h = h
  stored-kept evidence_id (e ∷ es) others [] rows h = h
  stored-kept evidence_id (e ∷ es) others (a ∷ answers) rows (here, h) = (
    append_from-kept evidence_id others [] rows (is_row e.task_id (evidence_id e)) a here,
    stored-kept evidence_id es others answers rows h,
  )

  -- Appending a batch of observations answers, for each of them in order, the row that the log has for
  -- it; appending the batch again later, after any other batch, changes no row and gives that answer.
  pub append_evidence-again :
      (evidence_id : EvidenceRecord F → String) (es others : List (EvidenceRecord F))
      (rows : List (EvidenceRow F))
      → let first = append_evidence evidence_id es rows in
        let later = append_evidence evidence_id others first.0 in
        AreStored evidence_id es first.1 first.0
        × (append_evidence evidence_id es later.0 ≡ (later.0, first.1))
  unfolding append_evidence
  append_evidence-again evidence_id es others rows =
      let stored = append_from-AreStored evidence_id es [] rows in
      (stored, stored-append evidence_id es _ _ [] (stored-kept evidence_id es others _ _ stored))

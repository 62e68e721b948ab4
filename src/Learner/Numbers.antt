-- ===== src/Learner/Numbers.antt =====
-- The numbers of a learner's observations.
use lingxi_learn.Prelude.{
  ℕ, ◌+◌, ◌≤◌, String, ◌≡◌, refl, sym, ap, true, false, Option, none, some, List, [], ◌∷◌, ◌++◌,
  ◌==◌, if◌then◌else◌, arith, eq_iff, Bool-cases, inl, inr,
}
use mathlib.Core.Path.{subst}
use lingxi_learn.Prelude.Tables.{length}
use lingxi_learn.Learner.{
  EvidenceRecord, EvidenceRow, to_row, highest, next_of, last_or, place, place_next, append_from,
  append_evidence,
}

-- the numbers are `n`, `n + 1` and so on, and `m` is the next one
unfoldable pub IsRun : ℕ → ℕ → List ℕ → Type 0
IsRun n m [] = n ≡ m
IsRun n m (x ∷ xs) = (x ≡ n) × IsRun (n + 1) m xs

IsRun-append : (n m : ℕ) (xs : List ℕ) → IsRun n m xs → IsRun n (m + 1) (xs ++ m ∷ [])
unfolding IsRun
IsRun-append n m [] h = (sym h, ap (λ k. k + 1) h)
IsRun-append n m (x ∷ xs) (here, h) = (here, IsRun-append (n + 1) m xs h)

IsRun-length : (n m : ℕ) (xs : List ℕ) → IsRun n m xs → n + length xs ≡ m
unfolding IsRun
IsRun-length n m [] h = ground arith
IsRun-length n m (x ∷ xs) (here, h) = let rest = IsRun-length (n + 1) m xs h in ground arith

module _ {F : Type 0} where
  -- the numbers of a learner's rows, the oldest first
  unfoldable pub numbers : String → List (EvidenceRow F) → List ℕ
  numbers learner [] = []
  numbers learner (r ∷ rs) =
      if r.learner_id == learner then r.seq ∷ numbers learner rs else numbers learner rs

  numbers-append_own :
      (learner : String) (rows : List (EvidenceRow F)) (r : EvidenceRow F)
      → (r.learner_id == learner) ≡ true
      → numbers learner (rows ++ r ∷ []) ≡ numbers learner rows ++ r.seq ∷ []
  unfolding numbers
  numbers-append_own learner [] r h = rw h refl
  numbers-append_own learner (s ∷ rows) r h =
      let rest = numbers-append_own learner rows r h in ground arith

  numbers-append_other :
      (learner : String) (rows : List (EvidenceRow F)) (r : EvidenceRow F)
      → (r.learner_id == learner) ≡ false
      → numbers learner (rows ++ r ∷ []) ≡ numbers learner rows
  unfolding numbers
  numbers-append_other learner [] r h = rw h refl
  numbers-append_other learner (s ∷ rows) r h =
      let rest = numbers-append_other learner rows r h in ground arith

  highest-append_own :
      (learner : String) (rows : List (EvidenceRow F)) (r : EvidenceRow F)
      → (r.learner_id == learner) ≡ true
      → highest learner rows ≤ r.seq
      → highest learner (rows ++ r ∷ []) ≡ r.seq
  unfolding highest
  highest-append_own learner [] r h k = ground arith
  highest-append_own learner (s ∷ rows) r h k =
      let rest : highest learner rows ≤ r.seq → highest learner (rows ++ r ∷ []) ≡ r.seq =
        highest-append_own learner rows r h in
      ground arith

  highest-append_other :
      (learner : String) (rows : List (EvidenceRow F)) (r : EvidenceRow F)
      → (r.learner_id == learner) ≡ false
      → highest learner (rows ++ r ∷ []) ≡ highest learner rows
  unfolding highest
  highest-append_other learner [] r h = rw h refl
  highest-append_other learner (s ∷ rows) r h =
      let rest = highest-append_other learner rows r h in ground arith

  -- A learner's numbers are 1, 2 and so on, and the highest is the last.
  abbrev IsNumbered : String → List (EvidenceRow F) → Type 0
  IsNumbered learner rows = IsRun 1 (highest learner rows + 1) (numbers learner rows)

  -- what the batch remembers of a learner is the learner's highest number
  abbrev IsKnown : String → List (String × ℕ) → List (EvidenceRow F) → Type 0
  IsKnown learner next rows =
      last_or (next_of learner next) (highest learner rows) ≡ highest learner rows

  append-IsNumbered :
      (learner : String) (rows : List (EvidenceRow F)) (r : EvidenceRow F)
      → r.seq ≡ highest r.learner_id rows + 1
      → IsNumbered learner rows
      → IsNumbered learner (rows ++ r ∷ [])
  append-IsNumbered learner rows r next h = elim (Bool-cases (r.learner_id == learner)) [
    | inl own ↦
        let same : r.learner_id ≡ learner = (eq_iff _ _).0 own in
        let is_next : r.seq ≡ highest learner rows + 1 =
          subst (λ l. r.seq ≡ highest l rows + 1) same next in
        rw (numbers-append_own learner rows r own) (
          rw (highest-append_own learner rows r own (omega arith))
            (rw is_next (IsRun-append 1 (highest learner rows + 1) (numbers learner rows) h)))
    | inr other ↦
        rw (numbers-append_other learner rows r other)
          (rw (highest-append_other learner rows r other) h)
  ]

  place-IsNumbered :
      (evidence_id : EvidenceRecord F → String) (e : EvidenceRecord F) (next : List (String × ℕ))
      (rows : List (EvidenceRow F)) (last : ℕ) (found : Option (EvidenceRow F)) (learner : String)
      → last ≡ highest e.learner_id rows
      → IsNumbered learner rows
      → IsNumbered learner (place evidence_id e next rows last found).rows
  unfolding place to_row
  place-IsNumbered evidence_id e next rows last (some existing) learner k h = h
  place-IsNumbered evidence_id e next rows last none learner k h =
      append-IsNumbered learner rows _ (ap (λ n. n + 1) k) h

  place-IsKnown :
      (evidence_id : EvidenceRecord F → String) (e : EvidenceRecord F) (next : List (String × ℕ))
      (rows : List (EvidenceRow F)) (last : ℕ) (found : Option (EvidenceRow F)) (learner : String)
      → last ≡ highest e.learner_id rows
      → IsKnown learner next rows
      → let placed = place evidence_id e next rows last found in
        IsKnown learner placed.next placed.rows
  unfolding place to_row next_of
  place-IsKnown evidence_id e next rows last (some existing) learner k h =
      elim (Bool-cases (e.learner_id == learner)) [
        | inl own ↦
            let same : e.learner_id ≡ learner = (eq_iff _ _).0 own in
            rw own (rw k (ap (λ l. highest l rows) same))
        | inr other ↦ rw other h
      ]
  place-IsKnown evidence_id e next rows last none learner k h =
      let row = to_row evidence_id (last + 1) e in
      let above : highest e.learner_id rows ≤ row.seq = omega arith in
      elim (Bool-cases (e.learner_id == learner)) [
        | inl own ↦
            let same : e.learner_id ≡ learner = (eq_iff _ _).0 own in
            rw own (
              rw
                (highest-append_own learner rows row own
                  (subst (λ l. highest l rows ≤ row.seq) same above))
                refl)
        | inr other ↦ rw other (rw (highest-append_other learner rows row other) h)
      ]

  append_from-IsNumbered :
      (evidence_id : EvidenceRecord F → String) (es : List (EvidenceRecord F))
      (next : List (String × ℕ)) (rows : List (EvidenceRow F))
      → ((learner : String) → IsKnown learner next rows)
      → ((learner : String) → IsNumbered learner rows)
      → (learner : String) → IsNumbered learner (append_from evidence_id es next rows).0
  unfolding append_from place_next
  append_from-IsNumbered evidence_id [] next rows known h learner = h learner
  append_from-IsNumbered evidence_id (e ∷ es) next rows known h learner =
      append_from-IsNumbered evidence_id es _ _
        (λ l. place-IsKnown evidence_id e next rows _ _ l (known e.learner_id) (known l))
        (λ l. place-IsNumbered evidence_id e next rows _ _ l (known e.learner_id) (h l)) learner

  -- batches of observations, one after the other
  unfoldable pub append_batches :
      (EvidenceRecord F → String)
      → List (List (EvidenceRecord F))
      → List (EvidenceRow F)
      → List (EvidenceRow F)
  append_batches evidence_id [] rows = rows
  append_batches evidence_id (b ∷ bs) rows =
      append_batches evidence_id bs (append_evidence evidence_id b rows).0

  append_batches-IsNumbered :
      (evidence_id : EvidenceRecord F → String) (bs : List (List (EvidenceRecord F)))
      (rows : List (EvidenceRow F))
      → ((learner : String) → IsNumbered learner rows)
      → (learner : String) → IsNumbered learner (append_batches evidence_id bs rows)
  unfolding append_batches append_evidence next_of
  append_batches-IsNumbered evidence_id [] rows h learner = h learner
  append_batches-IsNumbered evidence_id (b ∷ bs) rows h learner =
      append_batches-IsNumbered evidence_id bs _
        (append_from-IsNumbered evidence_id b [] rows (λ l. refl) h) learner

  -- After any batches of observations of any learners, appended to an empty log, the numbers of each
  -- learner's rows in the order of their creation are 1, 2 and so on without a gap.
  pub append_batches-numbers :
      (evidence_id : EvidenceRecord F → String) (bs : List (List (EvidenceRecord F)))
      (learner : String)
      → let ns = numbers learner (append_batches evidence_id bs []) in IsRun 1 (1 + length ns) ns
  unfolding numbers highest IsRun
  append_batches-numbers evidence_id bs learner =
      let rows = append_batches evidence_id bs [] in
      let run = append_batches-IsNumbered evidence_id bs [] (λ l. refl) learner in
      let ends = IsRun-length 1 (highest learner rows + 1) (numbers learner rows) run in
      subst (λ m. IsRun 1 m (numbers learner rows)) (sym ends) run

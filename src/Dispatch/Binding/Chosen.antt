-- ===== src/Dispatch/Binding/Chosen.antt =====
-- The cheapest matching row is chosen, in the terms of the code's own tests.
use mathlib.Core.List.{Memᴰ}
use lingxi_learn.Prelude.{
  ◌≤◌, ◌⊎◌, String, ◌≡◌, ◌≢◌, refl, ap, true, false, ◌&&◌, not, List, [], ◌∷◌, ◌==◌, nat_beq,
  if◌then◌else◌, arith, eq_iff, Bool-cases, inl, inr,
}
use lingxi_learn.Prelude.Tables.{filter, length}
use lingxi_learn.Prelude.Order.{
  text_lt_asymm, text_lt_neg_trans, sort_by, sort_by-Memᴰ, sort_by-first, sort_by_nil, IsKeyOrder,
}
use lingxi_learn.Prelude.Members.{filter-Memᴰ, Memᴰ-filter}
use lingxi_learn.Dispatch.Binding.{
  SkillRow, CandidateKey, Binding, unbound, ambiguous, bound, Request, is_match, is_cheaper,
  resolution_of, choose, resolve,
}

is_cheaper-IsKeyOrder : IsKeyOrder is_cheaper
unfolding is_cheaper
is_cheaper-IsKeyOrder = record {
  asymm = λ a b h. ground (arith, text_lt_asymm a.skill_id b.skill_id);
  neg_trans = λ a b c h k. ground (arith, text_lt_neg_trans a.skill_id b.skill_id c.skill_id);
}

-- What the code's answers say in its own terms.
unfoldable pub IsChosen : (CandidateKey → String) → Request → List SkillRow → Binding → Type 0
IsChosen digest q skills unbound =
    (row : SkillRow) → Memᴰ row skills → is_match digest q row ≡ false
IsChosen digest q skills ambiguous =
    (q.selected_candidate_id ≢ "") × (2 ≤ length (filter (is_match digest q) skills))
IsChosen digest q skills (bound r) =
    (row : SkillRow) × Memᴰ row skills
    × (is_match digest q row ≡ true)
    × ((q.selected_candidate_id ≡ "") ⊎ (length (filter (is_match digest q) skills) ≡ 1))
    × (r ≡ resolution_of q row)
    × ((other : SkillRow)
        → Memᴰ other skills
        → is_match digest q other ≡ true
        → is_cheaper other row ≡ false)

-- If the filtered rows leave nothing, no row matches.
none_match :
    (digest : CandidateKey → String) (q : Request) (skills : List SkillRow)
    → ((row : SkillRow) → ¬ Memᴰ row (filter (is_match digest q) skills))
    → (row : SkillRow) → Memᴰ row skills
    → is_match digest q row ≡ false
none_match digest q skills nothing row m = elim (Bool-cases (is_match digest q row)) [
  | inl e ↦ absurd (nothing row (Memᴰ-filter (is_match digest q) row skills m e))
  | inr e ↦ e
]

choose-IsChosen :
    (digest : CandidateKey → String) (q : Request) (skills : List SkillRow) (s : List SkillRow)
    → sort_by is_cheaper (filter (is_match digest q) skills) ≡ s
    → (q.selected_candidate_id ≡ "") ⊎ (length (filter (is_match digest q) skills) ≡ 1)
    → IsChosen digest q skills (choose q s)
unfolding IsChosen
choose-IsChosen digest q skills [] e single =
    none_match digest q skills
      (λ row m. sort_by_nil is_cheaper row (filter (is_match digest q) skills) e m)
choose-IsChosen digest q skills (row ∷ rows) e single =
    let matches = filter (is_match digest q) skills in
    let sorted : Memᴰ row (sort_by is_cheaper matches) = rw e (Memᴰ.head refl) in
    let (stands, fits) =
      filter-Memᴰ (is_match digest q) row skills (sort_by-Memᴰ is_cheaper row matches sorted) in
    (
      row,
      stands,
      fits,
      single,
      refl,
      λ other m h.
          sort_by-first is_cheaper is_cheaper-IsKeyOrder row rows matches e other
            (Memᴰ-filter (is_match digest q) other skills m h),
    )

pub resolve-IsChosen :
    (digest : CandidateKey → String) (q : Request) (skills : List SkillRow)
    → IsChosen digest q skills (resolve digest q skills)
unfolding resolve IsChosen
resolve-IsChosen digest q skills = go (filter (is_match digest q) skills) refl
  where
    go :
        (m : List SkillRow)
        → filter (is_match digest q) skills ≡ m
        → IsChosen digest q skills (
            if nat_beq (length m) 0
            then unbound
            else if not (q.selected_candidate_id == "") && not (nat_beq (length m) 1)
            then ambiguous
            else choose q (sort_by is_cheaper m))
    go [] f = none_match digest q skills (λ row k. elim (rw f at k) [ ])
    go (x ∷ xs) f =
        let some_rows : nat_beq (length (x ∷ xs)) 0 ≡ false = ground arith in
        let many = not (q.selected_candidate_id == "") && not (nat_beq (length (x ∷ xs)) 1) in
        elim (Bool-cases many) [
          | inl e ↦
              rw (some_rows, e)
                (
                  (λ blank. ground (arith, e, eq_iff q.selected_candidate_id "")),
                  rw f (ground (arith, e)),
                )
          | inr e ↦
              rw (some_rows, e)
                (choose-IsChosen digest q skills (sort_by is_cheaper (x ∷ xs))
                  (ap (sort_by is_cheaper) f)
                  (rw f (ground (arith, e, eq_iff q.selected_candidate_id ""))))
        ]

-- ===== src/Dispatch/Binding/Best.antt =====
-- What a binding guarantees: the cheapest row that serves the request, and a refusal only where there
-- is no choice.
use mathlib.Core.List.{Memᴰ}
use mathlib.Core.Path.{subst}
use lingxi_learn.Prelude.{
  ℕ, ◌+◌, ◌≤◌, String, ◌≡◌, ◌≢◌, ◌⊎◌, sym, true, false, ◌||◌, List, [], ◌∷◌, ◌==◌, arith, eq_iff,
  Bool-cases, inl, inr,
}
use lingxi_learn.Prelude.Tables.{any, filter, length}
use lingxi_learn.Prelude.Order.{text_lt}
use lingxi_learn.Dispatch.Binding.{
  SkillRow, CandidateKey, Binding, unbound, ambiguous, bound, Request, candidate_id, is_available,
  is_match, is_cheaper, weight, resolution_of, resolve,
}
use lingxi_learn.Dispatch.Binding.Chosen.{IsChosen, resolve-IsChosen}

-- The row can serve the request.
pub record Serves (digest : CandidateKey → String) (q : Request) (row : SkillRow) : Type 0 where
  pub enabled : row.enabled ≡ true
  pub named : row.provider ≢ ""
  pub provides : Memᴰ q.capability row.capabilities
  pub available : is_available q.provider_available row.provider ≡ true
  pub selected :
      (q.selected_candidate_id ≡ "")
      ⊎ (candidate_id digest row q.capability q.knowledge_point_id ≡ q.selected_candidate_id)

any-Memᴰ : (c : String) (cs : List String) → any (λ x. x == c) cs ≡ true → Memᴰ c cs
unfolding any
any-Memᴰ c [] h = absurd (ground arith)
any-Memᴰ c (x ∷ xs) h = elim (Bool-cases (x == c)) [
  | inl e ↦ Memᴰ.head (sym ((eq_iff x c).0 e))
  | inr e ↦ Memᴰ.tail (any-Memᴰ c xs (rw e at h))
]

Memᴰ-any : (c : String) (cs : List String) → Memᴰ c cs → any (λ x. x == c) cs ≡ true
unfolding any
Memᴰ-any c [] m = elim m [ ]
Memᴰ-any c (x ∷ xs) (Memᴰ.head p) = ground (arith, (eq_iff x c).1 (sym p))
Memᴰ-any c (x ∷ xs) (Memᴰ.tail m) = ground (arith, Memᴰ-any c xs m)

is_match-Serves :
    (digest : CandidateKey → String) (q : Request) (row : SkillRow)
    → is_match digest q row ≡ true
    → Serves digest q row
unfolding is_match
is_match-Serves digest q row h = record {
  enabled = ground arith;
  named = λ e. ground (arith, (eq_iff row.provider "").1 e);
  provides = any-Memᴰ q.capability row.capabilities (ground arith);
  available = ground arith;
  selected = elim (Bool-cases (q.selected_candidate_id == "")) [
    | inl e ↦ inl ((eq_iff q.selected_candidate_id "").0 e)
    | inr e ↦ inr (
        (eq_iff (candidate_id digest row q.capability q.knowledge_point_id)
            q.selected_candidate_id).0
          (ground arith))
  ];
}

Serves-is_match :
    (digest : CandidateKey → String) (q : Request) (row : SkillRow)
    → Serves digest q row
    → is_match digest q row ≡ true
unfolding is_match
Serves-is_match digest q row s = ground (
  arith,
  s.enabled,
  s.available,
  Memᴰ-any q.capability row.capabilities (s.provides),
  eq_iff row.provider "",
  s.named,
  picked,
)
  where
    picked :
        (q.selected_candidate_id == ""
          || candidate_id digest row q.capability q.knowledge_point_id == q.selected_candidate_id)
        ≡ true
    picked = elim s.selected [
      | inl e ↦ ground (arith, (eq_iff q.selected_candidate_id "").1 e)
      | inr e ↦ ground (
        arith,
        (eq_iff (candidate_id digest row q.capability q.knowledge_point_id)
              q.selected_candidate_id).1
            e,
      )
    ]

-- How many rows of a registry can serve the request.
pub data Serving (digest : CandidateKey → String) (q : Request) : List SkillRow → ℕ → Type 0 where
  no_rows : Serving digest q [] 0
  one_more :
      (row : SkillRow) (rows : List SkillRow) (n : ℕ)
      → Serves digest q row
      → Serving digest q rows n
      → Serving digest q (row ∷ rows) (n + 1)
  no_more :
      (row : SkillRow) (rows : List SkillRow) (n : ℕ)
      → ¬ Serves digest q row
      → Serving digest q rows n
      → Serving digest q (row ∷ rows) n

filter-Serving :
    (digest : CandidateKey → String) (q : Request) (rows : List SkillRow)
    → Serving digest q rows (length (filter (is_match digest q) rows))
unfolding filter
filter-Serving digest q [] = no_rows
filter-Serving digest q (row ∷ rows) = elim (Bool-cases (is_match digest q row)) [
  | inl fits ↦ rw fits (
      subst (Serving digest q (row ∷ rows)) (omega arith)
        (one_more row rows _ (is_match-Serves digest q row fits) (filter-Serving digest q rows)))
  | inr unfit ↦ rw unfit (
      no_more row rows _ (λ k. ground (arith, unfit, Serves-is_match digest q row k))
        (filter-Serving digest q rows))
]

-- What each answer says of the registry.
pub IsBinding : (CandidateKey → String) → Request → List SkillRow → Binding → Type 0
IsBinding digest q skills unbound = (row : SkillRow) → Memᴰ row skills → ¬ Serves digest q row
IsBinding digest q skills ambiguous =
    (q.selected_candidate_id ≢ "") × ((n : ℕ) × Serving digest q skills n × (2 ≤ n))
IsBinding digest q skills (bound r) =
    (row : SkillRow) × Memᴰ row skills
    × Serves digest q row
    × ((q.selected_candidate_id ≡ "") ⊎ Serving digest q skills 1)
    × (r ≡ resolution_of q row)
    × ((other : SkillRow)
        → Memᴰ other skills
        → Serves digest q other
        → (weight row ≤ weight other)
          × (weight other ≡ weight row → text_lt other.skill_id row.skill_id ≡ false))

-- The resolver answers every registry and every request rightly. A bound row stands in the registry, is
-- enabled, has an available provider and provides the capability, no other such row is cheaper or as cheap
-- with an earlier skill id, and if a candidate is selected, it is that one and no other row is. It refuses
-- as unbound only if no row matches, and as ambiguous only if a candidate is selected and at least two rows
-- match it.
pub resolve-IsBinding :
    (digest : CandidateKey → String) (q : Request) (skills : List SkillRow)
    → IsBinding digest q skills (resolve digest q skills)
unfolding IsChosen IsBinding is_cheaper
resolve-IsBinding digest q skills = go (resolve digest q skills) (resolve-IsChosen digest q skills)
  where
    counted : Serving digest q skills (length (filter (is_match digest q) skills))
    counted = filter-Serving digest q skills

    go : (b : Binding) → IsChosen digest q skills b → IsBinding digest q skills b
    go unbound h = λ row m k. ground (arith, h row m, Serves-is_match digest q row k)
    go ambiguous (some_id, several) =
        (some_id, (length (filter (is_match digest q) skills), counted, several))
    go (bound r) (row, stands, fits, single, made, cheapest) = (
      row,
      stands,
      is_match-Serves digest q row fits,
      elim single [
        | inl open_ ↦ inl open_
        | inr one ↦ inr (subst (Serving digest q skills) one counted)
      ],
      made,
      λ other m k.
          let least = cheapest other m (Serves-is_match digest q other k) in
          (ground (arith, least), λ e. ground (arith, least, e)),
    )

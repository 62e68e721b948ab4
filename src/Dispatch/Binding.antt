-- ===== src/Dispatch/Binding.antt =====
-- server/lingxilearn/runtime/dispatch/binding.py and `candidate_id` of
-- server/lingxilearn/runtime/candidates.py. A missing key of a row is "" or 0, as `or` makes no
-- difference between them; a latency weight is in thousandths. The SHA-256 digest of the canonical
-- JSON text is an argument. The wording of an error is left out.
pub mod Chosen
pub mod Best
use lingxi_learn.Prelude.{
  ℕ, String, Bool, true, false, ◌&&◌, ◌||◌, not, Option, none, some, List, [], ◌∷◌, ◌==◌, nat_beq,
  ltb, if◌then◌else◌,
}
use lingxi_learn.Prelude.Tables.{any, filter, length}
use lingxi_learn.Prelude.Order.{text_lt, sort_by}

-- A row of the skill registry: what `RegisteredSkill.from_row` and `resolve` read of it.
pub record SkillRow : Type 0 where
  pub skill_id : String
  pub capabilities : List String
  pub provider : String
  pub enabled : Bool
  pub version : String
  pub skill_version : String
  pub checksum : String
  pub content_checksum : String
  pub latency_weight : ℕ
  pub display_name : String
  pub status_line : String

-- the payload of the candidate's digest
pub record CandidateKey : Type 0 where
  pub capability : String
  pub knowledge_point_id : String
  pub skill_id : String
  pub version : String
  pub checksum : String
  pub provider : String

abbrev pub text_or : String → String → String
text_or s d = if s == "" then d else s

unfoldable pub candidate_id : (CandidateKey → String) → SkillRow → String → String → String
candidate_id digest row capability knowledge_point_id = digest (record {
  capability = capability;
  knowledge_point_id = knowledge_point_id;
  skill_id = row.skill_id;
  version = text_or row.version row.skill_version;
  checksum = text_or row.checksum row.content_checksum;
  provider = row.provider;
})

pub record Resolution : Type 0 where
  pub capability : String
  pub skill_id : String
  pub provider : String
  pub status_line : String
  pub candidate_id : String
  pub display_name : String
  pub skill_version : String
  pub skill_checksum : String

-- `unbound` and `ambiguous` are the two raises of NoProvider.
pub data Binding : Type 0 where
  unbound ambiguous : Binding
  bound : Resolution → Binding

-- the arguments of `resolve` beside the registry
pub record Request : Type 0 where
  pub capability : String
  pub selected_candidate_id : String
  pub knowledge_point_id : String
  pub provider_available : Option (String → Bool)

abbrev pub is_available : Option (String → Bool) → String → Bool
is_available none provider = true
is_available (some available) provider = available provider

-- whether the loop appends the row to `matches`
unfoldable pub is_match : (CandidateKey → String) → Request → SkillRow → Bool
is_match digest q row =
    row.enabled
    && not (row.provider == "")
    && any (λ c. c == q.capability) row.capabilities
    && is_available q.provider_available row.provider
    && (q.selected_candidate_id == ""
        || candidate_id digest row q.capability q.knowledge_point_id == q.selected_candidate_id)

-- `float(latency_weight or 1.0)`
abbrev pub weight : SkillRow → ℕ
weight row = if nat_beq row.latency_weight 0 then 1000 else row.latency_weight

-- the order of the sort's key (weight, skill id)
unfoldable pub is_cheaper : SkillRow → SkillRow → Bool
is_cheaper a b =
    ltb (weight a) (weight b) || (nat_beq (weight a) (weight b) && text_lt a.skill_id b.skill_id)

unfoldable pub resolution_of : Request → SkillRow → Resolution
resolution_of q row = record {
  capability = q.capability;
  skill_id = row.skill_id;
  provider = row.provider;
  status_line = text_or row.status_line "正在处理这一步…";
  candidate_id = q.selected_candidate_id;
  display_name = row.display_name;
  skill_version = row.version;
  skill_checksum = row.checksum;
}

-- `matches[0]` after the sort
abbrev pub choose : Request → List SkillRow → Binding
choose q [] = unbound
choose q (row ∷ rows) = bound (resolution_of q row)

unfoldable pub resolve : (CandidateKey → String) → Request → List SkillRow → Binding
resolve digest q skills =
    let matches = filter (is_match digest q) skills in
    if nat_beq (length matches) 0
    then unbound
    else if not (q.selected_candidate_id == "") && not (nat_beq (length matches) 1)
    then ambiguous
    else choose q (sort_by is_cheaper matches)

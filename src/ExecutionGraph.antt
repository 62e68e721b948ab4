-- ===== src/ExecutionGraph.antt =====
-- server/lingxilearn/runtime/execution_graph.py: the graph of agent runs that the client draws. A
-- missing text of a row is "", as `or ""` makes no difference between them; a row's times are their
-- text. The group `pg_n` is the number n.
pub mod Adding
pub mod Edges
mod Tests
use lingxi_learn.Prelude.{
  ℕ, ◌+◌, String, Bool, true, false, ◌&&◌, ◌||◌, not, Option, none, some, List, [], ◌∷◌, ◌++◌, map,
  ◌==◌, if◌then◌else◌,
}
use lingxi_learn.Prelude.Tables.{any, filter}
use lingxi_learn.Prelude.Order.{text_lt}

pub record AgentRun : Type 0 where
  pub id : String
  pub turn_id : String
  pub execution_id : String
  pub parent_agent_run_id : String
  pub work_item_id : String
  pub provider_id : String
  pub agent_display_name : String
  pub execution_kind : String
  pub capability : String
  pub presentation_role : String
  pub status : String
  pub started_at : String
  pub ended_at : String

pub record SkillUse : Type 0 where
  pub agent_run_id : String
  pub skill_id : String

pub record WorkEdge : Type 0 where
  pub work_id : String
  pub depends_on_id : String

pub record Node : Type 0 where
  pub id : String
  pub turn_id : String
  pub execution_id : String
  pub parent_agent_run_id : Option String
  pub provider_id : String
  pub display_name : String
  pub execution_kind : String
  pub capability : String
  pub skill_ids : List String
  pub status : String
  pub started_at : String
  pub ended_at : String
  pub presentation_role : String
  pub parallel_group_id : Option ℕ

pub data EdgeKind : Type 0 where
  agent_delegation dependency : EdgeKind

pub record Edge : Type 0 where
  pub source : String
  pub target : String
  pub kind : EdgeKind

pub record ExecutionGraph : Type 0 where
  pub task_id : String
  pub nodes : List Node
  pub edges : List Edge

abbrev pub edge : String → String → EdgeKind → Edge
edge source target kind = record { source = source; target = target; kind = kind }

abbrev pub same_kind : EdgeKind → EdgeKind → Bool
same_kind agent_delegation agent_delegation = true
same_kind dependency dependency = true
same_kind _ _ = false

abbrev pub same_edge : Edge → Edge → Bool
same_edge a b = a.source == b.source && a.target == b.target && same_kind a.kind b.kind

abbrev pub is_proper : Edge → Bool
is_proper e = not (e.source == "") && not (e.target == "") && not (e.source == e.target)

unfoldable pub add_edge : Edge → List Edge → List Edge
add_edge e edges = if not (is_proper e) || any (same_edge e) edges then edges else edges ++ e ∷ []

unfoldable pub add_edges : List Edge → List Edge → List Edge
add_edges [] edges = edges
add_edges (c ∷ cs) edges = add_edges cs (add_edge c edges)

abbrev pub has_parent : AgentRun → Bool
has_parent r = not (r.parent_agent_run_id == "")

abbrev pub delegation_of : AgentRun → Edge
delegation_of r = edge r.parent_agent_run_id r.id agent_delegation

-- membership in `run_by_work[work_id]`
abbrev pub is_run_of : String → AgentRun → Bool
is_run_of work_id r = not (r.work_item_id == "") && r.work_item_id == work_id

unfoldable pub cross : List AgentRun → List AgentRun → List Edge
cross [] targets = []
cross (s ∷ ss) targets =
    map (λ (t : AgentRun). edge s.id t.id dependency) targets ++ cross ss targets

-- the edges of the loop over the work dependencies, in order; their ends are `dependency_pairs`
unfoldable pub dependencies_of : List WorkEdge → List AgentRun → List Edge
dependencies_of [] runs = []
dependencies_of (d ∷ ds) runs =
    cross (filter (is_run_of d.depends_on_id) runs) (filter (is_run_of d.work_id) runs)
    ++ dependencies_of ds runs

unfoldable pub edges_of : List AgentRun → List WorkEdge → List Edge
edges_of runs deps =
    add_edges (dependencies_of deps runs)
      (add_edges (map delegation_of (filter has_parent runs)) [])

abbrev pub end_or : String → String
end_or t = if t == "" then "9999" else t

unfoldable pub overlaps : AgentRun → AgentRun → Bool
overlaps a b =
    not (a.started_at == "")
    && not (b.started_at == "")
    && text_lt a.started_at (end_or b.ended_at)
    && text_lt b.started_at (end_or a.ended_at)

-- `parallel_group_of` and `group_counter`
pub record Groups : Type 0 where
  pub assigned : List (String × ℕ)
  pub counter : ℕ

unfoldable pub group_of : String → List (String × ℕ) → Option ℕ
group_of id [] = none
group_of id ((k, n) ∷ rest) = if k == id then some n else group_of id rest

abbrev pub assign : String → String → ℕ → Groups → Groups
assign left right n g = record g { assigned = (right, n) ∷ (left, n) ∷ g.assigned }

abbrev pub join : String → String → Option ℕ → Option ℕ → Groups → Groups
join left right (some n) (some m) g = g
join left right (some n) none g = assign left right n g
join left right none (some m) g = assign left right m g
join left right none none g = assign left right g.counter (record g { counter = g.counter + 1 })

abbrev pub is_dependent : List Edge → String → String → Bool
is_dependent pairs a b =
    any (same_edge (edge a b dependency)) pairs || any (same_edge (edge b a dependency)) pairs

unfoldable pub is_parallel : List Edge → AgentRun → AgentRun → Bool
is_parallel pairs a b =
    overlaps a b
    && a.parent_agent_run_id == b.parent_agent_run_id
    && not (is_dependent pairs a.id b.id)

unfoldable pub join_pair : List Edge → AgentRun → AgentRun → Groups → Groups
join_pair pairs a b g =
    if is_parallel pairs a b
    then join a.id b.id (group_of a.id g.assigned) (group_of b.id g.assigned) g
    else g

unfoldable pub join_rest : List Edge → AgentRun → List AgentRun → Groups → Groups
join_rest pairs a [] g = g
join_rest pairs a (b ∷ bs) g = join_rest pairs a bs (join_pair pairs a b g)

unfoldable pub join_all : List Edge → List AgentRun → Groups → Groups
join_all pairs [] g = g
join_all pairs (a ∷ rest) g = join_all pairs rest (join_rest pairs a rest g)

-- the keys of `by_execution`, in the order of their first runs
unfoldable pub executions : List String → List AgentRun → List String
executions seen [] = []
executions seen (r ∷ rs) =
    if any (λ x. x == r.execution_id) seen
    then executions seen rs
    else r.execution_id ∷ executions (r.execution_id ∷ seen) rs

unfoldable pub join_executions : List Edge → List AgentRun → List String → Groups → Groups
join_executions pairs runs [] g = g
join_executions pairs runs (x ∷ xs) g =
    join_executions pairs runs xs (join_all pairs (filter (λ r. r.execution_id == x) runs) g)

unfoldable pub groups_of : List AgentRun → List WorkEdge → List (String × ℕ)
groups_of runs deps =
    (join_executions (dependencies_of deps runs) runs (executions [] runs)
      (record { assigned = []; counter = 0 })).assigned

abbrev pub text_or : String → String → String
text_or s d = if s == "" then d else s

abbrev pub or_none : String → Option String
or_none s = if s == "" then none else some s

abbrev pub skills_of : String → List SkillUse → List String
skills_of run_id skills =
    map (λ (s : SkillUse). s.skill_id)
      (filter (λ s. not (s.agent_run_id == "") && s.agent_run_id == run_id) skills)

unfoldable pub node_of : List SkillUse → List (String × ℕ) → AgentRun → Node
node_of skills groups r = record {
  id = r.id;
  turn_id = r.turn_id;
  execution_id = r.execution_id;
  parent_agent_run_id = or_none r.parent_agent_run_id;
  provider_id = r.provider_id;
  display_name = text_or r.agent_display_name r.provider_id;
  execution_kind = text_or r.execution_kind "model";
  capability = r.capability;
  skill_ids = skills_of r.id skills;
  status = text_or r.status "queued";
  started_at = r.started_at;
  ended_at = r.ended_at;
  presentation_role = text_or r.presentation_role "supporting";
  parallel_group_id = group_of r.id groups;
}

unfoldable pub build_execution_graph :
    List AgentRun → String → List WorkEdge → List SkillUse → ExecutionGraph
build_execution_graph runs task_id deps skills = record {
  task_id = task_id;
  nodes =
      map (node_of skills (groups_of runs deps)) (filter (λ (r : AgentRun). not (r.id == "")) runs);
  edges = edges_of runs deps;
}

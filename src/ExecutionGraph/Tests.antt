-- ===== src/ExecutionGraph/Tests.antt =====
-- Three runs of one execution, and an instance of the theorem about their graph. The groups put two
-- runs together of which one depends on the other, as both overlap with a third.
use mathlib.Core.List.{Memᴰ}
use lingxi_learn.Prelude.{String, ◌≡◌, ◌↔◌, refl, some, List, [], ◌∷◌}
use lingxi_learn.Prelude.Tables.{any, filter}
use lingxi_learn.ExecutionGraph.{
  AgentRun, WorkEdge, Edge, overlaps, group_of, groups_of, cross, dependencies_of, join_executions,
  join_all, join_rest, join_pair, is_parallel, executions, build_execution_graph,
}
use lingxi_learn.ExecutionGraph.Edges.{HasNoRepeat, HasEnds, IsLink, build_execution_graph-edges}

abbrev agent_run : String → String → String → String → AgentRun
agent_run id work started ended = record {
  id = id;
  turn_id = "u";
  execution_id = "x";
  parent_agent_run_id = "";
  work_item_id = work;
  provider_id = "tutor";
  agent_display_name = "";
  execution_kind = "";
  capability = "teach.explain";
  presentation_role = "";
  status = "";
  started_at = started;
  ended_at = ended;
}

-- The first ends before the third starts, which depends on it; the second overlaps with both.
abbrev runs : List AgentRun
runs = agent_run "a" "v" "1" "3" ∷ agent_run "b" "" "2" "6" ∷ agent_run "c" "w" "5" "7" ∷ []

abbrev deps : List WorkEdge
deps = record { work_id = "w"; depends_on_id = "v" } ∷ []

build_execution_graph-edges_example :
    HasNoRepeat (build_execution_graph runs "t" deps []).edges
    × ((e : Edge)
        → Memᴰ e (build_execution_graph runs "t" deps []).edges ↔ (HasEnds e × IsLink runs deps e))
build_execution_graph-edges_example = build_execution_graph-edges runs "t" deps []

dependent_runs_grouped :
    (group_of "a" (groups_of runs deps) ≡ some 0) × (group_of "c" (groups_of runs deps) ≡ some 0)
unfolding groups_of group_of join_executions join_all join_rest join_pair is_parallel overlaps
    executions dependencies_of cross any filter
dependent_runs_grouped = (refl, refl)

-- ===== src/ExecutionGraph/Edges.antt =====
-- The edges of the execution graph are exactly the links between runs, each once.
use mathlib.Core.Path.{subst}
use mathlib.Core.List.{Memᴰ}
use mathlib.Core.List.Memᴰ as Member
use lingxi_learn.Prelude.{
  true, refl, ==-self, ◌≢◌, ◌↔◌, arith, eq_iff, String, ◌≡◌, sym, ap, List, [], ◌∷◌, map, inl, inr,
}
use lingxi_learn.Prelude.Tables.{filter, any}
use lingxi_learn.Prelude.Members.{filter-Memᴰ, Memᴰ-filter}
use lingxi_learn.ExecutionGraph.{
  same_edge, agent_delegation, AgentRun, SkillUse, WorkEdge, dependency, Edge, edge, is_proper,
  add_edges, has_parent, delegation_of, is_run_of, cross, dependencies_of, edges_of,
  build_execution_graph,
}
use lingxi_learn.ExecutionGraph.Adding.{same_kind_self, IsDistinct, AreAdded, add_edges-AreAdded}

-- The run worked on the work item.
abbrev pub IsRunOf : String → AgentRun → Type 0
IsRunOf work_id r = (r.work_item_id ≢ "") × (r.work_item_id ≡ work_id)

-- What an edge stands for: a run and the run that delegated to it, or the runs of two work items of
-- which one depends on the other.
pub data IsLink (runs : List AgentRun) (deps : List WorkEdge) (e : Edge) : Type 0 where
  delegates :
      (r : AgentRun)
      → Memᴰ r runs
      → e ≡ edge r.parent_agent_run_id r.id agent_delegation
      → IsLink runs deps e
  depends :
      (d : WorkEdge) (s t : AgentRun)
      → Memᴰ d deps
      → Memᴰ s runs
      → Memᴰ t runs
      → IsRunOf d.depends_on_id s
      → IsRunOf d.work_id t
      → e ≡ edge s.id t.id dependency
      → IsLink runs deps e

-- An edge between two different runs, both of which are named.
abbrev pub HasEnds : Edge → Type 0
HasEnds e = (e.source ≢ "") × (e.target ≢ "") × (e.source ≢ e.target)

is_proper_iff : (e : Edge) → (is_proper e ≡ true) ↔ HasEnds e
is_proper_iff e = ground (arith, eq_iff e.source "", eq_iff e.target "", eq_iff e.source e.target)

is_run_of_iff : (work_id : String) (r : AgentRun) → (is_run_of work_id r ≡ true) ↔ IsRunOf work_id r
is_run_of_iff work_id r = ground (arith, eq_iff r.work_item_id "", eq_iff r.work_item_id work_id)

same_edge_self : (e : Edge) → same_edge e e ≡ true
same_edge_self e = ground (arith, ==-self e.source, ==-self e.target, same_kind_self e.kind)

Memᴰ-any : (e : Edge) (es : List Edge) → Memᴰ e es → any (same_edge e) es ≡ true
unfolding any
Memᴰ-any e [] m = elim m [ ]
Memᴰ-any e (x ∷ xs) (Memᴰ.head p) =
    let same : same_edge e x ≡ true = subst (λ y. same_edge e y ≡ true) p (same_edge_self e) in
    rw same refl
Memᴰ-any e (x ∷ xs) (Memᴰ.tail m) = ground (arith, Memᴰ-any e xs m)

-- No edge stands in the list twice.
abbrev pub HasNoRepeat : List Edge → Type 0
HasNoRepeat [] = Unit {0}
HasNoRepeat (e ∷ es) = (¬ Memᴰ e es) × HasNoRepeat es

IsDistinct-HasNoRepeat : (es : List Edge) → IsDistinct es → HasNoRepeat es
IsDistinct-HasNoRepeat [] d = tt
IsDistinct-HasNoRepeat (e ∷ es) d =
    ((λ m. ground (arith, d.0, Memᴰ-any e es m)), IsDistinct-HasNoRepeat es (d.1))

cross-Memᴰ :
    (e : Edge) (ss ts : List AgentRun)
    → Memᴰ e (cross ss ts)
    → (s : AgentRun) × (t : AgentRun) × Memᴰ s ss × Memᴰ t ts × (e ≡ edge s.id t.id dependency)
unfolding cross
cross-Memᴰ e [] ts m = absurd (Member.not-nil m)
cross-Memᴰ e (s ∷ ss) ts m =
    elim (Member.append_cases (map (λ (t : AgentRun). edge s.id t.id dependency) ts) m) [
      | inl k ↦
          let (t, stands, same) =
            Member.of_map (λ (t : AgentRun). edge s.id t.id dependency) ts k in
          (s, t, Memᴰ.head refl, stands, sym same)
      | inr k ↦
          let (s', t, s_stands, t_stands, same) = cross-Memᴰ e ss ts k in
          (s', t, Memᴰ.tail s_stands, t_stands, same)
    ]

Memᴰ-cross :
    (s t : AgentRun) (ss ts : List AgentRun)
    → Memᴰ s ss
    → Memᴰ t ts
    → Memᴰ (edge s.id t.id dependency) (cross ss ts)
unfolding cross
Memᴰ-cross s t [] ts m k = elim m [ ]
Memᴰ-cross s t (x ∷ ss) ts (Memᴰ.head p) k = Member.append_left (cross ss ts) (
    Member.cast (ap (λ (z : AgentRun). edge z.id t.id dependency) p)
      (Member.map (λ (z : AgentRun). edge x.id z.id dependency) k))
Memᴰ-cross s t (x ∷ ss) ts (Memᴰ.tail m) k =
    Member.append_right (map (λ (z : AgentRun). edge x.id z.id dependency) ts)
      (Memᴰ-cross s t ss ts m k)

dependencies_of-Memᴰ :
    (e : Edge) (deps : List WorkEdge) (runs : List AgentRun)
    → Memᴰ e (dependencies_of deps runs)
    → IsLink runs deps e
unfolding dependencies_of
dependencies_of-Memᴰ e [] runs m = absurd (Member.not-nil m)
dependencies_of-Memᴰ e (d ∷ ds) runs m =
    let sources = filter (is_run_of d.depends_on_id) runs in
    let targets = filter (is_run_of d.work_id) runs in
    elim (Member.append_cases (cross sources targets) m) [
      | inl k ↦
          let (s, t, s_stands, t_stands, same) = cross-Memᴰ e sources targets k in
          let (s_run, s_works) = filter-Memᴰ (is_run_of d.depends_on_id) s runs s_stands in
          let (t_run, t_works) = filter-Memᴰ (is_run_of d.work_id) t runs t_stands in
          depends d s t (Memᴰ.head refl) s_run t_run ((is_run_of_iff d.depends_on_id s).0 s_works)
            ((is_run_of_iff d.work_id t).0 t_works) same
      | inr k ↦ elim (dependencies_of-Memᴰ e ds runs k) [
        | delegates r r_run same ↦ delegates r r_run same
        | depends d' s t d_stands s_run t_run s_works t_works same ↦
            depends d' s t (Memᴰ.tail d_stands) s_run t_run s_works t_works same
      ]
    ]

Memᴰ-dependencies_of :
    (d : WorkEdge) (s t : AgentRun) (deps : List WorkEdge) (runs : List AgentRun)
    → Memᴰ d deps
    → Memᴰ s (filter (is_run_of d.depends_on_id) runs)
    → Memᴰ t (filter (is_run_of d.work_id) runs)
    → Memᴰ (edge s.id t.id dependency) (dependencies_of deps runs)
unfolding dependencies_of
Memᴰ-dependencies_of d s t [] runs m s_run t_run = elim m [ ]
Memᴰ-dependencies_of d s t (x ∷ ds) runs (Memᴰ.head p) s_run t_run =
    Member.append_left (dependencies_of ds runs) (
      Memᴰ-cross s t (filter (is_run_of x.depends_on_id) runs) (filter (is_run_of x.work_id) runs)
        (subst (λ (z : WorkEdge). Memᴰ s (filter (is_run_of z.depends_on_id) runs)) p s_run)
        (subst (λ (z : WorkEdge). Memᴰ t (filter (is_run_of z.work_id) runs)) p t_run))
Memᴰ-dependencies_of d s t (x ∷ ds) runs (Memᴰ.tail m) s_run t_run =
    Member.append_right
      (cross (filter (is_run_of x.depends_on_id) runs) (filter (is_run_of x.work_id) runs))
      (Memᴰ-dependencies_of d s t ds runs m s_run t_run)

-- The graph draws the real links and nothing else: its edges are just the links between two different
-- runs that both have an id, a link being the delegation by a run's parent or a work dependency
-- between the items that two runs worked on; and no edge is drawn twice.
pub build_execution_graph-edges :
    (runs : List AgentRun) (task_id : String) (deps : List WorkEdge) (skills : List SkillUse)
    → HasNoRepeat (build_execution_graph runs task_id deps skills).edges
      × ((e : Edge)
          → Memᴰ e (build_execution_graph runs task_id deps skills).edges
            ↔ (HasEnds e × IsLink runs deps e))
unfolding build_execution_graph edges_of
build_execution_graph-edges runs task_id deps skills = (
  IsDistinct-HasNoRepeat edges (second.distinct (first.distinct tt)),
  λ e. (sound e, λ (h, link). complete e h link),
)
  where
    delegations : List Edge
    delegations = map delegation_of (filter has_parent runs)

    first : AreAdded delegations [] (add_edges delegations [])
    first = add_edges-AreAdded delegations []

    edges : List Edge
    edges = add_edges (dependencies_of deps runs) (add_edges delegations [])

    second : AreAdded (dependencies_of deps runs) (add_edges delegations []) edges
    second = add_edges-AreAdded (dependencies_of deps runs) (add_edges delegations [])

    delegated : (e : Edge) → Memᴰ e delegations → IsLink runs deps e
    delegated e m =
        let (r, stands, same) = Member.of_map delegation_of (filter has_parent runs) m in
        let (r_run, parent) = filter-Memᴰ has_parent r runs stands in delegates r r_run (sym same)

    sound : (e : Edge) → Memᴰ e edges → HasEnds e × IsLink runs deps e
    sound e m = elim (second.only e m) [
      | inr (h, k) ↦ ((is_proper_iff e).0 h, dependencies_of-Memᴰ e deps runs k)
      | inl k ↦ elim (first.only e k) [
        | inl n ↦ absurd (Member.not-nil n)
        | inr (h, n) ↦ ((is_proper_iff e).0 h, delegated e n)
      ]
    ]

    complete : (e : Edge) → HasEnds e → IsLink runs deps e → Memᴰ e edges
    complete e h (delegates r r_run same) =
        let parent : has_parent r ≡ true =
          ground (arith, eq_iff r.parent_agent_run_id "", ap (λ (x : Edge). x.source) same, h.0) in
        second.old e (
          first.new e
            (Member.cast same
              (Member.map delegation_of (Memᴰ-filter has_parent r runs r_run parent)))
            ((is_proper_iff e).1 h))
    complete e h (depends d s t d_stands s_run t_run s_works t_works same) =
        second.new e
          (Member.cast same (
            Memᴰ-dependencies_of d s t deps runs d_stands
              (Memᴰ-filter (is_run_of d.depends_on_id) s runs s_run
                ((is_run_of_iff d.depends_on_id s).1 s_works))
              (Memᴰ-filter (is_run_of d.work_id) t runs t_run
                ((is_run_of_iff d.work_id t).1 t_works))))
          ((is_proper_iff e).1 h)

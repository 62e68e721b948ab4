-- ===== src/ExecutionGraph/Adding.antt =====
-- `add_edge`: an edge is added once, and only with two different ends.
use mathlib.Core.List.{Memᴰ}
use mathlib.Core.List.Memᴰ as Member
use lingxi_learn.Prelude.{
  ◌≡◌, ◌⊎◌, refl, sym, ap, ◌∙◌, Bool, true, false, ◌||◌, not, List, [], ◌∷◌, ◌++◌, if◌then◌else◌,
  arith, eq_iff, Bool-cases, inl, inr,
}
use lingxi_learn.Prelude.Tables.{any}
use lingxi_learn.ExecutionGraph.{
  EdgeKind, agent_delegation, dependency, Edge, edge, same_kind, same_edge, is_proper, add_edge,
  add_edges,
}

-- No edge stands in the list twice.
abbrev pub IsDistinct : List Edge → Type 0
IsDistinct [] = Unit {0}
IsDistinct (e ∷ es) = (any (same_edge e) es ≡ false) × IsDistinct es

same_kind-eq : (a b : EdgeKind) → same_kind a b ≡ true → a ≡ b
same_kind-eq agent_delegation agent_delegation h = refl
same_kind-eq agent_delegation dependency h = absurd (ground arith)
same_kind-eq dependency agent_delegation h = absurd (ground arith)
same_kind-eq dependency dependency h = refl

same_edge-eq : (a b : Edge) → same_edge a b ≡ true → a ≡ b
same_edge-eq a b h =
    let s : a.source ≡ b.source = (eq_iff a.source b.source).0 (ground arith) in
    let t : a.target ≡ b.target = (eq_iff a.target b.target).0 (ground arith) in
    let k : a.kind ≡ b.kind = same_kind-eq a.kind b.kind (ground arith) in
    λ i. edge (s i) (t i) (k i)

any-same_edge : (e : Edge) (es : List Edge) → any (same_edge e) es ≡ true → Memᴰ e es
unfolding any
any-same_edge e [] h = absurd (ground arith)
any-same_edge e (x ∷ xs) h = elim (Bool-cases (same_edge e x)) [
  | inl same ↦ Memᴰ.head (same_edge-eq e x same)
  | inr other ↦ Memᴰ.tail (any-same_edge e xs (rw other at h))
]

pub same_kind_self : (k : EdgeKind) → same_kind k k ≡ true
same_kind_self agent_delegation = refl
same_kind_self dependency = refl

same_kind_sym : (a b : EdgeKind) → same_kind a b ≡ same_kind b a
same_kind_sym agent_delegation agent_delegation = refl
same_kind_sym agent_delegation dependency = refl
same_kind_sym dependency agent_delegation = refl
same_kind_sym dependency dependency = refl

any-append_other :
    (e x : Edge) (es : List Edge)
    → any (same_edge e) es ≡ false
    → same_edge e x ≡ false
    → any (same_edge e) (es ++ x ∷ []) ≡ false
unfolding any
any-append_other e x [] h k = ground arith
any-append_other e x (y ∷ ys) h k = ground (arith, any-append_other e x ys)

append-IsDistinct :
    (x : Edge) (es : List Edge)
    → any (same_edge x) es ≡ false
    → IsDistinct es
    → IsDistinct (es ++ x ∷ [])
unfolding any
append-IsDistinct x [] h d = (refl, tt)
append-IsDistinct x (e ∷ es) h d = (
  any-append_other e x es (d.0) (
      ground (
        arith,
        h,
        same_kind_sym e.kind x.kind,
        eq_iff e.source x.source,
        eq_iff x.source e.source,
        eq_iff e.target x.target,
        eq_iff x.target e.target,
      )),
  append-IsDistinct x es (ground (arith, h)) (d.1),
)

-- What one call of `add_edge` does.
pub record IsAdded (c : Edge) (es after : List Edge) : Type 0 where
  pub distinct : IsDistinct es → IsDistinct after
  pub old : (e : Edge) → Memᴰ e es → Memᴰ e after
  pub new : is_proper c ≡ true → Memᴰ c after
  pub only : (e : Edge) → Memᴰ e after → Memᴰ e es ⊎ (is_proper e ≡ true) × (e ≡ c)

add_edge-IsAdded : (c : Edge) (es : List Edge) → IsAdded c es (add_edge c es)
unfolding add_edge
add_edge-IsAdded c es = go (is_proper c) refl (any (same_edge c) es) refl
  where
    go :
        (p : Bool)
        → is_proper c ≡ p
        → (b : Bool) → any (same_edge c) es ≡ b
        → IsAdded c es (if not p || b then es else es ++ c ∷ [])
    go false e b f = record {
      distinct = λ d. d;
      old = λ x m. m;
      new = λ h. absurd (ground (arith, e, h));
      only = λ x m. inl m;
    }
    go true e true f = record {
      distinct = λ d. d;
      old = λ x m. m;
      new = λ h. any-same_edge c es f;
      only = λ x m. inl m;
    }
    go true e false f = record {
      distinct = λ d. append-IsDistinct c es f d;
      old = λ x m. Member.append_left (c ∷ []) m;
      new = λ h. Member.append_right es (Memᴰ.head refl);
      only = λ x m. elim (Member.append_cases es m) [
        | inl k ↦ inl k
        | inr k ↦ inr (ap is_proper (Member.eq_of_singleton k) ∙ e, Member.eq_of_singleton k)
      ];
    }

-- What the calls of `add_edge` for a list of candidates do.
pub record AreAdded (cs es after : List Edge) : Type 0 where
  pub distinct : IsDistinct es → IsDistinct after
  pub old : (e : Edge) → Memᴰ e es → Memᴰ e after
  pub new : (e : Edge) → Memᴰ e cs → is_proper e ≡ true → Memᴰ e after
  pub only : (e : Edge) → Memᴰ e after → Memᴰ e es ⊎ (is_proper e ≡ true) × Memᴰ e cs

added_first :
    (c : Edge) (cs es mid after : List Edge)
    → IsAdded c es mid
    → AreAdded cs mid after
    → AreAdded (c ∷ cs) es after
added_first c cs es mid after first later = record {
  distinct = λ d. later.distinct (first.distinct d);
  old = λ e m. later.old e (first.old e m);
  new = new;
  only = only;
}
  where
    new : (e : Edge) → Memᴰ e (c ∷ cs) → is_proper e ≡ true → Memᴰ e after
    new e (Memᴰ.head p) h = Member.cast p (later.old c (first.new (ap is_proper (sym p) ∙ h)))
    new e (Memᴰ.tail m) h = later.new e m h

    only : (e : Edge) → Memᴰ e after → Memᴰ e es ⊎ (is_proper e ≡ true) × Memᴰ e (c ∷ cs)
    only e m = elim (later.only e m) [
      | inl k ↦ elim (first.only e k) [ inl o ↦ inl o | inr (h, p) ↦ inr (h, Memᴰ.head p) ]
      | inr (h, k) ↦ inr (h, Memᴰ.tail k)
    ]

pub add_edges-AreAdded : (cs es : List Edge) → AreAdded cs es (add_edges cs es)
unfolding add_edges
add_edges-AreAdded [] es = record {
  distinct = λ d. d;
  old = λ e m. m;
  new = λ e m h. absurd (Member.not-nil m);
  only = λ e m. inl m;
}
add_edges-AreAdded (c ∷ cs) es =
    added_first c cs es (add_edge c es) (add_edges cs (add_edge c es)) (add_edge-IsAdded c es)
      (add_edges-AreAdded cs (add_edge c es))

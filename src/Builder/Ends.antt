-- ===== src/Builder/Ends.antt =====
-- The ends of the edges of a builder.
use srf.Base.{
  ℕ, ◌≡◌, sym, ap, ◌∙◌, Option, none, some, Text, text_key, ok, Exception, Bool-cases, Option-cases,
  inl, inr, ==_iff, ◌==◌, bind-ok, ok-injective,
}
use mathlib.Core.Path.{subst}
use srf.Base.Map.{find}
use srf.Builder.{
  Builder, Object, typed_edge, object_edge, Endpoint, by_name, given, held, end_source, end_sink,
  dynamic_edge, find_object, object_sink, object_source, source_typed, sink_typed, cast,
}

-- An end that was found under a name is the object of that name.
abbrev pub IsEnd : Builder → Endpoint → Type 0
IsEnd b (by_name a o) = find a b.objects ≡ some o
IsEnd b (given g) = Unit {0}

-- An edge from a source to a sink.
abbrev pub IsEdge : Builder → Endpoint × Endpoint → Type 0
IsEdge b (s, t) =
    IsEnd b s × IsEnd b t × ((x : ℕ) × (end_source s ≡ some x)) × ((y : ℕ) × (end_sink t ≡ some y))

cast-some :
    (missing wrong : Exception) (type : ℕ) (t : Option ℕ)
    → cast missing wrong type t ≡ ok tt
    → t ≡ some type
unfolding cast
cast-some missing wrong type none h = absurd cc
cast-some missing wrong type (some t) h = elim (Bool-cases (t == type)) [
  | inl same ↦ ap some ((==_iff t type).0 same)
  | inr other ↦ absurd cc (rw other at h)
]

find_object-found :
    (a : Text) (b : Builder) (o : Object) → find_object a b ≡ ok o → find a b.objects ≡ some o
unfolding find_object
find_object-found a b o h = elim (Option-cases (find a b.objects)) [
  | inl missing ↦ absurd cc (rw (find_object, missing) at h)
  | inr (p, found) ↦ found ∙ ap some (ok-injective p o (rw (find_object, found) at h))
]

source_typed-source :
    (type : ℕ) (o s : Object) → source_typed type o ≡ ok s → (o ≡ s) × (object_source o ≡ some type)
unfolding source_typed
source_typed-source type o s h =
    let r =
      bind-ok (cast Exception.not_a_source Exception.wrong_source_type type (object_source o))
        (λ _. ok o) s h in
    (ok-injective o s r.2, cast-some _ _ type (object_source o) r.1)

sink_typed-sink :
    (type : ℕ) (o s : Object) → sink_typed type o ≡ ok s → (o ≡ s) × (object_sink o ≡ some type)
unfolding sink_typed
sink_typed-sink type o s h =
    let r =
      bind-ok (cast Exception.not_a_sink Exception.wrong_sink_type type (object_sink o)) (λ _. ok o)
        s h in
    (ok-injective o s r.2, cast-some _ _ type (object_sink o) r.1)

-- What is known of the objects of an edge that can be made.
typed_edge-source_sink :
    (t u : ℕ) (p q s o : Object)
    → typed_edge t u p q ≡ ok (s, o)
    → (p ≡ s) × (q ≡ o) × (object_source s ≡ some t) × (object_sink o ≡ some u)
unfolding typed_edge
typed_edge-source_sink t u p q s o h =
    let x = bind-ok (source_typed t p) _ (s, o) h in
    let y = bind-ok (sink_typed u q) _ (s, o) x.2 in
    let same = ok-injective (x.0, y.0) (s, o) y.2 in
    let source = source_typed-source t p x.0 x.1 in
    let sink = sink_typed-sink u q y.0 y.1 in
    let s_is : p ≡ s = source.0 ∙ ap (λ e. e.0) same in
    let o_is : q ≡ o = sink.0 ∙ ap (λ e. e.1) same in
    (s_is, o_is, ap object_source (sym s_is) ∙ source.1, ap object_sink (sym o_is) ∙ sink.1)

pub dynamic_edge-IsEdge :
    (t u : ℕ) (a c : Text) (b : Builder) (e : Endpoint × Endpoint)
    → dynamic_edge t u a c b ≡ ok e
    → IsEdge b e
unfolding dynamic_edge
dynamic_edge-IsEdge t u a c b e h =
    let p = bind-ok (find_object a b) _ e h in
    let q = bind-ok (find_object c b) _ e p.2 in
    let r = bind-ok (typed_edge t u p.0 q.0) _ e q.2 in
    let k = typed_edge-source_sink t u p.0 q.0 (r.0).0 (r.0).1 r.1 in
    subst (IsEdge b) (ok-injective (by_name a (r.0).0, by_name c (r.0).1) e r.2) (
      find_object-found a b p.0 p.1 ∙ ap some k.0,
      find_object-found c b q.0 q.1 ∙ ap some k.1,
      (t, k.2),
      (u, k.3),
    )

pub object_edge-IsEdge :
    (t u : ℕ) (p q : Object) (b : Builder) (e : Endpoint × Endpoint)
    → object_edge t u p q ≡ ok e
    → IsEdge b e
unfolding object_edge
object_edge-IsEdge t u p q b e h =
    let r = bind-ok (typed_edge t u p q) _ e h in
    let k = typed_edge-source_sink t u p q (r.0).0 (r.0).1 r.1 in
    subst (IsEdge b) (ok-injective (given (held (r.0).0), given (held (r.0).1)) e r.2)
      (tt, tt, (t, k.2), (u, k.3))

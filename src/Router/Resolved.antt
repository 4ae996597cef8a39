-- ===== src/Router/Resolved.antt =====
-- The routes that are listed and the operations that are resolved.
use model_weaver.Base.{
  String, Bool, true, ◌||◌, some, List, [], ◌∷◌, ◌++◌, ◌≡◌, refl, any, contains, ◌==◌, text_eq,
  Bool-cases, Option-cases, inl, inr, arith, ap, ◌∙◌,
}
use model_weaver.Router.{
  RouteSpec, Gated, lifecycle_ops, is_open, capability_ops_for, open_ops, routes_for, find_op,
  find_gated, granted, resolve_op,
}

-- The operation is listed, by name.
abbrev pub lists : List RouteSpec → String → Bool
lists routes op = any (λ (r : RouteSpec). r.op == op) routes

lists-append :
    (rs ss : List RouteSpec) (op : String) → lists (rs ++ ss) op ≡ (lists rs op || lists ss op)
lists-append [] ss op = refl
lists-append (r ∷ rs) ss op = ground (arith, lists-append rs ss op)

find_op-lists :
    (op : String) (routes : List RouteSpec) (r : RouteSpec)
    → find_op op routes ≡ some r
    → lists routes op ≡ true
unfolding find_op
find_op-lists op [] r e = absurd cc
find_op-lists op (s ∷ routes) r e = elim (Bool-cases (s.op == op)) [
  | inl hit ↦ simp hit
  | inr miss ↦ simp miss (find_op-lists op routes r (simp miss at e))
]

find_gated-lists :
    (op state : String) (ops : List Gated) (g : Gated)
    → find_gated op ops ≡ some g
    → is_open state g ≡ true
    → lists (open_ops state ops) op ≡ true
unfolding find_gated open_ops
find_gated-lists op state [] g e o = absurd cc
find_gated-lists op state (h ∷ ops) g e o = elim (Bool-cases (h.spec.op == op)) [
  | inl hit ↦
      let q : h ≡ g = (let p = simp hit at e in cc) in
      let o' : is_open state h ≡ true = ap (λ (x : Gated). is_open state x) q ∙ o in simp (o', hit)
  | inr miss ↦
      let rest = find_gated-lists op state ops g (simp miss at e) o in
      elim (Bool-cases (is_open state h)) [
        | inl opened ↦ simp (opened, miss) rest
        | inr closed ↦ simp closed rest
      ]
]

-- Every operation that is granted to an agent in a state is among the routes that are listed for
-- its skills in that state.
pub resolve_op-lists :
    (valid_skills skills : List String) (state op : String) (r : RouteSpec)
    → resolve_op valid_skills skills state op ≡ granted r
    → lists (routes_for skills state) op ≡ true
unfolding resolve_op routes_for
resolve_op-lists valid_skills skills state op r e =
    elim (Option-cases (find_gated op lifecycle_ops)) [
      | inr (g, found) ↦ elim (Bool-cases (is_open state g)) [
        | inl opened ↦ ground (
          arith,
          lists-append (capability_ops_for skills) (open_ops state lifecycle_ops) op,
          find_gated-lists op state lifecycle_ops g found opened,
        )
        | inr closed ↦ absurd (let p = simp (found, closed, resolve_op) at e in cc)
      ]
      | inl plain ↦ elim (Option-cases (find_op op (capability_ops_for skills))) [
        | inr (s, found) ↦ ground (
          arith,
          lists-append (capability_ops_for skills) (open_ops state lifecycle_ops) op,
          find_op-lists op (capability_ops_for skills) s found,
        )
        | inl missing ↦ elim (Bool-cases (contains valid_skills op || op == "chat")) [
          | inl valid ↦ absurd (let p = simp (plain, missing, valid, resolve_op) at e in cc)
          | inr other ↦ absurd (let p = simp (plain, missing, other, resolve_op) at e in cc)
        ]
      ]
    ]

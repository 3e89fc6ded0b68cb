-- ===== src/Organizations/Walk.antt =====
-- The walk up to the lead (`_assert_path_reaches_lead`, src/mutiai/domain/organization.py).
use muti_ai.Prelude.{
  ℕ, zero, suc, ◌≤◌, ◌<◌, String, ◌≡◌, ◌≢◌, refl, sym, ap, ◌∙◌, subst, Bool, true, false, not, some,
  some-injective, List, [], ◌∷◌, Result, ok, err, arith, ◌==◌, string_eq, find?-fits, filter, elem,
  length, All, All-map, Bool-cases, Option-cases, inl, inr,
}
use muti_ai.Organizations.{AgentRoleSpec, OrganizationError, role_of, walk}

-- A stored role stands under its own key.
pub role_of-role_key :
    (k : String) (roles : List AgentRoleSpec) (r : AgentRoleSpec)
    → role_of k roles ≡ some r
    → (r.role_key ≡ k) × (role_of r.role_key roles ≡ some r)
role_of-role_key k roles r found =
    let fits = find?-fits (λ x. x.role_key == k) roles r found in
    let same : r.role_key ≡ k = ground arith in (same, ap (λ x. role_of x roles) same ∙ found)

-- An end that is no answer of the code: a missing key of a dict, or no fuel.
abbrev pub is_internal : OrganizationError → Bool
is_internal (OrganizationError.key_error _) = true
is_internal OrganizationError.out_of_fuel = true
is_internal _ = false

abbrev pub internal {ℓ} : {A : Type ℓ} → Result OrganizationError A → Bool
internal (ok _) = false
internal (err e) = is_internal e

-- The roles whose key is not among the visited ones.
abbrev pub unvisited : List String → List AgentRoleSpec → List AgentRoleSpec
unvisited visited roles = filter (λ r. not (elem r.role_key visited)) roles

unvisited-le :
    (k : String) (visited : List String) (roles : List AgentRoleSpec)
    → length (unvisited (k ∷ visited) roles) ≤ length (unvisited visited roles)
unvisited-le k visited [] = omega arith
unvisited-le k visited (r ∷ roles) = ground (arith, unvisited-le k visited roles)

-- Visiting a new key of a role leaves fewer.
unvisited-lt :
    (k : String) (visited : List String) (roles : List AgentRoleSpec) (r : AgentRoleSpec)
    → role_of k roles ≡ some r
    → elem k visited ≡ false
    → length (unvisited (k ∷ visited) roles) < length (unvisited visited roles)
unvisited-lt k visited [] r found new_ = cc
unvisited-lt k visited (x ∷ roles) r found new_ =
    ground (arith, unvisited-lt k visited roles r, unvisited-le k visited roles)

pub unvisited-all : (roles : List AgentRoleSpec) → length (unvisited [] roles) ≡ length roles
unvisited-all [] = refl
unvisited-all (r ∷ roles) = ap suc (unvisited-all roles)

module _ (roles : List AgentRoleSpec) (lead_key : String) where
  -- The role is the lead, or it is under the lead by `n` steps of `reports_to`.
  abbrev pub Reaches : ℕ → AgentRoleSpec → Type 0
  Reaches zero r = r.role_key ≡ lead_key
  Reaches (suc n) r =
      (r.role_key ≢ lead_key)
      × (k : String) × (r.reports_to ≡ some k)
      × (p : AgentRoleSpec) × (role_of k roles ≡ some p)
      × Reaches n p

  -- There is one way up.
  pub Reaches-unique : (m n : ℕ) (r : AgentRoleSpec) → Reaches m r → Reaches n r → m ≡ n
  Reaches-unique zero zero r h h' = refl
  Reaches-unique zero (suc n) r h h' = absurd (h'.0 h)
  Reaches-unique (suc m) zero r h h' = absurd (h.0 h')
  Reaches-unique (suc m) (suc n) r (_, k, up, p, found, h) (_, k', up', p', found', h') =
      let same : k ≡ k' = some-injective k k' (sym up ∙ up') in
      let parent : p ≡ p' =
        some-injective p p' (sym found ∙ ap (λ x. role_of x roles) same ∙ found') in
      ap suc (Reaches-unique m n p' (subst (Reaches m) parent h) h')

  -- The walk ends: with more fuel than roles that are left, it never runs out.
  pub internal-walk :
      (fuel : ℕ) (start : AgentRoleSpec) (visited : List String) (current : AgentRoleSpec)
      → role_of current.role_key roles ≡ some current
      → length (unvisited visited roles) < fuel
      → internal (walk roles lead_key fuel start visited current) ≡ false
  unfolding walk
  internal-walk zero start visited current stored enough = absurd (ground arith)
  internal-walk (suc fuel) start visited current stored enough =
      elim (Bool-cases (current.role_key == lead_key)) [
        | inl top ↦ rw top refl
        | inr below ↦ rw below (elim (Bool-cases (elem current.role_key visited)) [
          | inl seen ↦ rw seen refl
          | inr unseen ↦ rw unseen (elim (Option-cases current.reports_to) [
            | inr alone ↦ rw alone refl
            | inl (k, up) ↦ rw up (elim (Option-cases (role_of k roles)) [
              | inr missing ↦ rw missing refl
              | inl (p, found) ↦ rw found (
                  internal-walk fuel start (current.role_key ∷ visited) p
                    (role_of-role_key k roles p found).1
                    (omega (
                      arith,
                      enough,
                      unvisited-lt current.role_key visited roles current stored unseen,
                    )))
            ])
          ])
        ])
      ]

  -- A walk that succeeds has reached the lead.
  pub walk-Reaches :
      (fuel : ℕ) (start : AgentRoleSpec) (visited : List String) (current : AgentRoleSpec)
      → walk roles lead_key fuel start visited current ≡ ok tt
      → (n : ℕ) × Reaches n current
  unfolding walk
  walk-Reaches zero start visited current h = cc
  walk-Reaches (suc fuel) start visited current h =
      elim (Bool-cases (current.role_key == lead_key)) [
        | inl top ↦ (zero, ground arith)
        | inr below ↦ elim (Bool-cases (elem current.role_key visited)) [
          | inl seen ↦ absurd (ground arith)
          | inr unseen ↦ elim (Option-cases current.reports_to) [
            | inr alone ↦ absurd (ground arith)
            | inl (k, up) ↦ elim (Option-cases (role_of k roles)) [
              | inr missing ↦ absurd (ground arith)
              | inl (p, found) ↦
                  let (n, rest) =
                    walk-Reaches fuel start (current.role_key ∷ visited) p
                      (rw found at (rw up at (rw unseen at (rw below at h)))) in
                  (suc n, (ground arith, k, up, p, found, rest))
            ]
          ]
        ]
      ]

  -- A role that the walk has left behind, further from the lead than the current one.
  abbrev Behind : ℕ → String → Type 0
  Behind n v = (r : AgentRoleSpec) × (role_of v roles ≡ some r) × (m : ℕ) × Reaches m r × (n < m)

  Behind-elem :
      (n : ℕ) (current : AgentRoleSpec) (visited : List String)
      → Reaches n current
      → role_of current.role_key roles ≡ some current
      → All (Behind n) visited
      → elem current.role_key visited ≡ false
  Behind-elem n current [] h stored behind = refl
  Behind-elem n current (v ∷ visited) h stored ((r, at_, m, reach, lt), behind) =
      elim (Bool-cases (v == current.role_key)) [
        | inl same ↦
            let key : v ≡ current.role_key = ground arith in
            let this : r ≡ current =
              some-injective r current (sym at_ ∙ ap (λ x. role_of x roles) key ∙ stored) in
            absurd (omega (arith, lt, Reaches-unique m n current (subst (Reaches m) this reach) h))
        | inr other ↦ rw other (Behind-elem n current visited h stored behind)
      ]

  -- From a role under the lead the walk succeeds, if it has fuel and has come from below.
  pub Reaches-walk :
      (n fuel : ℕ) (start : AgentRoleSpec) (visited : List String) (current : AgentRoleSpec)
      → Reaches n current
      → role_of current.role_key roles ≡ some current
      → All (Behind n) visited
      → length (unvisited visited roles) < fuel
      → walk roles lead_key fuel start visited current ≡ ok tt
  unfolding walk
  Reaches-walk n zero start visited current h stored behind enough = absurd (ground arith)
  Reaches-walk zero (suc fuel) start visited current h stored behind enough =
      let top : (current.role_key == lead_key) ≡ true = ground arith in rw top refl
  Reaches-walk (suc n) (suc fuel) start visited current h stored behind enough =
      let (apart, k, up, p, found, rest) = h in
      let below : (current.role_key == lead_key) ≡ false = ground arith in
      let unseen : elem current.role_key visited ≡ false =
        Behind-elem (suc n) current visited h stored behind in
      rw (below, unseen, up, found)
        (Reaches-walk n fuel start (current.role_key ∷ visited) p rest
          (role_of-role_key k roles p found).1
          (
            (current, stored, suc n, h, omega arith),
            All-map (Behind (suc n)) (Behind n) visited
                (λ v (r, at_, m, reach, lt). (r, at_, m, reach, omega arith)) behind,
          )
          (omega
            (arith, enough, unvisited-lt current.role_key visited roles current stored unseen)))

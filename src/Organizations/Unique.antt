-- ===== src/Organizations/Unique.antt =====
-- The dict of roles by their keys (`_unique_roles`, src/mutiai/domain/organization.py).
use muti_ai.Prelude.{
  append-snoc, append-nil, String, ◌≡◌, refl, sym, ap, ◌∙◌, Bool, true, false, not, ◌&&◌, ◌||◌,
  some, List, [], ◌∷◌, ◌++◌, ok, arith, ◌==◌, string_eq, is_some, elem, all, map, All,
}
use muti_ai.Feasibility.{all_unique}
use muti_ai.Keys.{unique-Found, found-elem}
use muti_ai.Organizations.{AgentRoleSpec, role_of, unique_roles}

abbrev pub keys : List AgentRoleSpec → List String
keys roles = map (λ r. r.role_key) roles

role_of-elem :
    (k : String) (roles : List AgentRoleSpec) → is_some (role_of k roles) ≡ elem k (keys roles)
role_of-elem k roles = found-elem (λ r. r.role_key) k roles

-- No key of `roles` is among those of `before`.
abbrev pub apart : (before roles : List AgentRoleSpec) → Bool
apart before roles = all (λ r. not (elem r.role_key (keys before))) roles

elem-snoc :
    (k : String) (before : List AgentRoleSpec) (r : AgentRoleSpec)
    → elem k (keys (before ++ r ∷ [])) ≡ (elem k (keys before) || r.role_key == k)
elem-snoc k [] r = ground arith
elem-snoc k (x ∷ before) r = ground (arith, elem-snoc k before r)

apart-snoc :
    (before roles : List AgentRoleSpec) (r : AgentRoleSpec)
    → apart (before ++ r ∷ []) roles ≡ (apart before roles && not (elem r.role_key (keys roles)))
apart-snoc before [] r = refl
apart-snoc before (x ∷ roles) r =
    ground (arith, apart-snoc before roles r, elem-snoc x.role_key before r)

pub unique_roles-ok :
    (roles before d : List AgentRoleSpec)
    → unique_roles roles before ≡ ok d
    → (d ≡ before ++ roles) × (all_unique (keys roles) ≡ true) × (apart before roles ≡ true)
unfolding unique_roles all_unique
unique_roles-ok [] before d h =
    let e : before ≡ d = cc in (sym e ∙ sym (append-nil before), refl, refl)
unique_roles-ok (r ∷ roles) before d h =
    let fresh : elem r.role_key (keys before) ≡ false =
      ground (arith, role_of-elem r.role_key before) in
    let (same, distinct, off) =
      unique_roles-ok roles (before ++ r ∷ []) d (ground (arith, role_of-elem r.role_key before)) in
    (
      same ∙ append-snoc before r roles,
      ground (arith, apart-snoc before roles r),
      ground (arith, apart-snoc before roles r),
    )

pub unique_roles-accepts :
    (roles before : List AgentRoleSpec)
    → all_unique (keys roles) ≡ true
    → apart before roles ≡ true
    → unique_roles roles before ≡ ok (before ++ roles)
unfolding unique_roles all_unique
unique_roles-accepts [] before u a = ap ok (sym (append-nil before))
unique_roles-accepts (r ∷ roles) before u a =
    let fresh : is_some (role_of r.role_key before) ≡ false =
      ground (arith, role_of-elem r.role_key before) in
    rw fresh (
      unique_roles-accepts roles (before ++ r ∷ []) (ground arith)
        (ground (arith, apart-snoc before roles r))
      ∙ ap ok (append-snoc before r roles))

-- The role stands in the dict under its key.
abbrev pub Stored : List AgentRoleSpec → AgentRoleSpec → Type 0
Stored roles r = role_of r.role_key roles ≡ some r

pub unique-Stored :
    (roles : List AgentRoleSpec) → all_unique (keys roles) ≡ true → All (Stored roles) roles
unique-Stored roles u = unique-Found (λ r. r.role_key) roles u

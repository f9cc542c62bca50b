-- ===== src/Auth/Settings/Roles.antt =====
-- The roles that splitRoles returns.
use on_call_agent.Base.{
  contains, all_differ, ◌≡◌, refl, true, not, ◌&&◌, List, [], ◌∷◌, arith, map, Text, is_empty,
  trim_space, split, nat_eq, list_eq, list_beq_iff,
}
use on_call_agent.Auth.Settings.{roles_from, split_roles}

contains-roles_from :
    (role : Text) (seen parts : List Text)
    → contains role (roles_from seen parts)
      ≡ (not (is_empty role) && not (contains role seen) && contains role (map trim_space parts))
unfolding roles_from
contains-roles_from role seen [] = ground arith
contains-roles_from role seen (part ∷ parts) = ground (
  arith,
  list_beq_iff (trim_space part) role,
  contains-roles_from role seen parts,
  contains-roles_from role (trim_space part ∷ seen) parts,
)

roles_from-differ : (seen parts : List Text) → all_differ (roles_from seen parts) ≡ true
unfolding roles_from
roles_from-differ seen [] = refl
roles_from-differ seen (part ∷ parts) = ground (
  arith,
  list_beq_iff (trim_space part) (trim_space part),
  roles_from-differ seen parts,
  roles_from-differ (trim_space part ∷ seen) parts,
  contains-roles_from (trim_space part) (trim_space part ∷ seen) parts,
)

-- splitRoles returns each trimmed piece between the commas that is not empty, and nothing else, and
-- returns no role twice.
split_roles_lem :
    (raw role : Text)
    → (contains role (split_roles raw)
        ≡ (not (is_empty role) && contains role (map trim_space (split b',' raw))))
      × (all_differ (split_roles raw) ≡ true)
unfolding split_roles
split_roles_lem raw role = (
  ground (arith, contains-roles_from role [] (split b',' raw)),
  roles_from-differ [] (split b',' raw),
)

-- ===== src/Organizations/Access.antt =====
-- What `authorize` decides, and what `assign_membership` may change.
use mathlib.Core.Option
use payroll_management_syste.Prelude.{
  ℕ, ◌≡◌, refl, subst, ◌↔◌, ◌⊎◌, inl, inr, Bool, true, false, ◌&&◌, Option, none, some, List, [],
  ◌∷◌, ◌++◌, arith, ◌==◌, Bool-cases, Option-cases, any, find, update_where, Elem, find-Elem,
  Elem-any, find_sound,
}
use payroll_management_syste.Organizations.{
  ok, sync_role_groups, update_or_create, granted, created, payroll_operator, employee, auditor,
  client, organization_manage, role_actions, administrator, assign_membership, Directory,
  OrganizationRole, User, permits, check_membership, membership_for, is_of, ActionName, authorize,
  OrganizationMembership,
}
use payroll_management_syste.Outcome.{>>=-eq-ok, >>=-const}

-- A user has one membership of an organization at most (`unique_user_organization`).
abbrev pub IsUnique : List OrganizationMembership → Type 0
IsUnique [] = Unit
IsUnique (m ∷ ms) = (any (is_of m.user m.organization) ms ≡ false) × IsUnique ms

-- An active membership of the organization whose role has the action.
abbrev pub HasAction : List OrganizationMembership → ℕ → ℕ → ActionName → Type 0
HasAction ms user organization action =
    (m : OrganizationMembership) × Elem m ms
    × (m.user ≡ user)
    × (m.organization ≡ organization)
    × (m.is_active ≡ true)
    × (permits m.role action ≡ true)

abbrev is_member : ℕ → ℕ → OrganizationMembership → Bool
is_member user organization m = is_of user organization m && m.is_active

find_unique :
    (ms : List OrganizationMembership) (m : OrganizationMembership)
    → IsUnique ms
    → Elem m ms
    → m.is_active ≡ true
    → find (is_member m.user m.organization) ms ≡ some m
find_unique [] m unique e active = elim e [ ]
find_unique (x ∷ xs) m unique (inl e) active = rw (← e, active) (ground arith)
find_unique (x ∷ xs) m unique (inr e) active =
    ground
      (arith, Elem-any (is_of x.user x.organization) xs m e, find_unique xs m unique.1 e active)

authorize_inversion :
    (ms : List OrganizationMembership) (user : User) (organization : ℕ) (action : ActionName)
    (r : Option OrganizationMembership)
    → authorize ms user organization (some action) ≡ ok r
    → (user.is_superuser ≡ true)
      ⊎ ((user.is_authenticated ≡ true)
          × (m : OrganizationMembership) × (find (is_member user.pk organization) ms ≡ some m)
          × (permits m.role action ≡ true))
unfolding authorize membership_for check_membership
authorize_inversion ms user organization action r e =
    elim (Option-cases (find (is_member user.pk organization) ms)) [
      | inl absent ↦ ground arith
      | inr (m, found) ↦ elim (Bool-cases user.is_superuser) [
        | inl super ↦ inl super
        | inr plain ↦ inr (ground arith, m, found, ground arith)
      ]
    ]

authorize_granted :
    (ms : List OrganizationMembership) (user : User) (organization : ℕ) (action : ActionName)
    (m : OrganizationMembership)
    → user.is_superuser ≡ false
    → user.is_authenticated ≡ true
    → find (is_member user.pk organization) ms ≡ some m
    → permits m.role action ≡ true
    → authorize ms user organization (some action) ≡ ok (some m)
unfolding authorize membership_for check_membership
authorize_granted ms user organization action m plain login found has = ground arith

-- An action of an organization is allowed to superusers, and of the others to exactly those
-- authenticated users that have an active membership of that organization whose role has the
-- action, if no user has two memberships of an organization.
pub authorize_iff :
    (ms : List OrganizationMembership) (user : User) (organization : ℕ) (action : ActionName)
    → IsUnique ms
    → ((r : Option OrganizationMembership) × (authorize ms user organization (some action) ≡ ok r))
      ↔ ((user.is_superuser ≡ true)
          ⊎ ((user.is_authenticated ≡ true) × HasAction ms user.pk organization action))
authorize_iff ms user organization action unique = (forth, back)
  where
    forth :
        (r : Option OrganizationMembership) × (authorize ms user organization (some action) ≡ ok r)
        → (user.is_superuser ≡ true)
          ⊎ ((user.is_authenticated ≡ true) × HasAction ms user.pk organization action)
    forth (r, e) = elim (authorize_inversion ms user organization action r e) [
      | inl super ↦ inl super
      | inr (login, m, found, has) ↦
          let sound = find_sound (is_member user.pk organization) ms m found in
          inr (
            login,
            (
              m,
              find-Elem (is_member user.pk organization) ms m found,
              ground arith,
              ground arith,
              ground arith,
              has,
            ),
          )
    ]

    back :
        (user.is_superuser ≡ true)
          ⊎ ((user.is_authenticated ≡ true) × HasAction ms user.pk organization action)
        → (r : Option OrganizationMembership) × (authorize ms user organization (some action)
            ≡ ok r)
    back (inl super) = (none, unfold authorize in ground arith)
    back (inr (login, (m, e, mine, here, active, has))) = elim (Bool-cases user.is_superuser) [
      | inl super ↦ (none, unfold authorize in ground arith)
      | inr plain ↦ (
        some m,
        authorize_granted ms user organization action m plain login
            (subst (λ o. find (is_member user.pk o) ms ≡ some m) here
              (subst (λ u. find (is_member u m.organization) ms ≡ some m) mine
                (find_unique ms m unique e active)))
            has,
      )
    ]

only_administrator :
    (r : OrganizationRole) → permits r organization_manage ≡ true → r ≡ administrator
unfolding permits role_actions
only_administrator administrator h = refl
only_administrator payroll_operator h = cc
only_administrator employee h = cc
only_administrator auditor h = cc
only_administrator client h = cc

-- A user's membership that `find` sees after an assignment.
pub found_role : List OrganizationMembership → ℕ → ℕ → Option OrganizationRole
found_role ms u o = Option.map (λ m. m.role) (find (is_member u o) ms)

module _ (user organization : ℕ) (role : OrganizationRole) where
  found_updated :
      (ms : List OrganizationMembership)
      → any (is_of user organization) ms ≡ true
      → found_role (update_where (is_of user organization) (granted role) ms) user organization
        ≡ some role
  unfolding found_role
  found_updated [] h = cc
  found_updated (m ∷ ms) h = ground (arith, found_updated ms)

  found_created :
      (ms : List OrganizationMembership)
      → any (is_of user organization) ms ≡ false
      → found_role (ms ++ created user organization role ∷ []) user organization ≡ some role
  unfolding found_role
  found_created [] h = ground arith
  found_created (m ∷ ms) h = ground (arith, found_created ms)

  module _ (u o : ℕ) (other : (u == user && o == organization) ≡ false) where
    kept_updated :
        (ms : List OrganizationMembership)
        → found_role (update_where (is_of user organization) (granted role) ms) u o
          ≡ found_role ms u o
    unfolding found_role
    kept_updated [] = refl
    kept_updated (m ∷ ms) = ground (arith, other, kept_updated ms)

    kept_created :
        (ms : List OrganizationMembership)
        → found_role (ms ++ created user organization role ∷ []) u o ≡ found_role ms u o
    unfolding found_role
    kept_created [] = ground (arith, other)
    kept_created (m ∷ ms) = ground (arith, other, kept_created ms)

-- Only a superuser or an active administrator of the organization assigns a role in it.
pub assign_membership_by_administrator :
    (actor : User) (user organization : ℕ) (role : OrganizationRole) (d d' : Directory)
    → assign_membership actor user organization role d ≡ ok d'
    → (actor.is_superuser ≡ true)
      ⊎ ((m : OrganizationMembership) × Elem m d.memberships
          × (m.user ≡ actor.pk)
          × (m.organization ≡ organization)
          × (m.is_active ≡ true)
          × (m.role ≡ administrator))
unfolding assign_membership
assign_membership_by_administrator actor user organization role d d' e =
    let (r, allowed, _) =
      >>=-eq-ok (authorize d.memberships actor organization (some organization_manage))
        (λ _. ok (update_or_create user organization role d)) e in
    elim (authorize_inversion d.memberships actor organization organization_manage r allowed) [
      | inl super ↦ inl super
      | inr (login, m, found, has) ↦
          let test = is_member actor.pk organization in
          let sound = find_sound test d.memberships m found in
          inr (
            m,
            find-Elem test d.memberships m found,
            ground arith,
            ground arith,
            ground arith,
            only_administrator m.role has,
          )
    ]

-- After an assignment the user has the role in the organization, and no membership of another user
-- or organization has changed.
assign_membership_effect :
    (actor : User) (user organization : ℕ) (role : OrganizationRole) (d d' : Directory)
    → assign_membership actor user organization role d ≡ ok d'
    → (found_role d'.memberships user organization ≡ some role)
      × ((u o : ℕ)
          → (u == user && o == organization) ≡ false
          → found_role d'.memberships u o ≡ found_role d.memberships u o)
unfolding assign_membership update_or_create sync_role_groups
assign_membership_effect actor user organization role d d' e =
    let same =
      >>=-const (authorize d.memberships actor organization (some organization_manage))
        (update_or_create user organization role d) d' e in
    rw (← same) (elim (Bool-cases (any (is_of user organization) d.memberships)) [
      | inl old ↦ rw old (
        found_updated user organization role d.memberships old,
        λ u o other. kept_updated user organization role u o other d.memberships,
      )
      | inr new ↦ rw new (
        found_created user organization role d.memberships new,
        λ u o other. kept_created user organization role u o other d.memberships,
      )
    ])

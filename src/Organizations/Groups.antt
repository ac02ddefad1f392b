-- ===== src/Organizations/Groups.antt =====
-- `_sync_role_groups` keeps django's role groups in step with the memberships.
use payroll_management_syste.Prelude.{
  subst, inr, inl, Bool-cases, ℕ, ◌≡◌, refl, Bool, false, not, ◌&&◌, List, [], ◌∷◌, ◌++◌, any,
  select, map, update_where, ◌==◌, if◌then◌else◌, any-append, sym, ◌∙◌, arith,
}
use payroll_management_syste.Outcome.{>>=-const, ok}
use payroll_management_syste.Organizations.{
  organization_manage, some, authorize, created, User, update_or_create, delete_membership,
  assign_membership, OrganizationRole, OrganizationMembership, Directory, is_of, granted,
  sync_role_groups,
}

module _ (u : ℕ) (wanted : OrganizationRole → Bool) where
  -- The user is in the group of a wanted role.
  abbrev has_group : List (ℕ × OrganizationRole) → Bool
  has_group = any (λ g. g.0 == u && wanted g.1)

  -- The user has an active membership with a wanted role, in some organization.
  abbrev holds_role : List OrganizationMembership → Bool
  holds_role = any (λ m. m.user == u && m.is_active && wanted m.role)

  has_group-removed :
      (user : ℕ) (gs : List (ℕ × OrganizationRole))
      → has_group (select (λ g. not (g.0 == user)) gs) ≡ (if u == user then false else has_group gs)
  has_group-removed user [] = ground arith
  has_group-removed user ((v, s) ∷ gs) = ground (arith, has_group-removed user gs)

  has_group-added :
      (user : ℕ) (ms : List OrganizationMembership)
      → has_group (map (λ m. (user, m.role)) (select (λ m. m.user == user && m.is_active) ms))
        ≡ (if u == user then holds_role ms else false)
  has_group-added user [] = ground arith
  has_group-added user (m ∷ ms) = ground (arith, has_group-added user ms)

  -- The synchronisation sets the groups of that user and of no other.
  has_group-sync :
      (user : ℕ) (d : Directory)
      → has_group (sync_role_groups user d).groups
        ≡ (if u == user then holds_role d.memberships else has_group d.groups)
  unfolding sync_role_groups
  has_group-sync user d =
      rw
        (
          any-append (λ (g : ℕ × OrganizationRole). g.0 == u && wanted g.1)
              (select (λ g. not (g.0 == user)) d.groups)
              (map (λ m. (user, m.role))
                (select (λ m. m.user == user && m.is_active) d.memberships)),
          has_group-removed user d.groups,
          has_group-added user d.memberships,
        )
        (ground arith)

  holds_role-other :
      (user organization : ℕ) (role : OrganizationRole) (ms : List OrganizationMembership)
      → (u == user) ≡ false
      → holds_role (update_where (is_of user organization) (granted role) ms) ≡ holds_role ms
  holds_role-other user organization role [] h = refl
  holds_role-other user organization role (m ∷ ms) h =
      ground (arith, holds_role-other user organization role ms h)

  holds_role-deleted :
      (user organization : ℕ) (ms : List OrganizationMembership)
      → (u == user) ≡ false
      → holds_role (select (λ m. not (is_of user organization m)) ms) ≡ holds_role ms
  holds_role-deleted user organization [] h = refl
  holds_role-deleted user organization (m ∷ ms) h =
      ground (arith, holds_role-deleted user organization ms h)

  holds_role-created :
      (user organization : ℕ) (role : OrganizationRole) (ms : List OrganizationMembership)
      → (u == user) ≡ false
      → holds_role (ms ++ created user organization role ∷ []) ≡ holds_role ms
  holds_role-created user organization role [] h = ground arith
  holds_role-created user organization role (m ∷ ms) h =
      ground (arith, holds_role-created user organization role ms h)

-- Every user is in the groups of exactly the roles of the active memberships.
abbrev IsSynced : Directory → Type 0
IsSynced d =
    (u : ℕ) (wanted : OrganizationRole → Bool)
    → has_group u wanted d.groups ≡ holds_role u wanted d.memberships

sync-memberships :
    (user : ℕ) (d : Directory) → (sync_role_groups user d).memberships ≡ d.memberships
unfolding sync_role_groups
sync-memberships user d = refl

-- If only memberships of the user have changed, synchronising that user is enough.
sync-IsSynced :
    (user : ℕ) (d : Directory) (ms : List OrganizationMembership)
    → IsSynced d
    → ((u : ℕ) (wanted : OrganizationRole → Bool)
        → (u == user) ≡ false
        → holds_role u wanted ms ≡ holds_role u wanted d.memberships)
    → IsSynced (sync_role_groups user (record d { memberships = ms }))
sync-IsSynced user d ms synced same u wanted =
    let d' : Directory = record d { memberships = ms } in
    rw (sync-memberships user d', has_group-sync u wanted user d')
      (elim (Bool-cases (u == user)) [
        | inl self ↦ rw self
        | inr other ↦ rw other (synced u wanted ∙ sym (same u wanted other))
      ])

update_or_create-IsSynced :
    (user organization : ℕ) (role : OrganizationRole) (d : Directory)
    → IsSynced d
    → IsSynced (update_or_create user organization role d)
unfolding update_or_create
update_or_create-IsSynced user organization role d synced =
    elim (Bool-cases (any (is_of user organization) d.memberships)) [
      | inl old ↦ rw old (
          sync-IsSynced user d (update_where (is_of user organization) (granted role) d.memberships)
            synced (λ u wanted. holds_role-other u wanted user organization role d.memberships))
      | inr new ↦ rw new (
          sync-IsSynced user d (d.memberships ++ created user organization role ∷ []) synced
            (λ u wanted. holds_role-created u wanted user organization role d.memberships))
    ]

-- Whatever role an administrator assigns, every user stays in the groups of exactly the roles of
-- the active memberships.
assign_membership-IsSynced :
    (actor : User) (organization user : ℕ) (role : OrganizationRole) (d d' : Directory)
    → IsSynced d
    → assign_membership actor user organization role d ≡ ok d'
    → IsSynced d'
unfolding assign_membership
assign_membership-IsSynced actor organization user role d d' synced e =
    subst IsSynced
      (>>=-const (authorize d.memberships actor organization (some organization_manage)) _ _ e)
      (update_or_create-IsSynced user organization role d synced)

-- Deleting a membership keeps every user in the groups of exactly the roles of the active
-- memberships.
delete_membership-IsSynced :
    (user organization : ℕ) (d : Directory)
    → IsSynced d
    → IsSynced (delete_membership user organization d)
unfolding delete_membership
delete_membership-IsSynced user organization d synced =
    sync-IsSynced user d (select (λ m. not (is_of user organization m)) d.memberships) synced
      (λ u wanted. holds_role-deleted u wanted user organization d.memberships)

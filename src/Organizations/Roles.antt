-- ===== src/Organizations/Roles.antt =====
-- apps/organizations: the roles of a membership and the actions that `ROLE_ACTIONS` gives to each.
use payroll_management_syste.Prelude.{ℕ, Bool, List, [], ◌∷◌, any, ◌==◌}

-- `OrganizationRole`
pub data OrganizationRole : Type 0 where
  administrator payroll_operator employee auditor client : OrganizationRole

abbrev pub role_code : OrganizationRole → ℕ
role_code administrator = 0
role_code payroll_operator = 1
role_code employee = 2
role_code auditor = 3
role_code client = 4

abbrev pub role_eq : OrganizationRole → OrganizationRole → Bool
role_eq a b = role_code a == role_code b

-- The action texts, as "payroll.read" for `payroll_read`.
pub data ActionName : Type 0 where
  organization_manage employee_read employee_write client_read client_write payroll_read :
      ActionName
  payroll_read_own payroll_write payroll_delete audit_read audit_annotate audit_export : ActionName
  document_read document_read_sensitive document_write document_manage_retention : ActionName
  document_export document_redact compensation_approve compensation_apply : ActionName
  compensation_read finance_read finance_forecast analytics_read risk_read risk_manage : ActionName

abbrev pub action_code : ActionName → ℕ
action_code organization_manage = 0
action_code employee_read = 1
action_code employee_write = 2
action_code client_read = 3
action_code client_write = 4
action_code payroll_read = 5
action_code payroll_read_own = 6
action_code payroll_write = 7
action_code payroll_delete = 8
action_code audit_read = 9
action_code audit_annotate = 10
action_code audit_export = 11
action_code document_read = 12
action_code document_read_sensitive = 13
action_code document_write = 14
action_code document_manage_retention = 15
action_code document_export = 16
action_code document_redact = 17
action_code compensation_approve = 18
action_code compensation_apply = 19
action_code compensation_read = 20
action_code finance_read = 21
action_code finance_forecast = 22
action_code analytics_read = 23
action_code risk_read = 24
action_code risk_manage = 25

-- `ROLE_ACTIONS`
unfoldable pub role_actions : OrganizationRole → List ActionName
role_actions administrator =
    organization_manage ∷ employee_read ∷ employee_write ∷ client_read ∷ client_write ∷ payroll_read
    ∷ payroll_write ∷ payroll_delete ∷ audit_read ∷ audit_annotate ∷ audit_export ∷ document_read
    ∷ document_read_sensitive ∷ document_write ∷ document_manage_retention ∷ document_export
    ∷ document_redact ∷ compensation_approve ∷ compensation_apply ∷ compensation_read ∷ finance_read
    ∷ finance_forecast ∷ analytics_read ∷ risk_read ∷ risk_manage ∷ []
role_actions payroll_operator =
    employee_read ∷ employee_write ∷ client_read ∷ payroll_read ∷ payroll_write ∷ finance_read
    ∷ analytics_read ∷ document_read ∷ document_read_sensitive ∷ document_write ∷ []
role_actions employee =
    payroll_read ∷ payroll_read_own ∷ finance_read ∷ analytics_read ∷ document_read ∷ []
role_actions auditor =
    employee_read ∷ payroll_read ∷ audit_read ∷ audit_annotate ∷ finance_read ∷ analytics_read
    ∷ risk_read ∷ audit_export ∷ document_read ∷ document_read_sensitive ∷ document_export ∷ []
role_actions client = payroll_read ∷ audit_read ∷ finance_read ∷ analytics_read ∷ document_read ∷ []

-- `action in ROLE_ACTIONS[role]`
unfoldable pub permits : OrganizationRole → ActionName → Bool
permits role action = any (λ a. action_code a == action_code action) (role_actions role)

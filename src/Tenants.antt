-- ===== src/Tenants.antt =====
-- The tenants' table (`TenantTable` in src/kachu_plus/persistence/tables.py) and its access by
-- `get_tenant`, `list_active_tenants` and `save_tenant` of repository.py.
use kachu_v.Prelude.{Bool, List, Option, String, filter, ℕ}
use kachu_v.Table.{Row, get_row, put_row}

pub record Tenant : Type 0 where
  pub id : String
  pub name : String
  pub industry_type : String
  pub address : String
  pub timezone : String
  pub plan : String
  pub plan_expires_at : Option ℕ
  pub merchant_slug : String
  pub is_active : Bool
  pub sleep_threshold : ℕ
  pub quiet_hours_start : Option ℕ
  pub quiet_hours_end : Option ℕ
  pub created_at : ℕ
  pub updated_at : ℕ

instance abbrev pub tenant_row : Row Tenant
tenant_row = record { id_of = λ t. t.id }

unfoldable pub get_tenant : String → List Tenant → Option Tenant
get_tenant id table = get_row id table

unfoldable pub list_active_tenants : List Tenant → List Tenant
list_active_tenants table = filter (λ t. t.is_active) table

unfoldable pub save_tenant : ℕ → Tenant → List Tenant → List Tenant
save_tenant now t table = put_row (record t { updated_at = now }) table

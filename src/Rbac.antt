-- ===== src/Rbac.antt =====
-- The role and permission matrix, src/lib/rbac-matrix.ts. A permission key `module:action` is kept
-- as the pair that it is printed from, and a set of keys as its membership test.
use achichiz_back_end.Prelude.{Bool, List, [], any, false, true, ◌++◌, ◌∷◌}

pub data Role : Type 0 where
  super_admin operations_manager catalogue_manager order_manager warehouse_manager : Role
  customer_support_executive corporate_sales_manager finance_manager marketing_manager : Role
  content_manager read_only_analyst : Role

pub data ModuleKey : Type 0 where
  dashboard orders catalogue inventory customers corporate delivery promotions : ModuleKey
  content reports settings finance : ModuleKey

pub data Action : Type 0 where
  view create edit delete_ export_ approve refund cancel manage_settings : Action

-- `ALL`, `RW` and `RO`.
abbrev pub all_actions : List Action
all_actions =
    view ∷ create ∷ edit ∷ delete_ ∷ export_ ∷ approve ∷ refund ∷ cancel ∷ manage_settings ∷ []

abbrev pub rw_ : List Action
rw_ = view ∷ create ∷ edit ∷ export_ ∷ []

abbrev pub ro : List Action
ro = view ∷ export_ ∷ []

-- `permissionMatrix[role]?.[module] ?? []`.
unfoldable pub permission_matrix : Role → ModuleKey → List Action
permission_matrix super_admin _ = all_actions
permission_matrix operations_manager orders = rw_ ++ (cancel ∷ approve ∷ [])
permission_matrix operations_manager catalogue = rw_
permission_matrix operations_manager inventory = rw_
permission_matrix operations_manager customers = rw_
permission_matrix operations_manager delivery = rw_
permission_matrix operations_manager _ = ro
permission_matrix catalogue_manager dashboard = ro
permission_matrix catalogue_manager catalogue = rw_ ++ (delete_ ∷ [])
permission_matrix catalogue_manager inventory = ro
permission_matrix catalogue_manager reports = ro
permission_matrix catalogue_manager content = ro
permission_matrix catalogue_manager _ = []
permission_matrix order_manager dashboard = ro
permission_matrix order_manager orders = rw_ ++ (cancel ∷ [])
permission_matrix order_manager customers = ro
permission_matrix order_manager delivery = rw_
permission_matrix order_manager inventory = ro
permission_matrix order_manager reports = ro
permission_matrix order_manager _ = []
permission_matrix warehouse_manager dashboard = ro
permission_matrix warehouse_manager orders = view ∷ edit ∷ []
permission_matrix warehouse_manager inventory = rw_ ++ (delete_ ∷ [])
permission_matrix warehouse_manager delivery = rw_
permission_matrix warehouse_manager reports = ro
permission_matrix warehouse_manager _ = []
permission_matrix customer_support_executive dashboard = ro
permission_matrix customer_support_executive orders = view ∷ edit ∷ []
permission_matrix customer_support_executive customers = rw_
permission_matrix customer_support_executive delivery = ro
permission_matrix customer_support_executive content = ro
permission_matrix customer_support_executive _ = []
permission_matrix corporate_sales_manager dashboard = ro
permission_matrix corporate_sales_manager corporate = rw_ ++ (approve ∷ [])
permission_matrix corporate_sales_manager customers = ro
permission_matrix corporate_sales_manager orders = ro
permission_matrix corporate_sales_manager reports = ro
permission_matrix corporate_sales_manager _ = []
permission_matrix finance_manager dashboard = ro
permission_matrix finance_manager orders = view ∷ refund ∷ cancel ∷ export_ ∷ []
permission_matrix finance_manager finance = all_actions
permission_matrix finance_manager reports = ro
permission_matrix finance_manager corporate = view ∷ approve ∷ export_ ∷ []
permission_matrix finance_manager settings = view ∷ manage_settings ∷ []
permission_matrix finance_manager _ = []
permission_matrix marketing_manager dashboard = ro
permission_matrix marketing_manager promotions = rw_ ++ (delete_ ∷ approve ∷ [])
permission_matrix marketing_manager customers = ro
permission_matrix marketing_manager content = rw_
permission_matrix marketing_manager reports = ro
permission_matrix marketing_manager _ = []
permission_matrix content_manager dashboard = ro
permission_matrix content_manager content = rw_ ++ (delete_ ∷ [])
permission_matrix content_manager catalogue = ro
permission_matrix content_manager reports = ro
permission_matrix content_manager _ = []
permission_matrix read_only_analyst _ = ro

abbrev pub same_action : Action → Action → Bool
same_action view view = true
same_action create create = true
same_action edit edit = true
same_action delete_ delete_ = true
same_action export_ export_ = true
same_action approve approve = true
same_action refund refund = true
same_action cancel cancel = true
same_action manage_settings manage_settings = true
same_action _ _ = false

-- `permissions.has(permissionKey(module, action))`.
abbrev pub Permissions : Type 0
Permissions = ModuleKey → Action → Bool

-- `new Set(permissionsForRole(role))`.
unfoldable pub permissions_for_role : Role → Permissions
unfolding permission_matrix
permissions_for_role role key action = any (same_action action) (permission_matrix role key)

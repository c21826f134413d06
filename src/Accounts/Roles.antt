-- ===== src/Accounts/Roles.antt =====
-- apps/api/src/common/guards/roles.guard.ts. `roles` are those that the decorators of the handler, or
-- else of its class, name.
use pay_era.Prelude.{
  Bool, true, false, Option, none, some, List, [], ◌∷◌, Result, ok, err, forbidden, if◌then◌else◌,
  any,
}
use pay_era.Accounts.Store.{UserRole, Principal}

abbrev pub same_role : UserRole → UserRole → Bool
same_role UserRole.consumer UserRole.consumer = true
same_role UserRole.merchant_operator UserRole.merchant_operator = true
same_role UserRole.brand_operator UserRole.brand_operator = true
same_role UserRole.admin UserRole.admin = true
same_role _ _ = false

unfoldable pub can_activate : List UserRole → Option Principal → Result Bool
can_activate [] user = ok true
can_activate (role ∷ roles) none = err (forbidden "Insufficient role for this operation")
can_activate (role ∷ roles) (some p) =
    if any (λ r. same_role r p.role) (role ∷ roles)
    then ok true
    else err (forbidden "Insufficient role for this operation")

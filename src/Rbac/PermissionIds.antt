-- ===== src/Rbac/PermissionIds.antt =====
-- packages/rbac/src/permissions.ts: the ids of the permissions. A dot in an id is written as `_`.
use twenty_four.Prelude.{ℕ, zero, suc, ◌≡◌, refl, ◌↔◌, true, List, [], ◌∷◌, nat_eq}
use twenty_four.Prelude.Equality.{Eq, eq_ℕ, eq_String, by_index}

pub data PermissionId : Type 0 where
  catalog_view catalog_edit pos_sell pos_discount pos_void pos_refund pos_close_day bookings_view
        bookings_manage bookings_cancel inventory_view inventory_adjust staff_view staff_manage
        staff_roles payments_view payments_refund documents_view documents_correct
        reports_operational reports_financial marketing_view marketing_manage settings_business
        settings_tax settings_billing :
      PermissionId

abbrev pub all_permission_ids : List PermissionId
all_permission_ids =
    catalog_view ∷ catalog_edit ∷ pos_sell ∷ pos_discount ∷ pos_void ∷ pos_refund ∷ pos_close_day
    ∷ bookings_view ∷ bookings_manage ∷ bookings_cancel ∷ inventory_view ∷ inventory_adjust
    ∷ staff_view ∷ staff_manage ∷ staff_roles ∷ payments_view ∷ payments_refund ∷ documents_view
    ∷ documents_correct ∷ reports_operational ∷ reports_financial ∷ marketing_view
    ∷ marketing_manage ∷ settings_business ∷ settings_tax ∷ settings_billing ∷ []

-- The place in the list above.
abbrev pub permission_id_index : PermissionId → ℕ
permission_id_index catalog_view = 0
permission_id_index catalog_edit = 1
permission_id_index pos_sell = 2
permission_id_index pos_discount = 3
permission_id_index pos_void = 4
permission_id_index pos_refund = 5
permission_id_index pos_close_day = 6
permission_id_index bookings_view = 7
permission_id_index bookings_manage = 8
permission_id_index bookings_cancel = 9
permission_id_index inventory_view = 10
permission_id_index inventory_adjust = 11
permission_id_index staff_view = 12
permission_id_index staff_manage = 13
permission_id_index staff_roles = 14
permission_id_index payments_view = 15
permission_id_index payments_refund = 16
permission_id_index documents_view = 17
permission_id_index documents_correct = 18
permission_id_index reports_operational = 19
permission_id_index reports_financial = 20
permission_id_index marketing_view = 21
permission_id_index marketing_manage = 22
permission_id_index settings_business = 23
permission_id_index settings_tax = 24
permission_id_index settings_billing = 25

abbrev permission_id_of_index : ℕ → PermissionId
permission_id_of_index zero = catalog_view
permission_id_of_index (suc zero) = catalog_edit
permission_id_of_index (suc (suc zero)) = pos_sell
permission_id_of_index (suc (suc (suc zero))) = pos_discount
permission_id_of_index (suc (suc (suc (suc zero)))) = pos_void
permission_id_of_index (suc (suc (suc (suc (suc zero))))) = pos_refund
permission_id_of_index (suc (suc (suc (suc (suc (suc zero)))))) = pos_close_day
permission_id_of_index (suc (suc (suc (suc (suc (suc (suc zero))))))) = bookings_view
permission_id_of_index (suc (suc (suc (suc (suc (suc (suc (suc zero)))))))) = bookings_manage
permission_id_of_index (suc (suc (suc (suc (suc (suc (suc (suc (suc zero))))))))) = bookings_cancel
permission_id_of_index (suc (suc (suc (suc (suc (suc (suc (suc (suc (suc zero)))))))))) =
    inventory_view
permission_id_of_index (suc (suc (suc (suc (suc (suc (suc (suc (suc (suc (suc zero))))))))))) =
    inventory_adjust
permission_id_of_index
      (suc (suc (suc (suc (suc (suc (suc (suc (suc (suc (suc (suc zero)))))))))))) =
    staff_view
permission_id_of_index
      (suc (suc (suc (suc (suc (suc (suc (suc (suc (suc (suc (suc (suc zero))))))))))))) =
    staff_manage
permission_id_of_index
      (suc (suc (suc (suc (suc (suc (suc (suc (suc (suc (suc (suc (suc (suc zero)))))))))))))) =
    staff_roles
permission_id_of_index
      (suc
        (suc (suc (suc (suc (suc (suc (suc (suc (suc (suc (suc (suc (suc (suc zero))))))))))))))) =
    payments_view
permission_id_of_index
      (suc (
        suc (
          suc
            (suc (suc (suc (suc (suc (suc (suc (suc (suc (suc (suc (suc (suc zero)))))))))))))))) =
    payments_refund
permission_id_of_index
      (suc (
        suc (
          suc (
            suc (
              suc
                (suc (suc (suc (suc (suc (suc (suc (suc (suc (suc (suc (suc zero))))))))))))))))) =
    documents_view
permission_id_of_index
      (suc (
        suc (
          suc (
            suc (
              suc (
                suc (
                  suc
                    (suc (suc (suc (suc (suc (suc (suc (suc (suc (suc (suc zero)))))))))))))))))) =
    documents_correct
permission_id_of_index
      (suc (
        suc (
          suc (
            suc (
              suc (
                suc (
                  suc (
                    suc (
                      suc
                        (suc (suc (suc (suc (suc (suc (suc (suc (suc (suc zero))))))))))))))))))) =
    reports_operational
permission_id_of_index
      (suc (
        suc (
          suc (
            suc (
              suc (
                suc (
                  suc (
                    suc (
                      suc (
                        suc (
                          suc
                            (suc (suc (suc (suc (suc (suc (suc (suc (suc zero)))))))))))))))))))) =
    reports_financial
permission_id_of_index
      (suc (
        suc (
          suc (
            suc (
              suc (
                suc (
                  suc (
                    suc (
                      suc (
                        suc (
                          suc (
                            suc (
                              suc
                                (suc (suc (suc (suc (suc (suc (suc (suc zero))))))))))))))))))))) =
    marketing_view
permission_id_of_index
      (suc (
        suc (
          suc (
            suc (
              suc (
                suc (
                  suc (
                    suc (
                      suc (
                        suc (
                          suc (
                            suc (
                              suc (
                                suc (
                                  suc
                                    (suc (suc (suc (suc (suc (suc (suc zero)))))))))))))))))))))) =
    marketing_manage
permission_id_of_index
      (suc (
        suc (
          suc (
            suc (
              suc (
                suc (
                  suc (
                    suc (
                      suc (
                        suc (
                          suc (
                            suc (
                              suc (
                                suc (
                                  suc (
                                    suc (
                                      suc
                                        (suc (suc (suc (suc (suc (suc zero))))))))))))))))))))))) =
    settings_business
permission_id_of_index
      (suc (
        suc (
          suc (
            suc (
              suc (
                suc (
                  suc (
                    suc (
                      suc (
                        suc (
                          suc (
                            suc (
                              suc (
                                suc (
                                  suc (
                                    suc (
                                      suc (
                                        suc (
                                          suc
                                            (suc (suc (suc (suc (suc zero)))))))))))))))))))))))) =
    settings_tax
permission_id_of_index _ = settings_billing

permission_id_of_index-index :
    (x : PermissionId) → permission_id_of_index (permission_id_index x) ≡ x
permission_id_of_index-index catalog_view = refl
permission_id_of_index-index catalog_edit = refl
permission_id_of_index-index pos_sell = refl
permission_id_of_index-index pos_discount = refl
permission_id_of_index-index pos_void = refl
permission_id_of_index-index pos_refund = refl
permission_id_of_index-index pos_close_day = refl
permission_id_of_index-index bookings_view = refl
permission_id_of_index-index bookings_manage = refl
permission_id_of_index-index bookings_cancel = refl
permission_id_of_index-index inventory_view = refl
permission_id_of_index-index inventory_adjust = refl
permission_id_of_index-index staff_view = refl
permission_id_of_index-index staff_manage = refl
permission_id_of_index-index staff_roles = refl
permission_id_of_index-index payments_view = refl
permission_id_of_index-index payments_refund = refl
permission_id_of_index-index documents_view = refl
permission_id_of_index-index documents_correct = refl
permission_id_of_index-index reports_operational = refl
permission_id_of_index-index reports_financial = refl
permission_id_of_index-index marketing_view = refl
permission_id_of_index-index marketing_manage = refl
permission_id_of_index-index settings_business = refl
permission_id_of_index-index settings_tax = refl
permission_id_of_index-index settings_billing = refl

pub permission_id_eq_iff :
    (a b : PermissionId) → (nat_eq (permission_id_index a) (permission_id_index b) ≡ true) ↔ (a ≡ b)
permission_id_eq_iff =
    by_index permission_id_index permission_id_of_index permission_id_of_index-index

instance abbrev pub eq_PermissionId : Eq PermissionId
eq_PermissionId = record {
  test = λ a b. nat_eq (permission_id_index a) (permission_id_index b);
  agrees = λ a. (permission_id_eq_iff a a).1 refl;
  sound = λ a b. (permission_id_eq_iff a b).0;
}

-- ===== src/Interaction/Audit/Consistent.antt =====
-- The table and the code agree on which records there may be.
use line_message_playground.Prelude.{◌≡◌, arith}
use line_message_playground.Interaction.Types.{InteractionAuditRecord}
use line_message_playground.Interaction.Audit.{valid_audit_combination, result_consistent}

-- The table's constraint accepts exactly the records that the code accepts.
pub result_consistent-valid :
    (r : InteractionAuditRecord) → result_consistent r ≡ valid_audit_combination r
unfolding result_consistent valid_audit_combination
result_consistent-valid r = ground arith

-- ===== src/Vouching/Tests.antt =====
-- The theorems on vouches at concrete tables.
use step_fi_api.Common.{refl, [], ◌∷◌, none, arith, final}
use step_fi_api.Vouching.{VouchRow, approved, revoked, new_row, with_status, request_vouch}
use step_fi_api.Vouching.Rows.{IsExclusive}
use step_fi_api.Vouching.Exclusive.{empty, requested, Reachable-IsExclusive}
use step_fi_api.Vouching.Lifecycle.{working}

abbrev asked : VouchRow
asked = new_row "v1" "GM" "GL" none 5

abbrev granted : VouchRow
granted = with_status approved asked

abbrev ended : VouchRow
ended = with_status revoked asked

Reachable-IsExclusive_example : IsExclusive (final (request_vouch working "v1" 5 "GL" "GM" none []))
Reachable-IsExclusive_example =
    Reachable-IsExclusive (requested working "v1" 5 "GL" "GM" none empty)

granted_IsExclusive : IsExclusive (granted ∷ [])
granted_IsExclusive = ((refl, tt), λ m l. ground arith)

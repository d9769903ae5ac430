-- ===== src/Core/Errors/Laws.antt =====
-- The code range of server errors, and the codes of peers that speak an earlier revision.
use longhaul.Base.{refl, ℕ, ◌≤◌, ◌≡◌, ◌≢◌, ◌↔◌, true, arith}
use longhaul.Base.Int.{ℤ, pos, negsuc}
use longhaul.Core.Errors.{invalid_params, pre_rc_invalid_params, is_server_error, normalize_code}

-- A code is a server error exactly when it is -(n + 1) for an n from 31999 to 32098, that is from
-- -32099 to -32000 with both ends.
pub is_server_error_iff :
    (code : ℤ)
    → (is_server_error code ≡ true) ↔ ((n : ℕ) × (code ≡ negsuc n) × (31999 ≤ n) × (n ≤ 32098))
unfolding is_server_error
is_server_error_iff (pos n) = (λ h. cc, λ h. cc h.1)
is_server_error_iff (negsuc n) =
    (λ h. (n, ground arith, ground arith, ground arith), λ h. ground arith)

-- After normalising, the retired code is gone: no code normalises to it, normalising again
-- changes nothing, and a code other than the retired one is left alone.
pub normalize_code_lem :
    (code : ℤ)
    → (normalize_code code ≢ pre_rc_invalid_params)
      × (normalize_code (normalize_code code) ≡ normalize_code code)
      × (code ≢ pre_rc_invalid_params → normalize_code code ≡ code)
      × (code ≡ pre_rc_invalid_params → normalize_code code ≡ invalid_params)
unfolding normalize_code
normalize_code_lem (pos n) = (λ h. cc, refl, λ h. refl, λ h. cc)
normalize_code_lem (negsuc n) = (ground arith, ground arith, λ h. ground arith, λ h. ground arith)

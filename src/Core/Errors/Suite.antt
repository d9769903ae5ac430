-- ===== src/Core/Errors/Suite.antt =====
-- longhaul-core/src/error.rs, the module `tests`, but for the test that prints JSON: each test says
-- whether all its assertions hold.
use longhaul.Base.{ℕ, ◌-◌, ◌≡◌, refl, Bool, true, not, ◌&&◌}
use longhaul.Base.Int.{ℤ, negsuc, eq_ℤ}
use longhaul.Core.Errors.{
  parse_error, invalid_request, method_not_found, invalid_params, internal_error,
  pre_rc_invalid_params, is_server_error, normalize_code,
}

-- -n, for an n from one on
abbrev minus : ℕ → ℤ
minus n = negsuc (n - 1)

unfoldable standard_code_values_are_pinned : Bool
standard_code_values_are_pinned =
    eq_ℤ parse_error (minus 32700)
    && eq_ℤ invalid_request (minus 32600)
    && eq_ℤ method_not_found (minus 32601)
    && eq_ℤ invalid_params (minus 32602)
    && eq_ℤ internal_error (minus 32603)
    && eq_ℤ pre_rc_invalid_params (minus 32002)

unfoldable pre_rc_invalid_params_normalizes_to_32602 : Bool
unfolding normalize_code
pre_rc_invalid_params_normalizes_to_32602 =
    eq_ℤ (normalize_code pre_rc_invalid_params) invalid_params
    && eq_ℤ (normalize_code invalid_params) invalid_params
    && eq_ℤ (normalize_code parse_error) parse_error
    && eq_ℤ (normalize_code (minus 32001)) (minus 32001)

unfoldable server_error_range_is_inclusive : Bool
unfolding is_server_error
server_error_range_is_inclusive =
    is_server_error (minus 32000)
    && is_server_error (minus 32099)
    && is_server_error pre_rc_invalid_params
    && not (is_server_error (minus 32100))
    && not (is_server_error invalid_params)

tests_pass :
    (standard_code_values_are_pinned ≡ true)
    × (pre_rc_invalid_params_normalizes_to_32602 ≡ true)
    × (server_error_range_is_inclusive ≡ true)
unfolding standard_code_values_are_pinned pre_rc_invalid_params_normalizes_to_32602
    server_error_range_is_inclusive
tests_pass = (refl, refl, refl)

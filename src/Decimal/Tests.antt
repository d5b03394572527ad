-- ===== src/Decimal/Tests.antt =====
-- Small numbers.
use c_http.Prelude.{◌≡◌, refl, [], ◌∷◌}
use c_http.Decimal.{decimal}

decimal_405 : decimal 405 ≡ 52 ∷ 48 ∷ 53 ∷ []
unfolding decimal
decimal_405 = refl
